-- ===== src/Broker/Delivers.antt =====
-- `Publish` against the paths of the topic tree.
use gott.Common.{
  ℕ, true, List, some, Bytes, split, split-nonempty, ◌≡◌, ◌⊎◌, inl, inr, ◌↔◌, Bool-cases, iff_trans,
}
use mathlib.Core.List.{Memᴰ}
use gott.Types.{Subscription, PublishFlags}
use gott.Topic.Filter.{valid_topic_name}
use gott.Topic.Level.{topic_delim, Level}
use gott.Topic.Storage
use gott.Topic.Storage.{match_segs}
use gott.Topic.Paths.{Covers, subs_at}
use gott.Topic.Delivery.{StorageOk, deliver, deliver-match_iff}
use gott.Broker.{World, live_client}
use gott.Broker.Publish.{publish, publish_levels, to_retain}
use gott.Broker.Reach.{Sent, publish_each-Sent, publish_levels-deliver}

-- Some subscription of the client stands where a publication on the topic reaches it.
abbrev pub Reaches : World → List Bytes → ℕ → Type 0
Reaches w segs c =
    (p : List Bytes) × (sub : Subscription) × Covers p segs
    × Memᴰ sub (subs_at p w.storage.filters)
    × (live_client w sub.session ≡ some c)

module _ (topic payload : Bytes) (flags : PublishFlags) where
  levels-Sent :
      (ls : List Level) (w : World) (c : ℕ)
      → Sent c (publish_levels topic payload flags ls w).events ↔ (
          Sent c w.events
          ⊎ ((sub : Subscription) × Memᴰ sub (deliver ls) × (live_client w sub.session ≡ some c)))
  levels-Sent ls w c =
      rw (publish_levels-deliver topic payload flags ls w)
        (publish_each-Sent topic payload flags (deliver ls) w c)

  matched :
      (w : World) (c : ℕ)
      → StorageOk w.storage
      → (Sent c w.events
          ⊎ ((sub : Subscription) × Memᴰ sub (deliver (Storage.match w.storage topic))
              × (live_client w sub.session ≡ some c)))
        ↔ (Sent c w.events ⊎ Reaches w (split topic topic_delim) c)
  unfolding Storage.match
  matched w c ok =
      let met = λ (s : Subscription).
        deliver-match_iff w.storage (split topic topic_delim) s ok
          (split-nonempty topic topic_delim) in
      (
        λ h. elim h [
          | inl old ↦ inl old
          | inr (s, m, e) ↦ let (p, k, i) = (met s).0 m in inr (p, s, k, i, e)
        ],
        λ h. elim h [ inl old ↦ inl old | inr (p, s, k, i, e) ↦ inr (s, (met s).1 (p, k, i), e) ],
      )

  -- On a well-formed tree, after `Publish` on a valid topic name a packet for a client is among the
  -- events exactly when one was before, or when the client is connected and one of its sessions'
  -- subscriptions stands at a path of levels that covers the topic.
  pub publish-Sent_iff :
      (now : ℕ) (w : World) (c : ℕ)
      → StorageOk w.storage
      → valid_topic_name topic ≡ true
      → Sent c (publish topic payload flags now w).1.events
        ↔ (Sent c w.events ⊎ Reaches w (split topic topic_delim) c)
  unfolding publish live_client
  publish-Sent_iff now w c ok v = rw v (elim (Bool-cases flags.retain) [
    | inl r ↦
        let w' = record w {
          storage = Storage.retain (to_retain topic payload flags now) topic w.storage;
        } in
        rw r (iff_trans (levels-Sent (Storage.match w.storage topic) w' c) (matched w c ok))
    | inr r ↦ rw r (iff_trans (levels-Sent (Storage.match w.storage topic) w c) (matched w c ok))
  ])
