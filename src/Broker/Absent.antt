-- ===== src/Broker/Absent.antt =====
-- `Publish` for the persistent sessions whose clients are away.
use gott.Common.{
  ℕ, true, false, List, [], ◌∷◌, Bytes, ◌==◌, split, split-nonempty, min, ◌≡◌, subst, ◌∙◌, inl, inr,
  Bool-cases,
}
use mathlib.Core.List.{Memᴰ}
use gott.Types.{Subscription, PublishFlags}
use gott.Topic.Filter.{valid_topic_name}
use gott.Topic.Level.{topic_delim, Level}
use gott.Topic.Storage
use gott.Topic.Paths.{Covers, subs_at}
use gott.Topic.Delivery.{StorageOk, deliver, deliver-match_iff}
use gott.Broker.{World, live_client}
use gott.Broker.Publish.{publish_to, publish_each, publish_levels, publish, to_retain}
use gott.Broker.Reach.{publish_to-live, publish_levels-deliver}
use gott.Broker.Stores.{
  Absent, Kept, Grows, Grows-refl, Grows-trans, publish_to-Grows, publish_to-Kept,
}

Grows-Kept :
    (w v : World) (id topic payload : Bytes)
    → Grows w v
    → Kept id topic payload w.events
    → Kept id topic payload v.events
Grows-Kept w v id topic payload g k = record {
  messages = k.messages;
  saving = g.events _ k.saving;
  packet_id = k.packet_id;
  message = k.message;
  held = k.held;
  same_topic = k.same_topic;
  same_payload = k.same_payload;
}

module _ (topic payload : Bytes) (flags : PublishFlags) where
  publish_each-Grows :
      (subs : List Subscription) (w : World) → Grows w (publish_each topic payload flags subs w)
  unfolding publish_each
  publish_each-Grows [] w = Grows-refl w
  publish_each-Grows (sub ∷ subs) w =
      let v = publish_to topic payload flags sub w in
      Grows-trans w v _ (publish_to-Grows topic payload flags sub w) (publish_each-Grows subs v)

  publish_to-Absent :
      (sub : Subscription) (w : World) (s : ℕ)
      → Absent w s
      → Absent (publish_to topic payload flags sub w) s
  publish_to-Absent sub w s a = record {
    away = publish_to-live topic payload flags sub w s ∙ a.away;
    lasting = (publish_to-Grows topic payload flags sub w).clean s ∙ a.lasting;
  }

  publish_each-Kept :
      (subs : List Subscription) (w : World) (sub : Subscription)
      → Memᴰ sub subs
      → Absent w sub.session
      → (min sub.qos flags.qos == 0) ≡ false
      → Kept
          (w.sessions sub.session).id
          topic
          payload
          (publish_each topic payload flags subs w).events
  unfolding publish_each
  publish_each-Kept [] w sub m a q = elim m [ ]
  publish_each-Kept (first ∷ subs) w sub (Memᴰ.head e) a q =
      let v = publish_to topic payload flags first w in
      Grows-Kept v _ _ _ _ (publish_each-Grows subs v) (
        subst
          (λ (s : Subscription).
            Kept (w.sessions sub.session).id topic payload
              (publish_to topic payload flags s w).events)
          e (publish_to-Kept topic payload flags sub w a q))
  publish_each-Kept (first ∷ subs) w sub (Memᴰ.tail m) a q =
      let v = publish_to topic payload flags first w in
      subst (λ id. Kept id topic payload (publish_each topic payload flags subs v).events)
        ((publish_to-Grows topic payload flags first w).id sub.session)
        (publish_each-Kept subs v sub m (publish_to-Absent first w sub.session a) q)

  matched-Kept :
      (ls : List Level) (w : World) (sub : Subscription)
      → Memᴰ sub (deliver ls)
      → Absent w sub.session
      → (min sub.qos flags.qos == 0) ≡ false
      → Kept
          (w.sessions sub.session).id
          topic
          payload
          (publish_levels topic payload flags ls w).events
  matched-Kept ls w sub m a q =
      rw (publish_levels-deliver topic payload flags ls w)
        (publish_each-Kept (deliver ls) w sub m a q)

  -- On a well-formed tree, a publication above QoS 0 on a valid topic name that a subscription above
  -- QoS 0 covers, whose session is persistent and has no connected client, stands in the store of that
  -- session when `SessionStore.set` is called with the session. Whether `set` succeeds is not said:
  -- its error is discarded.
  pub publish-Kept :
      (now : ℕ) (w : World) (p : List Bytes) (sub : Subscription)
      → StorageOk w.storage
      → valid_topic_name topic ≡ true
      → Covers p (split topic topic_delim)
      → Memᴰ sub (subs_at p w.storage.filters)
      → Absent w sub.session
      → (min sub.qos flags.qos == 0) ≡ false
      → Kept (w.sessions sub.session).id topic payload (publish topic payload flags now w).1.events
  unfolding publish live_client Storage.match
  publish-Kept now w p sub ok v covers m a q =
      let d =
        (deliver-match_iff w.storage (split topic topic_delim) sub ok
            (split-nonempty topic topic_delim)).1
          (p, covers, m) in
      rw v (elim (Bool-cases flags.retain) [
        | inl r ↦
            let w' = record w {
              storage = Storage.retain (to_retain topic payload flags now) topic w.storage;
            } in
            rw r (
              matched-Kept (Storage.match w.storage topic) w' sub d
                (record { away = a.away; lasting = a.lasting }) q)
        | inr r ↦ rw r (matched-Kept (Storage.match w.storage topic) w sub d a q)
      ])
