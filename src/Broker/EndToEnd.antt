-- ===== src/Broker/EndToEnd.antt =====
-- A subscription and a publication, one after the other.
use gott.Common.{
  ℕ, true, List, [], ◌∷◌, some, Bytes, split, split-nonempty, ◌≡◌, refl, ◌∙◌, inl, inr, ◌≢◌,
  Bool-cases,
}
use mathlib.Core.List.{Memᴰ}
use gott.Types.{Subscription, PublishFlags}
use gott.Topic.Filter.{valid_filter, valid_topic_name}
use gott.Topic.Level.{topic_delim}
use gott.Topic.Paths.{Covers, Matches, subs_at}
use gott.Topic.Delivery.{StorageOk}
use gott.Topic.Valid.{valid_filter-MultiLast}
use gott.Topic.Insert.{touches, subs_at-subscribe}
use gott.Broker.{World, live_client}
use gott.Broker.Publish.{publish}
use gott.Broker.Subscribe.{subscribe}
use gott.Broker.Reach.{Sent}
use gott.Broker.Delivers.{Reaches, publish-Sent_iff}
use gott.Broker.Subscribed.{
  Subscribed, subscribe-Subscribed, subscribe_refused, create_or_update-Memᴰ, Matches-Covers,
  tree_with,
}

-- `Subscribe` on a well-formed tree never panics: it goes on exactly with a valid filter, and leaves
-- the tree well formed.
pub subscribe-StorageOk :
    (client : ℕ) (filter : Bytes) (qos : ℕ) (w : World)
    → StorageOk w.storage
    → (w' : World) × (subscribe client filter qos w ≡ some (valid_filter filter, w'))
      × StorageOk w'.storage
subscribe-StorageOk client filter qos w ok = elim (Bool-cases (valid_filter filter)) [
  | inl v ↦
      let (w', s) = subscribe-Subscribed client filter qos w ok v in
      rw v (w', s.returns, s.well_formed)
  | inr v ↦ rw v (w, subscribe_refused client filter qos w v, ok)
]

-- Where the subscription of a client stands after `Subscribe`.
Subscribed-Reaches :
    (client : ℕ) (filter : Bytes) (qos : ℕ) (w w' : World) (p t : List Bytes)
    → Subscribed client filter qos w w'
    → valid_filter filter ≡ true
    → live_client w (w.clients client).session ≡ some client
    → t ≢ []
    → touches p (split filter topic_delim) ≡ true
    → Covers p t
    → Reaches w' t client
Subscribed-Reaches client filter qos w w' [] [] s v live ne h k = absurd (ne refl)
Subscribed-Reaches client filter qos w w' [] (c ∷ t) s v live ne h k = elim k [ ]
Subscribed-Reaches client filter qos w w' (a ∷ q) t s v live ne h k =
    let c = w.clients client in
    let sub : Subscription = record { session = c.session; qos = qos } in
    let placed =
      subs_at-subscribe w.sessions c.client_id c.session qos (split filter topic_delim) w.storage a
        q (valid_filter-MultiLast filter v) in
    let there : Memᴰ sub (subs_at (a ∷ q) (tree_with client filter qos w).filters) =
      rw (placed, h)
        (create_or_update-Memᴰ w.sessions c.client_id c.session qos
          (subs_at (a ∷ q) w.storage.filters)) in
    (a ∷ q, sub, k, rw s.storage there, s.live c.session ∙ live)

-- On a well-formed tree, a connected client that its session points at, and that subscribes to a
-- valid filter, is sent a packet by the next publication on any valid topic name that the filter
-- matches.
pub subscribe-publish :
    (client : ℕ) (filter topic payload : Bytes) (qos now : ℕ) (flags : PublishFlags) (w : World)
    → StorageOk w.storage
    → valid_filter filter ≡ true
    → valid_topic_name topic ≡ true
    → Matches (split filter topic_delim) (split topic topic_delim)
    → live_client w (w.clients client).session ≡ some client
    → (w' : World) × (subscribe client filter qos w ≡ some (true, w'))
      × Sent client (publish topic payload flags now (record w' { events = [] })).1.events
unfolding live_client
subscribe-publish client filter topic payload qos now flags w ok v n m live =
    let (w', s) = subscribe-Subscribed client filter qos w ok v in
    let (p, h, k) = Matches-Covers _ _ m in
    let r =
      Subscribed-Reaches client filter qos w w' p _ s v live (split-nonempty topic topic_delim) h
        k in
    (
      w',
      s.returns,
      (publish-Sent_iff topic payload flags now (record w' { events = [] }) client s.well_formed
            n).1
          (inr r),
    )
