-- ===== src/Broker/WellFormed.antt =====
-- Every operation of the broker keeps the topic tree well formed.
use gott.Common.{
  ℕ, Bool, true, not, ◌&&◌, List, [], ◌∷◌, Option, none, some, Bytes, split, ◌≡◌, refl, sym, subst,
  ◌∙◌, inl, inr, Bool-cases, Option-cases, ◌==◌,
}
use gott.Types.{Subscription, Message, PublishFlags}
use gott.Types.{Status}
use gott.Session.{ClientMessage, MessageStore}
use gott.Session.Store.{sorted_entries}
use gott.Topic.Filter.{valid_filter, valid_topic_name}
use gott.Topic.Level.{topic_delim, Level}
use gott.Topic.Storage
use gott.Topic.Storage.{TopicStorage, retain, retain_segs, refused}
use gott.Topic.Delivery.{StorageOk, deliver}
use gott.Topic.WellFormed.{retain_segs-StorageOk}
use gott.Topic.Valid.{valid_topic_name-Plain}
use gott.Topic.Alike.{Alike-StorageOk, delete_all-Alike, traverse_delete-Alike}
use gott.Broker.{World, live_client, store_message}
use gott.Broker.Publish.{
  publish, publish_each, publish_to, publish_levels, publish_to_client, hand_over, message_for,
  to_retain, is_unacknowledged,
}
use gott.Broker.Subscribe.{unsubscribe, unsubscribe_all, is_clean}
use gott.Broker.Clients.{add_client, close_connection, close_existing}
use gott.Broker.Replay.{acknowledge, replay, replay_each}
use gott.Broker.Reach.{publish_levels-deliver}

abbrev pub TreeOk : World → Type 0
TreeOk w = StorageOk w.storage

-- `unsubscribe` and `unsubscribe_all` only remove subscriptions.
pub unsubscribe-StorageOk :
    (client : ℕ) (filter : Bytes) (w : World) → TreeOk w → TreeOk (unsubscribe client filter w).1
unfolding unsubscribe
unsubscribe-StorageOk client filter w ok = elim (Bool-cases (valid_filter filter)) [
  | inl v ↦ rw v (
      Alike-StorageOk w.storage _
        (traverse_delete-Alike (w.clients client).client_id (is_clean w client)
          (split filter topic_delim) w.sessions w.storage.filters)
        ok)
  | inr v ↦ rw v ok
]

pub unsubscribe_all-StorageOk :
    (client : ℕ) (w : World) → TreeOk w → TreeOk (unsubscribe_all client w).1
unfolding unsubscribe_all
unsubscribe_all-StorageOk client w ok =
    Alike-StorageOk w.storage _ (delete_all-Alike _ _ _ w.sessions w.storage.filters) ok

store_message-storage :
    (session packet_id m : ℕ) (w : World)
    → (store_message session packet_id m w).storage ≡ w.storage
unfolding store_message
store_message-storage session packet_id m w = elim (Bool-cases (w.sessions session).clean) [
  | inl e ↦ rw e refl
  | inr e ↦ rw e refl
]

hand_over-storage :
    (packet : Bytes) (packet_id msg qos session : ℕ) (o : Option ℕ) (w : World)
    → (hand_over packet packet_id msg qos session o w).storage ≡ w.storage
unfolding hand_over
hand_over-storage packet i m q s (some c) w = elim (Bool-cases (q == 0)) [
  | inl e ↦ rw e refl
  | inr e ↦ rw e refl
]
hand_over-storage packet i m q s none w =
    elim (Bool-cases (not (w.sessions s).clean && not (q == 0))) [
      | inl e ↦ rw e (store_message-storage s i m w)
      | inr e ↦ rw e refl
    ]

message_for-storage :
    (qos : ℕ) (m : ClientMessage) (w : World) → (message_for qos m w).1.storage ≡ w.storage
unfolding message_for
message_for-storage qos m w = elim (Bool-cases (qos == 0)) [ inl e ↦ rw e refl | inr e ↦ rw e refl ]

retain-StorageOk :
    (msg : Option Message) (topic : Bytes) (ts : TopicStorage)
    → valid_topic_name topic ≡ true
    → StorageOk ts
    → StorageOk (retain msg topic ts)
unfolding retain
retain-StorageOk msg topic ts v ok = elim (Bool-cases (refused msg)) [
  | inl e ↦ rw e ok
  | inr e ↦
      rw e
        (retain_segs-StorageOk msg (split topic topic_delim) ts (valid_topic_name-Plain topic v) ok)
]

module _ (topic payload : Bytes) (flags : PublishFlags) where
  publish_to-storage :
      (sub : Subscription) (w : World) → (publish_to topic payload flags sub w).storage ≡ w.storage
  unfolding publish_to
  publish_to-storage sub w =
      hand_over-storage _ _ _ _ _ (live_client w sub.session) _ ∙ message_for-storage _ _ _

  publish_each-storage :
      (subs : List Subscription) (w : World)
      → (publish_each topic payload flags subs w).storage ≡ w.storage
  unfolding publish_each
  publish_each-storage [] w = refl
  publish_each-storage (sub ∷ subs) w =
      publish_each-storage subs (publish_to topic payload flags sub w) ∙ publish_to-storage sub w

  publish_levels-storage :
      (ls : List Level) (w : World) → (publish_levels topic payload flags ls w).storage ≡ w.storage
  publish_levels-storage ls w =
      rw (publish_levels-deliver topic payload flags ls w) (publish_each-storage (deliver ls) w)

  -- `Publish` keeps the tree well formed, whatever it retains.
  pub publish-StorageOk :
      (now : ℕ) (w : World) → TreeOk w → TreeOk (publish topic payload flags now w).1
  unfolding publish
  publish-StorageOk now w ok =
      let matches = Storage.match w.storage topic in
      elim (Bool-cases (valid_topic_name topic)) [
        | inr v ↦ rw v ok
        | inl v ↦ elim (Bool-cases flags.retain) [
          | inl r ↦
              let ts = retain (to_retain topic payload flags now) topic w.storage in
              rw (v, r)
                (subst StorageOk (sym (publish_levels-storage matches (record w { storage = ts })))
                  (retain-StorageOk (to_retain topic payload flags now) topic w.storage v ok))
          | inr r ↦ rw (v, r) (subst StorageOk (sym (publish_levels-storage matches w)) ok)
        ]
      ]

publish_to_client-storage :
    (client packet_id m : ℕ) (w : World)
    → (publish_to_client client packet_id m w).storage ≡ w.storage
unfolding publish_to_client
publish_to_client-storage client packet_id m w = elim (Bool-cases (w.clients client).connected) [
  | inr c ↦ rw c refl
  | inl c ↦ elim (Bool-cases ((w.messages m).qos == 0)) [
    | inl q ↦ rw (c, q) refl
    | inr q ↦ elim (Bool-cases (is_unacknowledged (w.messages m).status)) [
      | inl u ↦ rw (c, q, u) refl
      | inr u ↦ rw (c, q, u) refl
    ]
  ]
]

replay_each-storage :
    (client : ℕ) (ms : MessageStore) (w : World) → (replay_each client ms w).storage ≡ w.storage
unfolding replay_each
replay_each-storage client [] w = refl
replay_each-storage client ((i, m) ∷ ms) w =
    replay_each-storage client ms (publish_to_client client i m w)
    ∙ publish_to_client-storage client i m w

pub replay-storage : (session : ℕ) (w : World) → (replay session w).storage ≡ w.storage
unfolding replay
replay-storage session w = elim (Bool-cases (w.sessions session).clean) [
  | inl e ↦ rw e refl
  | inr e ↦ elim (Option-cases (w.sessions session).client) [
    | inl n ↦ rw (e, n, replay) refl
    | inr (c, n) ↦
        rw (e, n, replay)
          (replay_each-storage c (sorted_entries (w.sessions session).message_store) w)
  ]
]

pub acknowledge-storage :
    (session packet_id : ℕ) (status : Status) (remove : Bool) (w : World)
    → (acknowledge session packet_id status remove w).storage ≡ w.storage
unfolding acknowledge
acknowledge-storage session i s r w = elim (Bool-cases (w.sessions session).clean) [
  | inl e ↦ rw e refl
  | inr e ↦ rw e refl
]

close_existing-storage : (o : Option ℕ) (w : World) → (close_existing o w).storage ≡ w.storage
unfolding close_existing close_connection
close_existing-storage none w = refl
close_existing-storage (some old) w = refl

pub add_client-storage : (client : ℕ) (w : World) → (add_client client w).storage ≡ w.storage
unfolding add_client
add_client-storage client w = close_existing-storage _ w
