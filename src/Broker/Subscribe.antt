-- ===== src/Broker/Subscribe.antt =====
-- `Subscribe`, `Unsubscribe` and `UnsubscribeAll` of broker.go, on the whole state.
use gott.Common.{
  ℕ, Bool, true, false, List, [], ◌∷◌, Option, none, some, Bytes, split, if◌then◌else◌, sort_by,
}
use gott.Types.{Subscription, Message}
use gott.Topic.Filter.{valid_filter}
use gott.Topic.Level.{topic_delim, Level}
use gott.Topic.Storage.{subscribe_segs, reverse_match, traverse_delete, delete_all}
use gott.Broker.{World, Event, happen}
use gott.Broker.Publish.{publish_retained}

-- The retained messages of levels; a level without one is a nil pointer that the source reads, and
-- the result is `none`.
unfoldable pub retained_messages : List Level → Option (List Message)
retained_messages [] = some []
retained_messages (l ∷ ls) = elim l.node.retained_message [
  | none ↦ none
  | some m ↦ elim (retained_messages ls) [ none ↦ none | some ms ↦ some (m ∷ ms) ]
]

-- The loop over the sorted messages.
unfoldable pub send_retained : (client qos : ℕ) → List Message → World → World
unfolding publish_retained
send_retained client qos [] w = w
send_retained client qos (m ∷ ms) w =
    let sub : Subscription = record { session = (w.clients client).session; qos = qos } in
    send_retained client qos ms
      (happen (Event.on_publish client m.topic m.payload 0 m.qos true) (publish_retained m sub w))

-- `Subscribe` of a client that has a session, as each has whose CONNECT packet `listen` has accepted:
-- whether it went on and the state after it; `none` if it panics.
unfoldable pub subscribe : (client : ℕ) (filter : Bytes) (qos : ℕ) → World → Option (Bool × World)
unfolding valid_filter split subscribe_segs reverse_match retained_messages sort_by send_retained
subscribe client filter qos w =
    let c = w.clients client in
    let ts =
      subscribe_segs w.sessions c.client_id c.session qos (split filter topic_delim) w.storage in
    let w' = record w { storage = ts } in
    if valid_filter filter
    then elim (retained_messages (reverse_match ts filter)) [
      | none ↦ none
      | some ms ↦ some (true, send_retained client qos (sort_by (λ m. m.timestamp) ms) w')
    ]
    else some (false, w)

-- Whether the client's session is clean.
abbrev pub is_clean : World → ℕ → Bool
is_clean w client = (w.sessions (w.clients client).session).clean

unfoldable pub unsubscribe : (client : ℕ) (filter : Bytes) → World → Bool × World
unfolding valid_filter split traverse_delete
unsubscribe client filter w =
    let c = w.clients client in
    let r =
      traverse_delete c.client_id (is_clean w client) (split filter topic_delim) w.sessions
        w.storage.filters in
    if valid_filter filter
    then (
      r.success,
      record w { storage = record w.storage { filters = r.levels }; sessions = r.sessions },
    )
    else (false, w)

-- `Session.clean` of a client, if the session is not nil.
abbrev pub clean_of : World → ℕ → Option Bool
clean_of w client = if (w.clients client).has_session then some (is_clean w client) else none

-- `UnsubscribeAll`: whether it panicked, and the state after it.
unfoldable pub unsubscribe_all : (client : ℕ) → World → Bool × World
unfolding delete_all
unsubscribe_all client w =
    let c = w.clients client in
    let r =
      delete_all c.client_id (clean_of w client) c.graceful_disconnect w.sessions
        w.storage.filters in
    (
      r.panicked,
      record w { storage = record w.storage { filters = r.levels }; sessions = r.sessions },
    )
