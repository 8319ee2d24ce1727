-- ===== src/Broker/Replay.antt =====
-- `acknowledge` and `replay` of session.go.
use gott.Common.{ℕ, Bool, [], ◌∷◌, none, some, if◌then◌else◌}
use gott.Types.{Status}
use gott.Session.{MessageStore, update}
use gott.Session.Store
use gott.Broker.{World, put}
use gott.Broker.Publish.{publish_to_client}

unfoldable pub acknowledge : (session packet_id : ℕ) → Status → (remove : Bool) → World → World
unfolding Store.acknowledge
acknowledge session packet_id status remove w =
    let s = w.sessions session in
    let (messages, ms) = Store.acknowledge packet_id status remove w.messages s.message_store in
    let w' = record w {
      messages = messages;
      sessions = update w.sessions session (record s { message_store = ms });
    } in
    if s.clean then w' else put session w'

-- The callback of `RangeSorted`, entry by entry.
unfoldable pub replay_each : (client : ℕ) → MessageStore → World → World
unfolding publish_to_client
replay_each client [] w = w
replay_each client ((packet_id, m) ∷ ms) w =
    replay_each client ms (publish_to_client client packet_id m w)

unfoldable pub replay : (session : ℕ) → World → World
unfolding replay_each Store.sorted_entries
replay session w =
    let s = w.sessions session in
    if s.clean then w else elim s.client [
      | none ↦ w
      | some c ↦ replay_each c (Store.sorted_entries s.message_store) w
    ]
