-- ===== src/Broker.antt =====
-- The state of the broker of broker.go and of its clients, sessions and messages, which the source
-- shares by pointer: each kind stands in a heap under addresses. What leaves the broker is a list of
-- events in their order. An operation runs from its start to its end without another in between.
pub mod Environment
pub mod Publish
pub mod Subscribe
pub mod Replay
pub mod Clients
pub mod Retry
pub mod Reach
pub mod Delivers
pub mod Stores
pub mod Absent
pub mod Replayed
pub mod Subscribed
pub mod Changed
pub mod EndToEnd
pub mod Resends
pub mod WellFormed
pub mod Departure
pub mod Crash
use gott.Common.{ℕ, suc, Bool, List, [], ◌∷◌, ◌++◌, Option, none, some, Bytes, ◌==◌, if◌then◌else◌}
use gott.Types.{Message}
use gott.Session.{ClientMessage, Sessions, MessageStore, update}
use gott.Session.Store
use gott.Session.Store.{Messages}
use gott.Sequencer.{Sequencer}
use gott.Topic.Storage.{TopicStorage}

-- A `Client` without its connection. Its session is the pointer `Session`, which is nil until a
-- CONNECT packet has been accepted: then `has_session` is false, and `session` stands for nothing.
pub record Client : Type 0 where
  pub connected : Bool
  pub graceful_disconnect : Bool
  pub client_id : Bytes
  pub will_message : Option Message
  pub username : Bytes
  pub password : Bytes
  pub keep_alive_secs : ℕ
  pub has_session : Bool
  pub session : ℕ

-- The calls that leave the broker, whether they succeed or not: a packet that is passed to `emit` for
-- a client's connection, `SessionStore.set` with a session and the messages of its store, the deletion
-- of a stored session, `go Retry`, the closing of a connection, and the hooks that only report.
pub data Event : Type 0 where
  emitted : (client : ℕ) (packet : Bytes) → Event
  saving : (id : Bytes) → List (ℕ × ClientMessage) → Event
  forgotten : (id : Bytes) → Event
  retrying : (packet_id message : ℕ) → Event
  closed : (client : ℕ) → Event
  on_message : (client : ℕ) (topic payload : Bytes) (dup qos : ℕ) (retain : Bool) → Event
  on_publish : (client : ℕ) (topic payload : Bytes) (dup qos : ℕ) (retain : Bool) → Event
  on_subscribe : (client : ℕ) (filter : Bytes) (qos : ℕ) → Event
  on_unsubscribe : (client : ℕ) (filter : Bytes) → Event
  on_disconnect : (client : ℕ) (graceful : Bool) → Event

pub record World : Type 0 where
  pub clients : ℕ → Client
  pub sessions : Sessions
  pub messages : Messages
  -- The address of the next message.
  pub fresh : ℕ
  -- The address of the next session.
  pub fresh_session : ℕ
  -- `clients` of the broker, by identifier.
  pub registered : List (Bytes × ℕ)
  pub storage : TopicStorage
  pub message_store : MessageStore
  pub packet_seq : Sequencer
  pub events : List Event

abbrev pub happen : Event → World → World
happen e w = record w { events = w.events ++ e ∷ [] }

abbrev pub emit : (client : ℕ) → Bytes → World → World
emit client packet = happen (Event.emitted client packet)

-- `&clientMessage{…}`: the address and the state after it.
abbrev pub allocate : ClientMessage → World → ℕ × World
allocate m w = (w.fresh, record w { messages = update w.messages w.fresh m; fresh = suc w.fresh })

-- What `put` passes on of a session: its messages as they are, by identifier.
abbrev pub snapshot : Messages → MessageStore → List (ℕ × ClientMessage)
snapshot messages [] = []
snapshot messages ((packet_id, m) ∷ ms) = (packet_id, messages m) ∷ snapshot messages ms

-- The call of `SessionStore.set`. Its error is discarded by `storeMessage` and `acknowledge`; what
-- `listen` makes of it stands in `open_session`.
abbrev pub put : (session : ℕ) → World → World
put session w =
    let s = w.sessions session in happen (Event.saving s.id (snapshot w.messages s.message_store)) w

-- `storeMessage` of a session.
unfoldable pub store_message : (session packet_id message : ℕ) → World → World
unfolding Store.store
store_message session packet_id message w =
    let s = w.sessions session in
    let s' = record s { message_store = Store.store packet_id message s.message_store } in
    let w' = record w { sessions = update w.sessions session s' } in
    if s.clean then w' else put session w'

-- `b.MessageStore.store` and `go Retry`.
abbrev pub store_and_retry : (packet_id message : ℕ) → World → World
store_and_retry packet_id message w =
    happen (Event.retrying packet_id message)
      (record w { message_store = Store.store packet_id message w.message_store })

-- The session's client if it is connected.
abbrev pub connected_of : (ℕ → Client) → Option ℕ → Option ℕ
connected_of clients none = none
connected_of clients (some c) = if (clients c).connected then some c else none

unfoldable pub live_client : World → (session : ℕ) → Option ℕ
live_client w session = connected_of w.clients (w.sessions session).client
