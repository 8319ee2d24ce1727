-- ===== src/System.antt =====
-- The broker as a whole: `NewBroker` of broker.go, and its goroutines where they take turns, in any
-- order: a connection's goroutine a whole round of its loop, and a `Retry` a whole look, with no other
-- goroutine in between. The source holds no lock over a round, so that its goroutines can also be
-- interleaved within their rounds, which is not modelled.
pub mod Safe
use gott.Common.{ℕ, Bool, true, false, List, [], ◌≡◌}
use gott.Session.{Sessions}
use gott.Session.Store.{Messages}
use gott.Sequencer.{packet_seq}
use gott.Topic.Storage.{empty_storage}
use gott.Broker.{World, Client}
use gott.Broker.Environment.{Environment}
use gott.Broker.Clients.{handle_connection, disconnect}
use gott.Broker.Retry.{Stage, retry_step}
use gott.WebSockets.{on_request_handler}
use gott.Listen.{Input}
use gott.Listen.Loop.{round}

-- The broker of `NewBroker`, on heaps of which nothing is in use yet.
abbrev pub new_broker : (ℕ → Client) → Sessions → Messages → World
new_broker clients sessions messages = record {
  clients = clients;
  sessions = sessions;
  messages = messages;
  fresh = 0;
  fresh_session = 0;
  registered = [];
  storage = empty_storage;
  message_store = [];
  packet_seq = packet_seq;
  events = [];
}

module _ (env : Environment) where
  -- A connection that is opened, a request for a WebSocket, a round of a client's `listen` on whatever bytes have arrived, its
  -- `disconnect`, whether it panics or not, and a `Retry` whose sleep ends.
  pub data Turn : World → World → Type 0 where
    opens :
        {w : World} (client : ℕ)
        → (w.clients client).connected ≡ false
        → Turn w (handle_connection env client w)
    upgrades :
        {w : World} (upgraded : Bool) (client : ℕ)
        → (w.clients client).connected ≡ false
        → Turn w (on_request_handler env upgraded client w)
    turns :
        {w : World} (client : ℕ) (input : Input)
        → Turn w (round env client (record { input = input; world = w })).1.world
    ends : {w : World} (client : ℕ) → Turn w (disconnect env client w).1
    looks :
        {w : World} (packet_id m : ℕ) (stage : Stage) → Turn w (retry_step packet_id m stage w).1

  pub data ReachableInTurns : World → Type 0 where
    start :
        (clients : ℕ → Client) (sessions : Sessions) (messages : Messages)
        → ReachableInTurns (new_broker clients sessions messages)
    next : {w w' : World} → ReachableInTurns w → Turn w w' → ReachableInTurns w'
