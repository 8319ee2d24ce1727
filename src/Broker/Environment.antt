-- ===== src/Broker/Environment.antt =====
-- What stands outside the program: the plugins' hooks that decide, the session database, the clock and
-- the source of identifiers. Each answer is a function of all that has left the broker before, so that
-- it may depend on every earlier report, write and packet.
use gott.Common.{ℕ, Bool, List, Option, Bytes}
use gott.Session.{ClientMessage}
use gott.Broker.{Event}

pub record Environment : Type 0 where
  -- The plugins together, as the `invoke…` functions ask them.
  pub socket_open : List Event → (client : ℕ) → Bool
  pub before_connect : List Event → (id username password : Bytes) → Bool
  pub connect : List Event → (id username password : Bytes) → Bool
  pub before_publish :
      List Event → (id username topic payload : Bytes) → (dup qos : ℕ) → (retain : Bool) → Bool
  pub before_subscribe : List Event → (id username filter : Bytes) → (qos : ℕ) → Bool
  pub before_unsubscribe : List Event → (id username filter : Bytes) → Bool
  -- `SessionStore`: whether a session is stored, what `get` reads of it, which is none where it
  -- fails, and whether `set` succeeds.
  pub exists : List Event → (id : Bytes) → Bool
  pub stored : List Event → (id : Bytes) → Option (List (ℕ × ClientMessage))
  pub can_save : List Event → (id : Bytes) → Bool
  -- `time.Now`, and `uuid.New().String()`.
  pub clock : List Event → ℕ
  pub new_id : List Event → Bytes
