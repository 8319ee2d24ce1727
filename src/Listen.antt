-- ===== src/Listen.antt =====
-- `listen` of client.go, for a client on a TCP connection or a WebSocket: what the handlers of the
-- packets are built of. A handler is an action on the bytes that arrive and on the broker's state; both come back
-- whichever way it ends.
pub mod Read
pub mod Connect
pub mod Publish
pub mod Acks
pub mod Filters
pub mod Loop
pub mod Keeps
pub mod Handlers
pub mod Admission
pub mod Rounds
pub mod Ends
pub mod Fatal
pub mod Messages
pub mod Plain
pub mod Anonymous
pub mod Received
pub mod Relay
pub mod Answers
pub mod Refusals
pub mod Accepted
pub mod Returned
pub mod Loaded
pub mod Restored
pub mod Acknowledged
pub mod Connected
use gott.Common.{
  ℕ, Bool, true, false, List, [], ◌∷◌, Option, none, some, Bytes, if◌then◌else◌, not, length,
}
use gott.Bytes.{Decoded, value, malformed}
use gott.Extractors.{Extracted, ok, invalid, panic, out_of_fuel}
use gott.Session.{update}
use gott.Broker
use gott.Broker.{World, Client, Event, happen}

-- A byte that arrives, and whether it is in the connection's buffer as soon as the byte before it.
pub record Arrival : Type 0 where
  pub byte : ℕ
  pub together : Bool

-- What arrives on a WebSocket, in order: the start of a message, or a byte of the message started last.
pub data Piece : Type 0 where
  octet : ℕ → Piece
  binary_message : Piece
  text_message : Piece

-- `isWebSocket` tells which of the two a client has. The connection ends after what arrives.
pub data Input : Type 0 where
  tcp : List Arrival → Input
  web : List Piece → Input

abbrev pub remaining : Input → ℕ
remaining (tcp arrived) = length arrived
remaining (web arrived) = length arrived

pub record Link : Type 0 where
  pub input : Input
  pub world : World

-- A value, `break loop`, `break` out of the `switch`, or a panic.
pub data Result {ℓ} (A : Type ℓ) : Type ℓ where
  done : A → Result A
  leave : Result A
  skip : Result A
  panics : Result A

abbrev pub Action {ℓ} : Type ℓ → Type ℓ
Action A = Link → Result A × Link

abbrev pub pure {ℓ} : {A : Type ℓ} → A → Action A
pure a l = (done a, l)

infixl 5 ◌>>=◌ ◌>>◌
abbrev pub after {ℓ κ} :
    {A : Type ℓ} {B : Type κ} → (A → Action B) → Result A × Link → Result B × Link
after f (done a, l) = f a l
after f (leave, l) = (leave, l)
after f (skip, l) = (skip, l)
after f (panics, l) = (panics, l)

abbrev pub ◌>>=◌ {ℓ κ} : {A : Type ℓ} {B : Type κ} → Action A → (A → Action B) → Action B
◌>>=◌ m f l = after f (m l)

abbrev pub ◌>>◌ {κ} : {B : Type κ} → Action (Unit {0}) → Action B → Action B
m >> k = m >>= λ _. k

abbrev pub leave_if : Bool → Action (Unit {0})
leave_if b l = (if b then leave else done tt, l)

abbrev pub skip_if : Bool → Action (Unit {0})
skip_if b l = (if b then skip else done tt, l)

abbrev pub when : Bool → Action (Unit {0}) → Action (Unit {0})
when b m l = if b then m l else (done tt, l)

-- What is read of the state, and a change to it.
abbrev pub gets {ℓ} : {A : Type ℓ} → (World → A) → Action A
gets f l = (done (f l.world), l)

abbrev pub changes : (World → World) → Action (Unit {0})
changes f l = (done tt, record l { world = f l.world })

abbrev pub report : Event → Action (Unit {0})
report e = changes (happen e)

abbrev pub emit : (client : ℕ) → Bytes → Action (Unit {0})
emit client packet = changes (Broker.emit client packet)

abbrev pub set_client : (client : ℕ) → (Client → Client) → Action (Unit {0})
set_client client f =
    changes (λ w. record w { clients = update w.clients client (f (w.clients client)) })

-- A result of extractors.go: an error is logged and breaks the loop. Its functions never run out of
-- fuel.
abbrev pub ended {ℓ} : {A : Type ℓ} → Extracted A → Result A
ended (ok a) = done a
ended invalid = leave
ended panic = panics
ended out_of_fuel = panics

abbrev pub extract {ℓ} : {A : Type ℓ} → Extracted A → Action A
extract x l = (ended x, l)

abbrev pub decoded : Decoded → Result ℕ
decoded (value n) = done n
decoded malformed = leave

-- The session of the client; a nil pointer is a panic.
abbrev pub session_of : (client : ℕ) → Action ℕ
session_of client l =
    let c = l.world.clients client in (if c.has_session then done c.session else panics, l)
