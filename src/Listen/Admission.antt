-- ===== src/Listen/Admission.antt =====
-- The handler of CONNECT leaves a shorter input at most, and a well-formed topic tree.
use gott.Common.{
  ℕ, Bool, true, false, List, [], ◌∷◌, Option, none, some, Bytes, ◌≡◌, refl, arith, Bool-cases,
  Option-cases, inl, inr,
}
use gott.Types.{ConnectFlags, ReturnCode}
use gott.Session.{ClientMessage, MessageStore}
use gott.Session.Store
use gott.Broker.{World, allocate}
use gott.Broker.Environment.{Environment}
use gott.Broker.WellFormed.{TreeOk, add_client-storage, replay-storage}
use gott.Broker.Clients.{add_client}
use gott.Broker.Replay.{replay}
use gott.Listen.{Link}
use gott.Listen.Connect.{
  refuse, read_field, read_client_id, read_will, read_username, read_password, new_session,
  load_messages, load, open_session, or_leave, accept, on_connect,
}
use gott.Listen.Keeps.{Kept, Keeps, Keeps-if, keeps_rules}

new_session-storage :
    (client : ℕ) (clean : Bool) (w : World) → (new_session client clean w).storage ≡ w.storage
unfolding new_session
new_session-storage client clean w = refl

load_messages-storage :
    (entries : List (ℕ × ClientMessage)) (ms : MessageStore) (w : World)
    → (load_messages entries ms w).1.storage ≡ w.storage
unfolding load_messages
load_messages-storage [] ms w = refl
load_messages-storage ((i, m) ∷ rest) ms w =
    load_messages-storage rest (Store.store i w.fresh ms)
      (allocate (record m { client = none }) w).1

load-storage :
    (session : ℕ) (entries : List (ℕ × ClientMessage)) (w : World)
    → (load session entries w).storage ≡ w.storage
unfolding load
load-storage session entries w = load_messages-storage entries (w.sessions session).message_store w

open_session-storage :
    (env : Environment) (client : ℕ) (clean : Bool) (w : World)
    → (open_session env client clean w).1.storage ≡ w.storage
unfolding open_session
open_session-storage env client true w = refl
open_session-storage env client false w =
    let w₁ = new_session client false w in
    let id = (w₁.clients client).client_id in
    elim (Bool-cases (env.exists w₁.events id)) [
      | inl e ↦ elim (Option-cases (env.stored w₁.events id)) [
        | inl n ↦ rw (e, n, open_session) refl
        | inr (entries, n) ↦
            rw (e, n, open_session) (load-storage (w₁.clients client).session entries w₁)
      ]
      | inr e ↦ elim (Bool-cases (env.can_save w₁.events id)) [
        | inl s ↦ rw (e, s, open_session) refl
        | inr s ↦ rw (e, s, open_session) refl
      ]
    ]

or_leave-Kept :
    (l : Link) (o : Option ℕ × World) → o.1.storage ≡ l.world.storage → Kept l (or_leave o l).1
or_leave-Kept l (none, w) h = record { shorter = omega arith; tree = λ ok. rw h ok }
or_leave-Kept l (some a, w) h = record { shorter = omega arith; tree = λ ok. rw h ok }

opened-Keeps :
    (env : Environment) (client : ℕ) (clean : Bool)
    → Keeps (λ l. or_leave (open_session env client clean l.world) l)
opened-Keeps env client clean = record {
  at = λ l.
      or_leave-Kept l (open_session env client clean l.world)
        (open_session-storage env client clean l.world);
}

add_client-TreeOk : (client : ℕ) (w : World) → TreeOk w → TreeOk (add_client client w)
add_client-TreeOk client w h = rw (add_client-storage client w) h

replay_own-TreeOk :
    (client : ℕ) (w : World) → TreeOk w → TreeOk (replay (w.clients client).session w)
replay_own-TreeOk client w h = rw (replay-storage (w.clients client).session w) h

refuse-Keeps : (client : ℕ) (code : ReturnCode) → Keeps (refuse client code)
refuse-Keeps client code = search keeps_rules depth 20 fits 3000

read_field-Keeps :
    (payload : Bytes) (head : ℕ) (checked : Bool) → Keeps (read_field payload head checked)
unfolding read_field
read_field-Keeps payload head checked = search keeps_rules depth 20 fits 3000

module _ (env : Environment) (client : ℕ) (flags : ConnectFlags) where
  accept-Keeps : Keeps (accept env client flags)
  unfolding accept
  accept-Keeps =
      search (keeps_rules, opened-Keeps, add_client-TreeOk, replay_own-TreeOk) depth 20 fits 3000

  module _ (payload : Bytes) where
    read_client_id-Keeps : Keeps (read_client_id env client flags payload)
    unfolding read_client_id
    read_client_id-Keeps = search (keeps_rules, refuse-Keeps) depth 20 fits 3000

    read_will-Keeps : (head : ℕ) → Keeps (read_will env client flags payload head)
    unfolding read_will
    read_will-Keeps head = search (keeps_rules, Keeps-if, read_field-Keeps) depth 20 fits 3000

    read_username-Keeps : (head : ℕ) → Keeps (read_username env client flags payload head)
    unfolding read_username
    read_username-Keeps head = search (keeps_rules, Keeps-if, read_field-Keeps) depth 20 fits 3000

    read_password-Keeps : (head : ℕ) → Keeps (read_password env client flags payload head)
    unfolding read_password
    read_password-Keeps head = search (keeps_rules, Keeps-if, read_field-Keeps) depth 20 fits 3000

pub on_connect-Keeps :
    (env : Environment) (client rem_len : ℕ) → Keeps (on_connect env client rem_len)
unfolding on_connect
on_connect-Keeps env client rem_len =
    search
      (
        keeps_rules, refuse-Keeps, read_client_id-Keeps, read_will-Keeps, read_username-Keeps,
        read_password-Keeps, accept-Keeps,
      )
      depth 40 fits 5000
