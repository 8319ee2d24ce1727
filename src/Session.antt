-- ===== src/Session.antt =====
-- session.go, message_store.go: the sessions of the clients and the heap that holds them. A session
-- is shared by pointer, between its client and its subscriptions, so it stands in a heap under an
-- address. So does a client message, which the broker's store and a session's store share.
pub mod Store
pub mod Lookup
pub mod Sorted
use gott.Common.{ℕ, Bool, List, Option, Bytes, if◌then◌else◌, ◌==◌, ==_iff, ◌≡◌, refl}
use gott.Types.{Status}

pub record ClientMessage : Type 0 where
  pub client : Option ℕ
  pub topic : Bytes
  pub payload : Bytes
  pub qos : ℕ
  pub retain : ℕ
  pub status : Status

-- A Go map of packet identifiers to pointers, as an association list with distinct keys.
abbrev pub MessageStore : Type 0
MessageStore = List (ℕ × ℕ)

pub record Session : Type 0 where
  pub client : Option ℕ
  pub clean : Bool
  pub id : Bytes
  pub message_store : MessageStore

abbrev pub Sessions : Type 0
Sessions = ℕ → Session

-- A write through a pointer.
abbrev pub update {ℓ} : {A : Type ℓ} → (ℕ → A) → ℕ → A → ℕ → A
update h p v q = if q == p then v else h q

pub update_self : {A : Type 0} (h : ℕ → A) (p : ℕ) (v : A) → update h p v p ≡ v
update_self h p v = rw ((==_iff p p).1 refl) refl
