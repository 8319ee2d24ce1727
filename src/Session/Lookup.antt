-- ===== src/Session/Lookup.antt =====
-- A message store as a map: what `get` finds after each operation.
use gott.Common.{
  ℕ, Bool, false, ◌&&◌, [], ◌∷◌, none, some, if◌then◌else◌, ◌==◌, ◌≡◌, inl, inr, Option-cases,
  arith,
}
use gott.Types.{Status}
use gott.Session.{MessageStore}
use gott.Session.Store.{Messages, delete, store, get, acknowledge}

-- `delete` removes the message of its identifier and no other.
pub get-delete :
    (i j : ℕ) (ms : MessageStore) → get j (delete i ms) ≡ (if j == i then none else get j ms)
unfolding get delete
get-delete i j [] = ground arith
get-delete i j ((k, m) ∷ ms) = ground (arith, get-delete i j ms)

-- `store` puts the message under its identifier and changes no other.
pub get-store :
    (i m j : ℕ) (ms : MessageStore) → get j (store i m ms) ≡ (if j == i then some m else get j ms)
unfolding get store
get-store i m j ms = ground (arith, get-delete i j ms)

-- The store points at the message `n` under the identifier.
abbrev pub found_at : ℕ → ℕ → MessageStore → Bool
found_at i n ms = elim (get i ms) [ none ↦ false | some m ↦ n == m ]

-- `acknowledge` gives the message its status, changes no other message, and takes it out of the
-- store where it is asked to; an identifier that is not in the store changes nothing.
pub acknowledge_lem :
    (i : ℕ) (status : Status) (remove : Bool) (messages : Messages) (ms : MessageStore) (j n : ℕ)
    → ((acknowledge i status remove messages ms).0 n
        ≡ (if found_at i n ms then record (messages n) { status = status } else messages n))
      × (get j (acknowledge i status remove messages ms).1
          ≡ (if remove && (j == i) then none else get j ms))
unfolding acknowledge
acknowledge_lem i status remove messages ms j n = elim (Option-cases (get i ms)) [
  | inl e ↦ rw (e, acknowledge) (ground arith, ground arith)
  | inr (m, e) ↦ rw (e, acknowledge) (ground arith, ground (arith, get-delete i j ms))
]
