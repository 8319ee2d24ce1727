-- ===== src/Session/Store.antt =====
-- The operations of message_store.go. The mutex makes each call one step. The messages that a store
-- points at stand in a heap.
use gott.Common.{ℕ, Bool, [], ◌∷◌, Option, none, some, if◌then◌else◌, ◌==◌, sort_by}
use gott.Types.{Status}
use gott.Session.{ClientMessage, MessageStore, update}

abbrev pub Messages : Type 0
Messages = ℕ → ClientMessage

unfoldable pub new_message_store : MessageStore
new_message_store = []

unfoldable pub delete : ℕ → MessageStore → MessageStore
delete packet_id [] = []
delete packet_id ((k, m) ∷ ms) =
    if k == packet_id then delete packet_id ms else (k, m) ∷ delete packet_id ms

unfoldable pub store : (packet_id message : ℕ) → MessageStore → MessageStore
unfolding delete
store packet_id message ms = (packet_id, message) ∷ delete packet_id ms

unfoldable pub get : ℕ → MessageStore → Option ℕ
get packet_id [] = none
get packet_id ((k, m) ∷ ms) = if k == packet_id then some m else get packet_id ms

-- `acknowledge`: the heap of messages and the store after it.
unfoldable pub acknowledge :
    (packet_id : ℕ) → Status → (remove : Bool) → Messages → MessageStore → Messages × MessageStore
unfolding get delete
acknowledge packet_id status remove messages ms = elim (get packet_id ms) [
  | none ↦ (messages, ms)
  | some m ↦ (
    update messages m (record (messages m) { status = status }),
    if remove then delete packet_id ms else ms,
  )
]

-- The entries of the map: each key once, with the entry that `get` finds under it.
unfoldable pub distinct : MessageStore → MessageStore
unfolding delete
distinct [] = []
distinct ((k, m) ∷ ms) = (k, m) ∷ delete k (distinct ms)

-- The entries that `RangeSorted` passes to its iterator, in its order.
unfoldable pub sorted_entries : MessageStore → MessageStore
unfolding sort_by distinct
sorted_entries ms = sort_by (λ e. e.0) (distinct ms)
