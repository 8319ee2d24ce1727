-- ===== src/SessionStore.antt =====
-- session_store.go: what the broker asks of the session database. The database, badger, is a parameter,
-- and so is the JSON package.
pub mod Kept
use gott.Common.{Bool, true, false, Option, none, some, Bytes}

-- The outcome of a write in a transaction: done, refused with `ErrTxnTooBig`, or another error.
pub data Written (Txn : Type 0) : Type 0 where
  stored : Txn → Written Txn
  too_big : Txn → Written Txn
  rejected : Written Txn

-- `view` is the transaction that `View` passes on; `update` runs a change in a transaction, and none is
-- its error.
pub record Badger (Db Txn Item : Type 0) : Type 0 where
  pub view : Db → Txn
  pub update : (Txn → Option Txn) → Db → Option Db
  pub new_transaction : Db → Txn
  pub get : Txn → (key : Bytes) → Option Item
  pub value : Item → Option Bytes
  pub put : Txn → (key json : Bytes) → Written Txn
  pub remove : Txn → (key : Bytes) → Option Txn
  pub commit : Txn → Db → Option Db

-- `Marshal` and `Unmarshal`, which fills in `out`.
pub record Json (V : Type 0) : Type 0 where
  pub marshal : V → Option Bytes
  pub unmarshal : (json : Bytes) (out : V) → Option V

abbrev pub and_then {ℓ κ} : {A : Type ℓ} {B : Type κ} → Option A → (A → Option B) → Option B
and_then none f = none
and_then (some a) f = f a

abbrev is_there {ℓ} : {A : Type ℓ} → Option A → Bool
is_there none = false
is_there (some _) = true

-- The database after a commit, or as it was.
abbrev pub committed {ℓ} : {Db : Type ℓ} → Db → Option Db → Bool × Db
committed db none = (false, db)
committed db (some db') = (true, db')

module _ {Db Txn Item V : Type 0} (badger : Badger Db Txn Item) (json : Json V) where
  unfoldable pub get : (key : Bytes) (out : V) → Db → Option V
  get key out db =
      and_then (badger.get (badger.view db) key)
        (λ item. and_then (badger.value item) (λ val. json.unmarshal val out))

  -- The function `set`: a value that has no JSON is passed over without an error.
  abbrev pub put_json : Txn → (key : Bytes) → Option Bytes → Written Txn
  put_json txn key none = stored txn
  put_json txn key (some val) = badger.put txn key val

  unfoldable pub put_value : Txn → (key : Bytes) → V → Written Txn
  put_value txn key v = put_json txn key (json.marshal v)

  -- After the second write, in a new transaction.
  abbrev pub second_write : Db → Written Txn → Bool × Db
  second_write db (stored txn) = committed db (badger.commit txn db)
  second_write db (too_big txn) = (false, db)
  second_write db rejected = (false, db)

  abbrev pub again : (key : Bytes) → V → Bool × Db → Bool × Db
  again key v (false, db) = (false, db)
  again key v (true, db) = second_write db (put_value (badger.new_transaction db) key v)

  abbrev pub first_write : (key : Bytes) → V → Db → Written Txn → Bool × Db
  first_write key v db (stored txn) = committed db (badger.commit txn db)
  first_write key v db (too_big txn) = again key v (committed db (badger.commit txn db))
  first_write key v db rejected = (false, db)

  -- The method `set`: whether it returns without an error, and the database after it.
  unfoldable pub set : (key : Bytes) → V → Db → Bool × Db
  unfolding put_value
  set key v db = first_write key v db (put_value (badger.new_transaction db) key v)

module _ {Db Txn Item : Type 0} (badger : Badger Db Txn Item) where
  unfoldable pub exists : (key : Bytes) → Db → Bool
  exists key db = is_there (badger.get (badger.view db) key)

  unfoldable pub delete : (key : Bytes) → Db → Bool × Db
  delete key db = committed db (badger.update (λ txn. badger.remove txn key) db)
