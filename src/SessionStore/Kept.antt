-- ===== src/SessionStore/Kept.antt =====
-- What the session database holds after a call.
use gott.Common.{
  Bool, true, false, Option, none, some, Bytes, bytes_eq, bytes_eq_self, if◌then◌else◌, ◌≡◌, refl,
  ap, ◌∙◌,
}
use gott.SessionStore.{
  Written, stored, too_big, rejected, Badger, Json, and_then, committed, get, put_json, put_value,
  second_write, again, first_write, set,
}

-- What badger promises of a transaction that nothing else runs beside: it begins with what the database
-- holds, a write is seen in it and nowhere else, and a commit that succeeds makes what it holds
-- the database's.
pub record Lawful {Db Txn Item : Type 0} (badger : Badger Db Txn Item) : Type 0 where
  pub contents : Db → Bytes → Option Bytes
  pub pending : Txn → Bytes → Option Bytes
  pub reads :
      (db : Db) (key : Bytes)
      → and_then (badger.get (badger.view db) key) badger.value ≡ contents db key
  pub begins : (db : Db) (key : Bytes) → pending (badger.new_transaction db) key ≡ contents db key
  pub writes :
      (t t' : Txn) (key json j : Bytes)
      → badger.put t key json ≡ stored t'
      → pending t' j ≡ (if bytes_eq key j then some json else pending t j)
  pub keeps :
      (t t' : Txn) (key json j : Bytes)
      → badger.put t key json ≡ too_big t'
      → pending t' j ≡ pending t j
  pub commits :
      (t : Txn) (db db' : Db) (j : Bytes)
      → badger.commit t db ≡ some db'
      → contents db' j ≡ pending t j

-- The contents with a value written, if there is one.
abbrev pub put_in : Option Bytes → (key : Bytes) → (Bytes → Option Bytes) → Bytes → Option Bytes
put_in none key c j = c j
put_in (some json) key c j = if bytes_eq key j then some json else c j

put_in-same :
    (x : Option Bytes) (key : Bytes) (c c' : Bytes → Option Bytes) (j : Bytes)
    → c j ≡ c' j
    → put_in x key c j ≡ put_in x key c' j
put_in-same none key c c' j e = e
put_in-same (some b) key c c' j e = rw e refl

and_then_assoc :
    {A B C : Type 0} (o : Option A) (f : A → Option B) (g : B → Option C)
    → and_then o (λ a. and_then (f a) g) ≡ and_then (and_then o f) g
and_then_assoc none f g = refl
and_then_assoc (some a) f g = refl

get-contents :
    {Db Txn Item V : Type 0} (badger : Badger Db Txn Item) (json : Json V) (l : Lawful badger)
    (key : Bytes) (out : V) (db : Db)
    → get badger json key out db ≡ and_then (l.contents db key) (λ val. json.unmarshal val out)
unfolding get
get-contents badger json l key out db =
    and_then_assoc (badger.get (badger.view db) key) badger.value (λ val. json.unmarshal val out)
    ∙ ap (λ o. and_then o (λ val. json.unmarshal val out)) (l.reads db key)

module _ {Db Txn Item V : Type 0} (badger : Badger Db Txn Item) (json : Json V) (l : Lawful badger)
    (key : Bytes) (v : V) where
  -- After a write of `x`, in the transaction; after a call, in the database.
  abbrev Put : Option Bytes → (Bytes → Option Bytes) → Written Txn → Type 0
  Put x c (stored t) = (j : Bytes) → l.pending t j ≡ put_in x key c j
  Put x c (too_big t) = (j : Bytes) → l.pending t j ≡ c j
  Put x c rejected = Unit

  abbrev Left : Option Bytes → (Bytes → Option Bytes) → Bool × Db → Type 0
  Left x c (true, db) = (j : Bytes) → l.contents db j ≡ put_in x key c j
  Left x c (false, db) = (j : Bytes) → l.contents db j ≡ c j

  badger-Put :
      (t : Txn) (b : Bytes) (c : Bytes → Option Bytes) (r : Written Txn)
      → ((j : Bytes) → l.pending t j ≡ c j)
      → badger.put t key b ≡ r
      → Put (some b) c r
  badger-Put t b c (stored t') h e =
      λ j. l.writes t t' key b j e ∙ put_in-same (some b) key (l.pending t) c j (h j)
  badger-Put t b c (too_big t') h e = λ j. l.keeps t t' key b j e ∙ h j
  badger-Put t b c rejected h e = tt

  put_json-Put :
      (t : Txn) (x : Option Bytes) (c : Bytes → Option Bytes)
      → ((j : Bytes) → l.pending t j ≡ c j)
      → Put x c (put_json badger json t key x)
  put_json-Put t none c h = h
  put_json-Put t (some b) c h = badger-Put t b c (badger.put t key b) h refl

  put_value-Put :
      (db : Db)
      → Put
          (json.marshal v)
          (l.contents db)
          (put_value badger json (badger.new_transaction db) key v)
  unfolding put_value
  put_value-Put db =
      put_json-Put (badger.new_transaction db) (json.marshal v) (l.contents db) (l.begins db)

  committed-Left :
      (t : Txn) (db : Db) (x : Option Bytes) (c : Bytes → Option Bytes) (o : Option Db)
      → badger.commit t db ≡ o
      → ((j : Bytes) → l.contents db j ≡ c j)
      → ((j : Bytes) → l.pending t j ≡ put_in x key c j)
      → Left x c (committed db o)
  committed-Left t db x c none e h k = h
  committed-Left t db x c (some db') e h k = λ j. l.commits t db db' j e ∙ k j

  second_write-Left :
      (db : Db) (x : Option Bytes) (c : Bytes → Option Bytes) (r : Written Txn)
      → ((j : Bytes) → l.contents db j ≡ c j)
      → Put x c r
      → Left x c (second_write badger json db r)
  second_write-Left db x c (stored t) h p = committed-Left t db x c (badger.commit t db) refl h p
  second_write-Left db x c (too_big t) h p = h
  second_write-Left db x c rejected h p = h

  Put-same :
      (x : Option Bytes) (c c' : Bytes → Option Bytes) (r : Written Txn)
      → ((j : Bytes) → c j ≡ c' j)
      → Put x c r
      → Put x c' r
  Put-same x c c' (stored t) e p = λ j. p j ∙ put_in-same x key c c' j (e j)
  Put-same x c c' (too_big t) e p = λ j. p j ∙ e j
  Put-same x c c' rejected e p = tt

  again-Left :
      (c : Bytes → Option Bytes) (p : Bool × Db)
      → ((j : Bytes) → l.contents p.1 j ≡ c j)
      → Left (json.marshal v) c (again badger json key v p)
  again-Left c (false, db) h = h
  again-Left c (true, db) h =
      let r = put_value badger json (badger.new_transaction db) key v in
      second_write-Left db (json.marshal v) c r h
        (Put-same (json.marshal v) (l.contents db) c r h (put_value-Put db))

  committed-same :
      (t : Txn) (db : Db) (c : Bytes → Option Bytes) (o : Option Db)
      → badger.commit t db ≡ o
      → ((j : Bytes) → l.contents db j ≡ c j)
      → ((j : Bytes) → l.pending t j ≡ c j)
      → (j : Bytes) → l.contents (committed db o).1 j ≡ c j
  committed-same t db c none e h k j = h j
  committed-same t db c (some db') e h k j = l.commits t db db' j e ∙ k j

  first_write-Left :
      (db : Db) (r : Written Txn)
      → Put (json.marshal v) (l.contents db) r
      → Left (json.marshal v) (l.contents db) (first_write badger json key v db r)
  first_write-Left db (stored t) p =
      committed-Left t db (json.marshal v) (l.contents db) (badger.commit t db) refl (λ j. refl) p
  first_write-Left db (too_big t) p =
      again-Left (l.contents db) (committed db (badger.commit t db))
        (committed-same t db (l.contents db) (badger.commit t db) refl (λ j. refl) p)
  first_write-Left db rejected p = λ j. refl

  set-Left : (db : Db) → Left (json.marshal v) (l.contents db) (set badger json key v db)
  unfolding set
  set-Left db =
      first_write-Left db (put_value badger json (badger.new_transaction db) key v)
        (put_value-Put db)

  Left-at :
      (x : Option Bytes) (c : Bytes → Option Bytes) (p : Bool × Db)
      → Left x c p
      → (j : Bytes) → l.contents p.1 j ≡ (if p.0 then put_in x key c j else c j)
  Left-at x c (true, db) h j = h j
  Left-at x c (false, db) h j = h j

  -- A call of `set` that returns without an error leaves the JSON of the value under its key, and a value
  -- that has none leaves the database as it was, though there is no error; a call that returns an
  -- error leaves it as it was too. No other key is touched.
  pub set-contents :
      (db : Db) (j : Bytes)
      → let r = set badger json key v db in
        l.contents r.1 j
        ≡ (if r.0 then put_in (json.marshal v) key (l.contents db) j else l.contents db j)
  set-contents db j =
      Left-at (json.marshal v) (l.contents db) (set badger json key v db) (set-Left db) j

  -- What `set` has written without an error under a key, for a value that has a JSON, `get` reads back
  -- as that JSON.
  pub get-set :
      (db : Db) (b : Bytes) (out : V)
      → json.marshal v ≡ some b
      → (set badger json key v db).0 ≡ true
      → get badger json key out (set badger json key v db).1 ≡ json.unmarshal b out
  get-set db b out m s =
      let db' = (set badger json key v db).1 in
      let held : l.contents db' key ≡ some b =
        set-contents db key ∙ rw (s, m, bytes_eq_self key) refl in
      get-contents badger json l key out db'
      ∙ ap (λ o. and_then o (λ val. json.unmarshal val out)) held
