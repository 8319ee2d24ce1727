-- ===== src/Common/Slices.antt =====
-- Go's byte slices as lists of numbers: what the program uses of package bytes, and utils/slices.go.
use Prim.Native.Nat.{ℕ, suc, ◌+◌}
use mathlib.Core.Path.{◌≡◌, refl}
use mathlib.Core.Logic.{◌≢◌, inl, inr}
use mathlib.Core.Bool.{Bool, true, false, ◌&&◌}
use mathlib.Core.List.{List, [], ◌∷◌, ◌++◌}
use mathlib.Core.Option
use mathlib.Core.Option.{Option, none, some}
use native.Mathlib.Omega.{arith}
use gott.Common.Tests.{◌==◌, if◌then◌else◌, Bool-cases}

abbrev pub Bytes : Type 0
Bytes = List ℕ

-- `bytes.Equal`, and `==` of strings.
unfoldable pub bytes_eq : Bytes → Bytes → Bool
bytes_eq [] [] = true
bytes_eq (a ∷ s) (b ∷ t) = (a == b) && bytes_eq s t
bytes_eq _ _ = false

-- `bytes.IndexByte`: `none` is -1.
unfoldable pub index_byte : Bytes → ℕ → Option ℕ
index_byte [] c = none
index_byte (x ∷ b) c = if x == c then some 0 else Option.map suc (index_byte b c)

-- `bytes.Count` of a separator of one byte.
unfoldable pub count_byte : Bytes → ℕ → ℕ
count_byte [] c = 0
count_byte (x ∷ b) c = (if x == c then 1 else 0) + count_byte b c

abbrev pub cons_head : ℕ → List Bytes → List Bytes
cons_head c [] = (c ∷ []) ∷ []
cons_head c (s ∷ ss) = (c ∷ s) ∷ ss

-- `bytes.Split` at a separator of one byte; the empty slice has one empty part.
cons_head_ne : (c : ℕ) (ss : List Bytes) → cons_head c ss ≢ []
cons_head_ne c [] e = cc
cons_head_ne c (s ∷ ss) e = cc

unfoldable pub split : Bytes → ℕ → List Bytes
split [] d = [] ∷ []
split (c ∷ b) d = if c == d then [] ∷ split b d else cons_head c (split b d)

-- `ByteInSlice`.
unfoldable pub byte_in_slice : ℕ → Bytes → Bool
byte_in_slice b [] = false
byte_in_slice b (item ∷ arr) = if item == b then true else byte_in_slice b arr

-- The loop of `IndexAllByte`, at index `i`.
unfoldable pub index_all_from : ℕ → Bytes → ℕ → List ℕ
index_all_from i [] c = []
index_all_from i (x ∷ b) c = (if x == c then i ∷ [] else []) ++ index_all_from (i + 1) b c

unfoldable pub index_all_byte : Bytes → ℕ → List ℕ
unfolding index_all_from
index_all_byte b c = index_all_from 0 b c

-- `StringInSlice`.
unfoldable pub string_in_slice : Bytes → List Bytes → Bool
string_in_slice s [] = false
string_in_slice s (o ∷ sl) = if bytes_eq o s then true else string_in_slice s sl

pub bytes_eq→eq : (a b : Bytes) → bytes_eq a b ≡ true → a ≡ b
unfolding bytes_eq
bytes_eq→eq [] [] h = refl
bytes_eq→eq [] (y ∷ b) h = ground arith
bytes_eq→eq (x ∷ a) [] h = ground arith
bytes_eq→eq (x ∷ a) (y ∷ b) h = ground (arith, bytes_eq→eq a b)

pub bytes_eq_self : (a : Bytes) → bytes_eq a a ≡ true
unfolding bytes_eq
bytes_eq_self [] = refl
bytes_eq_self (x ∷ a) = ground (arith, bytes_eq_self a)

pub split-nonempty : (b : Bytes) (d : ℕ) → split b d ≢ []
unfolding split
split-nonempty [] d e = cc
split-nonempty (c ∷ b) d e = elim (Bool-cases (c == d)) [
  | inl h ↦ (let k = rw h at e in cc)
  | inr h ↦ cons_head_ne c (split b d) (rw h at e)
]
