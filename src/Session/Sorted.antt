-- ===== src/Session/Sorted.antt =====
-- The order in which `RangeSorted` passes on the messages of a store.
use mathlib.Core.List.{Memᴰ}
use mathlib.Core.Option.{some-injective}
use gott.Common.{
  ℕ, ◌<◌, [], ◌∷◌, none, some, if◌then◌else◌, ltb, ◌==◌, ==_iff, insert_by, sort_by, ◌≡◌, refl, sym,
  ap, ap₂, ◌∙◌, subst, ◌↔◌, inl, inr, Bool-cases, arith,
}
use gott.Session.{MessageStore}
use gott.Session.Store.{delete, get, distinct, sorted_entries}
use gott.Session.Lookup.{get-delete}

-- Every identifier is above `k`.
abbrev pub Above : ℕ → MessageStore → Type 0
Above k [] = Unit {0}
Above k ((j, m) ∷ ms) = (k < j) × Above k ms

-- Every identifier is above those before it.
abbrev pub IsAscending : MessageStore → Type 0
IsAscending [] = Unit {0}
IsAscending ((k, m) ∷ ms) = Above k ms × IsAscending ms

-- No identifier stands twice.
abbrev IsDistinct : MessageStore → Type 0
IsDistinct [] = Unit {0}
IsDistinct ((k, m) ∷ ms) = (get k ms ≡ none) × IsDistinct ms

delete-IsDistinct : (k : ℕ) (ms : MessageStore) → IsDistinct ms → IsDistinct (delete k ms)
unfolding delete
delete-IsDistinct k [] d = tt
delete-IsDistinct k ((j, m) ∷ ms) d = elim (Bool-cases (j == k)) [
  | inl e ↦ rw e (delete-IsDistinct k ms d.1)
  | inr e ↦ rw e (get-delete k j ms ∙ rw (e, d.0) refl, delete-IsDistinct k ms d.1)
]

get-delete_self : (k : ℕ) (ms : MessageStore) → get k (delete k ms) ≡ none
get-delete_self k ms = get-delete k k ms ∙ rw ((==_iff k k).1 refl) refl

distinct-IsDistinct : (ms : MessageStore) → IsDistinct (distinct ms)
unfolding distinct
distinct-IsDistinct [] = tt
distinct-IsDistinct ((k, m) ∷ ms) =
    (get-delete_self k (distinct ms), delete-IsDistinct k (distinct ms) (distinct-IsDistinct ms))

get-distinct : (j : ℕ) (ms : MessageStore) → get j (distinct ms) ≡ get j ms
unfolding get distinct
get-distinct j [] = refl
get-distinct j ((k, m) ∷ ms) = ground (arith, get-delete k j (distinct ms), get-distinct j ms)

get-insert_by :
    (k m j : ℕ) (ms : MessageStore)
    → get j (insert_by (λ e. e.0) (k, m) ms) ≡ (if k == j then some m else get j ms)
unfolding get insert_by
get-insert_by k m j [] = refl
get-insert_by k m j ((i, n) ∷ ms) = ground (arith, get-insert_by k m j ms)

get-sort_by : (j : ℕ) (ms : MessageStore) → get j (sort_by (λ e. e.0) ms) ≡ get j ms
unfolding get sort_by
get-sort_by j [] = refl
get-sort_by j ((k, m) ∷ ms) =
    ground (arith, get-insert_by k m j (sort_by (λ e. e.0) ms), get-sort_by j ms)

pub get-sorted_entries : (j : ℕ) (ms : MessageStore) → get j (sorted_entries ms) ≡ get j ms
unfolding sorted_entries
get-sorted_entries j ms = get-sort_by j (distinct ms) ∙ get-distinct j ms

Above-trans : (j k : ℕ) (ms : MessageStore) → j < k → Above k ms → Above j ms
Above-trans j k [] lt h = tt
Above-trans j k ((i, m) ∷ ms) lt h = (omega (arith, h.0), Above-trans j k ms lt h.1)

insert_by-Above :
    (j k m : ℕ) (ms : MessageStore) → j < k → Above j ms → Above j (insert_by (λ e. e.0) (k, m) ms)
unfolding insert_by
insert_by-Above j k m [] lt h = (lt, tt)
insert_by-Above j k m ((i, n) ∷ ms) lt h = elim (Bool-cases (ltb i k)) [
  | inl e ↦ rw e (h.0, insert_by-Above j k m ms lt h.1)
  | inr e ↦ rw e (lt, h)
]

insert_by-IsAscending :
    (k m : ℕ) (ms : MessageStore)
    → get k ms ≡ none
    → IsAscending ms
    → IsAscending (insert_by (λ e. e.0) (k, m) ms)
unfolding insert_by get
insert_by-IsAscending k m [] g h = (tt, tt)
insert_by-IsAscending k m ((i, n) ∷ ms) g h = elim (Bool-cases (ltb i k)) [
  | inl e ↦
      let rest : get k ms ≡ none = ground arith in
      rw e (insert_by-Above i k m ms (ground arith) h.0, insert_by-IsAscending k m ms rest h.1)
  | inr e ↦ let lt : k < i = ground arith in rw e ((lt, Above-trans k i ms lt h.0), h)
]

sort_by-IsAscending : (ms : MessageStore) → IsDistinct ms → IsAscending (sort_by (λ e. e.0) ms)
unfolding sort_by
sort_by-IsAscending [] d = tt
sort_by-IsAscending ((k, m) ∷ ms) d =
    insert_by-IsAscending k m (sort_by (λ e. e.0) ms) (get-sort_by k ms ∙ d.0)
      (sort_by-IsAscending ms d.1)

pub get-Memᴰ : (i a : ℕ) (ms : MessageStore) → get i ms ≡ some a → Memᴰ (i, a) ms
unfolding get
get-Memᴰ i a [] g = absurd cc
get-Memᴰ i a ((k, m) ∷ ms) g = elim (Bool-cases (k == i)) [
  | inl e ↦
      let m' = subst (λ b. (if b then some m else get i ms) ≡ some a) e g in
      Memᴰ.head (ap₂ (λ x y. (x, y)) (sym ((==_iff k i).0 e)) (sym (some-injective _ _ m')))
  | inr e ↦ Memᴰ.tail (get-Memᴰ i a ms (subst (λ b. (if b then some m else get i ms) ≡ some a) e g))
]

Memᴰ-Above : (k i a : ℕ) (ms : MessageStore) → Above k ms → Memᴰ (i, a) ms → k < i
Memᴰ-Above k i a [] h m = elim m [ ]
Memᴰ-Above k i a ((j, n) ∷ ms) h (Memᴰ.head e) = subst (λ x. k < x) (sym (ap (λ p. p.0) e)) h.0
Memᴰ-Above k i a ((j, n) ∷ ms) h (Memᴰ.tail m) = Memᴰ-Above k i a ms h.1 m

Memᴰ-get : (i a : ℕ) (ms : MessageStore) → IsAscending ms → Memᴰ (i, a) ms → get i ms ≡ some a
unfolding get
Memᴰ-get i a [] h m = elim m [ ]
Memᴰ-get i a ((j, n) ∷ ms) h (Memᴰ.head e) =
    let ei : i ≡ j = ap (λ p. p.0) e in let ea : a ≡ n = ap (λ p. p.1) e in ground arith
Memᴰ-get i a ((j, n) ∷ ms) h (Memᴰ.tail m) =
    let lt = Memᴰ-Above j i a ms h.0 m in let rest = Memᴰ-get i a ms h.1 m in ground arith

-- The entries are those of the map, from the least identifier up: every identifier is above those
-- before it, and a message stands in the list under an identifier exactly when `get` finds it there.
pub record Lists (ms entries : MessageStore) : Type 0 where
  pub ascending : IsAscending entries
  pub stored : (i m : ℕ) → Memᴰ (i, m) entries ↔ get i ms ≡ some m

-- `RangeSorted` passes on every message that the store has and no other, each one once and with its
-- identifier, and every identifier after those that are below it.
pub sorted_entries-Lists : (ms : MessageStore) → Lists ms (sorted_entries ms)
unfolding sorted_entries
sorted_entries-Lists ms =
    let up = sort_by-IsAscending (distinct ms) (distinct-IsDistinct ms) in
    record {
      ascending = up;
      stored = λ i m. (
        λ mem. sym (get-sorted_entries i ms) ∙ Memᴰ-get i m (sorted_entries ms) up mem,
        λ g. get-Memᴰ i m (sorted_entries ms) (get-sorted_entries i ms ∙ g),
      );
    }
