-- ===== src/Topic/Valid.antt =====
-- What the two validity tests of topic_filter.go say of the parts of a filter or a topic name.
use gott.Common.{
  ℕ, ◌-◌, true, false, List, [], ◌∷◌, none, some, Bytes, bytes_eq, bytes_eq→eq, if◌then◌else◌,
  index_byte, split, length, All, ◌==◌, ◌≡◌, refl, subst, ◌⊎◌, inl, inr, Bool-cases, Option-cases,
  arith,
}
use gott.Common.Slices.{cons_head}
use gott.Topic.Level.{topic_delim, is_multi}
use gott.Topic.Filter.{valid_filter, valid_topic_name}
use gott.Topic.Paths.{MultiLast}
use gott.Topic.WellFormed.{Plain}

index_byte-tail :
    (x : ℕ) (b : Bytes) (c : ℕ)
    → index_byte (x ∷ b) c ≡ none
    → ((x == c) ≡ false) × (index_byte b c ≡ none)
unfolding index_byte
index_byte-tail x b c e = elim (Bool-cases (x == c)) [ inl h ↦ cc | inr h ↦ (h, ground arith) ]

-- No part of a split slice has a byte that the slice has not.
abbrev Lacks : ℕ → Bytes → Type 0
Lacks c b = index_byte b c ≡ none

Lacks-cons : (x c : ℕ) (b : Bytes) → (x == c) ≡ false → Lacks c b → Lacks c (x ∷ b)
unfolding index_byte
Lacks-cons x c b h e = ground arith

split-Lacks : (b : Bytes) (c d : ℕ) → Lacks c b → All (Lacks c) (split b d)
unfolding split index_byte
split-Lacks [] c d e = (refl, tt)
split-Lacks (x ∷ b) c d e =
    let (h, i) = index_byte-tail x b c e in
    elim (Bool-cases (x == d)) [
      | inl k ↦ rw k (refl, split-Lacks b c d i)
      | inr k ↦ rw k (go (split b d) (split-Lacks b c d i) h)
    ]
  where
    go : (ss : List Bytes) → All (Lacks c) ss → (x == c) ≡ false → All (Lacks c) (cons_head x ss)
    go [] a h = (Lacks-cons x c [] h refl, tt)
    go (s ∷ ss) a h = (Lacks-cons x c s h a.0, a.1)

wild-ne : (c : ℕ) (b : Bytes) → Lacks c b → bytes_eq b (c ∷ []) ≡ false
unfolding index_byte
wild-ne c b e = elim (Bool-cases (bytes_eq b (c ∷ []))) [
  | inl h ↦
      let i = index_byte-tail c [] c (subst (Lacks c) (bytes_eq→eq b (c ∷ []) h) e) in
      absurd (ground (arith, i.0))
  | inr h ↦ h
]

parts-Plain : (ss : List Bytes) → All (Lacks b'+') ss → All (Lacks b'#') ss → Plain ss
parts-Plain [] a m = tt
parts-Plain (s ∷ ss) a m = (wild-ne b'+' s a.0, wild-ne b'#' s m.0, parts-Plain ss a.1 m.1)

-- The parts of a valid topic name hold no wildcard.
pub valid_topic_name-Plain : (t : Bytes) → valid_topic_name t ≡ true → Plain (split t topic_delim)
unfolding valid_topic_name
valid_topic_name-Plain t h =
    parts-Plain (split t topic_delim) (split-Lacks t b'+' topic_delim (ground arith))
      (split-Lacks t b'#' topic_delim (ground arith))

-- The first "#" is the last byte, or there is none.
LastOnly : Bytes → Type 0
LastOnly b = (index_byte b b'#' ≡ none) ⊎ (index_byte b b'#' ≡ some (length b - 1))

LastOnly-tail :
    (x : ℕ) (b : Bytes) → LastOnly (x ∷ b) → ((x == b'#') ≡ false × LastOnly b) ⊎ (b ≡ [])
unfolding LastOnly index_byte
LastOnly-tail x [] h = inr refl
LastOnly-tail x (y ∷ b) h = elim (Bool-cases (x == b'#')) [
  | inl k ↦ absurd (ground arith)
  | inr k ↦ inl (
    k,
    elim (Option-cases (index_byte (y ∷ b) b'#')) [
      | inl e ↦ inl e
      | inr (i, e) ↦ inr (ground arith)
    ],
  )
]

is_multi-cons : (x : ℕ) (s : Bytes) → (x == b'#') ≡ false → is_multi (x ∷ s) ≡ false
unfolding bytes_eq
is_multi-cons x s h = ground arith

cons_head-MultiLast :
    (x : ℕ) (ss : List Bytes) → (x == b'#') ≡ false → MultiLast ss → MultiLast (cons_head x ss)
cons_head-MultiLast x [] h m = tt
cons_head-MultiLast x (s ∷ []) h m = tt
cons_head-MultiLast x (s ∷ t ∷ ss) h m = (is_multi-cons x s h, m.1)

slash-MultiLast : (ss : List Bytes) → MultiLast ss → MultiLast ([] ∷ ss)
unfolding bytes_eq
slash-MultiLast [] m = tt
slash-MultiLast (s ∷ ss) m = (refl, m)

one-MultiLast :
    (x : ℕ) → MultiLast (if x == topic_delim then [] ∷ [] ∷ [] else cons_head x ([] ∷ []))
unfolding bytes_eq
one-MultiLast x = ground arith

LastOnly-MultiLast : (b : Bytes) → LastOnly b → MultiLast (split b topic_delim)
unfolding split
LastOnly-MultiLast [] h = tt
LastOnly-MultiLast (x ∷ b) h = elim (LastOnly-tail x b h) [
  | inl (k, r) ↦ elim (Bool-cases (x == topic_delim)) [
    | inl d ↦ rw d (slash-MultiLast (split b topic_delim) (LastOnly-MultiLast b r))
    | inr d ↦ rw d (cons_head-MultiLast x (split b topic_delim) k (LastOnly-MultiLast b r))
  ]
  | inr e ↦ rw e (one-MultiLast x)
]

-- A valid filter has "#" in no part but the last.
pub valid_filter-MultiLast : (f : Bytes) → valid_filter f ≡ true → MultiLast (split f topic_delim)
unfolding valid_filter LastOnly
valid_filter-MultiLast f h =
    LastOnly-MultiLast f
      (elim (Option-cases (index_byte f b'#')) [ inl e ↦ inl e | inr (i, e) ↦ inr (ground arith) ])
