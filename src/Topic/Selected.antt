-- ===== src/Topic/Selected.antt =====
-- The levels that a filter selects: every level that `reverse` finds is one.
use gott.Common.{
  Bool, true, false, not, ◌&&◌, ◌||◌, List, [], ◌∷◌, none, some, Bytes, bytes_eq, bytes_eq→eq,
  bytes_eq_self, if◌then◌else◌, ◌≡◌, refl, sym, ap, ◌∙◌, ◌⊎◌, inl, inr, Bool-cases, arith,
}
use mathlib.Core.List.{Memᴰ}
use mathlib.Core.List.Memᴰ
use gott.Topic.Level.{
  topic_multi_level_wildcard, is_single, is_multi, is_some, Node, Forest, no_levels, level, Level,
  find, reverse_at, reverse_children,
}
use gott.Topic.FindAll.{find_here, find_later, Memᴰ-if}
use gott.Topic.Paths.{
  level_at, Matches, end, same, single, multi, MultiLast, IsOk, level_at-one, level_at-cons,
  level_at-none, level_at-congr,
}

abbrev pub HasRetained : Level → Type 0
HasRetained l = is_some l.node.retained_message ≡ true

-- A level of the slice or below it, at a path that the filter matches, with a retained message.
unfoldable pub Selected : Forest → List Bytes → Level → Type 0
Selected f segs l =
    (b : Bytes) × (p : List Bytes) × Matches segs (b ∷ p)
    × (level_at (b ∷ p) f ≡ some l)
    × HasRetained l

-- The same for a level and all that is below it, where the level's own path is used up.
unfoldable pub SelectedAt : Node → Forest → List Bytes → Level → Type 0
SelectedAt n ch segs l =
    ((l ≡ record { node = n; children = ch }) × Matches segs [] × HasRetained l)
    ⊎ Selected ch segs l

abbrev pub this : Node → Forest → Level
this n ch = record { node = n; children = ch }

multi_only :
    (seg : Bytes) (segs : List Bytes) → MultiLast (seg ∷ segs) → is_multi seg ≡ true → segs ≡ []
multi_only seg [] h e = refl
multi_only seg (t ∷ ts) h e = cc

MultiLast-tail : (seg : Bytes) (segs : List Bytes) → MultiLast (seg ∷ segs) → MultiLast segs
MultiLast-tail seg [] h = tt
MultiLast-tail seg (t ∷ ts) h = h.1

-- The level itself, as `reverse` appends it for a "#".
pub find-no_levels : (b : Bytes) → find b no_levels ≡ none
unfolding find
find-no_levels b = refl

unfoldable pub own : Bytes → Node → Forest → List Level
own seg n ch =
    if is_multi seg && not (is_multi n.bytes) && is_some n.retained_message
    then this n ch ∷ []
    else []

pub record Own (seg : Bytes) (n : Node) (ch : Forest) (l : Level) : Type 0 where
  pub is_hash : is_multi seg ≡ true
  pub retained : is_some n.retained_message ≡ true
  pub equal : l ≡ this n ch

own-Own :
    (seg : Bytes) (n : Node) (ch : Forest) (l : Level) → Memᴰ l (own seg n ch) → Own seg n ch l
unfolding own
own-Own seg n ch l m =
    let (c, e) = Memᴰ-if (is_multi seg && not (is_multi n.bytes) && is_some n.retained_message) m in
    record { is_hash = ground arith; retained = ground arith; equal = e }

reverse_at_sound :
    (n : Node) (ch : Forest) (segs : List Bytes) (l : Level)
    → MultiLast segs
    → ((seg : Bytes) (ts : List Bytes)
        → MultiLast (seg ∷ ts)
        → Memᴰ l (reverse_children ch seg ts)
        → Selected ch (seg ∷ ts) l)
    → Memᴰ l (reverse_at (reverse_children ch) n ch segs)
    → SelectedAt n ch segs l
unfolding reverse_at SelectedAt own
reverse_at_sound n ch [] l ok ih m =
    let (c, e) = Memᴰ-if (is_some n.retained_message) m in inl (e, end, rw e c)
reverse_at_sound n ch (seg ∷ segs) l ok ih m = elim (Memᴰ.append_cases (own seg n ch) m) [
  | inl p ↦
      let o = own-Own seg n ch l p in
      inl (
        o.equal,
        rw (multi_only seg segs ok o.is_hash) (multi (bytes_eq→eq seg _ o.is_hash)),
        rw o.equal o.retained,
      )
  | inr q ↦ inr (ih seg segs ok q)
]

module _ (n : Node) (ch rest : Forest) where
  pub find_self : find n.bytes (level n ch rest) ≡ some (this n ch)
  find_self = find_here n.bytes n ch rest (bytes_eq_self n.bytes)

  -- What is selected at the first level or below it is selected in the slice.
  pub lift_here :
      (ts ss : List Bytes) (l : Level)
      → ((p : List Bytes) → Matches ts p → Matches ss (n.bytes ∷ p))
      → SelectedAt n ch ts l
      → Selected (level n ch rest) ss l
  unfolding SelectedAt Selected
  lift_here ts ss l step (inl (e, m, r)) =
      (n.bytes, [], step [] m, level_at-one n.bytes _ ∙ find_self ∙ ap some (sym e), r)
  lift_here ts ss l step (inr (b, p, m, e, r)) =
      (n.bytes, b ∷ p, step (b ∷ p) m, level_at-cons n.bytes b p _ _ find_self ∙ e, r)

  pub lift_rest :
      (ss : List Bytes) (l : Level)
      → find n.bytes rest ≡ none
      → Selected rest ss l
      → Selected (level n ch rest) ss l
  unfolding Selected
  lift_rest ss l fresh (b, p, m, e, r) = elim (Bool-cases (bytes_eq n.bytes b)) [
    | inl hit ↦ cc (
      level_at-none n.bytes p rest fresh,
      e,
      ap (λ (a : Bytes). level_at (a ∷ p) rest) (bytes_eq→eq n.bytes b hit),
    )
    | inr miss ↦ (b, p, m, level_at-congr b p _ _ (find_later b n ch rest miss) ∙ e, r)
  ]

Memᴰ-branch {ℓ} :
    {A : Type ℓ} {x : A} (a b : Bool) (xs ys : List A)
    → Memᴰ x (if a then xs else if b then ys else [])
    → ((a ≡ true) × Memᴰ x xs) ⊎ ((a ≡ false) × (b ≡ true) × Memᴰ x ys)
Memᴰ-branch true b xs ys m = inl (refl, m)
Memᴰ-branch false true xs ys m = inr (refl, refl, m)
Memᴰ-branch false false xs ys m = absurd (Memᴰ.not-nil m)

-- A part that is "+" or the level's name matches the level.
match_part :
    (seg b : Bytes) (segs p : List Bytes)
    → is_single seg || bytes_eq seg b ≡ true
    → Matches segs p
    → Matches (seg ∷ segs) (b ∷ p)
match_part seg b segs p h m = elim (Bool-cases (is_single seg)) [
  | inl e ↦ single (bytes_eq→eq seg _ e) m
  | inr e ↦ same (bytes_eq→eq seg b (ground arith)) m
]

pub reverse_children_sound :
    (f : Forest) (seg : Bytes) (segs : List Bytes) (l : Level)
    → IsOk f
    → MultiLast (seg ∷ segs)
    → Memᴰ l (reverse_children f seg segs)
    → Selected f (seg ∷ segs) l
unfolding reverse_children
reverse_children_sound no_levels seg segs l ok last m = absurd (Memᴰ.not-nil m)
reverse_children_sound (level n ch rest) seg segs l ok last m =
    elim (Memᴰ.append_cases
      (if is_multi seg
        then reverse_at (reverse_children ch) n ch (topic_multi_level_wildcard ∷ [])
        else if is_single seg || bytes_eq seg n.bytes
        then reverse_at (reverse_children ch) n ch segs
        else [])
      m) [
        | inl p ↦ elim (Memᴰ-branch (is_multi seg) (is_single seg || bytes_eq seg n.bytes) _ _ p) [
          | inl (e, q) ↦
              lift_here n ch rest (topic_multi_level_wildcard ∷ []) (seg ∷ segs) l
                (λ p' _. rw (multi_only seg segs last e) (multi (bytes_eq→eq seg _ e)))
                (reverse_at_sound n ch (topic_multi_level_wildcard ∷ []) l tt
                  (λ s ts lt mt. reverse_children_sound ch s ts l ok.1 lt mt) q)
          | inr (_, h, q) ↦
              lift_here n ch rest segs (seg ∷ segs) l (λ p' m'. match_part seg n.bytes segs p' h m')
                (reverse_at_sound n ch segs l (MultiLast-tail seg segs last)
                  (λ s ts lt mt. reverse_children_sound ch s ts l ok.1 lt mt) q)
        ]
        | inr q ↦
            lift_rest n ch rest (seg ∷ segs) l ok.3
              (reverse_children_sound rest seg segs l ok.2 last q)
      ]
