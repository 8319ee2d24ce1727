-- ===== src/Topic/FindAll.antt =====
-- What `findAll` returns: the first level of the name, and the first level of each wildcard that its
-- flag allows.
use gott.Common.{
  Bool, true, false, not, ◌&&◌, ◌||◌, List, [], ◌∷◌, ◌++◌, some, Bytes, bytes_eq, if◌then◌else◌,
  ◌≡◌, refl, sym, ap, ◌∙◌, inl, inr, Bool-cases, arith,
}
use mathlib.Core.Option.{some-injective}
use mathlib.Core.List.{Memᴰ}
use mathlib.Core.List.Memᴰ
use gott.Topic.Level.{Node, Forest, no_levels, level, Level, find, find_all_loop}

module _ {ℓ} {A : Type ℓ} where
  pub Memᴰ-if : {a x : A} (c : Bool) → Memᴰ a (if c then x ∷ [] else []) → (c ≡ true) × (a ≡ x)
  Memᴰ-if true m = (refl, Memᴰ.eq_of_singleton m)
  Memᴰ-if false m = absurd (Memᴰ.not-nil m)

  Memᴰ-if_true : (x : A) {c : Bool} → c ≡ true → Memᴰ x (if c then x ∷ [] else [])
  Memᴰ-if_true x e = rw e (Memᴰ.head refl)

  Memᴰ-stop :
      {a : A} (c : Bool) (xs ys : List A) → Memᴰ a (if c then xs else xs ++ ys) → Memᴰ a (xs ++ ys)
  Memᴰ-stop true xs ys m = Memᴰ.append_left ys m
  Memᴰ-stop false xs ys m = m

  Memᴰ-stop_left :
      {a : A} (c : Bool) (xs ys : List A) → Memᴰ a xs → Memᴰ a (if c then xs else xs ++ ys)
  Memᴰ-stop_left true xs ys m = m
  Memᴰ-stop_left false xs ys m = Memᴰ.append_left ys m

  Memᴰ-stop_right :
      {a : A} {c : Bool} (xs ys : List A)
      → c ≡ false
      → Memᴰ a ys
      → Memᴰ a (if c then xs else xs ++ ys)
  Memᴰ-stop_right xs ys e m = rw e (Memᴰ.append_right xs m)

pub find_here :
    (b : Bytes) (n : Node) (ch rest : Forest)
    → bytes_eq n.bytes b ≡ true
    → find b (level n ch rest) ≡ some (record { node = n; children = ch })
unfolding find
find_here b n ch rest e = rw e refl

pub find_later :
    (b : Bytes) (n : Node) (ch rest : Forest)
    → bytes_eq n.bytes b ≡ false
    → find b (level n ch rest) ≡ find b rest
unfolding find
find_later b n ch rest e = rw e refl

module _ (v w : Bytes) (has_v has_w : Bool) (b : Bytes) where
  -- Why a level is among those that the loop returns.
  pub data Picked (t found_v found_w : Bool) (f : Forest) (l : Level) : Type 0 where
    named : t ≡ false → find b f ≡ some l → Picked t found_v found_w f l
    first : has_v ≡ true → found_v ≡ false → find v f ≡ some l → Picked t found_v found_w f l
    second : has_w ≡ true → found_w ≡ false → find w f ≡ some l → Picked t found_v found_w f l

  -- The three variables after a level.
  abbrev next_t : Bool → Node → Bool
  next_t t n = t || not t && bytes_eq n.bytes b

  abbrev next_v : Bool → Node → Bool
  next_v x n = x || has_v && not x && bytes_eq n.bytes v

  abbrev next_w : Bool → Node → Bool
  next_w y n = y || has_w && not y && bytes_eq n.bytes w

  Picked-later :
      (t x y : Bool) (n : Node) (ch rest : Forest) (l : Level)
      → Picked (next_t t n) (next_v x n) (next_w y n) rest l
      → Picked t x y (level n ch rest) l
  Picked-later t x y n ch rest l (named p e) =
      named (ground arith) (find_later b n ch rest (ground arith) ∙ e)
  Picked-later t x y n ch rest l (first h p e) =
      first h (ground arith) (find_later v n ch rest (ground arith) ∙ e)
  Picked-later t x y n ch rest l (second h p e) =
      second h (ground arith) (find_later w n ch rest (ground arith) ∙ e)

  abbrev this : Node → Forest → Level
  this n ch = record { node = n; children = ch }

  -- What the loop appends at one level.
  abbrev here : (t x y : Bool) → Node → Forest → List Level
  here t x y n ch =
      (if not t && bytes_eq n.bytes b then this n ch ∷ [] else [])
      ++ ((if has_v && not x && bytes_eq n.bytes v then this n ch ∷ [] else [])
          ++ (if has_w && not y && bytes_eq n.bytes w then this n ch ∷ [] else []))

  here_sound :
      (t x y : Bool) (n : Node) (ch rest : Forest) (l : Level)
      → Memᴰ l (here t x y n ch)
      → Picked t x y (level n ch rest) l
  here_sound t x y n ch rest l m =
      elim (Memᴰ.append_cases (if not t && bytes_eq n.bytes b then this n ch ∷ [] else []) m) [
        | inl p ↦
            let (c, e) = Memᴰ-if _ p in
            named (ground arith) (find_here b n ch rest (ground arith) ∙ ap some (sym e))
        | inr q ↦
            elim (Memᴰ.append_cases
              (if has_v && not x && bytes_eq n.bytes v then this n ch ∷ [] else []) q) [
                | inl p ↦
                    let (c, e) = Memᴰ-if _ p in
                    first (ground arith) (ground arith)
                      (find_here v n ch rest (ground arith) ∙ ap some (sym e))
                | inr p ↦
                    let (c, e) = Memᴰ-if _ p in
                    second (ground arith) (ground arith)
                      (find_here w n ch rest (ground arith) ∙ ap some (sym e))
              ]
      ]

  pub find_all_loop_sound :
      (t x y : Bool) (f : Forest) (l : Level)
      → Memᴰ l (find_all_loop v w has_v has_w b t x y f)
      → Picked t x y f l
  unfolding find_all_loop
  find_all_loop_sound t x y no_levels l m = absurd (Memᴰ.not-nil m)
  find_all_loop_sound t x y (level n ch rest) l m =
      elim (Memᴰ.append_cases (here t x y n ch) (Memᴰ-stop _ (here t x y n ch) _ m)) [
        | inl h ↦ here_sound t x y n ch rest l h
        | inr r ↦
            Picked-later t x y n ch rest l
              (find_all_loop_sound (next_t t n) (next_v x n) (next_w y n) rest l r)
      ]

  -- The level that `find` returns at a level of that name is that level.
  found_here :
      (c : Bytes) (n : Node) (ch rest : Forest) (l : Level)
      → bytes_eq n.bytes c ≡ true
      → find c (level n ch rest) ≡ some l
      → l ≡ this n ch
  found_here c n ch rest l h e = some-injective _ _ (sym e ∙ find_here c n ch rest h)

  complete_cons :
      (t x y : Bool) (n : Node) (ch rest : Forest) (l : Level)
      → (Picked (next_t t n) (next_v x n) (next_w y n) rest l
          → Memᴰ l (find_all_loop v w has_v has_w b (next_t t n) (next_v x n) (next_w y n) rest))
      → Picked t x y (level n ch rest) l
      → Memᴰ l (find_all_loop v w has_v has_w b t x y (level n ch rest))
  unfolding find_all_loop
  complete_cons t x y n ch rest l ih (named p e) = elim (Bool-cases (bytes_eq n.bytes b)) [
    | inl hit ↦ Memᴰ-stop_left _ (here t x y n ch) _ (
        Memᴰ.append_left _ (
          Memᴰ.cast (found_here b n ch rest l hit e)
            (Memᴰ-if_true (this n ch) {c = not t && bytes_eq n.bytes b} (ground arith))))
    | inr miss ↦
        Memᴰ-stop_right (here t x y n ch) _ (ground arith)
          (ih (named (ground arith) (sym (find_later b n ch rest miss) ∙ e)))
  ]
  complete_cons t x y n ch rest l ih (first h p e) = elim (Bool-cases (bytes_eq n.bytes v)) [
    | inl hit ↦ Memᴰ-stop_left _ (here t x y n ch) _ (
        Memᴰ.append_right _ (
          Memᴰ.append_left _ (
            Memᴰ.cast (found_here v n ch rest l hit e) (
              Memᴰ-if_true (this n ch) {c = has_v && not x && bytes_eq n.bytes v} (ground arith)))))
    | inr miss ↦
        Memᴰ-stop_right (here t x y n ch) _ (ground arith)
          (ih (first h (ground arith) (sym (find_later v n ch rest miss) ∙ e)))
  ]
  complete_cons t x y n ch rest l ih (second h p e) = elim (Bool-cases (bytes_eq n.bytes w)) [
    | inl hit ↦ Memᴰ-stop_left _ (here t x y n ch) _ (
        Memᴰ.append_right _ (
          Memᴰ.append_right _ (
            Memᴰ.cast (found_here w n ch rest l hit e) (
              Memᴰ-if_true (this n ch) {c = has_w && not y && bytes_eq n.bytes w} (ground arith)))))
    | inr miss ↦
        Memᴰ-stop_right (here t x y n ch) _ (ground arith)
          (ih (second h (ground arith) (sym (find_later w n ch rest miss) ∙ e)))
  ]

  pub find_all_loop_complete :
      (t x y : Bool) (f : Forest) (l : Level)
      → Picked t x y f l
      → Memᴰ l (find_all_loop v w has_v has_w b t x y f)
  unfolding find
  find_all_loop_complete t x y no_levels l (named p e) = cc
  find_all_loop_complete t x y no_levels l (first h p e) = cc
  find_all_loop_complete t x y no_levels l (second h p e) = cc
  find_all_loop_complete t x y (level n ch rest) l p =
      complete_cons t x y n ch rest l
        (find_all_loop_complete (next_t t n) (next_v x n) (next_w y n) rest l) p
