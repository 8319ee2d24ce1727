-- ===== src/Topic/Upsert.antt =====
-- Changing the level of a name, with a new level where there is none: what `find` and the paths show
-- afterwards, and that the tree stays well formed.
use gott.Common.{
  false, ◌||◌, List, [], ◌∷◌, Option, none, some, Bytes, bytes_eq, bytes_eq→eq, bytes_eq_self,
  if◌then◌else◌, ◌≡◌, refl, sym, ap, ◌∙◌, inl, inr, Bool-cases, Option-cases, arith,
}
use gott.Topic.Level.{
  is_some, Node, Forest, no_levels, level, Level, new_node, find, add_child, ensure, modify,
}
use gott.Topic.Paths.{look, look-one, look-cons, look-none, look-congr, look-leaf, find-bytes}

abbrev new_level : Bytes → Level
new_level b = record { node = new_node b; children = no_levels }

abbrev or_new : Bytes → Option Level → Level
or_new b none = new_level b
or_new b (some l) = l

-- The level that `find b` returns, or the new one.
pub found_or_new : Bytes → Forest → Level
found_or_new b f = or_new b (find b f)

pub found_or_new-bytes : (b : Bytes) (f : Forest) → (found_or_new b f).node.bytes ≡ b
unfolding found_or_new
found_or_new-bytes b f = elim (Option-cases (find b f)) [
  | inl e ↦ rw e refl
  | inr (l, e) ↦ rw e (find-bytes b f l e)
]

pub find-add_child :
    (c b : Bytes) (f : Forest)
    → find b f ≡ none
    → find c (add_child (new_node b) f) ≡ (if bytes_eq b c then some (new_level b) else find c f)
unfolding find add_child
find-add_child c b no_levels e = refl
find-add_child c b (level n ch rest) e =
    ground (arith, find-add_child c b rest, bytes_eq→eq n.bytes c, bytes_eq→eq b c, bytes_eq_self b)

abbrev pub KeepsName : (Node → Forest → Level) → Type 0
KeepsName g = (n : Node) (ch : Forest) → (g n ch).node.bytes ≡ n.bytes

abbrev pub upsert : (Node → Forest → Level) → Bytes → Forest → Forest
upsert g b f = modify g b (ensure b f)

pub find-modify_self :
    (g : Node → Forest → Level) (b : Bytes) (f : Forest) (l : Level)
    → KeepsName g
    → find b f ≡ some l
    → find b (modify g b f) ≡ some (g l.node l.children)
unfolding find modify
find-modify_self g b no_levels l k e = cc
find-modify_self g b (level n ch rest) l k e = elim (Bool-cases (bytes_eq n.bytes b)) [
  | inl h ↦ ground (arith, k n ch)
  | inr h ↦ ground (arith, find-modify_self g b rest l k)
]

pub find-modify_ne :
    (g : Node → Forest → Level) (b c : Bytes) (f : Forest)
    → KeepsName g
    → bytes_eq b c ≡ false
    → find c (modify g b f) ≡ find c f
unfolding find modify
find-modify_ne g b c no_levels k e = refl
find-modify_ne g b c (level n ch rest) k e = elim (Bool-cases (bytes_eq n.bytes b)) [
  | inl h ↦ ground (arith, k n ch, bytes_eq→eq n.bytes b, bytes_eq→eq n.bytes c, bytes_eq_self c)
  | inr h ↦ ground (arith, find-modify_ne g b c rest k)
]

find-ensure_self : (b : Bytes) (f : Forest) → find b (ensure b f) ≡ some (found_or_new b f)
unfolding ensure found_or_new
find-ensure_self b f = elim (Option-cases (find b f)) [
  | inl e ↦ ground (arith, find-add_child b b f e, bytes_eq_self b)
  | inr (l, e) ↦ rw (e, e) refl
]

find-ensure_ne : (b c : Bytes) (f : Forest) → bytes_eq b c ≡ false → find c (ensure b f) ≡ find c f
unfolding ensure
find-ensure_ne b c f h = elim (Option-cases (find b f)) [
  | inl e ↦ ground (arith, find-add_child c b f e)
  | inr (l, e) ↦ rw e refl
]

module _ (g : Node → Forest → Level) (k : KeepsName g) (b : Bytes) (f : Forest) where
  find-upsert_self :
      find b (upsert g b f) ≡ some (g (found_or_new b f).node (found_or_new b f).children)
  find-upsert_self = find-modify_self g b (ensure b f) (found_or_new b f) k (find-ensure_self b f)

  find-upsert_ne : (c : Bytes) → bytes_eq b c ≡ false → find c (upsert g b f) ≡ find c f
  find-upsert_ne c h = find-modify_ne g b c (ensure b f) k h ∙ find-ensure_ne b c f h

  pub is_some-upsert :
      (c : Bytes) → is_some (find c (upsert g b f)) ≡ bytes_eq b c || is_some (find c f)
  is_some-upsert c = elim (Bool-cases (bytes_eq b c)) [
    | inl h ↦
        rw h (
          ap is_some (ap (λ a. find a (upsert g b f)) (sym (bytes_eq→eq b c h)) ∙ find-upsert_self))
    | inr h ↦ rw (find-upsert_ne c h, h) refl
  ]

-- A path through the level of a name, before and after.
module _ {ℓ} {X : Type ℓ} (view : Node → X) (x : X) where
  pub look-or_new :
      (b : Bytes) (f : Forest)
      → view (new_node b) ≡ x
      → look view x (b ∷ []) f ≡ view (found_or_new b f).node
  unfolding found_or_new
  look-or_new b f v = elim (Option-cases (find b f)) [
    | inl e ↦ rw e (look-none view x b [] f e ∙ sym v)
    | inr (l, e) ↦ rw e (look-one view x b f l e)
  ]

  pub look-or_new_cons :
      (b c : Bytes) (p : List Bytes) (f : Forest)
      → look view x (b ∷ c ∷ p) f ≡ look view x (c ∷ p) (found_or_new b f).children
  unfolding found_or_new
  look-or_new_cons b c p f = elim (Option-cases (find b f)) [
    | inl e ↦ rw e (look-none view x b (c ∷ p) f e ∙ sym (look-leaf view x (c ∷ p)))
    | inr (l, e) ↦ rw e (look-cons view x b c p f l e)
  ]

  module _ (g : Node → Forest → Level) (k : KeepsName g) (b : Bytes) (f : Forest) where
    pub look-upsert_ne :
        (a : Bytes) (q : List Bytes)
        → bytes_eq b a ≡ false
        → look view x (a ∷ q) (upsert g b f) ≡ look view x (a ∷ q) f
    look-upsert_ne a q h = look-congr view x a q _ _ (find-upsert_ne g k b f a h)

    pub look-upsert_one :
        look view x (b ∷ []) (upsert g b f)
        ≡ view (g (found_or_new b f).node (found_or_new b f).children).node
    look-upsert_one = look-one view x b _ _ (find-upsert_self g k b f)

    pub look-upsert_cons :
        (c : Bytes) (q : List Bytes)
        → look view x (b ∷ c ∷ q) (upsert g b f)
          ≡ look view x (c ∷ q) (g (found_or_new b f).node (found_or_new b f).children).children
    look-upsert_cons c q = look-cons view x b c q _ _ (find-upsert_self g k b f)
