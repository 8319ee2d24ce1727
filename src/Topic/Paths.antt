-- ===== src/Topic/Paths.antt =====
-- Levels by their path from the root, what a path of levels covers among topics, and the
-- well-formedness of a tree that `match` relies on.
use gott.Common.{
  true, false, List, [], ◌∷◌, Option, none, some, Bytes, bytes_eq, bytes_eq→eq, ◌≡◌, refl, sym,
  subst, ◌∙◌, inl, inr, Bool-cases, bytes_eq_self, arith,
}
use mathlib.Core.Option.{some-injective}
use gott.Types.{Subscription, Message}
use gott.Topic.Level.{
  topic_single_level_wildcard, topic_multi_level_wildcard, is_single, is_multi, is_some, Node,
  Forest, no_levels, level, Level, find,
}
use gott.Topic.FindAll.{find_here, find_later}

-- The level at a path, by the first level of each name.
unfoldable pub level_at : List Bytes → Forest → Option Level
unfolding find
level_at [] f = none
level_at (b ∷ []) f = find b f
level_at (b ∷ c ∷ p) f = elim (find b f) [ none ↦ none | some l ↦ level_at (c ∷ p) l.children ]

-- What a view of a level's node shows at a path, where a path that leads nowhere shows `x`.
module _ {ℓ} {X : Type ℓ} (view : Node → X) (x : X) where
  abbrev look_of : Option Level → X
  look_of none = x
  look_of (some l) = view l.node

  unfoldable pub look : List Bytes → Forest → X
  unfolding level_at
  look p f = look_of (level_at p f)

-- The subscriptions and the retained message at a path.
abbrev pub subs_at : List Bytes → Forest → List Subscription
subs_at = look (λ n. n.subscriptions) []

abbrev pub retained_at : List Bytes → Forest → Option Message
retained_at = look (λ n. n.retained_message) none

-- A path of levels covers the parts of a topic: part by part, where "+" covers any one part and a
-- last "#" covers one part or more.
pub data Covers : List Bytes → List Bytes → Type 0 where
  end : Covers [] []
  same : {b s : Bytes} {p t : List Bytes} → b ≡ s → Covers p t → Covers (b ∷ p) (s ∷ t)
  single :
      {b s : Bytes} {p t : List Bytes}
      → b ≡ topic_single_level_wildcard
      → Covers p t
      → Covers (b ∷ p) (s ∷ t)
  multi : {b s : Bytes} {t : List Bytes} → b ≡ topic_multi_level_wildcard → Covers (b ∷ []) (s ∷ t)

-- A filter matches a topic name part by part: "+" stands for any one part, and a last "#" for
-- any number of parts, none included.
pub data Matches : List Bytes → List Bytes → Type 0 where
  end : Matches [] []
  same : {b s : Bytes} {p t : List Bytes} → b ≡ s → Matches p t → Matches (b ∷ p) (s ∷ t)
  single :
      {b s : Bytes} {p t : List Bytes}
      → b ≡ topic_single_level_wildcard
      → Matches p t
      → Matches (b ∷ p) (s ∷ t)
  multi : {b : Bytes} {t : List Bytes} → b ≡ topic_multi_level_wildcard → Matches (b ∷ []) t

-- "#" stands in no part but the last.
abbrev pub MultiLast : List Bytes → Type 0
MultiLast [] = Unit {0}
MultiLast (b ∷ []) = Unit {0}
MultiLast (b ∷ c ∷ p) = (is_multi b ≡ false) × MultiLast (c ∷ p)

-- The flags of a level tell of its wildcard children, and a "#" level is a bare leaf.
pub record NodeOk (n : Node) (ch : Forest) : Type 0 where
  pub single_flag :
      is_some (find topic_single_level_wildcard ch) ≡ true → n.has_single_wildcard_as_child ≡ true
  pub multi_flag :
      is_some (find topic_multi_level_wildcard ch) ≡ true → n.has_multi_wildcard_as_child ≡ true
  pub multi_leaf : is_multi n.bytes ≡ true → ch ≡ no_levels
  pub multi_bare : is_multi n.bytes ≡ true → n.retained_message ≡ none

-- … at every level, and no slice has two levels of one name.
abbrev pub IsOk : Forest → Type 0
IsOk no_levels = Unit {0}
IsOk (level n ch rest) = NodeOk n ch × IsOk ch × IsOk rest × (find n.bytes rest ≡ none)

pub find-IsOk :
    (b : Bytes) (f : Forest) (l : Level)
    → find b f ≡ some l
    → IsOk f
    → NodeOk l.node l.children × IsOk l.children
unfolding find
find-IsOk b no_levels l e h = cc
find-IsOk b (level n ch rest) l e h = elim (Bool-cases (bytes_eq n.bytes b)) [
  | inl hit ↦
      subst (λ (k : Level). NodeOk k.node k.children × IsOk k.children)
        (some-injective (record { node = n; children = ch }) l
          (sym (find_here b n ch rest hit) ∙ e))
        (h.0, h.1)
  | inr miss ↦ find-IsOk b rest l (sym (find_later b n ch rest miss) ∙ e) h.2
]

pub find-bytes : (b : Bytes) (f : Forest) (l : Level) → find b f ≡ some l → l.node.bytes ≡ b
unfolding find
find-bytes b no_levels l e = cc
find-bytes b (level n ch rest) l e = elim (Bool-cases (bytes_eq n.bytes b)) [
  | inl hit ↦
      subst (λ (k : Level). k.node.bytes ≡ b)
        (some-injective (record { node = n; children = ch }) l
          (sym (find_here b n ch rest hit) ∙ e))
        (bytes_eq→eq n.bytes b hit)
  | inr miss ↦ find-bytes b rest l (sym (find_later b n ch rest miss) ∙ e)
]

module _ {ℓ} {X : Type ℓ} (view : Node → X) (x : X) where
  pub look-leaf : (p : List Bytes) → look view x p no_levels ≡ x
  unfolding look find
  look-leaf [] = refl
  look-leaf (b ∷ []) = refl
  look-leaf (b ∷ c ∷ p) = refl

  pub look-one :
      (b : Bytes) (f : Forest) (l : Level)
      → find b f ≡ some l
      → look view x (b ∷ []) f ≡ view l.node
  unfolding look
  look-one b f l e = rw e refl

  pub look-cons :
      (b c : Bytes) (p : List Bytes) (f : Forest) (l : Level)
      → find b f ≡ some l
      → look view x (b ∷ c ∷ p) f ≡ look view x (c ∷ p) l.children
  unfolding look
  look-cons b c p f l e = rw (e, level_at) refl

  pub look-none :
      (b : Bytes) (p : List Bytes) (f : Forest) → find b f ≡ none → look view x (b ∷ p) f ≡ x
  unfolding look
  look-none b [] f e = rw e refl
  look-none b (c ∷ p) f e = rw (e, level_at) refl

  -- A path begins at the level that `find` returns for its first name.
  pub look-congr :
      (b : Bytes) (p : List Bytes) (f g : Forest)
      → find b f ≡ find b g
      → look view x (b ∷ p) f ≡ look view x (b ∷ p) g
  unfolding look
  look-congr b [] f g e = rw e refl
  look-congr b (c ∷ p) f g e = rw (e, level_at) refl

pub subs_at-leaf : (p : List Bytes) → subs_at p no_levels ≡ []
subs_at-leaf = look-leaf _ _

pub subs_at-one :
    (b : Bytes) (f : Forest) (l : Level)
    → find b f ≡ some l
    → subs_at (b ∷ []) f ≡ l.node.subscriptions
subs_at-one = look-one (λ n. n.subscriptions) []

pub subs_at-cons :
    (b c : Bytes) (p : List Bytes) (f : Forest) (l : Level)
    → find b f ≡ some l
    → subs_at (b ∷ c ∷ p) f ≡ subs_at (c ∷ p) l.children
subs_at-cons = look-cons (λ n. n.subscriptions) []

pub subs_at-none :
    (b : Bytes) (p : List Bytes) (f : Forest) → find b f ≡ none → subs_at (b ∷ p) f ≡ []
subs_at-none = look-none (λ n. n.subscriptions) []

pub level_at-one : (b : Bytes) (f : Forest) → level_at (b ∷ []) f ≡ find b f
unfolding level_at
level_at-one b f = refl

pub level_at-cons :
    (b c : Bytes) (p : List Bytes) (f : Forest) (l : Level)
    → find b f ≡ some l
    → level_at (b ∷ c ∷ p) f ≡ level_at (c ∷ p) l.children
unfolding level_at
level_at-cons b c p f l e = rw (e, level_at) refl

pub level_at-none :
    (b : Bytes) (p : List Bytes) (f : Forest) → find b f ≡ none → level_at (b ∷ p) f ≡ none
unfolding level_at
level_at-none b [] f e = e
level_at-none b (c ∷ p) f e = rw (e, level_at) refl

-- A path begins at the level that `find` returns for its first name.
pub level_at-congr :
    (b : Bytes) (p : List Bytes) (f g : Forest)
    → find b f ≡ find b g
    → level_at (b ∷ p) f ≡ level_at (b ∷ p) g
unfolding level_at
level_at-congr b [] f g e = e
level_at-congr b (c ∷ p) f g e = rw (e, level_at) refl

-- No name is both wildcards.
pub single_of_multi : (b : Bytes) → is_multi b ≡ true → is_single b ≡ false
unfolding bytes_eq
single_of_multi b h = subst (λ a. is_single a ≡ false) (sym (bytes_eq→eq b _ h)) refl

pub bytes_eq_ne : (a b : Bytes) → bytes_eq a b ≡ false → bytes_eq b a ≡ false
bytes_eq_ne a b h = ground (arith, bytes_eq→eq b a, bytes_eq_self a)
