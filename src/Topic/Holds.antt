-- ===== src/Topic/Holds.antt =====
-- What the subtrees of the levels that the search goes to hold for the rest of a topic.
use gott.Common.{
  Bool, true, false, List, [], ◌∷◌, ◌++◌, some, Bytes, bytes_eq→eq, bytes_eq_self, ◌≡◌, refl, sym,
  subst, ◌∙◌, ◌⊎◌, inl, inr, Option-cases, append_assoc,
}
use mathlib.Core.List.{Memᴰ}
use mathlib.Core.List.Memᴰ
use gott.Types.{Subscription}
use gott.Topic.Level.{
  topic_single_level_wildcard, topic_multi_level_wildcard, is_multi, is_some, Forest, no_levels,
  Level, find, each_hit,
}
use gott.Topic.FindAll.{Picked, named, first, second}
use gott.Topic.Paths.{
  subs_at, Covers, end, same, single, multi, NodeOk, IsOk, find-IsOk, find-bytes, subs_at-leaf,
  subs_at-one, subs_at-cons, subs_at-none,
}

-- The subscriptions that the loops of `Publish` visit.
unfoldable pub deliver : List Level → List Subscription
deliver [] = []
deliver (l ∷ ls) = l.node.subscriptions ++ deliver ls

deliver-append : (xs ys : List Level) → deliver (xs ++ ys) ≡ deliver xs ++ deliver ys
unfolding deliver
deliver-append [] ys = refl
deliver-append (x ∷ xs) ys = simp (deliver-append xs ys, append_assoc)

module _ (g : Level → List Level) (s : Subscription) where
  pub deliver-each :
      (ls : List Level)
      → Memᴰ s (deliver (each_hit g ls))
      → (l : Level) × Memᴰ l ls × Memᴰ s (deliver (g l))
  unfolding each_hit deliver
  deliver-each [] m = absurd (Memᴰ.not-nil m)
  deliver-each (l ∷ ls) m = elim (Memᴰ.append_cases (deliver (g l)) (rw deliver-append at m)) [
    | inl p ↦ (l, Memᴰ.head refl, p)
    | inr q ↦ let (k, i, d) = deliver-each ls q in (k, Memᴰ.tail i, d)
  ]

  pub each-deliver :
      (l : Level) (ls : List Level)
      → Memᴰ l ls
      → Memᴰ s (deliver (g l))
      → Memᴰ s (deliver (each_hit g ls))
  unfolding each_hit
  each-deliver l [] i d = absurd (Memᴰ.not-nil i)
  each-deliver l (k ∷ ls) (Memᴰ.head e) d =
      rw deliver-append (Memᴰ.append_left _ (subst (λ j. Memᴰ s (deliver (g j))) e d))
  each-deliver l (k ∷ ls) (Memᴰ.tail i) d =
      rw deliver-append (Memᴰ.append_right (deliver (g k)) (each-deliver l ls i d))

-- What a level's subtree holds for the rest of a topic.
unfoldable pub Holds : Level → List Bytes → Subscription → Type 0
Holds l [] s = Memᴰ s l.node.subscriptions
Holds l (seg ∷ segs) s =
    ((is_multi l.node.bytes ≡ true) × Memᴰ s l.node.subscriptions)
    ⊎ ((p : List Bytes) × Covers p (seg ∷ segs) × Memᴰ s (subs_at p l.children))

-- A level of a slice that covers the next part of the topic.
pub data Next (f : Forest) (seg : Bytes) (l : Level) : Type 0 where
  next : (b : Bytes) → Covers (b ∷ []) (seg ∷ []) → find b f ≡ some l → Next f seg l

pub not-in-leaf : (p : List Bytes) (s : Subscription) → ¬ Memᴰ s (subs_at p no_levels)
not-in-leaf p s m = Memᴰ.not-nil (rw (subs_at-leaf p) at m)

-- One step down: a path goes on from a level that covers the part.
prepend :
    (b seg t : Bytes) (ts p : List Bytes) (f : Forest) (l : Level) (s : Subscription)
    → find b f ≡ some l
    → (b ≡ topic_multi_level_wildcard → l.children ≡ no_levels)
    → Covers (b ∷ []) (seg ∷ [])
    → Covers p (t ∷ ts)
    → Memᴰ s (subs_at p l.children)
    → (q : List Bytes) × Covers q (seg ∷ t ∷ ts) × Memᴰ s (subs_at q f)
prepend b seg t ts [] f l s e leaf c cov m = elim cov [ ]
prepend b seg t ts (c' ∷ p) f l s e leaf (same i d) cov m =
    (b ∷ c' ∷ p, same i cov, rw (subs_at-cons b c' p f l e) m)
prepend b seg t ts (c' ∷ p) f l s e leaf (single i d) cov m =
    (b ∷ c' ∷ p, single i cov, rw (subs_at-cons b c' p f l e) m)
prepend b seg t ts (c' ∷ p) f l s e leaf (multi i) cov m =
    absurd (not-in-leaf (c' ∷ p) s (subst (λ k. Memᴰ s (subs_at (c' ∷ p) k)) (leaf i) m))

leaf_of :
    (b : Bytes) (f : Forest) (l : Level)
    → IsOk f
    → find b f ≡ some l
    → b ≡ topic_multi_level_wildcard
    → l.children ≡ no_levels
leaf_of b f l ok e i =
    (find-IsOk b f l e ok).0.multi_leaf
      (rw (find-bytes b f l e, i) (bytes_eq_self topic_multi_level_wildcard))

pub extend :
    (f : Forest) (seg : Bytes) (segs : List Bytes) (l : Level) (s : Subscription)
    → IsOk f
    → Next f seg l
    → Holds l segs s
    → (p : List Bytes) × Covers p (seg ∷ segs) × Memᴰ s (subs_at p f)
unfolding Holds
extend f seg [] l s ok (next b c e) h = (b ∷ [], c, rw (subs_at-one b f l e) h)
extend f seg (t ∷ ts) l s ok (next b c e) (inl (is_m, m)) = (
  b ∷ [],
  multi (sym (find-bytes b f l e) ∙ bytes_eq→eq l.node.bytes _ is_m),
  rw (subs_at-one b f l e) m,
)
extend f seg (t ∷ ts) l s ok (next b c e) (inr (p, cov, m)) =
    prepend b seg t ts p f l s e (leaf_of b f l ok e) c cov m

pub found :
    (b : Bytes) (p : List Bytes) (f : Forest) (s : Subscription)
    → Memᴰ s (subs_at (b ∷ p) f)
    → (l : Level) × (find b f ≡ some l)
found b p f s m = elim (Option-cases (find b f)) [
  | inl e ↦ absurd (Memᴰ.not-nil (rw (subs_at-none b p f e) at m))
  | inr r ↦ r
]

-- The first step of a path that covers a topic, and what is left of both.
narrow_to :
    (b seg : Bytes) (p segs : List Bytes) (f : Forest) (l : Level) (s : Subscription)
    → find b f ≡ some l
    → Covers (b ∷ []) (seg ∷ [])
    → Covers p segs
    → Memᴰ s (subs_at (b ∷ p) f)
    → (k : Level) × Next f seg k × Holds k segs s
unfolding Holds
narrow_to b seg [] [] f l s e c cov m = (l, next b c e, rw (subs_at-one b f l e) at m)
narrow_to b seg [] (t ∷ ts) f l s e c cov m = elim cov [ ]
narrow_to b seg (c' ∷ p) [] f l s e c cov m = elim cov [ ]
narrow_to b seg (c' ∷ p) (t ∷ ts) f l s e c cov m =
    (l, next b c e, inr (c' ∷ p, cov, rw (subs_at-cons b c' p f l e) at m))

narrow_multi :
    (b seg : Bytes) (segs : List Bytes) (f : Forest) (l : Level) (s : Subscription)
    → find b f ≡ some l
    → b ≡ topic_multi_level_wildcard
    → Memᴰ s (subs_at (b ∷ []) f)
    → (k : Level) × Next f seg k × Holds k segs s
unfolding Holds
narrow_multi b seg [] f l s e i m = (l, next b (multi i) e, rw (subs_at-one b f l e) at m)
narrow_multi b seg (t ∷ ts) f l s e i m = (
  l,
  next b (multi i) e,
  inl (
    rw (find-bytes b f l e, i) (bytes_eq_self topic_multi_level_wildcard),
    rw (subs_at-one b f l e) at m,
  ),
)

pub narrow :
    (p : List Bytes) (seg : Bytes) (segs : List Bytes) (f : Forest) (s : Subscription)
    → Covers p (seg ∷ segs)
    → Memᴰ s (subs_at p f)
    → (l : Level) × Next f seg l × Holds l segs s
narrow [] seg segs f s c m = elim c [ ]
narrow (b ∷ p) seg segs f s (same i c) m =
    let (l, e) = found b p f s m in narrow_to b seg p segs f l s e (same i end) c m
narrow (b ∷ p) seg segs f s (single i c) m =
    let (l, e) = found b p f s m in narrow_to b seg p segs f l s e (single i end) c m
narrow (b ∷ p) seg segs f s (multi i) m =
    let (l, e) = found b [] f s m in narrow_multi b seg segs f l s e i m

-- `findAll` returns exactly the levels that cover the part, where the flags are true to the slice.
module _ (f : Forest) (has_single has_multi : Bool) where
  abbrev FlagsOk : Type 0
  FlagsOk =
      (is_some (find topic_single_level_wildcard f) ≡ true → has_single ≡ true)
      × (is_some (find topic_multi_level_wildcard f) ≡ true → has_multi ≡ true)

  abbrev ByLevel : Bytes → Level → Type 0
  ByLevel seg l =
      Picked topic_single_level_wildcard topic_multi_level_wildcard has_single has_multi seg false
        false false f l

  abbrev ByStorage : Bytes → Level → Type 0
  ByStorage seg l =
      Picked topic_multi_level_wildcard topic_single_level_wildcard has_multi has_single seg false
        false false f l

  pub ByLevel-Next : (seg : Bytes) (l : Level) → ByLevel seg l → Next f seg l
  ByLevel-Next seg l (named p e) = next seg (same refl end) e
  ByLevel-Next seg l (first h p e) = next _ (single refl end) e
  ByLevel-Next seg l (second h p e) = next _ (multi refl) e

  pub ByStorage-Next : (seg : Bytes) (l : Level) → ByStorage seg l → Next f seg l
  ByStorage-Next seg l (named p e) = next seg (same refl end) e
  ByStorage-Next seg l (first h p e) = next _ (multi refl) e
  ByStorage-Next seg l (second h p e) = next _ (single refl end) e

  found_some : (b c : Bytes) (l : Level) → find b f ≡ some l → b ≡ c → is_some (find c f) ≡ true
  found_some b c l e i = rw (← i, e) refl

  pub Next-ByLevel : (seg : Bytes) (l : Level) → FlagsOk → Next f seg l → ByLevel seg l
  Next-ByLevel seg l ok (next b (same i c) e) = named refl (rw i at e)
  Next-ByLevel seg l ok (next b (single i c) e) =
      first (ok.0 (found_some b _ l e i)) refl (rw i at e)
  Next-ByLevel seg l ok (next b (multi i) e) = second (ok.1 (found_some b _ l e i)) refl (rw i at e)

  pub Next-ByStorage : (seg : Bytes) (l : Level) → FlagsOk → Next f seg l → ByStorage seg l
  Next-ByStorage seg l ok (next b (same i c) e) = named refl (rw i at e)
  Next-ByStorage seg l ok (next b (single i c) e) =
      second (ok.0 (found_some b _ l e i)) refl (rw i at e)
  Next-ByStorage seg l ok (next b (multi i) e) =
      first (ok.1 (found_some b _ l e i)) refl (rw i at e)

abbrev pub LevelOk : Level → Type 0
LevelOk l = NodeOk l.node l.children × IsOk l.children

pub Next-LevelOk : (f : Forest) (seg : Bytes) (l : Level) → IsOk f → Next f seg l → LevelOk l
Next-LevelOk f seg l ok (next b c e) = find-IsOk b f l e ok
