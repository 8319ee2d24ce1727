-- ===== src/Topic/Delivery.antt =====
-- `match` against the paths of the tree: a publication reaches exactly the subscriptions at the
-- paths that cover its topic.
use gott.Common.{
  true, false, not, List, [], ◌∷◌, Bytes, if◌then◌else◌, ◌≡◌, refl, subst, ◌⊎◌, inl, inr,
  Bool-cases, arith, ◌↔◌, ◌≢◌, append-nil,
}
use mathlib.Core.List.{Memᴰ}
use mathlib.Core.List.Memᴰ
use gott.Types.{Subscription}
use gott.Topic.Level.{
  topic_single_level_wildcard, topic_multi_level_wildcard, is_multi, is_some, is_leaf, Forest,
  no_levels, level, Level, find, find_all, each_hit, is_hit, match,
}
use gott.Topic.Storage.{TopicStorage}
use gott.Topic.Storage
use gott.Topic.FindAll.{find_all_loop_sound, find_all_loop_complete}
use gott.Topic.Paths.{subs_at, Covers, NodeOk, IsOk}
use gott.Topic.Holds.{
  deliver-each, each-deliver, Holds, Next, not-in-leaf, extend, narrow, ByLevel-Next,
  ByStorage-Next, Next-ByLevel, Next-ByStorage, LevelOk, Next-LevelOk,
}
unfoldable pub use gott.Topic.Holds.{deliver}

find_all-Next : (l k : Level) (seg : Bytes) → Memᴰ k (find_all l seg) → Next l.children seg k
unfolding find_all
find_all-Next l k seg m =
    ByLevel-Next l.children _ _ seg k (find_all_loop_sound _ _ _ _ seg _ _ _ l.children k m)

Next-find_all :
    (l k : Level) (seg : Bytes)
    → NodeOk l.node l.children
    → Next l.children seg k
    → Memᴰ k (find_all l seg)
unfolding find_all
Next-find_all l k seg ok n =
    find_all_loop_complete _ _ _ _ seg _ _ _ l.children k
      (Next-ByLevel l.children _ _ seg k (ok.single_flag, ok.multi_flag) n)

deliver-one : (l : Level) → deliver (l ∷ []) ≡ l.node.subscriptions
unfolding deliver
deliver-one l = append-nil l.node.subscriptions

match-nil : (l : Level) → match [] l ≡ (if is_hit l true then l ∷ [] else [])
unfolding match
match-nil l = refl

match-cons :
    (seg : Bytes) (segs : List Bytes) (l : Level)
    → match (seg ∷ segs) l ≡ (
        if is_hit l false
        then l ∷ []
        else if not (is_leaf l.children)
        then each_hit (match segs) (find_all l seg)
        else [])
unfolding match
match-cons seg segs l = refl

is_hit-false : (l : Level) → is_hit l false ≡ is_multi l.node.bytes
unfolding is_hit
is_hit-false l = ground arith

is_hit-true : (l : Level) (s : Subscription) → Memᴰ s l.node.subscriptions → is_hit l true ≡ true
unfolding is_hit
is_hit-true l s m = go l.node.subscriptions refl m
  where
    go : (ss : List Subscription) → l.node.subscriptions ≡ ss → Memᴰ s ss → is_hit l true ≡ true
    go [] e n = absurd (Memᴰ.not-nil n)
    go (x ∷ ss) e n = ground arith

leaf_cases : (f : Forest) → (f ≡ no_levels) ⊎ (is_leaf f ≡ false)
leaf_cases no_levels = inl refl
leaf_cases (level n ch rest) = inr refl

-- `match` on a level with parts of the topic left, case by case.
match_multi :
    (seg : Bytes) (segs : List Bytes) (l : Level)
    → is_multi l.node.bytes ≡ true
    → deliver (match (seg ∷ segs) l) ≡ l.node.subscriptions
match_multi seg segs l e = rw (match-cons seg segs l, is_hit-false l, e) (deliver-one l)

match_leaf :
    (seg : Bytes) (segs : List Bytes) (l : Level)
    → is_multi l.node.bytes ≡ false
    → l.children ≡ no_levels
    → deliver (match (seg ∷ segs) l) ≡ []
unfolding deliver
match_leaf seg segs l e i = rw (match-cons seg segs l, is_hit-false l, e, i) refl

match_down :
    (seg : Bytes) (segs : List Bytes) (l : Level)
    → is_multi l.node.bytes ≡ false
    → is_leaf l.children ≡ false
    → match (seg ∷ segs) l ≡ each_hit (match segs) (find_all l seg)
match_down seg segs l e i = rw (match-cons seg segs l, is_hit-false l, e, i) refl

match-Holds :
    (segs : List Bytes) (l : Level) (s : Subscription)
    → LevelOk l
    → Memᴰ s (deliver (match segs l))
    → Holds l segs s
unfolding Holds deliver
match-Holds [] l s ok m = elim (Bool-cases (is_hit l true)) [
  | inl h ↦ rw (match-nil, h, deliver-one) at m
  | inr h ↦ absurd (Memᴰ.not-nil (rw (match-nil, h) at m))
]
match-Holds (seg ∷ segs) l s ok m = elim (Bool-cases (is_multi l.node.bytes)) [
  | inl e ↦ inl (e, rw (match_multi seg segs l e) at m)
  | inr e ↦ elim (leaf_cases l.children) [
    | inl i ↦ absurd (Memᴰ.not-nil (rw (match_leaf seg segs l e i) at m))
    | inr i ↦
        let (k, mk, d) =
          deliver-each (match segs) s (find_all l seg) (rw (match_down seg segs l e i) at m) in
        let n = find_all-Next l k seg mk in
        inr (
          extend l.children seg segs k s ok.1 n
            (match-Holds segs k s (Next-LevelOk l.children seg k ok.1 n) d))
  ]
]

Holds-match :
    (segs : List Bytes) (l : Level) (s : Subscription)
    → LevelOk l
    → Holds l segs s
    → Memᴰ s (deliver (match segs l))
unfolding Holds
Holds-match [] l s ok h = rw (match-nil, is_hit-true l s h, deliver-one) h
Holds-match (seg ∷ segs) l s ok (inl (e, m)) = rw (match_multi seg segs l e) m
Holds-match (seg ∷ segs) l s ok (inr (p, c, m)) = elim (Bool-cases (is_multi l.node.bytes)) [
  | inl e ↦ absurd (not-in-leaf p s (subst (λ k. Memᴰ s (subs_at p k)) (ok.0.multi_leaf e) m))
  | inr e ↦ elim (leaf_cases l.children) [
    | inl i ↦ absurd (not-in-leaf p s (subst (λ k. Memᴰ s (subs_at p k)) i m))
    | inr i ↦
        let (k, n, h) = narrow p seg segs l.children s c m in
        rw (match_down seg segs l e i) (
          each-deliver (match segs) s k (find_all l seg) (Next-find_all l k seg ok.0 n)
            (Holds-match segs k s (Next-LevelOk l.children seg k ok.1 n) h))
  ]
]

-- The storage's flags tell of its wildcard top levels.
pub record StorageOk (ts : TopicStorage) : Type 0 where
  pub single_flag :
      is_some (find topic_single_level_wildcard ts.filters) ≡ true
      → ts.has_top_single_wildcard ≡ true
  pub multi_flag :
      is_some (find topic_multi_level_wildcard ts.filters) ≡ true → ts.has_global_filter ≡ true
  pub levels : IsOk ts.filters

-- In a well-formed tree a publication on a topic of one part or more visits exactly the subscriptions that stand at a
-- path which covers the parts of the topic.
pub deliver-match_iff :
    (ts : TopicStorage) (segs : List Bytes) (s : Subscription)
    → StorageOk ts
    → segs ≢ []
    → Memᴰ s (deliver (Storage.match_segs ts segs))
      ↔ ((p : List Bytes) × Covers p segs × Memᴰ s (subs_at p ts.filters))
unfolding Storage.match_segs Storage.find_all
deliver-match_iff ts [] s ok ne = absurd (ne refl)
deliver-match_iff ts (seg ∷ segs) s ok ne = (
  λ m.
      let (k, mk, d) = deliver-each (match segs) s _ m in
      let n =
        ByStorage-Next ts.filters _ _ seg k
          (find_all_loop_sound _ _ _ _ seg _ _ _ ts.filters k mk) in
      extend ts.filters seg segs k s ok.levels n
        (match-Holds segs k s (Next-LevelOk ts.filters seg k ok.levels n) d),
  λ (p, c, m).
      let (k, n, h) = narrow p seg segs ts.filters s c m in
      each-deliver (match segs) s k _
        (find_all_loop_complete _ _ _ _ seg _ _ _ ts.filters k
          (Next-ByStorage ts.filters _ _ seg k (ok.single_flag, ok.multi_flag) n))
        (Holds-match segs k s (Next-LevelOk ts.filters seg k ok.levels n) h),
)
