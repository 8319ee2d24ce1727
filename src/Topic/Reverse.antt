-- ===== src/Topic/Reverse.antt =====
-- `reverseMatch` against the paths of the tree: a filter selects exactly the levels with a retained
-- message whose path it matches.
use gott.Common.{
  true, false, not, ◌&&◌, ◌||◌, List, [], ◌∷◌, ◌++◌, some, Bytes, bytes_eq, bytes_eq→eq,
  bytes_eq_self, if◌then◌else◌, ◌≡◌, refl, sym, subst, ap, ap₂, ◌∙◌, inl, inr, Bool-cases, arith,
  ◌↔◌,
}
use mathlib.Core.Option.{some-injective}
use mathlib.Core.List.{Memᴰ}
use mathlib.Core.List.Memᴰ
use gott.Types.{Message}
use gott.Topic.Level.{
  topic_single_level_wildcard, topic_multi_level_wildcard, is_single, is_multi, is_some, Node,
  Forest, no_levels, level, Level, find, reverse_at, reverse_children, reverse,
}
use gott.Topic.Storage.{TopicStorage, reverse_tops, reverse_match_segs, no_more}
use gott.Topic.FindAll.{find_later}
use gott.Topic.Paths.{
  single_of_multi, level_at, Matches, same, single, multi, MultiLast, NodeOk, IsOk, level_at-one,
  level_at-cons, level_at-none, level_at-congr,
}
use gott.Topic.Selected.{
  HasRetained, Selected, SelectedAt, this, find-no_levels, own, Own, find_self,
  reverse_children_sound,
}

Own-own :
    (seg : Bytes) (n : Node) (ch : Forest) (l : Level)
    → NodeOk n ch
    → Own seg n ch l
    → Memᴰ l (own seg n ch)
unfolding own
Own-own seg n ch l ok o = elim (Bool-cases (is_multi n.bytes)) [
  | inl e ↦ cc (o.retained, ok.multi_bare e, ap (is_some {A = Message}) (ok.multi_bare e))
  | inr e ↦ rw (o.is_hash, e, o.retained) (Memᴰ.head o.equal)
]

reverse_at_complete :
    (n : Node) (ch : Forest) (segs : List Bytes) (l : Level)
    → NodeOk n ch
    → ((seg : Bytes) (ts : List Bytes)
        → Selected ch (seg ∷ ts) l
        → Memᴰ l (reverse_children ch seg ts))
    → SelectedAt n ch segs l
    → Memᴰ l (reverse_at (reverse_children ch) n ch segs)
unfolding reverse_at SelectedAt Selected own
reverse_at_complete n ch [] l ok ih (inl (e, m, r)) =
    let r' : is_some n.retained_message ≡ true = subst HasRetained e r in rw r' (Memᴰ.head e)
reverse_at_complete n ch [] l ok ih (inr (b, p, m, _, _)) = elim m [ ]
reverse_at_complete n ch (seg ∷ segs) l ok ih (inl (e, multi i, r)) = Memᴰ.append_left _ (
    Own-own seg n ch l ok (record {
      is_hash = rw i (bytes_eq_self topic_multi_level_wildcard);
      retained = subst HasRetained e r;
      equal = e;
    }))
reverse_at_complete n ch (seg ∷ segs) l ok ih (inr s) =
    Memᴰ.append_right (own seg n ch) (ih seg segs s)

-- A filter that begins with no "#" matches part by part.
split_part :
    (seg b : Bytes) (segs p : List Bytes)
    → is_multi seg ≡ false
    → Matches (seg ∷ segs) (b ∷ p)
    → (is_single seg || bytes_eq seg b ≡ true) × Matches segs p
split_part seg b segs p e (same i m) = (rw (← i) (ground (arith, bytes_eq_self seg)), m)
split_part seg b segs p e (single i m) =
    (ground (arith, ap is_single i, bytes_eq_self topic_single_level_wildcard), m)
split_part seg b segs p e (multi i) = cc (bytes_eq_self topic_multi_level_wildcard, i, e)

module _ (n : Node) (ch rest : Forest) where
  descend :
      (b : Bytes) (p ts : List Bytes) (l : Level)
      → b ≡ n.bytes
      → level_at (b ∷ p) (level n ch rest) ≡ some l
      → HasRetained l
      → Matches ts p
      → SelectedAt n ch ts l
  unfolding SelectedAt Selected
  descend b [] ts l i e r m = inl (
    some-injective _ _ (
        sym e
        ∙ level_at-one b (level n ch rest)
        ∙ ap (λ a. find a (level n ch rest)) i
        ∙ find_self n ch rest),
    m,
    r,
  )
  descend b (c ∷ q) ts l i e r m = inr (
    c,
    q,
    m,
    sym (level_at-cons b c q _ _ (ap (λ a. find a (level n ch rest)) i ∙ find_self n ch rest)) ∙ e,
    r,
  )

-- What the loop over the children appends for one child.
abbrev child : Node → Forest → Bytes → List Bytes → List Level
child n ch seg segs =
    if is_multi seg
    then reverse_at (reverse_children ch) n ch (topic_multi_level_wildcard ∷ [])
    else if is_single seg || bytes_eq seg n.bytes
    then reverse_at (reverse_children ch) n ch segs
    else []

child_multi :
    (n : Node) (ch : Forest) (seg : Bytes) (segs : List Bytes)
    → is_multi seg ≡ true
    → child n ch seg segs ≡ reverse_at (reverse_children ch) n ch (topic_multi_level_wildcard ∷ [])
child_multi n ch seg segs e = rw e refl

child_part :
    (n : Node) (ch : Forest) (seg : Bytes) (segs : List Bytes)
    → is_multi seg ≡ false
    → is_single seg || bytes_eq seg n.bytes ≡ true
    → child n ch seg segs ≡ reverse_at (reverse_children ch) n ch segs
child_part n ch seg segs e c = rw (e, c) refl

reverse_children_complete :
    (f : Forest) (seg : Bytes) (segs : List Bytes) (l : Level)
    → IsOk f
    → Selected f (seg ∷ segs) l
    → Memᴰ l (reverse_children f seg segs)
unfolding reverse_children Selected
reverse_children_complete no_levels seg segs l ok (b, p, m, e, r) =
    cc (level_at-none b p no_levels (find-no_levels b), e)
reverse_children_complete (level n ch rest) seg segs l ok (b, p, m, e, r) =
    elim (Bool-cases (bytes_eq n.bytes b)) [
      | inl hit ↦
          let i : b ≡ n.bytes = sym (bytes_eq→eq n.bytes b hit) in
          Memᴰ.append_left {s = child n ch seg segs} _ (elim (Bool-cases (is_multi seg)) [
            | inl h ↦ rw (child_multi n ch seg segs h) (
                reverse_at_complete n ch (topic_multi_level_wildcard ∷ []) l ok.0
                  (λ s ts. reverse_children_complete ch s ts l ok.1)
                  (descend n ch rest b p _ l i e r (multi refl)))
            | inr h ↦
                let (c, m') = split_part seg b segs p h m in
                rw
                  (child_part n ch seg segs h
                    (subst (λ a. is_single seg || bytes_eq seg a ≡ true) i c))
                  (reverse_at_complete n ch segs l ok.0
                    (λ s ts. reverse_children_complete ch s ts l ok.1)
                    (descend n ch rest b p segs l i e r m'))
          ])
      | inr miss ↦ Memᴰ.append_right (child n ch seg segs) (
          reverse_children_complete rest seg segs l ok.2
            (b, p, m, sym (level_at-congr b p _ _ (find_later b n ch rest miss)) ∙ e, r))
    ]

-- A "#" level has nothing to show for a filter that is not "#".
bare :
    (n : Node) (ch : Forest) (segs : List Bytes)
    → NodeOk n ch
    → is_multi n.bytes ≡ true
    → reverse_at (reverse_children ch) n ch segs ≡ []
unfolding reverse_at reverse_children
bare n ch [] ok h = rw (ok.multi_bare h) refl
bare n ch (seg ∷ segs) ok h = rw (h, ok.multi_leaf h) (ground arith)

-- What the loop over the top levels appends for one level.
abbrev top_part : Node → Forest → Bytes → List Bytes → List Level
top_part n ch top segs =
    if no_more segs && is_single top && is_some n.retained_message
    then this n ch ∷ []
    else if (is_single top || bytes_eq top n.bytes) && not (is_multi n.bytes)
    then reverse_at (reverse_children ch) n ch segs
    else if is_multi top
    then reverse_at (reverse_children ch) n ch (top ∷ [])
    else []

multi_of_eq : (a b : Bytes) → is_multi a ≡ true → bytes_eq a b ≡ true → is_multi b ≡ true
multi_of_eq a b h e = subst (λ c. is_multi c ≡ true) (bytes_eq→eq a b e) h

end_part :
    (n : Node) (ch : Forest) (segs : List Bytes)
    → no_more segs ≡ true
    → is_some n.retained_message ≡ true
    → reverse_at (reverse_children ch) n ch segs ≡ this n ch ∷ []
unfolding reverse_at
end_part n ch [] e r = rw r refl
end_part n ch (_ ∷ _) e r = cc

top_part-child :
    (n : Node) (ch : Forest) (top : Bytes) (segs : List Bytes)
    → NodeOk n ch
    → top_part n ch top segs ≡ child n ch top segs
top_part-child n ch top segs ok = elim (Bool-cases (is_multi top)) [
  | inl h ↦ ground (
    arith,
    single_of_multi top h,
    multi_of_eq top n.bytes h,
    ap (λ b. reverse_at (reverse_children ch) n ch (b ∷ [])) (bytes_eq→eq top _ h),
  )
  | inr h ↦ elim (Bool-cases (is_multi n.bytes)) [
    | inl k ↦ ground (arith, bare n ch segs ok k, ok.multi_bare k)
    | inr k ↦ ground (arith, end_part n ch segs)
  ]
]

reverse_tops-children :
    (f : Forest) (top : Bytes) (segs : List Bytes)
    → IsOk f
    → reverse_tops f top segs ≡ reverse_children f top segs
unfolding reverse_tops reverse reverse_children
reverse_tops-children no_levels top segs ok = refl
reverse_tops-children (level n ch rest) top segs ok =
    ap₂ ◌++◌ (top_part-child n ch top segs ok.0) (reverse_tops-children rest top segs ok.2)

-- In a well-formed tree, a filter with "#" in no part but the last selects exactly the levels which
-- hold a retained message at a path that the filter matches part by part: "+" any one part, and a
-- last "#" any number of parts, none included.
pub reverse_match_iff :
    (ts : TopicStorage) (top : Bytes) (segs : List Bytes) (l : Level)
    → IsOk ts.filters
    → MultiLast (top ∷ segs)
    → Memᴰ l (reverse_match_segs ts (top ∷ segs)) ↔ (
        (b : Bytes) × (p : List Bytes) × Matches (top ∷ segs) (b ∷ p)
        × (level_at (b ∷ p) ts.filters ≡ some l)
        × (is_some l.node.retained_message ≡ true))
unfolding reverse_match_segs Selected
reverse_match_iff ts top segs l ok last = rw (reverse_tops-children ts.filters top segs ok) (
  reverse_children_sound ts.filters top segs l ok last,
  reverse_children_complete ts.filters top segs l ok,
)
