-- ===== src/Topic/KeepsOk.antt =====
-- What the insertions do below one level keeps it well formed.
use gott.Common.{
  ℕ, false, not, List, [], ◌∷◌, Option, none, Bytes, bytes_eq, bytes_eq→eq, bytes_eq_self,
  if◌then◌else◌, ◌≡◌, refl, ap, ◌∙◌, inl, inr, Bool-cases, Option-cases, arith,
}
use gott.Types.{Message}
use gott.Session.{Sessions}
use gott.Topic.Level.{
  topic_single_level_wildcard, topic_multi_level_wildcard, is_single, is_multi, Node, Forest,
  no_levels, level, Level, new_node, find, add_child, ensure, modify, mark_wildcard, parse_children,
  parse_children_retain,
}
use gott.Topic.Paths.{bytes_eq_ne, single_of_multi, NodeOk, IsOk, MultiLast}
use gott.Topic.Upsert.{upsert, KeepsName, find-add_child, find-modify_ne, is_some-upsert}

new_node-NodeOk : (b : Bytes) → NodeOk (new_node b) no_levels
unfolding find
new_node-NodeOk b = record {
  single_flag = λ e. cc;
  multi_flag = λ e. cc;
  multi_leaf = λ _. refl;
  multi_bare = λ _. refl;
}

add_child-IsOk :
    (b : Bytes) (f : Forest) → find b f ≡ none → IsOk f → IsOk (add_child (new_node b) f)
unfolding add_child find
add_child-IsOk b no_levels e ok = (new_node-NodeOk b, tt, tt, refl)
add_child-IsOk b (level n ch rest) e ok = (
  ok.0,
  ok.1,
  add_child-IsOk b rest (ground arith) ok.2,
  ground (arith, find-add_child n.bytes b rest, bytes_eq→eq b n.bytes, bytes_eq_self n.bytes),
)

ensure-IsOk : (b : Bytes) (f : Forest) → IsOk f → IsOk (ensure b f)
unfolding ensure
ensure-IsOk b f ok = elim (Option-cases (find b f)) [
  | inl e ↦ rw e (add_child-IsOk b f e ok)
  | inr (l, e) ↦ rw e ok
]

abbrev pub LevelOk : Level → Type 0
LevelOk l = NodeOk l.node l.children × IsOk l.children

modify-IsOk :
    (g : Node → Forest → Level) (b : Bytes) (f : Forest)
    → KeepsName g
    → ((n : Node) (ch : Forest) → n.bytes ≡ b → NodeOk n ch → IsOk ch → LevelOk (g n ch))
    → IsOk f
    → IsOk (modify g b f)
unfolding modify
modify-IsOk g b no_levels k step ok = tt
modify-IsOk g b (level n ch rest) k step ok = elim (Bool-cases (bytes_eq n.bytes b)) [
  | inl h ↦
      let (o, oc) = step n ch (bytes_eq→eq n.bytes b h) ok.0 ok.1 in
      rw h (o, oc, ok.2, rw (k n ch) ok.3)
  | inr h ↦ rw h (
    ok.0,
    ok.1,
    modify-IsOk g b rest k step ok.2,
    find-modify_ne g b n.bytes rest k (bytes_eq_ne n.bytes b h) ∙ ok.3,
  )
]

pub upsert-IsOk :
    (g : Node → Forest → Level) (b : Bytes) (f : Forest)
    → KeepsName g
    → ((n : Node) (ch : Forest) → n.bytes ≡ b → NodeOk n ch → IsOk ch → LevelOk (g n ch))
    → IsOk f
    → IsOk (upsert g b f)
upsert-IsOk g b f k step ok = modify-IsOk g b (ensure b f) k step (ensure-IsOk b f ok)

module _ (h : Sessions) (client_id : Bytes) (session : ℕ) (qos : ℕ) where
  mark_wildcard-bytes :
      (b : Bytes) (n : Node) → (mark_wildcard h client_id session qos b n).bytes ≡ n.bytes
  unfolding mark_wildcard
  mark_wildcard-bytes b n = ground arith

  pub parse_children-KeepsName :
      (segs : List Bytes) → KeepsName (parse_children h client_id session qos segs)
  unfolding parse_children
  parse_children-KeepsName [] n ch = refl
  parse_children-KeepsName (b ∷ []) n ch = mark_wildcard-bytes b n
  parse_children-KeepsName (b ∷ c ∷ segs) n ch = mark_wildcard-bytes b n

  -- The level above a changed slice: its flags tell of the name that may have been added.
  mark_wildcard-NodeOk :
      (g : Node → Forest → Level) (b : Bytes) (n : Node) (ch : Forest)
      → KeepsName g
      → is_multi n.bytes ≡ false
      → NodeOk n ch
      → NodeOk (mark_wildcard h client_id session qos b n) (upsert g b ch)
  unfolding mark_wildcard
  mark_wildcard-NodeOk g b n ch k m ok = record {
    single_flag =
        λ e. ground (arith, is_some-upsert g k b ch topic_single_level_wildcard, ok.single_flag);
    multi_flag = λ e. ground (
      arith,
      is_some-upsert g k b ch topic_multi_level_wildcard,
      ok.multi_flag,
      single_of_multi b,
    );
    multi_leaf = λ e. ground (arith, ok);
    multi_bare = λ e. ground (arith, ok);
  }

  pub parse_children-LevelOk :
      (segs : List Bytes) (n : Node) (ch : Forest)
      → MultiLast segs
      → is_multi n.bytes ≡ false
      → NodeOk n ch
      → IsOk ch
      → LevelOk (parse_children h client_id session qos segs n ch)
  unfolding parse_children
  parse_children-LevelOk [] n ch last m ok okc = (ok, okc)
  parse_children-LevelOk (b ∷ []) n ch last m ok okc = (
    mark_wildcard-NodeOk _ b n ch (λ _ _. refl) m ok,
    upsert-IsOk _ b ch (λ _ _. refl)
        (λ l lch e o oc. (
          record {
            single_flag = o.single_flag;
            multi_flag = o.multi_flag;
            multi_leaf = o.multi_leaf;
            multi_bare = o.multi_bare;
          },
          oc,
        ))
        okc,
  )
  parse_children-LevelOk (b ∷ c ∷ segs) n ch last m ok okc = (
    mark_wildcard-NodeOk _ b n ch (parse_children-KeepsName (c ∷ segs)) m ok,
    upsert-IsOk _ b ch (parse_children-KeepsName (c ∷ segs))
        (λ l lch e o oc. parse_children-LevelOk (c ∷ segs) l lch last.1 (rw e last.0) o oc) okc,
  )

-- No part of a topic name is a wildcard.
abbrev pub Plain : List Bytes → Type 0
Plain [] = Unit {0}
Plain (b ∷ p) = (is_single b ≡ false) × (is_multi b ≡ false) × Plain p

pub parse_children_retain-KeepsName :
    (msg : Option Message) (segs : List Bytes) → KeepsName (parse_children_retain msg segs)
unfolding parse_children_retain
parse_children_retain-KeepsName msg [] n ch = refl
parse_children_retain-KeepsName msg (b ∷ []) n ch = refl
parse_children_retain-KeepsName msg (b ∷ c ∷ segs) n ch = refl

-- `retain` of a level, as `parseChildrenRetain` guards it.
abbrev pub retain_at : Option Message → Node → Forest → Level
retain_at msg l lch = record {
  node = if not (is_single l.bytes) then record l { retained_message = msg } else l;
  children = lch;
}

pub retain_at-KeepsName : (msg : Option Message) → KeepsName (retain_at msg)
retain_at-KeepsName msg n ch = ground arith

pub retain_at-LevelOk :
    (msg : Option Message) (b : Bytes) (n : Node) (ch : Forest)
    → is_multi b ≡ false
    → n.bytes ≡ b
    → NodeOk n ch
    → IsOk ch
    → LevelOk (retain_at msg n ch)
retain_at-LevelOk msg b n ch m e ok okc = (
  record {
    single_flag = λ i. ground (arith, ok.single_flag i);
    multi_flag = λ i. ground (arith, ok.multi_flag i);
    multi_leaf = λ i. ground (arith, ap is_multi e);
    multi_bare = λ i. ground (arith, ap is_multi e);
  },
  okc,
)

plain-NodeOk :
    (g : Node → Forest → Level) (b : Bytes) (n : Node) (ch : Forest)
    → KeepsName g
    → is_single b ≡ false
    → is_multi b ≡ false
    → is_multi n.bytes ≡ false
    → NodeOk n ch
    → NodeOk n (upsert g b ch)
plain-NodeOk g b n ch k s m mn ok = record {
  single_flag =
      λ e. ground (arith, is_some-upsert g k b ch topic_single_level_wildcard, ok.single_flag);
  multi_flag =
      λ e. ground (arith, is_some-upsert g k b ch topic_multi_level_wildcard, ok.multi_flag);
  multi_leaf = λ e. cc;
  multi_bare = λ e. cc;
}

pub parse_children_retain-LevelOk :
    (msg : Option Message) (segs : List Bytes) (n : Node) (ch : Forest)
    → Plain segs
    → is_multi n.bytes ≡ false
    → NodeOk n ch
    → IsOk ch
    → LevelOk (parse_children_retain msg segs n ch)
unfolding parse_children_retain
parse_children_retain-LevelOk msg [] n ch p m ok okc = (ok, okc)
parse_children_retain-LevelOk msg (b ∷ []) n ch p m ok okc = (
  plain-NodeOk (retain_at msg) b n ch (retain_at-KeepsName msg) p.0 p.1 m ok,
  upsert-IsOk (retain_at msg) b ch (retain_at-KeepsName msg)
      (λ l lch. retain_at-LevelOk msg b l lch p.1) okc,
)
parse_children_retain-LevelOk msg (b ∷ c ∷ segs) n ch p m ok okc = (
  plain-NodeOk _ b n ch (parse_children_retain-KeepsName msg (c ∷ segs)) p.0 p.1 m ok,
  upsert-IsOk _ b ch (parse_children_retain-KeepsName msg (c ∷ segs))
      (λ l lch e. parse_children_retain-LevelOk msg (c ∷ segs) l lch p.2 (rw e p.1)) okc,
)
