-- ===== src/Topic/WellFormed.antt =====
-- Every change of the tree keeps it well formed.
use gott.Common.{
  ℕ, true, not, ◌&&◌, ◌||◌, List, [], ◌∷◌, Option, some, Bytes, bytes_eq, bytes_eq→eq,
  if◌then◌else◌, ◌≡◌, refl, sym, ap, ◌∙◌, inl, inr, Option-cases, arith,
}
use gott.Types.{Message}
use gott.Session.{Sessions}
use gott.Topic.Level.{
  topic_single_level_wildcard, topic_multi_level_wildcard, is_single, is_multi, is_some, Node,
  Forest, Level, find, ensure, modify, parse_children_retain,
}
use gott.Topic.Storage.{
  TopicStorage, add_top_level, ensure_top, subscribe_segs, retain_segs, no_more, empty_storage,
}
use gott.Topic.Paths.{single_of_multi, NodeOk, IsOk, MultiLast}
use gott.Topic.Delivery.{StorageOk}
use gott.Topic.Upsert.{upsert, KeepsName, is_some-upsert}
use gott.Topic.KeepsOk.{
  LevelOk, upsert-IsOk, parse_children-LevelOk, retain_at-LevelOk, parse_children_retain-LevelOk,
}
pub use gott.Topic.KeepsOk.{Plain}
pub use gott.Topic.KeepsOk.{parse_children-KeepsName}
pub use gott.Topic.KeepsOk.{parse_children_retain-KeepsName}
pub use gott.Topic.KeepsOk.{retain_at}
pub use gott.Topic.KeepsOk.{retain_at-KeepsName}

-- The top levels: `addTopLevel` keeps the storage's flags true.
pub ensure_top-filters :
    (b : Bytes) (ts : TopicStorage) → (ensure_top b ts).filters ≡ ensure b ts.filters
unfolding ensure_top add_top_level ensure
ensure_top-filters b ts = ground arith

ensure_top-flags :
    (b : Bytes) (ts : TopicStorage)
    → StorageOk ts
    → (is_single b || is_some (find topic_single_level_wildcard ts.filters) ≡ true
        → (ensure_top b ts).has_top_single_wildcard ≡ true)
      × (is_multi b || is_some (find topic_multi_level_wildcard ts.filters) ≡ true
          → (ensure_top b ts).has_global_filter ≡ true)
unfolding ensure_top add_top_level
ensure_top-flags b ts ok = elim (Option-cases (find b ts.filters)) [
  | inl e ↦
      (λ h. ground (arith, ok.single_flag, single_of_multi b), λ h. ground (arith, ok.multi_flag))
  | inr (l, e) ↦ (
    λ h. ground (arith, ok.single_flag, named_some topic_single_level_wildcard l e),
    λ h. ground (arith, ok.multi_flag, named_some topic_multi_level_wildcard l e),
  )
]
  where
    named_some :
        (c : Bytes) (l : Level)
        → find b ts.filters ≡ some l
        → bytes_eq b c ≡ true
        → is_some (find c ts.filters) ≡ true
    named_some c l e h = rw (← bytes_eq→eq b c h, e) refl

module _ (g : Node → Forest → Level) (b : Bytes) (ts : TopicStorage) where
  -- The storage after a change of the level `b`.
  abbrev pub upsert_top : TopicStorage
  upsert_top = let ts' = ensure_top b ts in record ts' { filters = modify g b ts'.filters }

  pub upsert_top-filters : upsert_top.filters ≡ upsert g b ts.filters
  upsert_top-filters = ap (modify g b) (ensure_top-filters b ts)

  upsert_top-StorageOk :
      KeepsName g
      → ((n : Node) (ch : Forest) → n.bytes ≡ b → NodeOk n ch → IsOk ch → LevelOk (g n ch))
      → StorageOk ts
      → StorageOk upsert_top
  upsert_top-StorageOk k step ok = record {
    single_flag = λ e. (ensure_top-flags b ts ok).0 (
        sym (is_some-upsert g k b ts.filters topic_single_level_wildcard)
        ∙ ap (λ f. is_some (find topic_single_level_wildcard f)) (sym upsert_top-filters)
        ∙ e);
    multi_flag = λ e. (ensure_top-flags b ts ok).1 (
        sym (is_some-upsert g k b ts.filters topic_multi_level_wildcard)
        ∙ ap (λ f. is_some (find topic_multi_level_wildcard f)) (sym upsert_top-filters)
        ∙ e);
    levels = rw upsert_top-filters (upsert-IsOk g b ts.filters k step ok.levels);
  }

-- `Subscribe` with "#" in no part of the filter but the last keeps the tree well formed.
pub subscribe_segs-StorageOk :
    (h : Sessions) (client_id : Bytes) (session qos : ℕ) (segs : List Bytes) (ts : TopicStorage)
    → MultiLast segs
    → StorageOk ts
    → StorageOk (subscribe_segs h client_id session qos segs ts)
unfolding subscribe_segs
subscribe_segs-StorageOk h client_id session qos [] ts last ok = ok
subscribe_segs-StorageOk h client_id session qos (b ∷ []) ts last ok =
    upsert_top-StorageOk _ b ts (λ _ _. refl)
      (λ l lch e o oc. (
        record {
          single_flag = o.single_flag;
          multi_flag = o.multi_flag;
          multi_leaf = o.multi_leaf;
          multi_bare = o.multi_bare;
        },
        oc,
      ))
      ok
subscribe_segs-StorageOk h client_id session qos (b ∷ c ∷ segs) ts last ok =
    upsert_top-StorageOk _ b ts (parse_children-KeepsName h client_id session qos (c ∷ segs))
      (λ l lch e.
        parse_children-LevelOk h client_id session qos (c ∷ segs) l lch last.1 (rw e last.0))
      ok

pub retain_top : Option Message → List Bytes → Node → Forest → Level
retain_top msg segs n ch =
    if no_more segs && not (is_single n.bytes)
    then record { node = record n { retained_message = msg }; children = ch }
    else parse_children_retain msg segs n ch

pub retain_top-KeepsName :
    (msg : Option Message) (segs : List Bytes) → KeepsName (retain_top msg segs)
unfolding retain_top
retain_top-KeepsName msg segs n ch = ground (arith, parse_children_retain-KeepsName msg segs n ch)

pub retain_segs-nil : (msg : Option Message) (ts : TopicStorage) → retain_segs msg [] ts ≡ ts
unfolding retain_segs
retain_segs-nil msg ts = refl

pub retain_segs-upsert :
    (msg : Option Message) (b : Bytes) (segs : List Bytes) (ts : TopicStorage)
    → retain_segs msg (b ∷ segs) ts ≡ upsert_top (retain_top msg segs) b ts
unfolding retain_segs retain_top
retain_segs-upsert msg b segs ts = refl

pub retain_top-nil :
    (msg : Option Message) (n : Node) (ch : Forest) → retain_top msg [] n ch ≡ retain_at msg n ch
unfolding retain_top parse_children_retain
retain_top-nil msg n ch = ground arith

pub retain_top-cons :
    (msg : Option Message) (c : Bytes) (segs : List Bytes) (n : Node) (ch : Forest)
    → retain_top msg (c ∷ segs) n ch ≡ parse_children_retain msg (c ∷ segs) n ch
unfolding retain_top
retain_top-cons msg c segs n ch = refl

retain_top-LevelOk :
    (msg : Option Message) (segs : List Bytes) (b : Bytes) (n : Node) (ch : Forest)
    → Plain (b ∷ segs)
    → n.bytes ≡ b
    → NodeOk n ch
    → IsOk ch
    → LevelOk (retain_top msg segs n ch)
retain_top-LevelOk msg [] b n ch p e ok okc =
    rw retain_top-nil (retain_at-LevelOk msg b n ch p.1 e ok okc)
retain_top-LevelOk msg (c ∷ segs) b n ch p e ok okc =
    rw retain_top-cons (parse_children_retain-LevelOk msg (c ∷ segs) n ch p.2 (rw e p.1) ok okc)

-- `Retain` on a topic with no wildcard keeps the tree well formed.
pub retain_segs-StorageOk :
    (msg : Option Message) (segs : List Bytes) (ts : TopicStorage)
    → Plain segs
    → StorageOk ts
    → StorageOk (retain_segs msg segs ts)
unfolding retain_segs
retain_segs-StorageOk msg [] ts p ok = ok
retain_segs-StorageOk msg (b ∷ segs) ts p ok = rw retain_segs-upsert (
    upsert_top-StorageOk (retain_top msg segs) b ts (retain_top-KeepsName msg segs)
      (λ n ch. retain_top-LevelOk msg segs b n ch p) ok)

pub empty_storage-StorageOk : StorageOk empty_storage
unfolding find
empty_storage-StorageOk = record { single_flag = λ e. cc; multi_flag = λ e. cc; levels = tt }
