-- ===== src/Topic/Level.antt =====
-- The topic levels of topic_filter.go. A `[]*topicLevel` is a `Forest`: its first level's node, that
-- level's children, and the rest of the slice. The level's path to its parent serves only printing,
-- and its QoS field is never used; both are left out. What a call changes through the pointer that
-- `find` returned is changed in the first level of that name.
use gott.Common.{
  ℕ, Bool, true, false, not, ◌&&◌, ◌||◌, List, [], ◌∷◌, ◌++◌, Option, none, some, Bytes, bytes_eq,
  if◌then◌else◌,
}
use gott.Types.{Subscription, Message}
use gott.Session.{Sessions}
use gott.Topic.Subscriptions.{create_or_update}

abbrev pub topic_delim : ℕ
topic_delim = b'/'

abbrev pub topic_single_level_wildcard : Bytes
topic_single_level_wildcard = b'+' ∷ []

abbrev pub topic_multi_level_wildcard : Bytes
topic_multi_level_wildcard = b'#' ∷ []

abbrev pub is_single : Bytes → Bool
is_single b = bytes_eq b topic_single_level_wildcard

abbrev pub is_multi : Bytes → Bool
is_multi b = bytes_eq b topic_multi_level_wildcard

pub record Node : Type 0 where
  pub has_single_wildcard_as_child : Bool
  pub has_multi_wildcard_as_child : Bool
  pub bytes : Bytes
  pub subscriptions : List Subscription
  pub retained_message : Option Message

pub data Forest : Type 0 where
  no_levels : Forest
  level : Node → Forest → Forest → Forest

-- A topic level with its children.
pub record Level : Type 0 where
  pub node : Node
  pub children : Forest

-- `&topicLevel{Bytes: b, Subscriptions: &subscriptionList{}}`.
abbrev pub new_node : Bytes → Node
new_node b = record {
  has_single_wildcard_as_child = false;
  has_multi_wildcard_as_child = false;
  bytes = b;
  subscriptions = [];
  retained_message = none;
}

abbrev pub is_empty {ℓ} : {A : Type ℓ} → List A → Bool
is_empty [] = true
is_empty (_ ∷ _) = false

abbrev pub is_leaf : Forest → Bool
is_leaf no_levels = true
is_leaf (level _ _ _) = false

abbrev pub is_some {ℓ} : {A : Type ℓ} → Option A → Bool
is_some none = false
is_some (some _) = true

unfoldable pub find : Bytes → Forest → Option Level
find b no_levels = none
find b (level n ch rest) =
    if bytes_eq n.bytes b then some (record { node = n; children = ch }) else find b rest

-- `addChild`, which appends.
unfoldable pub add_child : Node → Forest → Forest
add_child new no_levels = level new no_levels no_levels
add_child new (level n ch rest) = level n ch (add_child new rest)

-- `find`, and `addChild` of a new level where it found none.
unfoldable pub ensure : Bytes → Forest → Forest
unfolding find add_child
ensure b f = if is_some (find b f) then f else add_child (new_node b) f

-- A change to the level that `find b` returns.
unfoldable pub modify : (Node → Forest → Level) → Bytes → Forest → Forest
modify g b no_levels = no_levels
modify g b (level n ch rest) =
    if bytes_eq n.bytes b
    then (let l = g n ch in level l.node l.children rest)
    else level n ch (modify g b rest)

-- The loop of the two `findAll`: the first level named `b`, and the first levels named by the two
-- wildcards `v` and `w` where their flags `has_v` and `has_w` allow them, in the order of the slice.
-- `t`, `found_v` and `found_w` are `targetFound` and the two `…WildcardFound`. A level's `findAll`
-- tests "+" and then "#"; the storage's tests "#" and then "+".
module _ (v w : Bytes) (has_v has_w : Bool) (b : Bytes) where
  unfoldable pub find_all_loop : (t found_v found_w : Bool) → Forest → List Level
  find_all_loop t found_v found_w no_levels = []
  find_all_loop t found_v found_w (level n ch rest) =
      let l : Level = record { node = n; children = ch } in
      let hit_t = not t && bytes_eq n.bytes b in
      let hit_v = has_v && not found_v && bytes_eq n.bytes v in
      let hit_w = has_w && not found_w && bytes_eq n.bytes w in
      let here =
        (if hit_t then l ∷ [] else [])
        ++ ((if hit_v then l ∷ [] else []) ++ (if hit_w then l ∷ [] else [])) in
      if (t || hit_t) && (not has_v || (found_v || hit_v)) && (not has_w || (found_w || hit_w))
      then here
      else here ++ find_all_loop (t || hit_t) (found_v || hit_v) (found_w || hit_w) rest

unfoldable pub find_all : Level → Bytes → List Level
unfolding find_all_loop
find_all l b =
    find_all_loop topic_single_level_wildcard topic_multi_level_wildcard
      l.node.has_single_wildcard_as_child l.node.has_multi_wildcard_as_child b false false false
      l.children

-- The loop over `hits` in `match`.
unfoldable pub each_hit : (Level → List Level) → List Level → List Level
each_hit f [] = []
each_hit f (l ∷ ls) = f l ++ each_hit f ls

-- The condition at the head of `match`; `at_end` is `len(segs) == 0`.
unfoldable pub is_hit : Level → (at_end : Bool) → Bool
is_hit l at_end =
    (not (is_empty l.node.subscriptions) || is_leaf l.children) && at_end
    || is_single l.node.bytes && is_leaf l.children && at_end
    || is_multi l.node.bytes

-- `match`, which returns what the source appends to `*matches`. The test of
-- `hasMultiWildcardAsChild` stands under both `len(segs) != 0` and `len(segs) == 0`, so it never
-- appends.
unfoldable pub match : List Bytes → Level → List Level
unfolding is_hit find_all each_hit
match [] l = if is_hit l true then l ∷ [] else []
match (seg ∷ segs) l =
    if is_hit l false
    then l ∷ []
    else if not (is_leaf l.children)
    then each_hit (match segs) (find_all l seg)
    else []

-- What `reverse` appends for one level, where `below` does its loop over the children.
unfoldable pub reverse_at :
    (Bytes → List Bytes → List Level) → Node → Forest → List Bytes → List Level
reverse_at below n ch [] =
    if is_some n.retained_message then record { node = n; children = ch } ∷ [] else []
reverse_at below n ch (seg ∷ segs) =
    (if is_multi seg && not (is_multi n.bytes) && is_some n.retained_message
      then record { node = n; children = ch } ∷ []
      else [])
    ++ below seg segs

-- The loop of `reverse` over a level's children.
unfoldable pub reverse_children : Forest → Bytes → List Bytes → List Level
unfolding reverse_at
reverse_children no_levels seg segs = []
reverse_children (level n ch rest) seg segs =
    (if is_multi seg
      then reverse_at (reverse_children ch) n ch (topic_multi_level_wildcard ∷ [])
      else if is_single seg || bytes_eq seg n.bytes
      then reverse_at (reverse_children ch) n ch segs
      else [])
    ++ reverse_children rest seg segs

-- `reverse`.
unfoldable pub reverse : Level → List Bytes → List Level
unfolding reverse_children
reverse l segs = reverse_at (reverse_children l.children) l.node l.children segs

-- `parseChildren` of a client's session: `seg` is `children[0]`.
module _ (h : Sessions) (client_id : Bytes) (session : ℕ) (qos : ℕ) where
  abbrev pub subscribe_at : Node → Node
  subscribe_at n = record n {
    subscriptions = create_or_update h client_id session qos n.subscriptions;
  }

  unfoldable pub mark_wildcard : Bytes → Node → Node
  mark_wildcard b n =
      if is_single b
      then record n { has_single_wildcard_as_child = true }
      else if is_multi b
      then subscribe_at (record n { has_multi_wildcard_as_child = true })
      else n

  unfoldable pub parse_children : List Bytes → Node → Forest → Level
  unfolding ensure modify mark_wildcard
  parse_children [] n ch = record { node = n; children = ch }
  parse_children (b ∷ []) n ch = record {
    node = mark_wildcard b n;
    children = modify (λ l lch. record { node = subscribe_at l; children = lch }) b (ensure b ch);
  }
  parse_children (b ∷ c ∷ segs) n ch = record {
    node = mark_wildcard b n;
    children = modify (parse_children (c ∷ segs)) b (ensure b ch);
  }

-- `parseChildrenRetain`.
unfoldable pub parse_children_retain : Option Message → List Bytes → Node → Forest → Level
unfolding ensure modify
parse_children_retain msg [] n ch = record { node = n; children = ch }
parse_children_retain msg (b ∷ []) n ch = record {
  node = n;
  children =
      modify
        (λ l lch. record {
          node = if not (is_single l.bytes) then record l { retained_message = msg } else l;
          children = lch;
        })
        b (ensure b ch);
}
parse_children_retain msg (b ∷ c ∷ segs) n ch = record {
  node = n;
  children = modify (parse_children_retain msg (c ∷ segs)) b (ensure b ch);
}
