-- ===== src/Topic/Storage.antt =====
-- `topicStorage` of topic_filter.go, and what `Subscribe`, `Unsubscribe`, `UnsubscribeAll` and
-- `Retain` of broker.go do to it. The mutex makes each call one step.
use gott.Common.{
  ℕ, Bool, true, false, not, ◌&&◌, ◌||◌, List, [], ◌∷◌, ◌++◌, Option, none, some, Bytes, bytes_eq,
  split, if◌then◌else◌,
}
use gott.Types.{Subscription, Message}
use gott.Session.{Sessions}
use gott.Topic.Filter.{valid_topic_name}
use gott.Topic.Subscriptions.{delete_subscription, find_from}
use gott.Topic.Level
use gott.Topic.Level.{
  topic_delim, topic_single_level_wildcard, topic_multi_level_wildcard, find_all_loop, is_single,
  is_multi, is_some, Node, Forest, no_levels, level, new_node, find, add_child, modify, each_hit,
  reverse, parse_children, parse_children_retain, subscribe_at,
}

pub record TopicStorage : Type 0 where
  pub filters : Forest
  pub has_global_filter : Bool
  pub has_top_single_wildcard : Bool

abbrev pub empty_storage : TopicStorage
empty_storage = record {
  filters = no_levels;
  has_global_filter = false;
  has_top_single_wildcard = false;
}

-- `addTopLevel`.
unfoldable pub add_top_level : Bytes → TopicStorage → TopicStorage
unfolding add_child
add_top_level b ts =
    let ts' = record ts { filters = add_child (new_node b) ts.filters } in
    if is_multi b
    then record ts' { has_global_filter = true }
    else if is_single b
    then record ts' { has_top_single_wildcard = true }
    else ts'

-- `find`, and `addTopLevel` where it found none.
unfoldable pub ensure_top : Bytes → TopicStorage → TopicStorage
unfolding find add_top_level
ensure_top b ts = if is_some (find b ts.filters) then ts else add_top_level b ts

-- `findAll`.
unfoldable pub find_all : TopicStorage → Bytes → List Level.Level
unfolding find_all_loop
find_all ts b =
    find_all_loop topic_multi_level_wildcard topic_single_level_wildcard ts.has_global_filter
      ts.has_top_single_wildcard b false false false ts.filters

-- `match` on the parts of the topic; `bytes.Split` returns at least one.
unfoldable pub match_segs : TopicStorage → List Bytes → List Level.Level
unfolding find_all each_hit Level.match
match_segs ts [] = []
match_segs ts (seg ∷ segs) = each_hit (Level.match segs) (find_all ts seg)

unfoldable pub match : TopicStorage → Bytes → List Level.Level
unfolding match_segs split
match ts topic = match_segs ts (split topic topic_delim)

abbrev pub no_more : List Bytes → Bool
no_more [] = true
no_more (_ ∷ _) = false

-- The loop of `reverseMatch` over the top levels.
unfoldable pub reverse_tops : Forest → Bytes → List Bytes → List Level.Level
unfolding reverse
reverse_tops no_levels top segs = []
reverse_tops (level n ch rest) top segs =
    let l : Level.Level = record { node = n; children = ch } in
    (if no_more segs && is_single top && is_some n.retained_message
      then l ∷ []
      else if (is_single top || bytes_eq top n.bytes) && not (is_multi n.bytes)
      then reverse l segs
      else if is_multi top
      then reverse l (top ∷ [])
      else [])
    ++ reverse_tops rest top segs

unfoldable pub reverse_match_segs : TopicStorage → List Bytes → List Level.Level
unfolding reverse_tops
reverse_match_segs ts [] = []
reverse_match_segs ts (top ∷ segs) = reverse_tops ts.filters top segs

unfoldable pub reverse_match : TopicStorage → Bytes → List Level.Level
unfolding reverse_match_segs split
reverse_match ts filter = reverse_match_segs ts (split filter topic_delim)

-- The part of `Subscribe` that changes the tree, for a valid filter.
module _ (h : Sessions) (client_id : Bytes) (session : ℕ) (qos : ℕ) where
  unfoldable pub subscribe_segs : List Bytes → TopicStorage → TopicStorage
  unfolding ensure_top modify parse_children
  subscribe_segs [] ts = ts
  subscribe_segs (top ∷ []) ts =
      let ts' = ensure_top top ts in
      record ts' {
        filters =
            modify (λ n ch. record { node = subscribe_at h client_id session qos n; children = ch })
              top ts'.filters;
      }
  subscribe_segs (top ∷ seg ∷ segs) ts =
      let ts' = ensure_top top ts in
      record ts' {
        filters = modify (parse_children h client_id session qos (seg ∷ segs)) top ts'.filters;
      }

-- `Retain` on the parts of the topic.
unfoldable pub retain_segs : Option Message → List Bytes → TopicStorage → TopicStorage
unfolding ensure_top modify parse_children_retain
retain_segs msg [] ts = ts
retain_segs msg (top ∷ segs) ts =
    let ts' = ensure_top top ts in
    record ts' {
      filters =
          modify
            (λ n ch.
              if no_more segs && not (is_single n.bytes)
              then record { node = record n { retained_message = msg }; children = ch }
              else parse_children_retain msg segs n ch)
            top ts'.filters;
    }

abbrev pub refused : Option Message → Bool
refused none = false
refused (some m) = not (valid_topic_name m.topic)

unfoldable pub retain : Option Message → Bytes → TopicStorage → TopicStorage
unfolding retain_segs valid_topic_name split
retain msg topic ts = if refused msg then ts else retain_segs msg (split topic topic_delim) ts

-- A tree, the sessions and whether a subscription was found.
pub record Removed : Type 0 where
  pub levels : Forest
  pub sessions : Sessions
  pub success : Bool

-- `traverseDelete` on a slice of levels, and with it the rest of `Unsubscribe`: the source makes the
-- same search among the top levels and among a level's children. `clean` is of the client's session.
module _ (client_id : Bytes) (clean : Bool) where
  unfoldable pub traverse_delete : List Bytes → Sessions → Forest → Removed
  unfolding find modify delete_subscription
  traverse_delete [] h f = record { levels = f; sessions = h; success = false }
  traverse_delete (b ∷ []) h f = elim (find b f) [
    | none ↦ record { levels = f; sessions = h; success = false }
    | some l ↦
        let d = delete_subscription h client_id clean true l.node.subscriptions in
        record {
          levels =
              modify (λ n ch. record { node = record n { subscriptions = d.subs }; children = ch })
                b f;
          sessions = d.sessions;
          success = d.success;
        }
  ]
  traverse_delete (b ∷ c ∷ segs) h f = elim (find b f) [
    | none ↦ record { levels = f; sessions = h; success = false }
    | some l ↦
        let r = traverse_delete (c ∷ segs) h l.children in
        record {
          levels = modify (λ n ch. record { node = n; children = r.levels }) b f;
          sessions = r.sessions;
          success = r.success;
        }
  ]

-- A tree and the sessions after `traverseDeleteAll`, and whether it met a nil pointer.
pub record Purged : Type 0 where
  pub levels : Forest
  pub sessions : Sessions
  pub panicked : Bool

abbrev pub clean_or_false : Option Bool → Bool
clean_or_false none = false
clean_or_false (some b) = b

-- `clean` is of the client's session, and none where the session is a nil pointer.
module _ (client_id : Bytes) (clean : Option Bool) where
  -- `DeleteSubscription` reads `clean` where it finds a subscription of a client that is not graceful.
  abbrev pub reads_nil : (graceful : Bool) → Sessions → List Subscription → Bool
  reads_nil graceful h subs =
      is_some (find_from h client_id 0 subs) && not graceful && not (is_some clean)

  -- `traverseDeleteAll`, where `graceful` is that of the outermost levels: the loop of
  -- `UnsubscribeAll` passes the client's, and all below it pass false. A panic ends all loops.
  unfoldable pub delete_all : (graceful : Bool) → Sessions → Forest → Purged
  unfolding delete_subscription find_from
  delete_all graceful h no_levels = record { levels = no_levels; sessions = h; panicked = false }
  delete_all graceful h (level n ch rest) =
      let d = delete_subscription h client_id (clean_or_false clean) graceful n.subscriptions in
      let n' = record n { subscriptions = d.subs } in
      let below = delete_all false d.sessions ch in
      let after = delete_all graceful below.sessions rest in
      if reads_nil graceful h n.subscriptions
      then record { levels = level n ch rest; sessions = h; panicked = true }
      else if below.panicked
      then record {
        levels = level n' below.levels rest;
        sessions = below.sessions;
        panicked = true;
      }
      else record {
        levels = level n' below.levels after.levels;
        sessions = after.sessions;
        panicked = after.panicked;
      }
