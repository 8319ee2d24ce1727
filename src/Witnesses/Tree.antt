-- ===== src/Witnesses/Tree.antt =====
-- A topic tree with a subscription to "a/+" and a retained message at "a/x".
use gott.Common.{
  true, false, List, [], ◌∷◌, none, some, Bytes, bytes_eq, if◌then◌else◌, ◌≡◌, refl, ◌↔◌,
}
use mathlib.Core.List.{Memᴰ}
use gott.Types.{Subscription, Message}
use gott.Session.{Sessions}
use gott.Topic.Subscriptions.{create_or_update}
use gott.Topic.Filter.{valid_filter, valid_topic_name}
use gott.Topic.Level.{is_some, no_levels, Level}
use gott.Topic.Storage.{
  TopicStorage, empty_storage, match_segs, reverse_match_segs, subscribe_segs, retain_segs,
}
use gott.Topic.Paths.{look, subs_at, retained_at, level_at, Covers, Matches, MultiLast}
use gott.Topic.Delivery.{deliver, StorageOk, deliver-match_iff}
use gott.Topic.Reverse.{reverse_match_iff}
use gott.Topic.WellFormed.{
  Plain, subscribe_segs-StorageOk, retain_segs-StorageOk, empty_storage-StorageOk,
}
use gott.Topic.Insert.{same_path, retained_at-retain}
use gott.Topic.Storage.{traverse_delete}

abbrev sessions : Sessions
sessions _ = record { client = some 0; clean = true; id = b'c' ∷ []; message_store = [] }

abbrev a_plus : List Bytes
a_plus = (b'a' ∷ []) ∷ (b'+' ∷ []) ∷ []

abbrev a_x : List Bytes
a_x = (b'a' ∷ []) ∷ (b'x' ∷ []) ∷ []

abbrev sub : Subscription
sub = record { session = 1; qos = 2 }

abbrev news : Message
news = record {
  topic = b'a' ∷ b'/' ∷ b'x' ∷ [];
  payload = b'n' ∷ [];
  qos = 1;
  retain = false;
  timestamp = 7;
}

a_plus-MultiLast : MultiLast a_plus
unfolding bytes_eq
a_plus-MultiLast = (refl, tt)

a_x-Plain : Plain a_x
unfolding bytes_eq
a_x-Plain = (refl, refl, (refl, refl, tt))

abbrev subscribed : TopicStorage
subscribed = subscribe_segs sessions (b'c' ∷ []) 1 2 a_plus empty_storage

abbrev retained : TopicStorage
retained = retain_segs (some news) a_x subscribed

-- The same well-formed tree for the examples below.
subscribed_ok : StorageOk subscribed
subscribed_ok =
    subscribe_segs-StorageOk sessions (b'c' ∷ []) 1 2 a_plus empty_storage a_plus-MultiLast
      empty_storage-StorageOk

retained_ok : StorageOk retained
retained_ok = retain_segs-StorageOk (some news) a_x subscribed a_x-Plain subscribed_ok

deliver-a_x : deliver (match_segs retained a_x) ≡ sub ∷ []
unfolding deliver match_segs subscribe_segs retain_segs bytes_eq create_or_update
deliver-a_x = refl

deliver-match_iff_example :
    Memᴰ sub (deliver (match_segs subscribed a_x))
    ↔ ((p : List Bytes) × Covers p a_x × Memᴰ sub (subs_at p subscribed.filters))
deliver-match_iff_example = deliver-match_iff subscribed a_x sub subscribed_ok (λ e. cc)

abbrev found : Level
found = record {
  node = record {
    has_single_wildcard_as_child = false;
    has_multi_wildcard_as_child = false;
    bytes = b'x' ∷ [];
    subscriptions = [];
    retained_message = some news;
  };
  children = no_levels;
}

reverse_match_iff_example : Memᴰ found (reverse_match_segs retained a_plus) ↔ (
    (b : Bytes) × (p : List Bytes) × Matches a_plus (b ∷ p)
    × (level_at (b ∷ p) retained.filters ≡ some found)
    × (is_some found.node.retained_message ≡ true))
reverse_match_iff_example =
    reverse_match_iff retained (b'a' ∷ []) ((b'+' ∷ []) ∷ []) found retained_ok.levels
      a_plus-MultiLast

retained_at-retain_example :
    retained_at a_x (retain_segs none a_x retained).filters
    ≡ (if same_path a_x a_x then none else retained_at a_x retained.filters)
retained_at-retain_example =
    retained_at-retain none a_x retained (b'a' ∷ []) ((b'x' ∷ []) ∷ []) a_x-Plain

valid_news : valid_topic_name (b'a' ∷ b'/' ∷ b'x' ∷ []) ≡ true
unfolding valid_topic_name
valid_news = refl

valid_a_multi : valid_filter (b'a' ∷ b'/' ∷ b'#' ∷ []) ≡ true
unfolding valid_filter
valid_a_multi = refl

-- The subscription is gone after it.
unsubscribed :
    subs_at a_plus (traverse_delete (b'c' ∷ []) true a_plus sessions subscribed.filters).levels ≡ []
unfolding look traverse_delete subscribe_segs bytes_eq create_or_update
unsubscribed = refl
