-- ===== src/Topic/Subscriptions.antt =====
-- The subscription list of atomic.go and the two operations of a topic level on it,
-- `createOrUpdateSubscription` and `DeleteSubscription`. The mutex makes each call one step.
use gott.Common.{
  ℕ, suc, ◌+◌, ◌-◌, Bool, true, false, not, ◌||◌, List, [], ◌∷◌, ◌++◌, Option, none, some, take,
  drop, length, Bytes, bytes_eq, if◌then◌else◌, ◌==◌,
}
use gott.Types.{Subscription}
use gott.Session.{Sessions, update}

-- `delete`: the subscriptions before the index, and after it if it is not the last.
unfoldable pub delete : List Subscription → ℕ → List Subscription
delete subs index =
    take index subs ++ (if not (index == length subs - 1) then drop (index + 1) subs else [])

-- The callback of `Range` in `createOrUpdateSubscription`, which stops at the first subscription
-- of the client; `none` if there is none.
unfoldable pub update_subscription :
    Sessions → Bytes → ℕ → ℕ → List Subscription → Option (List Subscription)
update_subscription h client_id session qos [] = none
update_subscription h client_id session qos (sub ∷ subs) =
    if bytes_eq (h sub.session).id client_id
    then some (record sub { qos = qos; session = session } ∷ subs)
    else elim (update_subscription h client_id session qos subs) [
      | none ↦ none
      | some subs' ↦ some (sub ∷ subs')
    ]

-- `createOrUpdateSubscription` of the client with this identifier and session.
unfoldable pub create_or_update : Sessions → Bytes → ℕ → ℕ → List Subscription → List Subscription
unfolding update_subscription
create_or_update h client_id session qos subs =
    elim (update_subscription h client_id session qos subs) [
      | none ↦ subs ++ record { session = session; qos = qos } ∷ []
      | some subs' ↦ subs'
    ]

-- The index and the session of the client's first subscription, from index `i` on.
unfoldable pub find_from : Sessions → Bytes → ℕ → List Subscription → Option (ℕ × ℕ)
find_from h client_id i [] = none
find_from h client_id i (sub ∷ subs) =
    if bytes_eq (h sub.session).id client_id
    then some (i, sub.session)
    else find_from h client_id (suc i) subs

pub record Deleted : Type 0 where
  pub subs : List Subscription
  pub sessions : Sessions
  pub success : Bool

-- `DeleteSubscription`. A session that is kept loses its client: `clean` is of the client's session.
unfoldable pub delete_subscription :
    Sessions → Bytes → (clean graceful : Bool) → List Subscription → Deleted
unfolding find_from delete
delete_subscription h client_id clean graceful subs = elim (find_from h client_id 0 subs) [
  | none ↦ record { subs = subs; sessions = h; success = false }
  | some (i, session) ↦
      if graceful || clean
      then record { subs = delete subs i; sessions = h; success = true }
      else record {
        subs = subs;
        sessions = update h session (record (h session) { client = none });
        success = true;
      }
]
