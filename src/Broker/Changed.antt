-- ===== src/Broker/Changed.antt =====
-- What `Subscribe` and `Unsubscribe` change in the topic tree.
use gott.Common.{
  ℕ, Bool, true, false, List, ◌∷◌, Bytes, split, if◌then◌else◌, ◌≡◌, subst, sym, ap, ◌∙◌,
}
use gott.Types.{Subscription}
use gott.Topic.Filter.{valid_filter}
use gott.Topic.Level.{topic_delim}
use gott.Topic.Storage.{traverse_delete}
use gott.Topic.Paths.{subs_at}
use gott.Topic.Changes.{TakenOut, delete_subscription-TakenOut}
use gott.Topic.Insert.{same_path}
use gott.Topic.Remove.{subs_at-unsubscribe}
use gott.Broker.{World}
use gott.Broker.Subscribe.{unsubscribe, is_clean}

-- A list that is changed by `f` where `hit` says so, and is left alone elsewhere.
changed_where :
    (P : List Subscription → List Subscription → Type 0) (hit : Bool)
    (before changed after : List Subscription)
    → after ≡ (if hit then changed else before)
    → P before changed
    → (hit ≡ true → P before after) × (hit ≡ false → after ≡ before)
changed_where P true before changed after e p = (λ _. subst (P before) (sym e) p, λ n. absurd cc)
changed_where P false before changed after e p = (λ n. absurd cc, λ _. e)

unsubscribe-filters :
    (client : ℕ) (filter : Bytes) (w : World)
    → valid_filter filter ≡ true
    → (unsubscribe client filter w).1.storage.filters
      ≡ (traverse_delete
          (w.clients client).client_id
          (is_clean w client)
          (split filter topic_delim)
          w.sessions
          w.storage.filters).levels
unfolding unsubscribe
unsubscribe-filters client filter w v = simp v

-- After `Unsubscribe` with a valid filter, the first subscription that the client had at the filter's
-- path, if it had one, is gone, and every other subscription there stays in its order, though the
-- session is persistent; every other path, that before a last "#" too, keeps its subscriptions.
pub unsubscribe-TakenOut :
    (client : ℕ) (filter : Bytes) (w : World)
    → valid_filter filter ≡ true
    → let w' = (unsubscribe client filter w).1 in
      (a : Bytes) (q : List Bytes)
      → (same_path (a ∷ q) (split filter topic_delim) ≡ true
          → TakenOut w.sessions
              (w.clients client).client_id
              (subs_at (a ∷ q) w.storage.filters)
              (subs_at (a ∷ q) w'.storage.filters))
        × (same_path (a ∷ q) (split filter topic_delim) ≡ false
            → subs_at (a ∷ q) w'.storage.filters ≡ subs_at (a ∷ q) w.storage.filters)
unsubscribe-TakenOut client filter w v a q =
    let id = (w.clients client).client_id in
    let segs = split filter topic_delim in
    let before = subs_at (a ∷ q) w.storage.filters in
    changed_where (TakenOut w.sessions id) (same_path (a ∷ q) segs) before _
      (subs_at (a ∷ q) (unsubscribe client filter w).1.storage.filters)
      (ap (subs_at (a ∷ q)) (unsubscribe-filters client filter w v)
        ∙ subs_at-unsubscribe id (is_clean w client) w.sessions segs w.storage.filters a q)
      (delete_subscription-TakenOut w.sessions id (is_clean w client) before)
