-- ===== src/Topic/Changes.antt =====
-- What `createOrUpdateSubscription` and `DeleteSubscription` make of a list of subscriptions, described
-- without their loops, and that they do so.
use gott.Common.{
  ℕ, zero, suc, ◌+◌, ◌-◌, Bool, true, false, List, [], ◌∷◌, ◌++◌, none, some, take, drop, length,
  Bytes, bytes_eq, bytes_eq→eq, bytes_eq_self, ◌==◌, ◌≡◌, ◌≢◌, refl, sym, ap, subst, ◌∙◌, inl, inr,
  Bool-cases, Option-cases, arith,
}
use gott.Types.{Subscription}
use gott.Session.{Sessions}
use gott.Topic.Subscriptions.{
  delete, update_subscription, create_or_update, find_from, delete_subscription,
}

bytes_eq-ne : (a b : Bytes) → bytes_eq a b ≡ false → a ≢ b
bytes_eq-ne a b h e =
    let self = subst (λ (x : Bytes). bytes_eq a x ≡ true) e (bytes_eq_self a) in cc

-- The subscriptions of a level before and after, where the client has the identifier `id`.
module _ (h : Sessions) (id : Bytes) where
  -- The subscription belongs to a session of the client.
  abbrev pub Belongs : Subscription → Type 0
  Belongs sub = (h sub.session).id ≡ id

  -- The first subscription of the client, if it has one, is replaced by the new one in its place; if it
  -- has none, the new one is added at the end. Every other subscription stays, in its place.
  pub data Upserted (new : Subscription) : List Subscription → List Subscription → Type 0 where
    added : Upserted new [] (new ∷ [])
    replaced :
        {sub : Subscription} {rest : List Subscription}
        → Belongs sub
        → Upserted new (sub ∷ rest) (new ∷ rest)
    passed :
        {sub : Subscription} {rest rest' : List Subscription}
        → ¬ Belongs sub
        → Upserted new rest rest'
        → Upserted new (sub ∷ rest) (sub ∷ rest')

  -- The first subscription of the client is taken out, if it has one. Every other stays, in its order.
  pub data TakenOut : List Subscription → List Subscription → Type 0 where
    nothing : TakenOut [] []
    taken_out :
        {sub : Subscription} {rest : List Subscription} → Belongs sub → TakenOut (sub ∷ rest) rest
    passed_by :
        {sub : Subscription} {rest rest' : List Subscription}
        → ¬ Belongs sub
        → TakenOut rest rest'
        → TakenOut (sub ∷ rest) (sub ∷ rest')

  create_or_update-cons :
      (session qos : ℕ) (sub : Subscription) (subs : List Subscription)
      → bytes_eq (h sub.session).id id ≡ false
      → create_or_update h id session qos (sub ∷ subs)
        ≡ sub ∷ create_or_update h id session qos subs
  unfolding create_or_update update_subscription
  create_or_update-cons session qos sub subs miss =
      elim (Option-cases (update_subscription h id session qos subs)) [
        | inl e ↦ rw (miss, e, create_or_update) refl
        | inr (subs', e) ↦ rw (miss, e, create_or_update) refl
      ]

  pub create_or_update-Upserted :
      (session qos : ℕ) (subs : List Subscription)
      → Upserted
          (record { session = session; qos = qos })
          subs
          (create_or_update h id session qos subs)
  unfolding create_or_update update_subscription
  create_or_update-Upserted session qos [] = added
  create_or_update-Upserted session qos (sub ∷ subs) =
      elim (Bool-cases (bytes_eq (h sub.session).id id)) [
        | inl hit ↦ rw (hit, create_or_update) (replaced (bytes_eq→eq _ _ hit))
        | inr miss ↦
            rw (create_or_update-cons session qos sub subs miss)
              (passed (bytes_eq-ne _ _ miss) (create_or_update-Upserted session qos subs))
      ]

  -- The list without the subscription at the index.
  abbrev without : ℕ → List Subscription → List Subscription
  without i [] = []
  without zero (s ∷ subs) = subs
  without (suc i) (s ∷ subs) = s ∷ without i subs

  take-without :
      (i : ℕ) (subs : List Subscription) → take i subs ++ drop (suc i) subs ≡ without i subs
  take-without zero [] = refl
  take-without (suc i) [] = refl
  take-without zero (s ∷ subs) = refl
  take-without (suc i) (s ∷ subs) = ap (λ t. s ∷ t) (take-without i subs)

  drop_all :
      (n : ℕ) (subs : List Subscription) → (n == length subs - 1) ≡ true → drop (suc n) subs ≡ []
  drop_all zero [] e = refl
  drop_all zero (s ∷ []) e = refl
  drop_all zero (s ∷ t ∷ subs) e = absurd (ground arith)
  drop_all (suc n) [] e = refl
  drop_all (suc n) (s ∷ []) e = refl
  drop_all (suc n) (s ∷ t ∷ subs) e = drop_all n (t ∷ subs) (ground arith)

  delete-without : (i : ℕ) (subs : List Subscription) → delete subs i ≡ without i subs
  unfolding delete
  delete-without i subs =
      let next : i + 1 ≡ suc i = omega arith in
      elim (Bool-cases (i == length subs - 1)) [
        | inl e ↦
            rw (e, delete)
              (ap (λ t. take i subs ++ t) (sym (drop_all i subs e)) ∙ take-without i subs)
        | inr e ↦ rw (e, delete) (ap (λ n. take i subs ++ drop n subs) next ∙ take-without i subs)
      ]

  -- The index that `find_from` gives is, counted from where it started, that of the client's first
  -- subscription.
  find_from-TakenOut :
      (k i session : ℕ) (subs : List Subscription)
      → find_from h id k subs ≡ some (i, session)
      → (j : ℕ) × (i ≡ k + j) × TakenOut subs (without j subs)
  unfolding find_from
  find_from-TakenOut k i session [] e = absurd cc
  find_from-TakenOut k i session (sub ∷ subs) e =
      elim (Bool-cases (bytes_eq (h sub.session).id id)) [
        | inl hit ↦ (0, ground arith, taken_out (bytes_eq→eq _ _ hit))
        | inr miss ↦
            let (j, p, r) = find_from-TakenOut (suc k) i session subs (rw (miss, find_from) at e) in
            (suc j, omega (arith, p), passed_by (bytes_eq-ne _ _ miss) r)
      ]

  find_from-none :
      (k : ℕ) (subs : List Subscription) → find_from h id k subs ≡ none → TakenOut subs subs
  unfolding find_from
  find_from-none k [] e = nothing
  find_from-none k (sub ∷ subs) e = elim (Bool-cases (bytes_eq (h sub.session).id id)) [
    | inl hit ↦ absurd (ground arith)
    | inr miss ↦
        passed_by (bytes_eq-ne _ _ miss) (find_from-none (suc k) subs (rw (miss, find_from) at e))
  ]

  -- `DeleteSubscription` that is asked to be graceful, as `Unsubscribe` asks.
  pub delete_subscription-TakenOut :
      (clean : Bool) (subs : List Subscription)
      → TakenOut subs (delete_subscription h id clean true subs).subs
  unfolding delete_subscription
  delete_subscription-TakenOut clean subs = elim (Option-cases (find_from h id 0 subs)) [
    | inl e ↦ rw (e, delete_subscription) (find_from-none 0 subs e)
    | inr ((i, session), e) ↦
        let (j, p, r) = find_from-TakenOut 0 i session subs e in
        let same : i ≡ j = omega (arith, p) in
        rw (e, delete_subscription)
          (subst (TakenOut subs) (sym (delete-without i subs ∙ ap (λ n. without n subs) same)) r)
  ]
