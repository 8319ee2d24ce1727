-- ===== src/Topic/Remove.antt =====
-- What `Unsubscribe` changes, path by path.
use gott.Common.{
  Bool, true, false, ◌&&◌, List, [], ◌∷◌, none, some, Bytes, bytes_eq, bytes_eq→eq, if◌then◌else◌,
  ◌≡◌, refl, sym, ap, ◌∙◌, subst, inl, inr, Bool-cases, Option-cases,
}
use gott.Types.{Subscription}
use gott.Session.{Sessions}
use gott.Topic.Subscriptions.{delete_subscription}
use gott.Topic.Level.{Node, Forest, Level, find, modify}
use gott.Topic.Storage.{traverse_delete}
use gott.Topic.Paths.{subs_at, look-congr, subs_at-one, subs_at-cons, subs_at-none}
use gott.Topic.Upsert.{KeepsName, find-modify_self, find-modify_ne}
use gott.Topic.Insert.{same_path, subs}

-- A change of the level `l` that `find b` returns, seen from the paths.
module _ (g : Node → Forest → Level) (b : Bytes) (f : Forest) (l : Level) (k : KeepsName g)
    (e : find b f ≡ some l) where
  subs_at-modify_one : subs_at (b ∷ []) (modify g b f) ≡ (g l.node l.children).node.subscriptions
  subs_at-modify_one = subs_at-one b _ _ (find-modify_self g b f l k e)

  subs_at-modify_cons :
      (c : Bytes) (q : List Bytes)
      → subs_at (b ∷ c ∷ q) (modify g b f) ≡ subs_at (c ∷ q) (g l.node l.children).children
  subs_at-modify_cons c q = subs_at-cons b c q _ _ (find-modify_self g b f l k e)

  subs_at-modify_ne :
      (a : Bytes) (q : List Bytes)
      → bytes_eq b a ≡ false
      → subs_at (a ∷ q) (modify g b f) ≡ subs_at (a ∷ q) f
  subs_at-modify_ne a q n = look-congr subs [] a q _ _ (find-modify_ne g b a f k n)

module _ (client_id : Bytes) (clean : Bool) (h : Sessions) where
  abbrev remove : List Subscription → List Subscription
  remove subs = (delete_subscription h client_id clean true subs).subs

  remove-nil : remove [] ≡ []
  unfolding delete_subscription
  remove-nil = refl

  -- What `Unsubscribe` leaves at a path, where `hit` tells whether it is the filter's.
  abbrev left : Bool → List Subscription → List Subscription
  left hit subs = if hit then remove subs else subs

  left-nil : (hit : Bool) → left hit [] ≡ []
  left-nil true = remove-nil
  left-nil false = refl

  subs_at-missing :
      (b a : Bytes) (q : List Bytes) (f : Forest) (hit : Bool)
      → find b f ≡ none
      → subs_at (a ∷ q) f ≡ left (bytes_eq b a && hit) (subs_at (a ∷ q) f)
  subs_at-missing b a q f hit e = elim (Bool-cases (bytes_eq b a)) [
    | inl m ↦
        let gone =
          subst (λ (a : Bytes). subs_at (a ∷ q) f ≡ []) (bytes_eq→eq b a m)
            (subs_at-none b q f e) in
        rw (gone, m) (sym (left-nil hit))
    | inr m ↦ rw m refl
  ]

  subs_at-here :
      (b : Bytes) (f : Forest) (l : Level) (q : List Bytes)
      → find b f ≡ some l
      → subs_at (b ∷ q) (
          modify
            (λ n ch. record {
              node = record n { subscriptions = remove l.node.subscriptions };
              children = ch;
            })
            b
            f)
        ≡ left (same_path q []) (subs_at (b ∷ q) f)
  subs_at-here b f l [] e =
      subs_at-modify_one _ b f l (λ _ _. refl) e ∙ ap remove (sym (subs_at-one b f l e))
  subs_at-here b f l (c ∷ q) e =
      subs_at-modify_cons _ b f l (λ _ _. refl) e c q ∙ sym (subs_at-cons b c q f l e)

  subs_at-below :
      (b c : Bytes) (segs : List Bytes) (f : Forest) (l : Level) (q : List Bytes)
      → find b f ≡ some l
      → ((a : Bytes) (q : List Bytes)
          → subs_at (a ∷ q) (traverse_delete client_id clean (c ∷ segs) h l.children).levels
            ≡ left (same_path (a ∷ q) (c ∷ segs)) (subs_at (a ∷ q) l.children))
      → subs_at (b ∷ q) (
          modify
            (λ n ch. record {
              node = n;
              children = (traverse_delete client_id clean (c ∷ segs) h l.children).levels;
            })
            b
            f)
        ≡ left (same_path q (c ∷ segs)) (subs_at (b ∷ q) f)
  subs_at-below b c segs f l [] e ih =
      subs_at-modify_one _ b f l (λ _ _. refl) e ∙ sym (subs_at-one b f l e)
  subs_at-below b c segs f l (d ∷ q) e ih =
      subs_at-modify_cons _ b f l (λ _ _. refl) e d q
      ∙ ih d q
      ∙ ap (left (same_path (d ∷ q) (c ∷ segs))) (sym (subs_at-cons b d q f l e))

  -- `traverse_delete` does `DeleteSubscription` at the filter's path; every other path keeps its
  -- subscriptions.
  pub subs_at-unsubscribe :
      (segs : List Bytes) (f : Forest) (a : Bytes) (q : List Bytes)
      → subs_at (a ∷ q) (traverse_delete client_id clean segs h f).levels ≡ (
          if same_path (a ∷ q) segs
          then (delete_subscription h client_id clean true (subs_at (a ∷ q) f)).subs
          else subs_at (a ∷ q) f)
  unfolding traverse_delete
  subs_at-unsubscribe [] f a q = refl
  subs_at-unsubscribe (b ∷ []) f a q = elim (Option-cases (find b f)) [
    | inl e ↦ rw (e, traverse_delete) (subs_at-missing b a q f (same_path q []) e)
    | inr (l, e) ↦
        rw (e, traverse_delete)
          (elim (Bool-cases (bytes_eq b a)) [
            | inl m ↦ rw m (rw (← bytes_eq→eq b a m) (subs_at-here b f l q e))
            | inr m ↦ rw m (subs_at-modify_ne _ b f l (λ _ _. refl) e a q m)
          ])
  ]
  subs_at-unsubscribe (b ∷ c ∷ segs) f a q = elim (Option-cases (find b f)) [
    | inl e ↦ rw (e, traverse_delete) (subs_at-missing b a q f (same_path q (c ∷ segs)) e)
    | inr (l, e) ↦
        rw (e, traverse_delete)
          (elim (Bool-cases (bytes_eq b a)) [
            | inl m ↦ rw m (
                rw (← bytes_eq→eq b a m)
                  (subs_at-below b c segs f l q e (subs_at-unsubscribe (c ∷ segs) l.children)))
            | inr m ↦ rw m (subs_at-modify_ne _ b f l (λ _ _. refl) e a q m)
          ])
  ]
