-- ===== src/Broker/Crash.antt =====
-- What `disconnect` does for a client that was given an identifier and no session, as after a CONNECT
-- packet that was refused.
use gott.Common.{
  ℕ, suc, Bool, true, false, ◌||◌, List, [], ◌∷◌, none, some, Bytes, bytes_eq, bytes_eq_self, ◌≡◌,
  refl, sym, ap, subst, ◌∙◌, inl, inr, ◌⊎◌, Bool-cases, Option-cases, arith,
}
use mathlib.Core.List.{Memᴰ}
use mathlib.Core.List.Memᴰ
use mathlib.Core.Option.{some-injective}
use gott.Types.{Subscription}
use gott.Session.{Sessions, update_self}
use gott.Topic.Subscriptions.{find_from, delete_subscription}
use gott.Topic.Level.{is_some, Node, Forest, no_levels, level, Level, find}
use gott.Topic.Storage.{delete_all}
use gott.Topic.Paths.{subs_at, level_at, look}
use gott.Topic.FindAll.{find_here, find_later}
use gott.Broker.{World}
use gott.Broker.Environment.{Environment}
use gott.Broker.Subscribe.{unsubscribe_all, clean_of}
use gott.Broker.Clients.{disconnect, close_connection, remove_client}

-- Some level has a subscription of a session with this identifier.
unfoldable pub subscribed_in : Sessions → Bytes → Forest → Bool
subscribed_in h id no_levels = false
subscribed_in h id (level n ch rest) =
    is_some (find_from h id 0 n.subscriptions) || subscribed_in h id ch || subscribed_in h id rest

delete_subscription_absent :
    (h : Sessions) (id : Bytes) (clean graceful : Bool) (subs : List Subscription)
    → find_from h id 0 subs ≡ none
    → delete_subscription h id clean graceful subs
      ≡ record { subs = subs; sessions = h; success = false }
unfolding delete_subscription
delete_subscription_absent h id clean graceful subs e = rw (e, delete_subscription) refl

-- Without a session the first subscription that is found is a panic, and nothing was changed before.
delete_all_nil :
    (h : Sessions) (id : Bytes) (f : Forest)
    → delete_all id none false h f
      ≡ record { levels = f; sessions = h; panicked = subscribed_in h id f }
unfolding delete_all subscribed_in
delete_all_nil h id no_levels = refl
delete_all_nil h id (level n ch rest) = elim (Option-cases (find_from h id 0 n.subscriptions)) [
  | inr (x, e) ↦ rw (e, delete_all, subscribed_in) refl
  | inl e ↦
      rw
        (
          e,
          delete_subscription_absent h id false false n.subscriptions e,
          delete_all_nil h id ch,
          delete_all_nil h id rest,
          delete_all,
          subscribed_in,
        )
        (elim (Bool-cases (subscribed_in h id ch)) [ inl c ↦ rw c refl | inr c ↦ rw c refl ])
]

find_from-Memᴰ :
    (h : Sessions) (id : Bytes) (i : ℕ) (sub : Subscription) (subs : List Subscription)
    → Memᴰ sub subs
    → (h sub.session).id ≡ id
    → is_some (find_from h id i subs) ≡ true
unfolding find_from
find_from-Memᴰ h id i sub [] m e = absurd (Memᴰ.not-nil m)
find_from-Memᴰ h id i sub (s ∷ subs) (Memᴰ.head p) e =
    let same : bytes_eq (h s.session).id id ≡ true = rw (sym p, e) (bytes_eq_self id) in
    rw same refl
find_from-Memᴰ h id i sub (s ∷ subs) (Memᴰ.tail m) e =
    elim (Bool-cases (bytes_eq (h s.session).id id)) [
      | inl t ↦ rw t refl
      | inr t ↦ rw t (find_from-Memᴰ h id (suc i) sub subs m e)
    ]

none_of_find : (b : Bytes) (l : Level) → find b no_levels ≡ some l → ⊥
unfolding find
none_of_find b l e = cc

-- Where a level of this name has one, or its children do, the slice has one.
here :
    (h : Sessions) (id : Bytes) (n : Node) (ch rest : Forest)
    → (is_some (find_from h id 0 n.subscriptions) ≡ true) ⊎ (subscribed_in h id ch ≡ true)
    → subscribed_in h id (level n ch rest) ≡ true
unfolding subscribed_in
here h id n ch rest s = ground arith

subscribed_in-find :
    (h : Sessions) (id b : Bytes) (f : Forest) (l : Level)
    → find b f ≡ some l
    → (is_some (find_from h id 0 l.node.subscriptions) ≡ true)
      ⊎ (subscribed_in h id l.children ≡ true)
    → subscribed_in h id f ≡ true
unfolding subscribed_in
subscribed_in-find h id b no_levels l e s = absurd (none_of_find b l e)
subscribed_in-find h id b (level n ch rest) l e s = elim (Bool-cases (bytes_eq n.bytes b)) [
  | inl t ↦
      let same : l ≡ record { node = n; children = ch } =
        some-injective _ _ (sym e ∙ find_here b n ch rest t) in
      here h id n ch rest (
        subst
          (λ k.
            (is_some (find_from h id 0 k.node.subscriptions) ≡ true)
            ⊎ (subscribed_in h id k.children ≡ true))
          same s)
  | inr t ↦ ground (arith, subscribed_in-find h id b rest l (sym (find_later b n ch rest t) ∙ e) s)
]

-- … and at the end of any path.
level_at-subscribed :
    (h : Sessions) (id : Bytes) (p : List Bytes) (f : Forest) (l : Level)
    → level_at p f ≡ some l
    → is_some (find_from h id 0 l.node.subscriptions) ≡ true
    → subscribed_in h id f ≡ true
unfolding level_at
level_at-subscribed h id [] f l e s = cc
level_at-subscribed h id (b ∷ []) f l e s = subscribed_in-find h id b f l e (inl s)
level_at-subscribed h id (b ∷ c ∷ p) f l e s = elim (Option-cases (find b f)) [
  | inl n ↦ (let k = rw (n, level_at) at e in cc)
  | inr (k, n) ↦
      subscribed_in-find h id b f k n
        (inr (level_at-subscribed h id (c ∷ p) k.children l (rw (n, level_at) at e) s))
]

pub subs_at-subscribed :
    (h : Sessions) (id : Bytes) (p : List Bytes) (f : Forest) (sub : Subscription)
    → Memᴰ sub (subs_at p f)
    → (h sub.session).id ≡ id
    → subscribed_in h id f ≡ true
unfolding look
subs_at-subscribed h id p f sub m e = elim (Option-cases (level_at p f)) [
  | inl n ↦ absurd (Memᴰ.not-nil (rw (n, look) at m))
  | inr (l, n) ↦
      level_at-subscribed h id p f l n
        (find_from-Memᴰ h id 0 sub l.node.subscriptions (rw (n, look) at m) e)
]

unsubscribe_all_nil :
    (client : ℕ) (w : World)
    → (w.clients client).has_session ≡ false
    → (w.clients client).graceful_disconnect ≡ false
    → unsubscribe_all client w
      ≡ (subscribed_in w.sessions (w.clients client).client_id w.storage.filters, w)
unfolding unsubscribe_all
unsubscribe_all_nil client w s g =
    let c = w.clients client in
    let e : delete_all c.client_id (clean_of w client) c.graceful_disconnect w.sessions
          w.storage.filters
        ≡ record {
          levels = w.storage.filters;
          sessions = w.sessions;
          panicked = subscribed_in w.sessions c.client_id w.storage.filters;
        } =
      simp (s, g) (delete_all_nil w.sessions c.client_id w.storage.filters) in
    λ i. (
      (e i).panicked,
      record w { storage = record w.storage { filters = (e i).levels }; sessions = (e i).sessions },
    )

-- The client has an identifier but no session, has not sent DISCONNECT, and its identifier is that of
-- a session with a subscription.
pub record Doomed (client : ℕ) (w : World) : Type 0 where
  pub first : ℕ
  pub others : Bytes
  pub named : (w.clients client).client_id ≡ first ∷ others
  pub sessionless : (w.clients client).has_session ≡ false
  pub abrupt : (w.clients client).graceful_disconnect ≡ false
  pub subscribed : subscribed_in w.sessions (w.clients client).client_id w.storage.filters ≡ true

-- The state when `disconnect` calls `UnsubscribeAll`.
abbrev pub gone : (client : ℕ) → World → World
gone client w = remove_client (w.clients client).client_id (close_connection client w)

gone-client :
    (client : ℕ) (w : World)
    → (gone client w).clients client ≡ record (w.clients client) { connected = false }
unfolding remove_client close_connection
gone-client client w =
    update_self w.clients client (record (w.clients client) { connected = false })

pub gone-Doomed : (client : ℕ) (w : World) → Doomed client w → Doomed client (gone client w)
unfolding remove_client close_connection
gone-Doomed client w d = record {
  first = d.first;
  others = d.others;
  named = ap (λ c. c.client_id) (gone-client client w) ∙ d.named;
  sessionless = ap (λ c. c.has_session) (gone-client client w) ∙ d.sessionless;
  abrupt = ap (λ c. c.graceful_disconnect) (gone-client client w) ∙ d.abrupt;
  subscribed =
      ap (λ c. subscribed_in w.sessions c.client_id w.storage.filters) (gone-client client w)
      ∙ d.subscribed;
}

disconnect_panic :
    (env : Environment) (client x : ℕ) (xs : Bytes) (w : World) (t : Bool × World)
    → (w.clients client).client_id ≡ x ∷ xs
    → (unsubscribe_all client (gone client w)).0 ≡ true
    → (true, (unsubscribe_all client (gone client w)).1) ≡ t
    → disconnect env client w ≡ t
unfolding disconnect
disconnect_panic env client x xs w t n p e = rw (n, p, disconnect) e

pub disconnect-Doomed :
    (env : Environment) (client : ℕ) (w : World)
    → Doomed client w
    → disconnect env client w ≡ (true, gone client w)
disconnect-Doomed env client w d =
    let d' = gone-Doomed client w d in
    let e = unsubscribe_all_nil client (gone client w) d'.sessionless d'.abrupt in
    disconnect_panic env client d.first d.others w (true, gone client w) d.named
      (ap (λ q. q.0) e ∙ d'.subscribed) (λ i. (true, (e i).1))
