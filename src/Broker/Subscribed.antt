-- ===== src/Broker/Subscribed.antt =====
-- `Subscribe` on a well-formed tree: it does not panic, and what is published afterwards reaches the
-- subscriber.
use gott.Common.{
  ℕ, true, false, List, [], ◌∷◌, Option, none, some, Bytes, bytes_eq, bytes_eq_self, split, ◌≡◌,
  refl, sym, subst, ap₂, ◌∙◌, inl, inr, Bool-cases, Option-cases, sort_by, ◌==◌, min,
}
use mathlib.Core.List.{Memᴰ}
use mathlib.Core.List.Memᴰ
use gott.Types.{Subscription, Message}
use gott.Session.{Sessions}
use gott.Topic.Subscriptions.{create_or_update, update_subscription}
use gott.Topic.Filter.{valid_filter}
use gott.Topic.Level.{topic_delim, topic_multi_level_wildcard, is_multi, is_some, Level}
use gott.Topic.Storage.{TopicStorage, subscribe_segs, reverse_match, reverse_match_segs}
use gott.Topic.Paths.{Covers, Matches, MultiLast}
use gott.Topic.Delivery.{StorageOk}
use gott.Topic.Reverse.{reverse_match_iff}
use gott.Topic.WellFormed.{subscribe_segs-StorageOk}
use gott.Topic.Insert.{touches}
use gott.Topic.Valid.{valid_filter-MultiLast}
use gott.Broker.{World, live_client, connected_of}
use gott.Broker.Publish.{publish_retained, retained_to, message_for}
use gott.Broker.Subscribe.{subscribe, retained_messages, send_retained}

-- The client's subscription is in the list that `createOrUpdateSubscription` leaves.
pub create_or_update-Memᴰ :
    (h : Sessions) (id : Bytes) (session qos : ℕ) (subs : List Subscription)
    → Memᴰ (record { session = session; qos = qos }) (create_or_update h id session qos subs)
unfolding create_or_update update_subscription
create_or_update-Memᴰ h id session qos [] = Memᴰ.head refl
create_or_update-Memᴰ h id session qos (s ∷ subs) =
    elim (Bool-cases (bytes_eq (h s.session).id id)) [
      | inl hit ↦ rw (hit, create_or_update) (Memᴰ.head refl)
      | inr miss ↦
          let rest = create_or_update-Memᴰ h id session qos subs in
          elim (Option-cases (update_subscription h id session qos subs)) [
            | inl e ↦ rw (miss, e, create_or_update) (Memᴰ.append_right (s ∷ subs) (Memᴰ.head refl))
            | inr (subs', e) ↦
                rw (miss, e, create_or_update) (Memᴰ.tail (rw (e, create_or_update) at rest))
          ]
    ]

-- A topic that a filter matches is covered by a path that subscribing to the filter touches.
pub Matches-Covers :
    (f t : List Bytes) → Matches f t → (p : List Bytes) × (touches p f ≡ true) × Covers p t
Matches-Covers f t Matches.end = ([], refl, Covers.end)
Matches-Covers (b ∷ f) (c ∷ t) (Matches.same e m) =
    let (p, h, k) = Matches-Covers f t m in (b ∷ p, rw (bytes_eq_self b) h, Covers.same e k)
Matches-Covers (b ∷ f) (c ∷ t) (Matches.single e m) =
    let (p, h, k) = Matches-Covers f t m in (b ∷ p, rw (bytes_eq_self b) h, Covers.single e k)
Matches-Covers (b ∷ []) [] (Matches.multi e) = (
  [],
  subst (λ (c : Bytes). is_multi c ≡ true) (sym e) (bytes_eq_self topic_multi_level_wildcard),
  Covers.end,
)
Matches-Covers (b ∷ []) (c ∷ t) (Matches.multi e) =
    (b ∷ [], rw (bytes_eq_self b) refl, Covers.multi e)

-- Levels that all have a retained message give their messages.
retained_messages-some :
    (ls : List Level)
    → ((l : Level) → Memᴰ l ls → is_some l.node.retained_message ≡ true)
    → (ms : List Message) × (retained_messages ls ≡ some ms)
unfolding retained_messages
retained_messages-some [] all = ([], refl)
retained_messages-some (l ∷ ls) all =
    let (ms, e) = retained_messages-some ls (λ k m. all k (Memᴰ.tail m)) in
    elim (Option-cases l.node.retained_message) [
      | inl n ↦ (let k = rw n at (all l (Memᴰ.head refl)) in cc)
      | inr (m, n) ↦ (m ∷ ms, rw (n, e) refl)
    ]

retained_levels :
    (segs : List Bytes) (ts : TopicStorage)
    → StorageOk ts
    → MultiLast segs
    → (l : Level) → Memᴰ l (reverse_match_segs ts segs)
    → is_some l.node.retained_message ≡ true
unfolding reverse_match_segs
retained_levels [] ts ok last l m = absurd (Memᴰ.not-nil m)
retained_levels (top ∷ segs) ts ok last l m =
    let (b, p, k, e, r) = (reverse_match_iff ts top segs l ok.levels last).0 m in r

-- Every level that `Subscribe` finds has a retained message.
reverse_match-some :
    (filter : Bytes) (ts : TopicStorage)
    → StorageOk ts
    → valid_filter filter ≡ true
    → (ms : List Message) × (retained_messages (reverse_match ts filter) ≡ some ms)
unfolding reverse_match
reverse_match-some filter ts ok v =
    let last = valid_filter-MultiLast filter v in
    retained_messages-some (reverse_match_segs ts (split filter topic_delim))
      (retained_levels (split filter topic_delim) ts ok last)

-- Sending retained messages changes neither the tree nor which client a session has connected.
retained_to-frame :
    (m : Message) (sub : Subscription) (o : Option ℕ) (w : World)
    → ((retained_to m sub o w).storage ≡ w.storage)
      × ((retained_to m sub o w).clients ≡ w.clients)
      × ((retained_to m sub o w).sessions ≡ w.sessions)
unfolding retained_to message_for
retained_to-frame m sub none w = (refl, refl, refl)
retained_to-frame m sub (some c) w = elim (Bool-cases (min sub.qos m.qos == 0)) [
  | inl e ↦ rw e (refl, refl, refl)
  | inr e ↦ rw e (refl, refl, refl)
]

send_retained-frame :
    (client qos : ℕ) (ms : List Message) (w : World)
    → ((send_retained client qos ms w).storage ≡ w.storage)
      × ((send_retained client qos ms w).clients ≡ w.clients)
      × ((send_retained client qos ms w).sessions ≡ w.sessions)
unfolding send_retained publish_retained
send_retained-frame client qos [] w = (refl, refl, refl)
send_retained-frame client qos (m ∷ ms) w =
    let sub : Subscription = record { session = (w.clients client).session; qos = qos } in
    let rest = send_retained-frame client qos ms _ in
    let here = retained_to-frame m sub (live_client w sub.session) w in
    (rest.0 ∙ here.0, rest.1 ∙ here.1, rest.2 ∙ here.2)

-- The tree after the first part of `Subscribe`.
abbrev pub tree_with : ℕ → Bytes → ℕ → World → TopicStorage
tree_with client filter qos w =
    let c = w.clients client in
    subscribe_segs w.sessions c.client_id c.session qos (split filter topic_delim) w.storage

pub record Subscribed (client : ℕ) (filter : Bytes) (qos : ℕ) (w w' : World) : Type 0 where
  pub returns : subscribe client filter qos w ≡ some (true, w')
  pub storage : w'.storage ≡ tree_with client filter qos w
  pub well_formed : StorageOk w'.storage
  pub live : (s : ℕ) → live_client w' s ≡ live_client w s

pub subscribe-Subscribed :
    (client : ℕ) (filter : Bytes) (qos : ℕ) (w : World)
    → StorageOk w.storage
    → valid_filter filter ≡ true
    → (w' : World) × Subscribed client filter qos w w'
unfolding subscribe live_client
subscribe-Subscribed client filter qos w ok v =
    let ts = tree_with client filter qos w in
    let good : StorageOk ts =
      subscribe_segs-StorageOk _ _ _ _ _ w.storage (valid_filter-MultiLast filter v) ok in
    let (ms, e) = reverse_match-some filter ts good v in
    let sent =
      send_retained client qos (sort_by (λ m. m.timestamp) ms) (record w { storage = ts }) in
    let f =
      send_retained-frame client qos (sort_by (λ m. m.timestamp) ms) (record w { storage = ts }) in
    (
      sent,
      record {
        returns = rw (v, e) refl;
        storage = f.0;
        well_formed = subst StorageOk (sym f.0) good;
        live = λ s. ap₂ (λ g h. connected_of g (h s).client) f.1 f.2;
      },
    )

pub subscribe_refused :
    (client : ℕ) (filter : Bytes) (qos : ℕ) (w : World)
    → valid_filter filter ≡ false
    → subscribe client filter qos w ≡ some (false, w)
unfolding subscribe
subscribe_refused client filter qos w v = rw v refl
