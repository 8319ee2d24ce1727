-- ===== src/Broker/Reach.antt =====
-- Which clients `Publish` sends a packet to.
use gott.Common.{
  ℕ, not, ◌&&◌, ==_iff, List, [], ◌∷◌, ◌++◌, Option, none, some, Bytes, ◌==◌, ◌≡◌, refl, sym, subst,
  ap, ap₂, ◌∙◌, ◌⊎◌, inl, inr, ◌↔◌, Bool-cases, iff_trans, iff_refl,
}
use mathlib.Core.Option.{some-injective}
use mathlib.Core.List.{Memᴰ}
use mathlib.Core.List.Memᴰ
use gott.Types.{Subscription, PublishFlags}
use gott.Topic.Level.{Level}
use gott.Topic.Delivery.{deliver}
use gott.Broker.{World, Event, live_client, connected_of, store_message}
use gott.Session.{ClientMessage, Session, Sessions, update}
use gott.Broker.Publish.{message_for, hand_over, publish_to, publish_each, publish_levels}

-- A packet for the client is among the events.
pub Sent : ℕ → List Event → Type 0
Sent c es = (packet : Bytes) × Memᴰ (Event.emitted c packet) es

abbrev IsEmitted : ℕ → Event → Type 0
IsEmitted c e = (packet : Bytes) × (Event.emitted c packet ≡ e)

append-Sent :
    (c : ℕ) (e : Event) (es : List Event) → Sent c (es ++ e ∷ []) ↔ (Sent c es ⊎ IsEmitted c e)
unfolding Sent
append-Sent c e es = (
  λ (p, m). elim (Memᴰ.append_cases es m) [
    | inl old ↦ inl (p, old)
    | inr new ↦ inr (p, Memᴰ.eq_of_singleton new)
  ],
  λ h. elim h [
    | inl (p, m) ↦ (p, Memᴰ.append_left _ m)
    | inr (p, q) ↦ (p, Memᴰ.append_right es (Memᴰ.head q))
  ],
)

-- An event that is no packet sends none.
silent-Sent :
    (c : ℕ) (e : Event) (es : List Event) → ¬ IsEmitted c e → Sent c (es ++ e ∷ []) ↔ Sent c es
silent-Sent c e es other = (
  λ m. elim ((append-Sent c e es).0 m) [ inl old ↦ old | inr new ↦ absurd (other new) ],
  λ m. (append-Sent c e es).1 (inl m),
)

abbrev receiver : Event → Option ℕ
receiver (Event.emitted c p) = some c
receiver (Event.saving i s) = none
receiver (Event.forgotten i) = none
receiver (Event.retrying i m) = none
receiver (Event.closed c) = none
receiver (Event.on_message c t p d q r) = none
receiver (Event.on_publish c t p d q r) = none
receiver (Event.on_subscribe c f q) = none
receiver (Event.on_unsubscribe c f) = none
receiver (Event.on_disconnect c g) = none

emitted-Sent :
    (d : ℕ) (packet : Bytes) (es : List Event) (c : ℕ)
    → Sent c (es ++ Event.emitted d packet ∷ []) ↔ (Sent c es ⊎ (some d ≡ some c))
emitted-Sent d packet es c = (
  λ m. elim ((append-Sent c _ es).0 m) [
    | inl old ↦ inl old
    | inr (p, e) ↦ inr (sym (ap receiver e))
  ],
  λ h. (append-Sent c _ es).1 (elim h [
    | inl old ↦ inl old
    | inr e ↦ inr (packet, ap (λ d. Event.emitted d packet) (sym (some-injective _ _ e)))
  ]),
)

nothing_added : {A : Type 0} (c : ℕ) → A ↔ (A ⊎ ◌≡◌ {A = Option ℕ} none (some c))
nothing_added c = (inl, λ h. elim h [ inl a ↦ a | inr e ↦ cc ])

pub message_for-frame :
    (qos : ℕ) (m : ClientMessage) (w : World)
    → ((message_for qos m w).1.events ≡ w.events)
      × ((message_for qos m w).1.clients ≡ w.clients)
      × ((message_for qos m w).1.sessions ≡ w.sessions)
unfolding message_for
message_for-frame qos m w = elim (Bool-cases (qos == 0)) [
  | inl e ↦ rw e (refl, refl, refl)
  | inr e ↦ rw e (refl, refl, refl)
]

update-client :
    (h : Sessions) (p : ℕ) (new : Session) (q : ℕ)
    → new.client ≡ (h p).client
    → (update h p new q).client ≡ (h q).client
update-client h p new q k = elim (Bool-cases (q == p)) [
  | inl e ↦ rw e (k ∙ ap (λ i. (h i).client) (sym ((==_iff q p).0 e)))
  | inr e ↦ rw e refl
]

store_message-live :
    (session packet_id m : ℕ) (w : World) (s : ℕ)
    → live_client (store_message session packet_id m w) s ≡ live_client w s
unfolding store_message live_client
store_message-live session packet_id m w s = elim (Bool-cases (w.sessions session).clean) [
  | inl e ↦ rw e (ap (connected_of w.clients) (update-client w.sessions session _ s refl))
  | inr e ↦ rw e (ap (connected_of w.clients) (update-client w.sessions session _ s refl))
]

store_message-Sent :
    (session packet_id m : ℕ) (w : World) (c : ℕ)
    → Sent c (store_message session packet_id m w).events ↔ Sent c w.events
unfolding store_message
store_message-Sent session packet_id m w c = elim (Bool-cases (w.sessions session).clean) [
  | inl e ↦ rw e iff_refl
  | inr e ↦ rw e (silent-Sent c _ w.events (λ (p, e). cc))
]

module _ (packet : Bytes) (packet_id msg qos session : ℕ) where
  hand_over-live :
      (o : Option ℕ) (w : World) (s : ℕ)
      → live_client (hand_over packet packet_id msg qos session o w) s ≡ live_client w s
  unfolding hand_over live_client
  hand_over-live (some c) w s = elim (Bool-cases (qos == 0)) [
    | inl e ↦ rw e refl
    | inr e ↦ rw e refl
  ]
  hand_over-live none w s = elim (Bool-cases (not (w.sessions session).clean && not (qos == 0))) [
    | inl e ↦ rw e (store_message-live session packet_id msg w s)
    | inr e ↦ rw e refl
  ]

  hand_over-Sent :
      (o : Option ℕ) (w : World) (c : ℕ)
      → Sent c (hand_over packet packet_id msg qos session o w).events
        ↔ (Sent c w.events ⊎ (o ≡ some c))
  unfolding hand_over
  hand_over-Sent (some d) w c = elim (Bool-cases (qos == 0)) [
    | inl e ↦ rw e (emitted-Sent d packet w.events c)
    | inr e ↦ rw e (iff_trans (silent-Sent c _ _ (λ (p, e). cc)) (emitted-Sent d packet w.events c))
  ]
  hand_over-Sent none w c = elim (Bool-cases (not (w.sessions session).clean && not (qos == 0))) [
    | inl e ↦ rw e (iff_trans (store_message-Sent session packet_id msg w c) (nothing_added c))
    | inr e ↦ rw e (nothing_added c)
  ]

  -- … where the events are those of another state.
  hand_over-Sent_of :
      (o : Option ℕ) (v w : World) (c : ℕ)
      → v.events ≡ w.events
      → Sent c (hand_over packet packet_id msg qos session o v).events
        ↔ (Sent c w.events ⊎ (o ≡ some c))
  hand_over-Sent_of o v w c e =
      subst
        (λ es.
          Sent c (hand_over packet packet_id msg qos session o v).events
          ↔ (Sent c es ⊎ (o ≡ some c)))
        e (hand_over-Sent o v c)

  hand_over-live_of :
      (o : Option ℕ) (v w : World) (s : ℕ)
      → v.clients ≡ w.clients
      → v.sessions ≡ w.sessions
      → live_client (hand_over packet packet_id msg qos session o v) s ≡ live_client w s
  unfolding live_client
  hand_over-live_of o v w s e f =
      hand_over-live o v s ∙ ap₂ (λ g h. connected_of g (h s).client) e f

module _ (topic payload : Bytes) (flags : PublishFlags) where
  -- A publication to a subscription changes no session's connected client.
  pub publish_to-live :
      (sub : Subscription) (w : World) (s : ℕ)
      → live_client (publish_to topic payload flags sub w) s ≡ live_client w s
  unfolding publish_to
  publish_to-live sub w s =
      hand_over-live_of _ _ _ _ _ (live_client w sub.session) _ w s (message_for-frame _ _ _).1
        (message_for-frame _ _ _).2

  publish_to-Sent :
      (sub : Subscription) (w : World) (c : ℕ)
      → Sent c (publish_to topic payload flags sub w).events
        ↔ (Sent c w.events ⊎ (live_client w sub.session ≡ some c))
  unfolding publish_to
  publish_to-Sent sub w c =
      hand_over-Sent_of _ _ _ _ _ (live_client w sub.session) _ w c (message_for-frame _ _ _).0

  -- The same for a list of subscriptions.
  pub publish_each-Sent :
      (subs : List Subscription) (w : World) (c : ℕ)
      → Sent c (publish_each topic payload flags subs w).events ↔ (
          Sent c w.events
          ⊎ ((sub : Subscription) × Memᴰ sub subs × (live_client w sub.session ≡ some c)))
  unfolding publish_each
  publish_each-Sent [] w c =
      (inl, λ h. elim h [ inl m ↦ m | inr (s, m, e) ↦ absurd (Memᴰ.not-nil m) ])
  publish_each-Sent (sub ∷ subs) w c =
      let rest = publish_each-Sent subs (publish_to topic payload flags sub w) c in
      let here = publish_to-Sent sub w c in
      (
        λ h. elim (rest.0 h) [
          | inl m ↦ elim (here.0 m) [ inl old ↦ inl old | inr e ↦ inr (sub, Memᴰ.head refl, e) ]
          | inr (s, m, e) ↦ inr (s, Memᴰ.tail m, sym (publish_to-live sub w s.session) ∙ e)
        ],
        λ h. rest.1 (elim h [
          | inl old ↦ inl (here.1 (inl old))
          | inr (s, Memᴰ.head i, e) ↦
              inl
                (here.1 (inr (subst (λ (t : Subscription). live_client w t.session ≡ some c) i e)))
          | inr (s, Memᴰ.tail m, e) ↦ inr (s, m, publish_to-live sub w s.session ∙ e)
        ]),
      )

  publish_each-append :
      (subs rest : List Subscription) (w : World)
      → publish_each topic payload flags (subs ++ rest) w
        ≡ publish_each topic payload flags rest (publish_each topic payload flags subs w)
  unfolding publish_each
  publish_each-append [] rest w = refl
  publish_each-append (sub ∷ subs) rest w =
      publish_each-append subs rest (publish_to topic payload flags sub w)

  -- The two loops of `Publish` are one over the subscriptions of all levels.
  pub publish_levels-deliver :
      (ls : List Level) (w : World)
      → publish_levels topic payload flags ls w ≡ publish_each topic payload flags (deliver ls) w
  unfolding publish_levels deliver publish_each
  publish_levels-deliver [] w = refl
  publish_levels-deliver (l ∷ ls) w =
      publish_levels-deliver ls (publish_each topic payload flags l.node.subscriptions w)
      ∙ sym (publish_each-append l.node.subscriptions (deliver ls) w)
