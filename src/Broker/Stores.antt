-- ===== src/Broker/Stores.antt =====
-- What a publication to one subscription stores for a persistent session whose client is away.
use gott.Common.{
  ℕ, Bool, true, false, not, ◌&&◌, List, [], ◌∷◌, ◌++◌, Option, none, some, Bytes, ◌==◌, ==_iff,
  min, if◌then◌else◌, ◌≡◌, refl, sym, subst, ap, ◌∙◌, inl, inr, Bool-cases,
}
use mathlib.Core.List.{Memᴰ}
use mathlib.Core.List.Memᴰ
use gott.Types.{Subscription, PublishFlags}
use gott.Session.{ClientMessage, MessageStore, Session, Sessions, update, update_self}
use gott.Session.Store
use gott.Packets.{make_publish}
use gott.Broker.{World, Event, live_client, store_message, snapshot, happen, emit, allocate}
use gott.Broker.Publish.{message_for, hand_over, kept, publish_to}
use gott.Broker.Reach.{message_for-frame}

-- A persistent session whose client is not connected.
pub record Absent (w : World) (session : ℕ) : Type 0 where
  pub away : live_client w session ≡ none
  pub lasting : (w.sessions session).clean ≡ false

-- `SessionStore.set` is called with a session of this identifier, in whose store a message with this
-- topic and this payload stands.
pub record Kept (id topic payload : Bytes) (es : List Event) : Type 0 where
  pub messages : List (ℕ × ClientMessage)
  pub saving : Memᴰ (Event.saving id messages) es
  pub packet_id : ℕ
  pub message : ClientMessage
  pub held : Memᴰ (packet_id, message) messages
  pub same_topic : message.topic ≡ topic
  pub same_payload : message.payload ≡ payload

-- What a step of `Publish` never takes back.
pub record Grows (w v : World) : Type 0 where
  pub clean : (s : ℕ) → (v.sessions s).clean ≡ (w.sessions s).clean
  pub id : (s : ℕ) → (v.sessions s).id ≡ (w.sessions s).id
  pub events : (e : Event) → Memᴰ e w.events → Memᴰ e v.events

pub Grows-refl : (w : World) → Grows w w
Grows-refl w = record { clean = λ s. refl; id = λ s. refl; events = λ e m. m }

update-same :
    {A : Type 0} (f : Session → A) (h : Sessions) (p : ℕ) (new : Session) (q : ℕ)
    → f new ≡ f (h p)
    → f (update h p new q) ≡ f (h q)
update-same f h p new q k = elim (Bool-cases (q == p)) [
  | inl e ↦ rw e (k ∙ ap (λ i. f (h i)) (sym ((==_iff q p).0 e)))
  | inr e ↦ rw e refl
]

Grows-if : (b : Bool) (w x y : World) → Grows w x → Grows w y → Grows w (if b then x else y)
Grows-if true w x y gx gy = gx
Grows-if false w x y gx gy = gy

-- An event more.
Grows-happen : (w v : World) (e : Event) → Grows w v → Grows w (happen e v)
Grows-happen w v e g = record {
  clean = g.clean;
  id = g.id;
  events = λ ev m. Memᴰ.append_left _ (g.events ev m);
}

stored : (session packet_id m : ℕ) → World → World
stored session packet_id m w =
    let s = w.sessions session in
    record w {
      sessions =
          update w.sessions session
            (record s { message_store = Store.store packet_id m s.message_store });
    }

store_message-Grows :
    (session packet_id m : ℕ) (w : World) → Grows w (store_message session packet_id m w)
unfolding store_message stored
store_message-Grows session packet_id m w =
    let g : Grows w (stored session packet_id m w) = record {
      clean = λ s. update-same (λ t. t.clean) w.sessions session _ s refl;
      id = λ s. update-same (λ t. t.id) w.sessions session _ s refl;
      events = λ ev m. m;
    } in
    Grows-if (w.sessions session).clean w _ _ g (Grows-happen w (stored session packet_id m w) _ g)

module _ (packet : Bytes) (packet_id msg qos session : ℕ) where
  -- With the message in the broker's store.
  stocked :
      (c : ℕ) (w : World)
      → Grows w (emit c packet w)
      → let v = emit c packet w in
        Grows w (record v { message_store = Store.store packet_id msg v.message_store })
  stocked c w g = record { clean = g.clean; id = g.id; events = g.events }

  hand_over-Grows :
      (o : Option ℕ) (w : World) → Grows w (hand_over packet packet_id msg qos session o w)
  unfolding hand_over
  hand_over-Grows (some c) w =
      Grows-if (qos == 0) w _ _ (Grows-happen w w _ (Grows-refl w))
        (Grows-happen w _ _ (stocked c w (Grows-happen w w _ (Grows-refl w))))
  hand_over-Grows none w =
      Grows-if (not (w.sessions session).clean && not (qos == 0)) w _ _
        (store_message-Grows session packet_id msg w) (Grows-refl w)

pub Grows-trans : (w v u : World) → Grows w v → Grows v u → Grows w u
Grows-trans w v u g h = record {
  clean = λ s. h.clean s ∙ g.clean s;
  id = λ s. h.id s ∙ g.id s;
  events = λ e m. h.events e (g.events e m);
}

-- A state that differs in neither.
Grows-same : (w v : World) → v.sessions ≡ w.sessions → v.events ≡ w.events → Grows w v
Grows-same w v e f = record {
  clean = λ s. ap (λ (h : Sessions). (h s).clean) e;
  id = λ s. ap (λ (h : Sessions). (h s).id) e;
  events = λ ev m. subst (Memᴰ ev) (sym f) m;
}

-- The branch that is taken.
second_branch : {A : Type 0} (b : Bool) (x y : A) → b ≡ false → (if b then x else y) ≡ y
second_branch true x y e = absurd cc
second_branch false x y e = refl

first_branch :
    {A : Type 0} (b c : Bool) (x y : A)
    → b ≡ false
    → c ≡ false
    → (if not b && not c then x else y) ≡ x
first_branch true c x y e f = absurd cc
first_branch false true x y e f = absurd cc
first_branch false false x y e f = refl

-- A session that is passed to `set` with the message at `m` first in its store.
saving-Kept :
    (t : Session) (messages : Store.Messages) (es : List Event) (i m : ℕ) (rest : MessageStore)
    → t.message_store ≡ (i, m) ∷ rest
    → Kept t.id
        (messages m).topic
        (messages m).payload
        (es ++ Event.saving t.id (snapshot messages t.message_store) ∷ [])
saving-Kept t messages es i m rest e = record {
  messages = snapshot messages t.message_store;
  saving = Memᴰ.append_right es (Memᴰ.head refl);
  packet_id = i;
  message = messages m;
  held = subst (λ ms. Memᴰ (i, messages m) (snapshot messages ms)) (sym e) (Memᴰ.head refl);
  same_topic = refl;
  same_payload = refl;
}

store_message-Kept :
    (session i m : ℕ) (w : World)
    → (w.sessions session).clean ≡ false
    → Kept
        (w.sessions session).id
        (w.messages m).topic
        (w.messages m).payload
        (store_message session i m w).events
unfolding store_message stored Store.store
store_message-Kept session i m w c =
    let s = w.sessions session in
    let new = record s { message_store = Store.store i m s.message_store } in
    let t = (stored session i m w).sessions session in
    let same : t ≡ new = update_self w.sessions session new in
    let k : Kept t.id (w.messages m).topic (w.messages m).payload
        (w.events ++ Event.saving t.id (snapshot w.messages t.message_store) ∷ []) =
      saving-Kept t w.messages w.events i m (Store.delete i s.message_store)
        (ap (λ u. u.message_store) same) in
    subst (λ (v : World). Kept s.id (w.messages m).topic (w.messages m).payload v.events)
      (sym (second_branch s.clean _ _ c))
      (subst
        (λ id.
          Kept id (w.messages m).topic (w.messages m).payload
            (w.events ++ Event.saving t.id (snapshot w.messages t.message_store) ∷ []))
        (ap (λ u. u.id) same) k)

module _ (packet : Bytes) (i qos session : ℕ) (m : ClientMessage) (w : World)
    (q : (qos == 0) ≡ false) (c : (w.sessions session).clean ≡ false) where
  abbrev Saves : Option ℕ → ℕ × World → Type 0
  Saves o r =
      Kept (w.sessions session).id m.topic m.payload
        (hand_over packet i r.0 qos session o r.1).events

  allocated-Kept : Saves none (allocate m w)
  unfolding hand_over
  allocated-Kept =
      let w' = (allocate m w).1 in
      let self = update_self w.messages w.fresh m in
      subst (λ (v : World). Kept (w.sessions session).id m.topic m.payload v.events)
        (sym (first_branch (w.sessions session).clean (qos == 0) _ _ c q))
        (subst
          (λ (n : ClientMessage).
            Kept (w.sessions session).id n.topic n.payload
              (store_message session i w.fresh w').events)
          self (store_message-Kept session i w.fresh w' c))

  handed_over-Kept : (o : Option ℕ) → o ≡ none → Saves o (message_for qos m w)
  unfolding message_for
  handed_over-Kept (some d) e = absurd cc
  handed_over-Kept none e =
      subst (Saves none) (sym (second_branch (qos == 0) (0, w) (allocate m w) q)) allocated-Kept

module _ (topic payload : Bytes) (flags : PublishFlags) where
  pub publish_to-Grows :
      (sub : Subscription) (w : World) → Grows w (publish_to topic payload flags sub w)
  unfolding publish_to
  publish_to-Grows sub w =
      let f = message_for-frame _ _ _ in
      Grows-trans w _ _ (Grows-same w _ f.2 f.0)
        (hand_over-Grows _ _ _ _ _ (live_client w sub.session) _)

  -- A publication above QoS 0 to a subscription of an absent session.
  pub publish_to-Kept :
      (sub : Subscription) (w : World)
      → Absent w sub.session
      → (min sub.qos flags.qos == 0) ≡ false
      → Kept (w.sessions sub.session).id topic payload (publish_to topic payload flags sub w).events
  unfolding publish_to
  publish_to-Kept sub w a q =
      let qos = min sub.qos flags.qos in
      let (packet, packet_id, seq) = make_publish topic payload 0 qos 0 w.packet_seq in
      handed_over-Kept packet packet_id qos sub.session
        (kept topic payload qos 0 (w.sessions sub.session).client) (record w { packet_seq = seq }) q
        a.lasting (live_client w sub.session) a.away
