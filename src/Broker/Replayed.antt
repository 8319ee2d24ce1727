-- ===== src/Broker/Replayed.antt =====
-- What `replay` sends to a client that is back.
use gott.Common.{
  ℕ, Bool, true, false, List, [], ◌∷◌, ◌++◌, append_assoc, append-nil, some, ◌==◌, ==_iff,
  if◌then◌else◌, ◌≡◌, refl, sym, subst, ap, ap₂, ◌∙◌, inl, inr, Bool-cases,
}
use gott.Session.{ClientMessage, MessageStore, update}
use gott.Session.Store.{Messages, sorted_entries}
use gott.Session.Sorted.{Lists, sorted_entries-Lists}
use gott.Packets.{make_publish_with_id}
use gott.Broker.{World, Event, emit, happen}
use gott.Broker.Publish.{is_unacknowledged, publish_to_client}
use gott.Broker.Replay.{replay, replay_each}

-- The events of one entry: above QoS 0 the packet, if the message is unacknowledged, and a `Retry`.
abbrev pub entry_events : (client packet_id m : ℕ) → ClientMessage → List Event
entry_events client i m cm =
    if cm.qos == 0
    then []
    else (if is_unacknowledged cm.status
        then Event.emitted client (make_publish_with_id i cm.topic cm.payload 0 cm.qos 0) ∷ []
        else [])
      ++ Event.retrying i m ∷ []

abbrev pub replayed : (client : ℕ) → Messages → MessageStore → List Event
replayed client messages [] = []
replayed client messages ((i, m) ∷ ms) =
    entry_events client i m (messages m) ++ replayed client messages ms

-- Messages that differ in nothing that is sent.
record Alike (a b : ClientMessage) : Type 0 where
  pub topic : a.topic ≡ b.topic
  pub payload : a.payload ≡ b.payload
  pub qos : a.qos ≡ b.qos
  pub status : a.status ≡ b.status

Alike-refl : (a : ClientMessage) → Alike a a
Alike-refl a = record { topic = refl; payload = refl; qos = refl; status = refl }

Alike-trans : (a b c : ClientMessage) → Alike a b → Alike b c → Alike a c
Alike-trans a b c h k = record {
  topic = h.topic ∙ k.topic;
  payload = h.payload ∙ k.payload;
  qos = h.qos ∙ k.qos;
  status = h.status ∙ k.status;
}

update-Alike :
    (messages : Messages) (m : ℕ) (new : ClientMessage) (n : ℕ)
    → Alike new (messages m)
    → Alike (update messages m new n) (messages n)
update-Alike messages m new n h = elim (Bool-cases (n == m)) [
  | inl e ↦ rw e (subst (λ k. Alike new (messages k)) (sym ((==_iff n m).0 e)) h)
  | inr e ↦ rw e (Alike-refl (messages n))
]

entry_events-Alike :
    (client i m : ℕ) (a b : ClientMessage)
    → Alike a b
    → entry_events client i m a ≡ entry_events client i m b
entry_events-Alike client i m a b h = simp (h.topic, h.payload, h.qos, h.status)

-- What one entry does.
record Replays (client i m : ℕ) (w v : World) : Type 0 where
  pub clients : v.clients ≡ w.clients
  pub messages : (n : ℕ) → Alike (v.messages n) (w.messages n)
  pub events : v.events ≡ w.events ++ entry_events client i m (w.messages m)

connected_branch : {A : Type 0} (b : Bool) (x y : A) → b ≡ true → (if b then x else y) ≡ x
connected_branch true x y e = refl
connected_branch false x y e = absurd cc

module _ (client i m : ℕ) (cm : ClientMessage) where
  no_entry : (cm.qos == 0) ≡ true → entry_events client i m cm ≡ []
  no_entry q = rw q refl

  pub whole_entry :
      (cm.qos == 0) ≡ false
      → is_unacknowledged cm.status ≡ true
      → entry_events client i m cm
        ≡ Event.emitted client (make_publish_with_id i cm.topic cm.payload 0 cm.qos 0)
          ∷ (Event.retrying i m ∷ [])
  whole_entry q u = rw (q, u) refl

  retry_entry :
      (cm.qos == 0) ≡ false
      → is_unacknowledged cm.status ≡ false
      → entry_events client i m cm ≡ Event.retrying i m ∷ []
  retry_entry q u = rw (q, u) refl

module _ (client i m : ℕ) (w : World) where
  abbrev packet_event : Event
  packet_event =
      let cm = w.messages m in
      Event.emitted client (make_publish_with_id i cm.topic cm.payload 0 cm.qos 0)

  abbrev retry_event : Event
  retry_event = Event.retrying i m

  abbrev cm : ClientMessage
  cm = w.messages m

  sent-Replays :
      (q u : Bool) (v : World)
      → (cm.qos == 0) ≡ q
      → is_unacknowledged cm.status ≡ u
      → v.clients ≡ w.clients
      → ((n : ℕ) → Alike (v.messages n) (w.messages n))
      → v.events ≡ w.events
      → let packet = make_publish_with_id i cm.topic cm.payload 0 cm.qos 0 in
        Replays client i m w
          (if q then w else happen (Event.retrying i m) (if u then emit client packet v else v))
  sent-Replays true u v q a c h e = record {
    clients = refl;
    messages = λ n. Alike-refl (w.messages n);
    events = sym (append-nil w.events) ∙ ap (λ es. w.events ++ es) (sym (no_entry client i m cm q));
  }
  sent-Replays false true v q a c h e = record {
    clients = c;
    messages = h;
    events =
        ap (λ es. (es ++ packet_event ∷ []) ++ retry_event ∷ []) e
        ∙ (append_assoc w.events (packet_event ∷ []) (retry_event ∷ [])
            ∙ ap (λ es. w.events ++ es) (sym (whole_entry client i m cm q a)));
  }
  sent-Replays false false v q a c h e = record {
    clients = c;
    messages = h;
    events =
        ap (λ es. es ++ retry_event ∷ []) e
        ∙ ap (λ es. w.events ++ es) (sym (retry_entry client i m cm q a));
  }

  publish_to_client-Replays :
      (w.clients client).connected ≡ true → Replays client i m w (publish_to_client client i m w)
  unfolding publish_to_client
  publish_to_client-Replays c =
      subst (Replays client i m w) (sym (connected_branch (w.clients client).connected _ _ c)) (
        sent-Replays (cm.qos == 0) (is_unacknowledged cm.status) _ refl refl refl
          (λ n.
            update-Alike w.messages m _ n
              (record { topic = refl; payload = refl; qos = refl; status = refl }))
          refl)

replayed-Alike :
    (client : ℕ) (f g : Messages) (ms : MessageStore)
    → ((n : ℕ) → Alike (f n) (g n))
    → replayed client f ms ≡ replayed client g ms
replayed-Alike client f g [] h = refl
replayed-Alike client f g ((i, m) ∷ ms) h =
    ap₂ (λ a b. a ++ b) (entry_events-Alike client i m (f m) (g m) (h m))
      (replayed-Alike client f g ms h)

replay_each-events :
    (client : ℕ) (ms : MessageStore) (w : World)
    → (w.clients client).connected ≡ true
    → (replay_each client ms w).events ≡ w.events ++ replayed client w.messages ms
unfolding replay_each
replay_each-events client [] w c = sym (append-nil w.events)
replay_each-events client ((i, m) ∷ ms) w c =
    let v = publish_to_client client i m w in
    let r = publish_to_client-Replays client i m w c in
    replay_each-events client ms v (ap (λ f. (f client).connected) r.clients ∙ c)
    ∙ (ap₂ (λ a b. a ++ b) r.events (replayed-Alike client v.messages w.messages ms r.messages)
        ∙ append_assoc w.events (entry_events client i m (w.messages m))
            (replayed client w.messages ms))

replay-owned :
    (session client : ℕ) (w t : World)
    → (w.sessions session).clean ≡ false
    → (w.sessions session).client ≡ some client
    → replay_each client (sorted_entries (w.sessions session).message_store) w ≡ t
    → replay session w ≡ t
unfolding replay
replay-owned session client w t clean owned e = simp (clean, owned) e

pub replay-sorted :
    (session client : ℕ) (w : World)
    → (w.sessions session).clean ≡ false
    → (w.sessions session).client ≡ some client
    → (w.clients client).connected ≡ true
    → (replay session w).events
      ≡ w.events ++ replayed client w.messages (sorted_entries (w.sessions session).message_store)
unfolding replay
replay-sorted session client w clean owned connected =
    ap (λ v. v.events) (replay-owned session client w _ clean owned refl)
    ∙ replay_each-events client (sorted_entries (w.sessions session).message_store) w connected

-- Between the states `w` and `v`, exactly the events of the entries of the store happen, by
-- identifier from the least up, each entry once.
pub record ReplaysStore (client : ℕ) (ms : MessageStore) (w v : World) : Type 0 where
  pub entries : MessageStore
  pub lists : Lists ms entries
  pub events : v.events ≡ w.events ++ replayed client w.messages entries

-- For a persistent session with a connected client, the events of `replay` are, for each message
-- above QoS 0 of the session's store once, by identifier from the least up: if it is unacknowledged,
-- the packet of the message under its identifier, written to the client; and then, acknowledged or
-- not, the start of a `Retry` for it.
pub replay-ReplaysStore :
    (session client : ℕ) (w : World)
    → (w.sessions session).clean ≡ false
    → (w.sessions session).client ≡ some client
    → (w.clients client).connected ≡ true
    → ReplaysStore client (w.sessions session).message_store w (replay session w)
replay-ReplaysStore session client w clean owned connected =
    let ms = (w.sessions session).message_store in
    record {
      entries = sorted_entries ms;
      lists = sorted_entries-Lists ms;
      events = replay-sorted session client w clean owned connected;
    }
