-- ===== src/Listen/Restored.antt =====
-- What an accepted CONNECT packet leaves of a client that comes back to its stored session.
use gott.Common.{
  ℕ, true, false, List, [], ◌∷◌, ◌++◌, none, some, Bytes, ◌==◌, ◌≡◌, ◌≢◌, refl, sym, subst, ap, ap₂,
  ◌∙◌,
}
use mathlib.Core.List.{Memᴰ}
use mathlib.Core.List.Memᴰ
use gott.Types.{ConnectFlags, accepted, code_byte}
use gott.Packets.{make_conn_ack, make_publish_with_id}
use gott.Broker.Publish.{is_unacknowledged}
use gott.Session.{ClientMessage, MessageStore, Session, Sessions, update_self}
use gott.Session.Store
use gott.Session.Store.{sorted_entries}
use gott.Broker.{World, Client, Event, allocate}
use gott.Broker.Environment.{Environment}
use gott.Broker.Clients.{lookup_client}
use gott.Broker.Replay.{replay}
use gott.Broker.Replayed.{replayed}
use gott.Listen.{Link, done}
use gott.Listen.Connect.{accept, open_session, new_session, load, load_messages}
use gott.Listen.Accepted.{closing}
use gott.Listen.Loaded.{Distinct, loaded-sent}
use gott.Listen.Returned.{ack, old, met, met-replay}

-- Loading changes the heap of messages only.
record Loads (w v : World) : Type 0 where
  pub clients : v.clients ≡ w.clients
  pub sessions : v.sessions ≡ w.sessions
  pub registered : v.registered ≡ w.registered
  pub events : v.events ≡ w.events

load_messages-Loads :
    (entries : List (ℕ × ClientMessage)) (ms : MessageStore) (w : World)
    → Loads w (load_messages entries ms w).1
unfolding load_messages
load_messages-Loads [] ms w = record {
  clients = refl;
  sessions = refl;
  registered = refl;
  events = refl;
}
load_messages-Loads ((i, m) ∷ rest) ms w =
    let (address, w') = allocate (record m { client = none }) w in
    let h = load_messages-Loads rest (Store.store i address ms) w' in
    record {
      clients = h.clients;
      sessions = h.sessions;
      registered = h.registered;
      events = h.events;
    }

module _ (client : ℕ) (entries : List (ℕ × ClientMessage)) (w : World) where
  -- The state after `newSession` and after `load`.
  abbrev pub begun : World
  begun = new_session client false w

  abbrev pub session : ℕ
  session = (begun.clients client).session

  abbrev pub loaded : MessageStore × World
  loaded = load_messages entries (begun.sessions session).message_store begun

  abbrev pub restored : World
  restored = load session entries begun

  begun-client :
      begun.clients client
      ≡ record (w.clients client) { has_session = true; session = w.fresh_session }
  unfolding new_session
  begun-client = update_self w.clients client _

  begun-session : begun.sessions session ≡ record {
    client = some client;
    clean = false;
    id = (w.clients client).client_id;
    message_store = [];
  }
  unfolding new_session
  begun-session =
      ap (λ s. begun.sessions s) (ap (λ c. c.session) begun-client)
      ∙ update_self w.sessions w.fresh_session _

  loads : Loads begun loaded.1
  loads = load_messages-Loads entries (begun.sessions session).message_store begun

  restored-clients : restored.clients ≡ begun.clients
  unfolding load
  restored-clients = loads.clients

  restored-session : restored.sessions session ≡ record {
    client = some client;
    clean = false;
    id = (w.clients client).client_id;
    message_store = loaded.0;
  }
  unfolding load
  restored-session =
      update_self (loaded.1).sessions session _
      ∙ ap (λ (s : Session). record s { message_store = loaded.0 })
          (ap (λ (h : Sessions). h session) loads.sessions ∙ begun-session)

  restored-id : (restored.clients client).client_id ≡ (w.clients client).client_id
  restored-id =
      ap (λ (f : ℕ → Client). (f client).client_id) restored-clients
      ∙ ap (λ c. c.client_id) begun-client

  restored-registered : restored.registered ≡ w.registered
  unfolding load new_session
  restored-registered = loads.registered

  restored-events : restored.events ≡ w.events
  unfolding load new_session
  restored-events = loads.events

  restored-messages : restored.messages ≡ (loaded.1).messages
  unfolding load
  restored-messages = refl

  old-restored : old client restored ≡ lookup_client (w.clients client).client_id w.registered
  old-restored = ap₂ (λ id r. lookup_client id r) restored-id restored-registered

  -- What is sent of the store, whatever it is called.
  abbrev sent_of : MessageStore → List Event
  sent_of ms =
      let p = load_messages entries ms begun in replayed client p.1.messages (sorted_entries p.0)

  sent_of-restored :
      replayed client restored.messages (sorted_entries (restored.sessions session).message_store)
      ≡ sent_of []
  sent_of-restored =
      ap₂ (λ f ms. replayed client f (sorted_entries ms)) restored-messages
        (ap (λ (s : Session). s.message_store) restored-session)
      ∙ ap sent_of (ap (λ (s : Session). s.message_store) begun-session)

  restored-replay :
      (w.clients client).connected ≡ true
      → lookup_client (w.clients client).client_id w.registered ≢ some client
      → (replay ((met client restored).clients client).session (met client restored)).events
        ≡ ((w.events ++ closing (lookup_client (w.clients client).client_id w.registered))
            ++ Event.emitted client ack ∷ [])
          ++ sent_of []
  restored-replay connected new =
      met-replay client session restored
        (ap (λ (f : ℕ → Client). (f client).session) restored-clients)
        (ap (λ (s : Session). s.clean) restored-session)
        (ap (λ (s : Session). s.client) restored-session)
        (ap (λ (f : ℕ → Client). (f client).connected) restored-clients
          ∙ (ap (λ (c : Client). c.connected) begun-client ∙ connected))
        (λ e. new (sym old-restored ∙ e))
      ∙ ap₂ (λ a b. a ++ b)
          (ap₂ (λ es o. (es ++ closing o) ++ Event.emitted client ack ∷ []) restored-events
            old-restored)
          sent_of-restored

module _ (env : Environment) (client : ℕ) (flags : ConnectFlags)
    (entries : List (ℕ × ClientMessage)) (l : Link) where
  abbrev met_again : World
  met_again = met client (restored client entries l.world)

  -- The state after `replay`.
  abbrev back : World
  back = replay (met_again.clients client).session met_again

  begun-id :
      ((begun client entries l.world).clients client).client_id ≡ (l.world.clients client).client_id
  begun-id = ap (λ c. c.client_id) (begun-client client entries l.world)

  accept_lem :
      (let c = l.world.clients client in
        env.before_connect l.world.events c.client_id c.username c.password ≡ true)
      → env.exists l.world.events ((begun client entries l.world).clients client).client_id ≡ true
      → env.stored l.world.events ((begun client entries l.world).clients client).client_id
        ≡ some entries
      → (let c = back.clients client in
          env.connect back.events c.client_id c.username c.password ≡ true)
      → accept env client (record flags { clean_session = false }) l
        ≡ (done tt, record l { world = back })
  unfolding accept open_session
  accept_lem may there held stays = simp (may, there, held, stays) refl

  -- A client that is connected, does not itself stand under its identifier yet, asks for no clean
  -- session, is allowed by the plugins, and whose stored session can be read, with no identifier
  -- twice, is accepted: it is sent CONNACK with the session present, and every message that was
  -- stored unacknowledged and above QoS 0, with the identifier under which it was stored.
  pub accept-restored :
      (i : ℕ) (cm : ClientMessage)
      → (l.world.clients client).connected ≡ true
      → lookup_client (l.world.clients client).client_id l.world.registered ≢ some client
      → (let c = l.world.clients client in
          env.before_connect l.world.events c.client_id c.username c.password ≡ true)
      → env.exists l.world.events (l.world.clients client).client_id ≡ true
      → env.stored l.world.events (l.world.clients client).client_id ≡ some entries
      → ((es : List Event) (id username password : Bytes)
          → env.connect es id username password ≡ true)
      → Distinct entries
      → Memᴰ (i, cm) entries
      → (cm.qos == 0) ≡ false
      → is_unacknowledged cm.status ≡ true
      → (w : World) × (accept env client (record flags { clean_session = false }) l
          ≡ (done tt, record l { world = w }))
        × Memᴰ (Event.emitted client (make_conn_ack 1 (code_byte accepted))) w.events
        × Memᴰ
            (Event.emitted client (make_publish_with_id i cm.topic cm.payload 0 cm.qos 0))
            w.events
  accept-restored i cm connected new may there held stays d m q u =
      let e = restored-replay client entries l.world connected new in
      let sent = loaded-sent client entries (begun client entries l.world) i cm d m q u in
      (
        back,
        accept_lem may (subst (λ id. env.exists l.world.events id ≡ true) (sym begun-id) there)
            (subst (λ id. env.stored l.world.events id ≡ some entries) (sym begun-id) held)
            (stays back.events _ _ _),
        subst (Memᴰ (Event.emitted client ack)) (sym e)
            (Memᴰ.append_left _ (Memᴰ.append_right _ (Memᴰ.head refl))),
        subst (Memᴰ _) (sym e) (Memᴰ.append_right _ sent),
      )
