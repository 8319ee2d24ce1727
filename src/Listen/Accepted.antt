-- ===== src/Listen/Accepted.antt =====
-- What an accepted CONNECT packet leaves.
use gott.Common.{
  ℕ, true, false, List, [], ◌∷◌, ◌++◌, append-nil, Option, none, some, Bytes, bytes_eq, bytes_eq→eq,
  if◌then◌else◌, ◌==◌, ◌≡◌, refl, sym, ◌∙◌, ap, Bool-cases, inl, inr, ==_iff,
}
use gott.Types.{ConnectFlags, accepted, code_byte}
use gott.Session.{Sessions, update_self}
use gott.Packets.{make_conn_ack}
use gott.Broker
use gott.Broker.{World, Client, Event, happen}
use gott.Broker.Environment.{Environment}
use gott.Broker.Clients.{add_client, lookup_client, delete_client, close_existing, close_connection}
use gott.Broker.Replay.{replay}
use gott.Listen.{Link, done}
use gott.Listen.Connect.{accept, new_session}

replay_clean : (session : ℕ) (w : World) → (w.sessions session).clean ≡ true → replay session w ≡ w
unfolding replay
replay_clean session w e = rw e refl

-- Closing a connection changes no session, and no client but for `connected`.
pub close_existing-session :
    (o : Option ℕ) (client : ℕ) (w : World)
    → ((close_existing o w).clients client).session ≡ (w.clients client).session
unfolding close_existing close_connection
close_existing-session none client w = refl
close_existing-session (some old) client w = elim (Bool-cases (client == old)) [
  | inl e ↦ rw e (ap (λ c. (w.clients c).session) (sym ((==_iff client old).0 e)))
  | inr e ↦ rw e refl
]

close_existing-sessions : (o : Option ℕ) (w : World) → (close_existing o w).sessions ≡ w.sessions
unfolding close_existing close_connection
close_existing-sessions none w = refl
close_existing-sessions (some old) w = refl

-- The state after `addClient` of a client that is new with a clean session.
abbrev pub opened : (client : ℕ) → World → World
opened client w =
    let w₁ = new_session client true w in happen (Event.forgotten (w₁.clients client).client_id) w₁

pub add_client-session :
    (client : ℕ) (w : World)
    → ((add_client client w).clients client).session ≡ (w.clients client).session
unfolding add_client
add_client-session client w =
    close_existing-session (lookup_client (w.clients client).client_id w.registered) client w

pub add_client-sessions : (client : ℕ) (w : World) → (add_client client w).sessions ≡ w.sessions
unfolding add_client
add_client-sessions client w =
    close_existing-sessions (lookup_client (w.clients client).client_id w.registered) w

lookup-delete_ne :
    (id other : Bytes) (cs : List (Bytes × ℕ))
    → bytes_eq id other ≡ false
    → lookup_client other (delete_client id cs) ≡ lookup_client other cs
unfolding lookup_client delete_client
lookup-delete_ne id other [] n = refl
lookup-delete_ne id other ((k, c) ∷ cs) n = elim (Bool-cases (bytes_eq k id)) [
  | inl e ↦
      let miss : bytes_eq k other ≡ false = ap (λ b. bytes_eq b other) (bytes_eq→eq k id e) ∙ n in
      rw (e, miss, delete_client, lookup_client) (lookup-delete_ne id other cs n)
  | inr e ↦ rw (e, lookup-delete_ne id other cs n, delete_client, lookup_client) refl
]

close_existing-registered :
    (o : Option ℕ) (w : World) → (close_existing o w).registered ≡ w.registered
unfolding close_existing close_connection
close_existing-registered none w = refl
close_existing-registered (some old) w = refl

-- `addClient` enters the client under its identifier, and changes no other entry.
add_client-registered :
    (client : ℕ) (w : World) (id : Bytes)
    → lookup_client id (add_client client w).registered ≡ (
        if bytes_eq (w.clients client).client_id id
        then some client
        else lookup_client id w.registered)
unfolding add_client lookup_client
add_client-registered client w id =
    let own = (w.clients client).client_id in
    let same = close_existing-registered (lookup_client own w.registered) w in
    elim (Bool-cases (bytes_eq own id)) [
      | inl e ↦ rw e refl
      | inr e ↦ rw e (lookup-delete_ne own id _ e ∙ ap (lookup_client id) same)
    ]

opened-client :
    (client : ℕ) (w : World)
    → (opened client w).clients client
      ≡ record (w.clients client) { has_session = true; session = w.fresh_session }
unfolding new_session
opened-client client w = update_self w.clients client _

opened-id :
    (client : ℕ) (w : World)
    → ((opened client w).clients client).client_id ≡ (w.clients client).client_id
opened-id client w = ap (λ c. c.client_id) (opened-client client w)

opened-registered :
    (client : ℕ) (w : World) (id : Bytes)
    → lookup_client id (add_client client (opened client w)).registered ≡ (
        if bytes_eq (w.clients client).client_id id
        then some client
        else lookup_client id w.registered)
unfolding new_session
opened-registered client w id =
    add_client-registered client (opened client w) id
    ∙ ap (λ own. if bytes_eq own id then some client else lookup_client id w.registered)
        (opened-id client w)

-- The event of `addClient`: the client that stands under the identifier is closed.
abbrev pub closing : Option ℕ → List Event
closing none = []
closing (some old) = Event.closed old ∷ []

pub close_existing-events :
    (o : Option ℕ) (w : World) → (close_existing o w).events ≡ w.events ++ closing o
unfolding close_existing close_connection
close_existing-events none w = sym (append-nil w.events)
close_existing-events (some old) w = refl

opened-events :
    (client : ℕ) (w : World)
    → let own = (w.clients client).client_id in
      (add_client client (opened client w)).events
      ≡ (w.events ++ Event.forgotten own ∷ []) ++ closing (lookup_client own w.registered)
unfolding add_client new_session
opened-events client w =
    close_existing-events (lookup_client ((opened client w).clients client).client_id w.registered)
      (opened client w)
    ∙ ap (λ own. (w.events ++ Event.forgotten own ∷ []) ++ closing (lookup_client own w.registered))
        (opened-id client w)

opened-sessions :
    (client : ℕ) (w : World)
    → (opened client w).sessions w.fresh_session ≡ record {
      client = some client;
      clean = true;
      id = (w.clients client).client_id;
      message_store = [];
    }
unfolding new_session
opened-sessions client w = update_self w.sessions w.fresh_session _

-- The state when the CONNACK of an accepted client with a clean session has been sent.
abbrev pub greeted : (client : ℕ) → World → World
greeted client w =
    Broker.emit client (make_conn_ack 0 (code_byte accepted)) (add_client client (opened client w))

greeted-session :
    (client : ℕ) (w : World) → ((greeted client w).clients client).session ≡ w.fresh_session
greeted-session client w =
    add_client-session client (opened client w) ∙ ap (λ c. c.session) (opened-client client w)

greeted-sessions :
    (client : ℕ) (w : World)
    → (greeted client w).sessions w.fresh_session ≡ record {
      client = some client;
      clean = true;
      id = (w.clients client).client_id;
      message_store = [];
    }
greeted-sessions client w =
    ap (λ (h : Sessions). h w.fresh_session) (add_client-sessions client (opened client w))
    ∙ opened-sessions client w

greeted-replay :
    (client : ℕ) (w : World)
    → replay ((greeted client w).clients client).session (greeted client w) ≡ greeted client w
greeted-replay client w =
    replay_clean ((greeted client w).clients client).session (greeted client w)
      (rw (greeted-session client w) (ap (λ s. s.clean) (greeted-sessions client w)))

-- A client that was accepted with a clean session: it is entered under its identifier and every other
-- entry is kept; it has a new session without messages; and the events are that the stored session is
-- deleted, that the client that was entered under the identifier is closed, and that CONNACK is sent,
-- with no session present.
pub record Welcomed (client : ℕ) (own : Bytes) (w w' : World) : Type 0 where
  pub entered :
      (id : Bytes)
      → lookup_client id w'.registered
        ≡ (if bytes_eq own id then some client else lookup_client id w.registered)
  pub session :
      w'.sessions (w'.clients client).session
      ≡ record { client = some client; clean = true; id = own; message_store = [] }
  pub events :
      w'.events
      ≡ ((w.events ++ Event.forgotten own ∷ []) ++ closing (lookup_client own w.registered))
        ++ Event.emitted client (make_conn_ack 0 (code_byte accepted)) ∷ []

greeted-Welcomed :
    (client : ℕ) (w : World) → Welcomed client (w.clients client).client_id w (greeted client w)
greeted-Welcomed client w = record {
  entered = opened-registered client w;
  session = rw (greeted-session client w) (greeted-sessions client w);
  events =
      ap (λ es. es ++ Event.emitted client (make_conn_ack 0 (code_byte accepted)) ∷ [])
        (opened-events client w);
}

module _ (env : Environment) (client : ℕ) (flags : ConnectFlags) (l : Link) where
  accept_lem :
      flags.clean_session ≡ true
      → (let c = l.world.clients client in
          env.before_connect l.world.events c.client_id c.username c.password ≡ true)
      → (let w = greeted client l.world in
          let c = w.clients client in env.connect w.events c.client_id c.username c.password ≡ true)
      → accept env client flags l ≡ (done tt, record l { world = greeted client l.world })
  unfolding accept
  accept_lem clean may stays = simp (clean, may, greeted-replay client l.world, stays) refl

  -- `accept` of a client that asks for a clean session, and that the plugins allow before and after.
  pub accept-clean :
      flags.clean_session ≡ true
      → (let c = l.world.clients client in
          env.before_connect l.world.events c.client_id c.username c.password ≡ true)
      → ((es : List Event) (id username password : Bytes)
          → env.connect es id username password ≡ true)
      → (w : World) × (accept env client flags l ≡ (done tt, record l { world = w }))
        × Welcomed client (l.world.clients client).client_id l.world w
  accept-clean clean may stays =
      let w = greeted client l.world in
      (w, accept_lem clean may (stays w.events _ _ _), greeted-Welcomed client l.world)
