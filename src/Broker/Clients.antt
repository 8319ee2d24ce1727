-- ===== src/Broker/Clients.antt =====
-- `addClient` and `removeClient` of broker.go, and `closeConnection` and `disconnect` of client.go.
use gott.Common.{
  ℕ, Bool, true, false, List, [], ◌∷◌, Option, none, some, Bytes, bytes_eq, if◌then◌else◌,
}
use gott.Types.{Message, PublishFlags}
use gott.Session.{update}
use gott.Broker.{World, Client, Event, happen}
use gott.Broker.Environment.{Environment}
use gott.Broker.Publish.{publish}
use gott.Broker.Subscribe.{unsubscribe_all}

-- `b.clients[id]`.
unfoldable pub lookup_client : Bytes → List (Bytes × ℕ) → Option ℕ
lookup_client id [] = none
lookup_client id ((k, c) ∷ rest) = if bytes_eq k id then some c else lookup_client id rest

-- `delete(b.clients, id)`.
unfoldable pub delete_client : Bytes → List (Bytes × ℕ) → List (Bytes × ℕ)
delete_client id [] = []
delete_client id ((k, c) ∷ rest) =
    if bytes_eq k id then delete_client id rest else (k, c) ∷ delete_client id rest

unfoldable pub close_connection : (client : ℕ) → World → World
close_connection client w = happen (Event.closed client) (record w {
  clients = update w.clients client (record (w.clients client) { connected = false });
})

unfoldable pub close_existing : Option ℕ → World → World
unfolding close_connection
close_existing none w = w
close_existing (some old) w = close_connection old w

unfoldable pub add_client : (client : ℕ) → World → World
unfolding lookup_client delete_client close_existing
add_client client w =
    let id = (w.clients client).client_id in
    let w' = close_existing (lookup_client id w.registered) w in
    record w' { registered = (id, client) ∷ delete_client id w'.registered }

unfoldable pub remove_client : Bytes → World → World
unfolding delete_client
remove_client id w = record w { registered = delete_client id w.registered }

-- The flags of a will's publication.
abbrev pub will_flags : Message → PublishFlags
will_flags m = record { dup = 0; qos = m.qos; retain = m.retain; packet_id = 0 }

-- `invokeOnDisconnect` for a client that was connected.
unfoldable pub tell_disconnect : (client : ℕ) (connected graceful : Bool) → World → World
tell_disconnect client false graceful w = w
tell_disconnect client true graceful w = happen (Event.on_disconnect client graceful) w

-- The `Client` of a connection that is accepted.
abbrev pub connecting : Client
connecting = record {
  connected = true;
  graceful_disconnect = false;
  client_id = [];
  will_message = none;
  username = [];
  password = [];
  keep_alive_secs = 0;
  has_session = false;
  session = 0;
}

module _ (env : Environment) where
  -- `handleConnection`, up to the start of `listen`.
  unfoldable pub handle_connection : (client : ℕ) → World → World
  handle_connection client w =
      if env.socket_open w.events client
      then record w { clients = update w.clients client connecting }
      else happen (Event.closed client) w

  -- The publication of the will message.
  unfoldable pub publish_will : (client : ℕ) → Option Message → World → World
  unfolding publish
  publish_will client none w = w
  publish_will client (some m) w =
      let c = w.clients client in
      let (published, w') = publish m.topic m.payload (will_flags m) (env.clock w.events) w in
      if env.before_publish w.events c.client_id c.username m.topic m.payload 0 m.qos m.retain
      then if published
        then happen (Event.on_publish client m.topic m.payload 0 m.qos false) w'
        else w'
      else w

  -- `disconnect`: whether it panicked, and the state after it. A client without an identifier is only
  -- closed.
  unfoldable pub disconnect : (client : ℕ) → World → Bool × World
  unfolding close_connection remove_client unsubscribe_all publish_will tell_disconnect
  disconnect client w =
      let c = w.clients client in
      let w₁ = remove_client c.client_id (close_connection client w) in
      let (panicked, w₂) = unsubscribe_all client w₁ in
      let w₃ = publish_will client c.will_message w₂ in
      elim c.client_id [
        | [] ↦ (false, close_connection client w)
        | _ ∷ _ ↦
            if panicked
            then (true, w₂)
            else (false, tell_disconnect client c.connected c.graceful_disconnect w₃)
      ]
