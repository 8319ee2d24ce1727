-- ===== src/WebSockets.antt =====
-- websockets.go: which requests become WebSocket connections, and what a new one does to the broker.
-- The upgrade of a request is outside the program.
pub mod Origins
use gott.Common.{ℕ, Bool, true, false, ◌&&◌, List, [], ◌∷◌, Bytes, length, if◌then◌else◌, ◌==◌}
use gott.Common.Slices.{string_in_slice}
use gott.Config.{codes, WebSocketsConfig, Config}
use gott.Session.{update}
use gott.Broker.{World, Event, happen}
use gott.Broker.Environment.{Environment}
use gott.Broker.Clients.{connecting}

-- `CheckOrigin`; `origin` is the request's header, which is empty where it is missing.
unfoldable pub check_origin : WebSocketsConfig → (origin : Bytes) → Bool
unfolding string_in_slice
check_origin c origin =
    if length c.origins == 0
    then true
    else if length origin == 0 && c.reject_empty_origin
    then false
    else string_in_slice origin c.origins

-- `websocket.Upgrader` as it is set up.
pub record Upgrader : Type 0 where
  pub read_buffer_size : ℕ
  pub write_buffer_size : ℕ
  pub subprotocols : List Bytes
  pub checks_origin : (origin : Bytes) → Bool

-- With the path under which the handler of requests is registered.
pub record WebSocketsServer : Type 0 where
  pub config : Config
  pub upgrader : Upgrader
  pub handled : Bytes

unfoldable pub new_web_sockets_server : Config → WebSocketsServer
unfolding check_origin
new_web_sockets_server c = record {
  config = c;
  upgrader = record {
    read_buffer_size = 4096;
    write_buffer_size = 4096;
    subprotocols = codes "mqtt" ∷ [];
    checks_origin = check_origin c.web_sockets;
  };
  handled = c.web_sockets.path;
}

-- `onRequestHandler`, up to the start of `listen`; `upgraded` tells whether `Upgrade` succeeded.
unfoldable pub on_request_handler : Environment → (upgraded : Bool) (client : ℕ) → World → World
on_request_handler env upgraded client w =
    if upgraded
    then (if env.socket_open w.events client
        then record w { clients = update w.clients client connecting }
        else happen (Event.closed client) w)
    else w
