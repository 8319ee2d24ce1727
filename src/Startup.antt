-- ===== src/Startup.antt =====
-- The start of the program: `NewBroker` and `Listen` of broker.go, and `main`. The network, the
-- database, the plugins' files and the logger's are outside.
pub mod Listeners
use gott.Common.{
  Bool, true, false, not, ◌||◌, List, [], ◌∷◌, ◌++◌, Option, none, some, Bytes, if◌then◌else◌,
}
use gott.Config.{is_set, tls_enabled, wss_enabled, Config}
use gott.Config.Load.{Host, Load, loaded, refused, exits, new_config}
use gott.Plugins.{GottPlugin, cleanup_plugins}
use gott.Plugins.Bootstrap.{Loader, bootstrap_plugins}
use gott.WebSockets.{WebSocketsServer, new_web_sockets_server}

-- Whether `badger.Open`, `net.Listen`, `tls.LoadX509KeyPair` and `tls.Listen` succeed.
pub record Network : Type 0 where
  pub can_open_store : Bool
  pub can_listen : (address : Bytes) → Bool
  pub can_load : (cert key : Bytes) → Bool
  pub can_listen_tls : (address : Bytes) → Bool

-- What is started, with its address.
pub data Listener : Type 0 where
  plain secure web web_secure : Bytes → Listener

pub data StartError : Type 0 where
  cannot_listen cannot_load cannot_listen_tls no_listeners : StartError

-- The broker that `NewBroker` returns, as far as `Listen` uses it; what a plugin may change is `S`.
pub record Broker (Conn S : Type 0) : Type 0 where
  pub config : Config
  pub plugins : List (GottPlugin Conn S)
  pub ws_server : Option WebSocketsServer

-- An error of the configuration or of the session database is returned; `log.Fatalln` ends the program.
pub data Built (B : Type 0) : Type 0 where
  built : B → Built B
  failed : Built B
  ended : Built B

-- `wsServer`, which is set if one of the two kinds of WebSockets is wanted.
abbrev pub server_for : Config → Option WebSocketsServer
server_for c =
    if wss_enabled c.web_sockets.wss || is_set c.web_sockets.listen
    then some (new_web_sockets_server c)
    else none

module _ {Conn S Shared : Type 0} (host : Host) (net : Network)
    (loader : Loader Conn S Shared) where
  abbrev with_plugins : Config → Option (List (GottPlugin Conn S) × S) → Built (Broker Conn S × S)
  with_plugins c none = ended
  with_plugins c (some (plugins, s)) =
      built (record { config = c; plugins = plugins; ws_server = server_for c }, s)

  abbrev with_config : S → Load → Built (Broker Conn S × S)
  with_config s (loaded c) =
      if net.can_open_store then with_plugins c (bootstrap_plugins loader c s) else failed
  with_config s (refused c) = failed
  with_config s exits = ended

  -- With the files that are written.
  unfoldable pub new_broker : S → List (Bytes × Bytes) × Built (Broker Conn S × S)
  unfolding new_config bootstrap_plugins new_web_sockets_server
  new_broker s = let (files, l) = new_config host in (files, with_config s l)

module _ (net : Network) (c : Config) where
  -- The three parts of `Listen`: what each starts, or the error that ends it.
  unfoldable pub start_plain : List Listener × Option StartError
  start_plain =
      if is_set c.listen
      then (if net.can_listen c.listen
          then (plain c.listen ∷ [], none)
          else ([], some cannot_listen))
      else ([], none)

  unfoldable pub start_tls : List Listener × Option StartError
  start_tls =
      if tls_enabled c.tls
      then (if not (net.can_load c.tls.cert c.tls.key)
          then ([], some cannot_load)
          else if net.can_listen_tls c.tls.listen
          then (secure c.tls.listen ∷ [], none)
          else ([], some cannot_listen_tls))
      else ([], none)

  unfoldable pub start_web : Option WebSocketsServer → List Listener
  start_web none = []
  start_web (some server) =
      (if is_set c.web_sockets.listen then web c.web_sockets.listen ∷ [] else [])
      ++ (if wss_enabled c.web_sockets.wss then web_secure c.web_sockets.wss.listen ∷ [] else [])

  abbrev pub is_on : Option WebSocketsServer → Bool
  is_on none = false
  is_on (some server) = true

  abbrev pub has_any : List Listener → Bool
  has_any [] = false
  has_any (l ∷ ls) = true

  abbrev pub and_web : Option WebSocketsServer → List Listener → List Listener × Option StartError
  and_web server ls =
      (ls ++ start_web server, if has_any ls || is_on server then none else some no_listeners)

  abbrev pub and_tls :
      Option WebSocketsServer
      → List Listener
      → List Listener × Option StartError
      → List Listener × Option StartError
  and_tls server ls (ls', some e) = (ls ++ ls', some e)
  and_tls server ls (ls', none) = and_web server (ls ++ ls')

  abbrev pub and_rest :
      Option WebSocketsServer
      → List Listener × Option StartError
      → List Listener × Option StartError
  and_rest server (ls, some e) = (ls, some e)
  and_rest server (ls, none) = and_tls server ls start_tls

  -- What has been started when `Listen` waits for the signal that ends it, or when it returns an error
  -- and closes what it has started.
  unfoldable pub start : Option WebSocketsServer → List Listener × Option StartError
  unfolding start_plain start_tls start_web
  start server = and_rest server start_plain

-- `Listen` to its end, after the signal: the error that it returns, and what the plugins' cleanups do.
module _ {Conn S : Type 0} (net : Network) (b : Broker Conn S) where
  abbrev stopped : Option StartError → S → Option StartError × S
  stopped (some e) s = (some e, s)
  stopped none s = (none, cleanup_plugins b.plugins s)

  unfoldable pub listen : S → List Listener × Option StartError × S
  unfolding start cleanup_plugins
  listen s =
      let (ls, e) = start net b.config b.ws_server in let (e', s') = stopped e s in (ls, e', s')

-- `main`: an error of `NewBroker` is a panic, one of `Listen` is fatal, as is `log.Fatalln`.
pub data Exit : Type 0 where
  success panics fatal : Exit

module _ {Conn S Shared : Type 0} (host : Host) (net : Network)
    (loader : Loader Conn S Shared) where
  abbrev exit_of : Option StartError → Exit
  exit_of none = success
  exit_of (some e) = fatal

  abbrev run : Built (Broker Conn S × S) → Exit
  run failed = panics
  run ended = fatal
  run (built (b, s)) = exit_of (listen net b s).1

  unfoldable pub main : S → Exit
  unfolding new_broker listen
  main s = run (new_broker host net loader s).1
