-- ===== src/Witnesses/Listen.antt =====
-- Packets on a connection: client 1 connects to a broker in which client 0 has subscribed to "a".
use gott.Common.{
  ℕ, true, false, List, [], ◌∷◌, ◌++◌, ◌≤◌, length, none, some, map, if◌then◌else◌, Bytes, bytes_eq,
  ◌==◌, ◌≡◌, ◌≢◌, refl, arith,
}
use mathlib.Core.List.{Memᴰ}
use gott.Types.{Subscription, pubrec_received}
use gott.Session.{Sessions}
use gott.Sequencer.{packet_seq}
use gott.Extractors.{parse_fixed_header_first_byte}
use gott.Topic.Storage.{empty_storage, subscribe_segs}
use gott.Topic.Subscriptions.{create_or_update}
use gott.Topic.Paths.{subs_at, look}
use gott.Broker.{World, Client}
use gott.Broker.Environment.{Environment}
use gott.Broker.Clients.{connecting, close_connection}
use gott.Broker.Crash.{gone}
use gott.Listen.{Arrival, Piece, octet, binary_message, text_message, tcp, web, Link, leave}
use gott.Listen.Read.{full, web_full}
use gott.Listen.Messages.{on_tcp, payload, web_full-full, round-unread}
use gott.Listen.Loop.{round, ended, crashed, out_of_fuel, listen}
use gott.Listen.Ends.{listen-total}
use gott.Listen.Fatal.{listen-crashed, Refused}
use gott.Listen.Anonymous.{listen-anonymous}

abbrev pub open_env : Environment
open_env = record {
  socket_open = λ es client. true;
  before_connect = λ es id username password. true;
  connect = λ es id username password. true;
  before_publish = λ es id username topic payload dup qos retain. true;
  before_subscribe = λ es id username filter qos. true;
  before_unsubscribe = λ es id username filter. true;
  exists = λ es id. false;
  stored = λ es id. none;
  can_save = λ es id. true;
  clock = λ es. 0;
  new_id = λ es. b'u' ∷ [];
}

abbrev pub first_client : Client
first_client = record connecting { client_id = b'v' ∷ []; has_session = true }

abbrev pub sessions : Sessions
sessions _ = record { client = some 0; clean = true; id = b'v' ∷ []; message_store = [] }

-- The path of "a".
abbrev a : List Bytes
a = (b'a' ∷ []) ∷ []

abbrev pub world : World
world = record {
  clients = λ c. if c == 0 then first_client else connecting;
  sessions = sessions;
  messages = λ m. record {
    client = none;
    topic = [];
    payload = [];
    qos = 0;
    retain = 0;
    status = pubrec_received;
  };
  fresh = 0;
  fresh_session = 1;
  registered = (b'v' ∷ [], 0) ∷ [];
  storage = subscribe_segs sessions (b'v' ∷ []) 0 1 a empty_storage;
  message_store = [];
  packet_seq = packet_seq;
  events = [];
}

-- Bytes that arrive together.
abbrev pub arriving : List ℕ → List Arrival
arriving bs = map (λ b. record { byte = b; together = true }) bs

-- CONNECT as "v" with a user name of no bytes.
abbrev pub connect : Link
connect = record {
  input = tcp (
      arriving (
        16 ∷ 15 ∷ 0 ∷ 4 ∷ b'M' ∷ b'Q' ∷ b'T' ∷ b'T' ∷ 4 ∷ 130 ∷ 0 ∷ 60 ∷ 0 ∷ 1 ∷ b'v' ∷ 0 ∷ 0
        ∷ []));
  world = world;
}

abbrev after_connect : Link
after_connect = (round open_env 1 connect).1

connect-leave : round open_env 1 connect ≡ (leave, after_connect)
unfolding round bytes_eq
connect-leave = refl

after_connect-Refused : Refused 1 after_connect.world
unfolding round bytes_eq
after_connect-Refused = record {
  first = b'v';
  others = [];
  named = refl;
  sessionless = refl;
  abrupt = refl;
}

first_subscription : Subscription
first_subscription = record { session = 0; qos = 1 }

after_connect-Memᴰ : Memᴰ first_subscription (subs_at a after_connect.world.storage.filters)
unfolding round bytes_eq first_subscription look subscribe_segs create_or_update
after_connect-Memᴰ = Memᴰ.head refl

after_connect-same :
    (after_connect.world.sessions first_subscription.session).id
    ≡ (after_connect.world.clients 1).client_id
unfolding round bytes_eq first_subscription
after_connect-same = refl

listen-crashed_example : listen open_env 1 connect ≡ crashed (gone 1 (gone 1 after_connect.world))
listen-crashed_example =
    listen-crashed open_env 1 connect after_connect a first_subscription connect-leave
      after_connect-Refused after_connect-Memᴰ after_connect-same

listen-total_example : listen open_env 1 connect ≢ out_of_fuel
listen-total_example = listen-total open_env 1 connect

listen-anonymous_example :
    listen open_env 1 (record { input = tcp (arriving (192 ∷ 0 ∷ 16 ∷ [])); world = world })
    ≡ ended (close_connection 1 world)
unfolding parse_fixed_header_first_byte
listen-anonymous_example =
    listen-anonymous open_env 1 (tcp (arriving (192 ∷ 0 ∷ 16 ∷ []))) world refl refl (omega arith)

-- CONNECT's first bytes, divided into messages.
divided : List Piece
divided =
    binary_message ∷ octet 16 ∷ binary_message ∷ octet 15 ∷ octet 0 ∷ text_message ∷ octet 4 ∷ []

web_full-full_example :
    ((web_full 2 divided).0 ≡ (full 2 (on_tcp (payload divided))).0)
    × (2 ≤ length (payload divided)
        → on_tcp (payload (web_full 2 divided).1) ≡ (full 2 (on_tcp (payload divided))).1)
web_full-full_example = web_full-full 2 divided

-- Two PINGREQ packets in one message: of the second nothing is read.
second_ping : List Piece
second_ping = binary_message ∷ octet 192 ∷ octet 0 ∷ []

round-unread_example :
    round open_env 0
      (record { input = web (map octet (192 ∷ 0 ∷ []) ++ second_ping); world = world })
    ≡ round open_env 0 (record { input = web second_ping; world = world })
round-unread_example = round-unread open_env 0 (192 ∷ 0 ∷ []) second_ping world refl
