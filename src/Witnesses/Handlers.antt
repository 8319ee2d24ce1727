-- ===== src/Witnesses/Handlers.antt =====
-- Single packets on the connections of Witnesses/Listen.antt.
use gott.Common.{
  ◌≢◌, Bytes, none, ℕ, true, List, [], ◌∷◌, ◌++◌, some, map, if◌then◌else◌, Bytes, bytes_eq, ◌==◌,
  ◌≡◌, refl, arith,
}
use gott.Types.{unacceptable_proto, code_byte}
use gott.Session.Store
use gott.Packets.{make_pub_comp, make_conn_ack, make_pub_rec, put_uint16}
use gott.Topic.Filter.{valid_filter}
use gott.Broker
use gott.Broker.{Event, World, Client}
use gott.Broker.Clients.{connecting}
use gott.Broker.WellFormed.{TreeOk}
use gott.Listen.{tcp, Arrival, done, leave, skip}
use gott.Listen.Loop.{round}
use gott.Topic.Filter.{byte_at}
use gott.Broker.Subscribe.{subscribe}
use gott.Listen.Acks.{on_pub_ack, on_pub_rel, flags_0010}
use gott.Listen.Acknowledged.{on_pub_ack-get, on_pub_rel-get}
use gott.Listen.Accepted.{Welcomed}
use gott.Listen.Connected.{connect_payload, on_connect-clean}
use gott.Listen.Connect.{on_connect}
use gott.Listen.Publish.{Publication, receive_at_2}
use gott.Listen.Received.{publication_bytes}
use gott.Listen.Answers.{receive_at_2-again}
use gott.Listen.Refusals.{connect_header, on_connect-version}
use gott.System.{start, next, turns, new_broker}
use gott.System.Safe.{ReachableInTurns-TreeOk, ReachableInTurns-subscribe}
use gott.Witnesses.Listen.{open_env, sessions, world, arriving, connect}

-- A publication of "n" on "a" at QoS 2 with the identifier 258.
abbrev publication : Publication
publication = record {
  topic = b'a' ∷ [];
  packet_id_bytes = 1 ∷ 2 ∷ [];
  packet_id = 258;
  payload = b'n' ∷ [];
}

publication_arrived : List Arrival
publication_arrived = arriving (0 ∷ 1 ∷ b'a' ∷ 1 ∷ 2 ∷ b'n' ∷ [])

publication_arrived-bytes :
    map (λ b. b.byte) publication_arrived ≡ publication_bytes 2 (b'a' ∷ []) 258 (b'n' ∷ [])
unfolding publication_arrived put_uint16
publication_arrived-bytes = refl

receive_at_2-again_example :
    let l' = (receive_at_2 0 0 publication (record { input = tcp []; world = world })).1 in
    receive_at_2 0 1 publication l'
    ≡ (skip, record l' { world = Broker.emit 0 (make_pub_rec (1, 2)) l'.world })
unfolding byte_at
receive_at_2-again_example =
    receive_at_2-again 0 0 publication (record { input = tcp []; world = world }) refl

-- The state after the publication was received once.
abbrev received_once : World
received_once = (receive_at_2 0 0 publication (record { input = tcp []; world = world })).1.world

received_once-session : (received_once.clients 0).has_session ≡ true
unfolding receive_at_2
received_once-session = refl

on_connect-version_example :
    on_connect open_env 1 15
      (record { input = tcp (arriving (connect_header 3 2 0 60) ++ []); world = world })
    ≡ (
      leave,
      record {
        input = tcp [];
        world = Broker.emit 1 (make_conn_ack 0 (code_byte unacceptable_proto)) world;
      },
    )
on_connect-version_example =
    on_connect-version open_env 1 15 3 2 0 60 (arriving (connect_header 3 2 0 60)) [] world
      (omega arith) refl (omega arith)

abbrev begun : World
begun = new_broker (λ c. connecting) sessions world.messages

ReachableInTurns-TreeOk_example :
    TreeOk (round open_env 1 (record { input = connect.input; world = begun })).1.world
ReachableInTurns-TreeOk_example =
    ReachableInTurns-TreeOk open_env _
      (next (start (λ c. connecting) sessions world.messages) (turns 1 connect.input))

-- CONNECT as "v" with a clean session.
abbrev joining : List Arrival
joining =
    arriving (16 ∷ 13 ∷ 0 ∷ 4 ∷ b'M' ∷ b'Q' ∷ b'T' ∷ b'T' ∷ 4 ∷ 2 ∷ 0 ∷ 60 ∷ 0 ∷ 1 ∷ b'v' ∷ [])

abbrev joined : World
joined = (round open_env 1 (record { input = tcp joining; world = begun })).1.world

joined-session : (joined.clients 1).has_session ≡ true
unfolding round bytes_eq
joined-session = refl

ReachableInTurns-subscribe_example :
    (w' : World) × (subscribe 1 (b'a' ∷ []) 1 joined ≡ some (valid_filter (b'a' ∷ []), w'))
    × TreeOk w'
ReachableInTurns-subscribe_example =
    ReachableInTurns-subscribe open_env 1 (b'a' ∷ []) 1 joined
      (next (start (λ c. connecting) sessions world.messages) (turns 1 (tcp joining)))
      joined-session

-- Client 1 connects with the identifier of client 0.
connect_arrived : List Arrival
connect_arrived = arriving (0 ∷ 1 ∷ b'v' ∷ [])

connect_arrived-bytes : map (λ b. b.byte) connect_arrived ≡ connect_payload (b'v' ∷ [])
unfolding connect_arrived put_uint16
connect_arrived-bytes = refl

v_ne : ◌≢◌ {A = Bytes} (b'v' ∷ []) []
v_ne e = cc

on_connect-clean_example :
    (w' : World) × (on_connect open_env 1 13 (record {
      input = tcp (arriving (connect_header 4 2 0 60) ++ (connect_arrived ++ []));
      world = world;
    })
      ≡ (done tt, record { input = tcp []; world = w' }))
    × Welcomed 1 (b'v' ∷ []) world w'
on_connect-clean_example =
    on_connect-clean open_env 1 (b'v' ∷ []) v_ne (omega arith) 0 60
      (arriving (connect_header 4 2 0 60)) connect_arrived [] world refl connect_arrived-bytes
      (λ es i u p. refl) (λ es i u p. refl)

-- The two bytes of the identifier of `publication`.
abbrev hi : Arrival
hi = record { byte = 1; together = true }

abbrev lo : Arrival
lo = record { byte = 2; together = true }

on_pub_ack-get_example :
    (w' : World) × (on_pub_ack 0 2 (record { input = tcp (hi ∷ lo ∷ []); world = received_once })
      ≡ (done tt, record { input = tcp []; world = w' }))
    × ((j : ℕ)
        → Store.get j w'.message_store
          ≡ (if j == 258 then none else Store.get j received_once.message_store))
    × ((j : ℕ)
        → Store.get j (w'.sessions (received_once.clients 0).session).message_store ≡ (
            if j == 258
            then none
            else Store.get j
                (received_once.sessions (received_once.clients 0).session).message_store))
on_pub_ack-get_example = on_pub_ack-get 0 hi lo [] received_once received_once-session

on_pub_rel-get_example :
    (w' : World) × (on_pub_rel 0 flags_0010
        (record { input = tcp (hi ∷ lo ∷ []); world = received_once })
      ≡ (done tt, record { input = tcp []; world = Broker.emit 0 (make_pub_comp (1, 2)) w' }))
    × (w'.message_store ≡ received_once.message_store)
    × ((j : ℕ)
        → Store.get j (w'.sessions (received_once.clients 0).session).message_store ≡ (
            if j == 258
            then none
            else Store.get j
                (received_once.sessions (received_once.clients 0).session).message_store))
on_pub_rel-get_example = on_pub_rel-get 0 hi lo [] received_once received_once-session
