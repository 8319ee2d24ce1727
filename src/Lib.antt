-- ===== src/Lib.antt =====
-- GOTT, an MQTT 3.1.1 broker in Go: a model of its topic tree, its packets, its sessions, the broker's
-- operations, its connections and its start, with the theorems that make them correct.
--
-- The parts, and the files that model them (a module's children hold its proofs):
--
-- - bytes/encoding.go, bytes/binary.go: Bytes.antt. `Encode` and `Decode` of remaining lengths,
--   `BitIsSet`, `ByteToBinaryString`. utils/slices.go: Common/Slices.antt.
-- - sequencer.go: Sequencer.antt, the packet identifiers.
-- - types.go, constants.go, codes.go: Types.antt. The records and numbers of the packets.
-- - message_store.go, session.go: Session.antt, with the store's operations in Session/Store.antt.
--   Sessions and client messages stand in heaps under addresses, since clients, subscriptions and
--   message stores share them by pointer.
-- - topic_filter.go, atomic.go: Topic.antt and its children. Topic/Filter.antt has `validFilter` and
--   `validTopicName`; Topic/Subscriptions.antt the subscription list of a level; Topic/Level.antt the
--   methods of `topicLevel`; Topic/Storage.antt those of `topicStorage`, and what `Subscribe`,
--   `Unsubscribe`, `UnsubscribeAll` and `Retain` of broker.go do to the tree; Topic/Changes.antt what
--   becomes of the subscriptions of one level.
--   The paths that the theorems speak of, what a path covers and what a filter matches stand in
--   Topic/Paths.antt, the well-formedness of a whole tree in Topic/Delivery.antt.
-- - packets.go: Packets.antt, the packets that the broker sends.
-- - broker.go, session.go and the end of client.go: Broker.antt has the state of the broker with its
--   heaps and its events; Broker/Publish.antt has `Publish`, `PublishRetained` and `PublishToClient`;
--   Broker/Subscribe.antt has `Subscribe`, `Unsubscribe` and `UnsubscribeAll`; Broker/Replay.antt has
--   the session's `acknowledge` and `replay`; Broker/Clients.antt has `addClient`, `removeClient`,
--   `handleConnection`, `closeConnection` and `disconnect`; Broker/Retry.antt has `Retry` as a machine
--   of three stages.
-- - extractors.go: Extractors.antt, what a packet that was read says.
-- - client.go: Listen.antt has the monad of the handlers: a handler takes what arrives, on a TCP
--   connection or on a WebSocket, and the state, and ends with a value, with `break loop`, with `break`
--   or with a panic. Listen/Read.antt has the reading for both, Listen/Connect.antt,
--   Listen/Publish.antt, Listen/Acks.antt and Listen/Filters.antt the cases of the `switch`,
--   Listen/Loop.antt the loop with what follows it and its `Recover`.
-- - plugins.go: Plugins.antt, the calls of the hooks, with the plugins' functions as a parameter;
--   Plugins/Bootstrap.antt, their loading, with `plugin.Open` and `Lookup` as a parameter.
-- - session_store.go: SessionStore.antt, with badger and the JSON package as parameters. The rest of the
--   model sees the database as calls of `set` and `delete`, which are events, and as answers of the
--   environment.
-- - config.go, and the text of the configuration file in constants.go: Config.antt, Config/Default.antt
--   and Config/Load.antt, with the file system and the YAML package as a parameter.
-- - websockets.go: WebSockets.antt, `CheckOrigin` and the handler of requests.
-- - broker.go and main/main.go: Startup.antt, `NewBroker`, `Listen` and `main`, with the network as a
--   parameter.
-- - The whole: System.antt has the goroutines where they take turns, in any order, from the state of
--   `NewBroker`.
--
-- What stands outside is the parameter of Broker/Environment.antt: what the plugins together answer, what
-- the session database holds, the time, and new identifiers. Each answer is a function of all that has
-- left the broker before.
--
-- Numbers are natural numbers, and bytes are numbers below 256; byte and uint16 arithmetic is written
-- with its wrap-around. A slice of bytes that was read has the capacity it has as length, so that
-- slicing past its length is a panic. A mutex makes each operation it guards one step. The loop of
-- `Encode` is by well-founded recursion. The loops of `extractSubTopicFilters` and
-- `extractUnSubTopicFilters` run on the payload's length as fuel, and each round consumes two bytes
-- or more. The loop of `listen` runs on one more than the number of bytes that arrive, on a WebSocket
-- with the starts of messages counted too, and each round that goes on has taken one of them.
--
-- An event is a call that leaves the broker, whether it succeeds or not: of the connection's `Write`, of
-- the session database, of a plugin's hook that only reports, or of `go Retry`.
--
-- A round of `listen` runs from its start to its end without another goroutine in between, though the
-- source holds no lock over a round: two rounds that overlap, as two that add a level of one name, are
-- not modelled. `Subscribe` is of a client whose `Session` is not nil, as is that of each client whose
-- CONNECT packet has been accepted. A goroutine `Retry` that an operation starts is an event; its
-- steps are modelled apart. A byte that arrives says whether it is in the connection's buffer with the
-- byte before it, since the source reads the fixed header by one `Read`. A WebSocket is the starts of
-- its messages and their bytes in order; a `Read` that returns fewer bytes than it was asked for is
-- repeated there, so the parts in which the bytes of a message come make no difference.
--
-- Not modelled: the sockets and the web server themselves, logging, the files of the plugins and of the
-- database, the goroutines that accept connections, of which System.antt has each connection as a step,
-- and the printing of the topic tree.
pub mod Common
pub mod Bytes
pub mod Types
pub mod Session
pub mod Topic
pub mod Packets
pub mod Extractors
pub mod Sequencer
pub mod Broker
pub mod Plugins
pub mod Config
pub mod WebSockets
pub mod SessionStore
pub mod Startup
pub mod Listen
pub mod System
pub mod Witnesses
