-- ===== src/Listen/Publish.antt =====
-- The case `TypePublish` of `listen`.
use gott.Common.{ℕ, ◌+◌, ◌*◌, false, not, ◌&&◌, none, Bytes, length, if◌then◌else◌, ◌==◌, ltb}
use gott.Types.{PublishFlags, pubrec_received}
use gott.Session.{ClientMessage, update}
use gott.Session.Store
use gott.Topic.Filter.{valid_topic_name, byte_at}
use gott.Topic.Level.{is_some}
use gott.Packets.{make_pub_ack, make_pub_rec}
use gott.Extractors.{slice, uint16, uint16_at, extract_publish_flags}
use gott.Broker.{World, Event, allocate}
use gott.Broker.Environment.{Environment}
use gott.Broker.Publish as Broker_Publish
use gott.Listen.{
  done, Action, pure, ◌>>=◌, ◌>>◌, leave_if, skip_if, when, gets, changes, report, emit, extract,
  session_of,
}
use gott.Listen.Read.{read_full}

-- The two bytes of an identifier.
abbrev pub id_of : Bytes → ℕ × ℕ
id_of b = (byte_at b 0, byte_at b 1)

-- What a PUBLISH packet says after its flags: topic, identifier (its bytes and their number, nothing
-- at QoS 0) and payload.
pub record Publication : Type 0 where
  pub topic : Bytes
  pub packet_id_bytes : Bytes
  pub packet_id : ℕ
  pub payload : Bytes

-- From `readFull` to `payload`.
unfoldable pub read_publication : (qos rem_len : ℕ) → Action Publication
unfolding read_full slice uint16 uint16_at valid_topic_name
read_publication qos rem_len = do
  rem_bytes ← read_full rem_len
  topic_len ← extract (uint16_at rem_bytes 0)
  leave_if (topic_len == 0)
  leave_if (ltb (length rem_bytes) (2 + topic_len))
  topic ← extract (slice rem_bytes 2 (2 + topic_len))
  leave_if (not (valid_topic_name topic))
  let id_len = if qos == 0 then 0 else 2
  id_bytes ← extract (slice rem_bytes (2 + topic_len) (2 + topic_len + id_len))
  payload ← extract (slice rem_bytes (2 + topic_len + id_len) (length rem_bytes))
  pure (record {
    topic = topic;
    packet_id_bytes = id_bytes;
    packet_id = byte_at id_bytes 0 * 256 + byte_at id_bytes 1;
    payload = payload;
  })

-- `c.Session.MessageStore.store` of a new message.
unfoldable pub store_received : (session : ℕ) → ℕ → ClientMessage → World → World
unfolding Store.store
store_received session packet_id m w =
    let (address, w') = allocate m w in
    let s = w'.sessions session in
    record w' {
      sessions =
          update w'.sessions session
            (record s { message_store = Store.store packet_id address s.message_store });
    }

-- The part at QoS 2: a repeated packet whose message is still in the session's store is answered and
-- no more.
unfoldable pub receive_at_2 : (client : ℕ) (dup : ℕ) → Publication → Action (Unit {0})
unfolding Store.get make_pub_rec store_received
receive_at_2 client dup p = do
  session ← session_of client
  known ← gets (λ w. Store.get p.packet_id (w.sessions session).message_store)
  let repeated = dup == 1 && is_some known
  when (not repeated) (
      changes (
        store_received session p.packet_id (record {
          client = none;
          topic = p.topic;
          payload = p.payload;
          qos = 2;
          retain = 0;
          status = pubrec_received;
        })))
  emit client (make_pub_rec (id_of p.packet_id_bytes))
  skip_if repeated

-- The rest: the plugins, and `Publish`.
unfoldable pub forward : Environment → (client : ℕ) → PublishFlags → Publication → Action (Unit {0})
unfolding Broker_Publish.publish
forward env client flags p = do
  report (Event.on_message client p.topic p.payload flags.dup flags.qos flags.retain)
  may ← gets (λ w.
      let c = w.clients client in
      env.before_publish w.events c.client_id c.username p.topic p.payload flags.dup flags.qos
        flags.retain)
  skip_if (not may)
  published ← λ l.
      let (b, w) =
        Broker_Publish.publish p.topic p.payload flags (env.clock l.world.events) l.world in
      (done b, record l { world = w })
  when published (report (Event.on_publish client p.topic p.payload flags.dup flags.qos false))

unfoldable pub on_publish :
    Environment → (client : ℕ) (flags_bits : Bytes) (rem_len : ℕ) → Action (Unit {0})
unfolding extract_publish_flags read_publication receive_at_2 forward make_pub_ack
on_publish env client flags_bits rem_len = do
  flags ← extract (extract_publish_flags flags_bits)
  p ← read_publication flags.qos rem_len
  when (flags.qos == 1) (emit client (make_pub_ack (id_of p.packet_id_bytes)))
  when (flags.qos == 2) (receive_at_2 client flags.dup p)
  forward env client (record flags { packet_id = p.packet_id }) p
