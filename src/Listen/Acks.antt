-- ===== src/Listen/Acks.antt =====
-- The cases `TypePubAck`, `TypePubRec`, `TypePubRel` and `TypePubComp` of `listen`.
use gott.Common.{ℕ, Bool, true, false, not, [], ◌∷◌, Bytes, bytes_eq, ◌==◌}
use gott.Types.{
  Status, puback_received, pubrec_received, pubrel_received, pubcomp_received, pubrel_rem_len,
}
use gott.Session.{update}
use gott.Session.Store
use gott.Packets.{make_pub_rel, make_pub_comp}
use gott.Extractors.{uint16}
use gott.Broker.{World}
use gott.Broker.Replay
use gott.Listen.{Action, pure, ◌>>=◌, ◌>>◌, leave_if, changes, emit, extract, session_of}
use gott.Listen.Read.{read_full}
use gott.Listen.Publish.{id_of}

-- `GOTT.MessageStore.acknowledge`.
unfoldable pub acknowledge_broker : (packet_id : ℕ) → Status → (remove : Bool) → World → World
unfolding Store.acknowledge
acknowledge_broker packet_id status remove w =
    let (messages, ms) = Store.acknowledge packet_id status remove w.messages w.message_store in
    record w { messages = messages; message_store = ms }

-- The common part of PUBACK, PUBREC and PUBCOMP: the bytes of the identifier.
unfoldable pub acknowledge_both : (client rem_len : ℕ) → Status → (remove : Bool) → Action Bytes
unfolding read_full uint16 acknowledge_broker Replay.acknowledge
acknowledge_both client rem_len status remove = do
  leave_if (not (rem_len == 2))
  rem_bytes ← read_full rem_len
  packet_id ← extract (uint16 rem_bytes)
  changes (acknowledge_broker packet_id status remove)
  session ← session_of client
  changes (Replay.acknowledge session packet_id status remove)
  pure rem_bytes

unfoldable pub on_pub_ack : (client rem_len : ℕ) → Action (Unit {0})
unfolding acknowledge_both
on_pub_ack client rem_len = acknowledge_both client rem_len puback_received true >>= λ _. pure tt

unfoldable pub on_pub_rec : (client rem_len : ℕ) → Action (Unit {0})
unfolding acknowledge_both make_pub_rel
on_pub_rec client rem_len = do
  packet_id_bytes ← acknowledge_both client rem_len pubrec_received false
  emit client (make_pub_rel (id_of packet_id_bytes))

unfoldable pub on_pub_comp : (client rem_len : ℕ) → Action (Unit {0})
unfolding acknowledge_both
on_pub_comp client rem_len = acknowledge_both client rem_len pubcomp_received true >>= λ _. pure tt

-- The flag bits that MQTT asks of PUBREL, SUBSCRIBE and UNSUBSCRIBE.
abbrev pub flags_0010 : Bytes
flags_0010 = b'0' ∷ b'0' ∷ b'1' ∷ b'0' ∷ []

-- `c.Session.MessageStore.acknowledge`, which is not put into the database.
unfoldable pub acknowledge_session :
    (session packet_id : ℕ) → Status → (remove : Bool) → World → World
unfolding Store.acknowledge
acknowledge_session session packet_id status remove w =
    let s = w.sessions session in
    let (messages, ms) = Store.acknowledge packet_id status remove w.messages s.message_store in
    record w {
      messages = messages;
      sessions = update w.sessions session (record s { message_store = ms });
    }

-- PUBREL has no test of its remaining length.
unfoldable pub on_pub_rel : (client : ℕ) (flags_bits : Bytes) → Action (Unit {0})
unfolding read_full uint16 acknowledge_session make_pub_comp
on_pub_rel client flags_bits = do
  leave_if (not (bytes_eq flags_bits flags_0010))
  packet_id_bytes ← read_full pubrel_rem_len
  packet_id ← extract (uint16 packet_id_bytes)
  session ← session_of client
  changes (acknowledge_session session packet_id pubrel_received true)
  emit client (make_pub_comp (id_of packet_id_bytes))
