-- ===== src/Listen/Relay.antt =====
-- A PUBLISH packet that the broker has built, read by the loop of another broker.
use gott.Common.{ℕ, ◌%◌, ◌<◌, ◌&&◌, List, ◌++◌, length, Bytes, if◌then◌else◌, ltb, ◌==◌}
use gott.Types.{PublishFlags}
use gott.Packets.{put_uint16, make_pub_ack}
use gott.Extractors.{parse_fixed_header_first_byte}
use gott.Broker.{World}
use gott.Broker.Environment.{Environment}
use gott.Listen.{Arrival, tcp, Link, Action, ◌>>=◌, ◌>>◌, leave_if, when, gets, emit}
use gott.Listen.Loop.{wants_id, is_anonymous, handle}
use gott.Listen.Publish.{Publication, receive_at_2, forward, id_of}
use gott.Listen.Received.{id_part}

abbrev at : List Arrival → World → Link
at arrived w = record { input = tcp arrived; world = w }

module _ (env : Environment) (client : ℕ) where
  -- What a round does once it has the first byte and the remaining length.
  abbrev dispatched : (first rem_len : ℕ) → Action (Unit {0})
  dispatched first rem_len = do
    anonymous ← gets (λ w. is_anonymous (w.clients client))
    let (packet_type, flags_bits) = parse_fixed_header_first_byte first
    leave_if (anonymous && wants_id packet_type)
    handle env client packet_type flags_bits rem_len

  -- What `listen` does with a publication that it has read: it answers PUBACK at QoS 1, receives it
  -- once at QoS 2, where a repetition ends the handling, and passes it on.
  abbrev pub publication_read : PublishFlags → Publication → Action (Unit {0})
  publication_read flags p = do
    when (flags.qos == 1) (emit client (make_pub_ack (id_of p.packet_id_bytes)))
    when (flags.qos == 2) (receive_at_2 client flags.dup p)
    forward env client flags p

-- `makePublishPacketWithID` sets no DUP flag at QoS 0.
abbrev pub dup_sent : (dup qos : ℕ) → ℕ
dup_sent dup qos = if qos == 0 then 0 else dup

-- The publication and the flags that are read of a packet; the identifier is 0 at QoS 0.
abbrev pub relayed : (packet_id qos : ℕ) (topic payload : Bytes) → Publication
relayed i qos topic payload = record {
  topic = topic;
  packet_id_bytes = id_part qos i;
  packet_id = if qos == 0 then 0 else i;
  payload = payload;
}

abbrev pub relayed_flags : (packet_id dup qos retain : ℕ) → PublishFlags
relayed_flags i dup qos retain = record {
  dup = dup_sent dup qos;
  qos = qos;
  retain = retain == 1;
  packet_id = if qos == 0 then 0 else i;
}

module _ (i dup qos retain : ℕ) (topic payload : Bytes) (short : length topic < 65536) where
  -- The topic after its length, and the identifier, as the packet has them and as the reader does.
  abbrev built : Bytes
  built =
      let named = put_uint16 (length topic % 65536) ++ topic in
      if ltb 0 qos then named ++ put_uint16 i else named

  abbrev laid_out : Bytes
  laid_out = put_uint16 (length topic) ++ (topic ++ id_part qos i)
