-- ===== src/Packets.antt =====
-- packets.go: the packets that the broker sends, as lists of bytes. A topic is never nil: every
-- caller passes a slice of a packet that was read.
use gott.Common.{
  ℕ, ◌+◌, ◌*◌, ◌/◌, ◌%◌, List, [], ◌∷◌, ◌++◌, Bytes, length, if◌then◌else◌, ◌==◌, ltb,
}
use gott.Bytes.{encode}
use gott.Types.{
  Filter, connect_rem_len, puback_rem_len, pubrec_rem_len, pubrel_rem_len, pubcomp_rem_len,
  suback_rem_len, unsuback_rem_len, pingresp_rem_len, suback_failure_code,
}
use gott.Types.PacketType
use gott.Topic.Filter.{valid_filter}
use gott.Sequencer
use gott.Sequencer.{Sequencer}

-- `binary.BigEndian.PutUint16` of a uint16.
unfoldable pub put_uint16 : ℕ → Bytes
put_uint16 v = v / 256 % 256 ∷ v % 256 ∷ []

-- `Type << 4` as a byte.
abbrev pub type_byte : ℕ → ℕ
type_byte t = t * 16 % 256

-- `id[0]`, `id[1]`: every caller passes two bytes.
abbrev pub id_bytes : ℕ × ℕ → Bytes
id_bytes (hi, lo) = hi ∷ lo ∷ []

unfoldable pub make_conn_ack : (session_present return_code : ℕ) → Bytes
make_conn_ack session_present return_code =
    type_byte PacketType.conn_ack ∷ connect_rem_len ∷ session_present ∷ return_code ∷ []

unfoldable pub make_pub_ack : ℕ × ℕ → Bytes
make_pub_ack id = type_byte PacketType.pub_ack ∷ puback_rem_len ∷ id_bytes id

unfoldable pub make_pub_rec : ℕ × ℕ → Bytes
make_pub_rec id = type_byte PacketType.pub_rec ∷ pubrec_rem_len ∷ id_bytes id

unfoldable pub make_pub_rel : ℕ × ℕ → Bytes
make_pub_rel id = (type_byte PacketType.pub_rel + 2) % 256 ∷ pubrel_rem_len ∷ id_bytes id

unfoldable pub make_pub_comp : ℕ × ℕ → Bytes
make_pub_comp id = type_byte PacketType.pub_comp ∷ pubcomp_rem_len ∷ id_bytes id

-- The loop of `makeSubAckPacket`.
unfoldable pub return_codes : List Filter → Bytes
unfolding valid_filter
return_codes [] = []
return_codes (f ∷ fs) =
    (if valid_filter f.filter then f.qos else suback_failure_code) ∷ return_codes fs

unfoldable pub make_sub_ack : ℕ × ℕ → List Filter → Bytes
unfolding encode return_codes
make_sub_ack id filter_list =
    type_byte PacketType.sub_ack
    ∷ (encode (suback_rem_len + length filter_list) ++ (id_bytes id ++ return_codes filter_list))

unfoldable pub make_unsub_ack : ℕ × ℕ → Bytes
make_unsub_ack id = type_byte PacketType.unsub_ack ∷ unsuback_rem_len ∷ id_bytes id

unfoldable pub make_ping_resp : Bytes
make_ping_resp = type_byte PacketType.ping_resp ∷ pingresp_rem_len ∷ []

-- The first byte of a PUBLISH packet, in byte arithmetic.
unfoldable pub publish_header : (dup_flag qos retain_flag : ℕ) → ℕ
publish_header dup_flag qos retain_flag =
    (type_byte PacketType.publish + dup_flag * 8 % 256 + qos * 2 % 256 + retain_flag) % 256

-- The packet from its variable header on.
abbrev finish_publish : ℕ → Bytes → Bytes → Bytes
finish_publish header var_header payload =
    header ∷ (encode (length var_header + length payload) ++ (var_header ++ payload))

unfoldable pub make_publish_with_id :
    (packet_id : ℕ) (topic payload : Bytes) (dup_flag qos retain_flag : ℕ) → Bytes
unfolding encode put_uint16 publish_header
make_publish_with_id packet_id topic payload dup_flag qos retain_flag =
    let dup = if qos == 0 then 0 else dup_flag in
    let named = put_uint16 (length topic % 65536) ++ topic in
    finish_publish (publish_header dup qos retain_flag)
      (if ltb 0 qos then named ++ put_uint16 packet_id else named) payload

-- The packet, its identifier (0 at QoS 0) and the sequencer afterwards.
unfoldable pub make_publish :
    (topic payload : Bytes) (dup_flag qos retain_flag : ℕ) → Sequencer → Bytes × ℕ × Sequencer
unfolding encode put_uint16 publish_header Sequencer.next
make_publish topic payload dup_flag qos retain_flag seq =
    let dup = if qos == 0 then 0 else dup_flag in
    let named = put_uint16 (length topic % 65536) ++ topic in
    let header = publish_header dup qos retain_flag in
    let (packet_id, seq') = Sequencer.next seq in
    if ltb 0 qos
    then (
      finish_publish header (named ++ put_uint16 (packet_id % 65536)) payload,
      packet_id % 65536,
      seq',
    )
    else (finish_publish header named payload, 0, seq)
