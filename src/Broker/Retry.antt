-- ===== src/Broker/Retry.antt =====
-- The goroutine `Retry` of broker.go: it sleeps 5 seconds and looks, sleeps 15 more and sends again.
use gott.Common.{ℕ, ◌/◌, ◌%◌, none, some}
use gott.Types.{
  Status, unacknowledged, puback_received, pubrec_received, pubrel_received, pubcomp_received,
}
use gott.Packets.{make_publish_with_id, make_pub_rel, make_pub_comp}
use gott.Broker.{World, emit, connected_of}

-- Where the goroutine stands: in its first sleep, in its second, or returned.
pub data Stage : Type 0 where
  waiting resending returned : Stage

-- The two bytes of an identifier.
abbrev id_pair : ℕ → ℕ × ℕ
id_pair packet_id = (packet_id / 256 % 256, packet_id % 256)

-- What a message of this status has its client sent: the packet and the next stage.
unfoldable pub resend : (packet_id m : ℕ) → (client : ℕ) → Status → World → Stage × World
unfolding make_publish_with_id make_pub_rel make_pub_comp
resend packet_id m client unacknowledged w =
    let msg = w.messages m in
    (
      waiting,
      emit client (make_publish_with_id packet_id msg.topic msg.payload 1 msg.qos msg.retain) w,
    )
resend packet_id m client pubrec_received w =
    (waiting, emit client (make_pub_rel (id_pair packet_id)) w)
resend packet_id m client pubrel_received w =
    (waiting, emit client (make_pub_comp (id_pair packet_id)) w)
resend packet_id m client puback_received w = (returned, w)
resend packet_id m client pubcomp_received w = (returned, w)

-- The first `switch`.
unfoldable pub look : Status → Stage
look puback_received = returned
look pubcomp_received = returned
look unacknowledged = resending
look pubrec_received = resending
look pubrel_received = resending

-- What the goroutine does when a sleep ends. In the second part the source reads the message's
-- client without a test; a nil one is a panic, after which the goroutine has ended.
unfoldable pub retry_step : (packet_id m : ℕ) → Stage → World → Stage × World
unfolding resend look
retry_step packet_id m waiting w = elim (connected_of w.clients (w.messages m).client) [
  | none ↦ (returned, w)
  | some c ↦ (look (w.messages m).status, w)
]
retry_step packet_id m resending w = elim (connected_of w.clients (w.messages m).client) [
  | none ↦ (returned, w)
  | some c ↦ resend packet_id m c (w.messages m).status w
]
retry_step packet_id m returned w = (returned, w)
