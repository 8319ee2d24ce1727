-- ===== src/Broker/Publish.antt =====
-- `Publish`, `PublishRetained` and `PublishToClient` of broker.go.
use gott.Common.{
  ℕ, Bool, true, false, List, [], ◌∷◌, Option, none, some, Bytes, ◌==◌, not, ◌&&◌, if◌then◌else◌,
  min,
}
use gott.Types.{Subscription, Message, PublishFlags, Status, unacknowledged}
use gott.Session.{ClientMessage, update}
use gott.Session.Store
use gott.Topic.Filter.{valid_topic_name}
use gott.Topic.Level.{Level}
use gott.Topic.Storage
use gott.Packets.{make_publish, make_publish_with_id}
use gott.Broker.{World, Event, emit, allocate, store_message, store_and_retry, live_client, happen}

-- The message that is kept for a delivery at QoS 1 or 2.
abbrev pub kept : (topic payload : Bytes) (qos retain : ℕ) → Option ℕ → ClientMessage
kept topic payload qos retain client = record {
  client = client;
  topic = topic;
  payload = payload;
  qos = qos;
  retain = retain;
  status = unacknowledged;
}

unfoldable pub is_unacknowledged : Status → Bool
is_unacknowledged unacknowledged = true
is_unacknowledged _ = false

-- `&clientMessage{…}` where the QoS is not 0: its address, 0 for nil, and the state after it.
unfoldable pub message_for : (qos : ℕ) → ClientMessage → World → ℕ × World
message_for qos m w = if qos == 0 then (0, w) else allocate m w

-- The last part of the callback of `Publish`, for a session and its client if it is connected.
module _ (packet : Bytes) (packet_id msg qos session : ℕ) where
  unfoldable pub hand_over : Option ℕ → World → World
  unfolding store_message
  hand_over (some c) w =
      if qos == 0 then emit c packet w else store_and_retry packet_id msg (emit c packet w)
  hand_over none w =
      if not (w.sessions session).clean && not (qos == 0)
      then store_message session packet_id msg w
      else w

-- The callback of `Publish` on one subscription.
module _ (topic payload : Bytes) (flags : PublishFlags) where
  unfoldable pub publish_to : Subscription → World → World
  unfolding make_publish message_for hand_over
  publish_to sub w =
      let qos = min sub.qos flags.qos in
      let (packet, packet_id, seq) = make_publish topic payload 0 qos 0 w.packet_seq in
      let (msg, w') =
        message_for qos (kept topic payload qos 0 (w.sessions sub.session).client)
          (record w { packet_seq = seq }) in
      hand_over packet packet_id msg qos sub.session (live_client w sub.session) w'

  -- `Range` over the subscriptions of a level; its callback never stops.
  unfoldable pub publish_each : List Subscription → World → World
  unfolding publish_to
  publish_each [] w = w
  publish_each (sub ∷ subs) w = publish_each subs (publish_to sub w)

  unfoldable pub publish_levels : List Level → World → World
  unfolding publish_each
  publish_levels [] w = w
  publish_levels (l ∷ ls) w = publish_levels ls (publish_each l.node.subscriptions w)

  abbrev is_nil : Bytes → Bool
  is_nil [] = true
  is_nil (_ ∷ _) = false

  -- The message that a PUBLISH with the retain flag leaves behind, at the time `now`.
  abbrev pub to_retain : (now : ℕ) → Option Message
  to_retain now =
      if is_nil payload
      then none
      else some (record {
        topic = topic;
        payload = payload;
        qos = flags.qos;
        retain = false;
        timestamp = now;
      })

  -- `Publish`, whether it went on and the state after it. The levels are matched before the message
  -- is retained, and retaining changes no subscription.
  unfoldable pub publish : (now : ℕ) → World → Bool × World
  unfolding publish_levels valid_topic_name Storage.match Storage.retain
  publish now w =
      let matches = Storage.match w.storage topic in
      let w' =
        if flags.retain
        then record w { storage = Storage.retain (to_retain now) topic w.storage }
        else w in
      if valid_topic_name topic then (true, publish_levels matches w') else (false, w)

-- The body of `PublishRetained`, for the session's client if it is connected.
module _ (msg : Message) (sub : Subscription) where
  unfoldable pub retained_to : Option ℕ → World → World
  unfolding make_publish message_for
  retained_to none w = w
  retained_to (some c) w =
      let qos = min sub.qos msg.qos in
      let (packet, packet_id, seq) = make_publish msg.topic msg.payload 0 qos 1 w.packet_seq in
      let (m, w') =
        message_for qos (kept msg.topic msg.payload qos 1 (w.sessions sub.session).client)
          (record w { packet_seq = seq }) in
      emit c packet (if qos == 0 then w' else store_and_retry packet_id m w')

  -- `PublishRetained`, where neither pointer is nil.
  unfoldable pub publish_retained : World → World
  unfolding retained_to
  publish_retained w = retained_to (live_client w sub.session) w

-- `PublishToClient`, where the message stands at the address `m`.
unfoldable pub publish_to_client : (client packet_id m : ℕ) → World → World
unfolding make_publish_with_id is_unacknowledged
publish_to_client client packet_id m w =
    let cm = w.messages m in
    let packet = make_publish_with_id packet_id cm.topic cm.payload 0 cm.qos 0 in
    let cm' = record cm { client = some client; retain = 0 } in
    let w₁ = record w { messages = update w.messages m cm' } in
    let w₂ = record w₁ { message_store = Store.store packet_id m w₁.message_store } in
    let w₃ = if is_unacknowledged cm.status then emit client packet w₂ else w₂ in
    if (w.clients client).connected
    then if cm.qos == 0 then w else happen (Event.retrying packet_id m) w₃
    else w
