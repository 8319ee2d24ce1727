-- ===== src/Listen/Filters.antt =====
-- The cases `TypeSubscribe` and `TypeUnsubscribe` of `listen`.
use gott.Common.{ℕ, Bool, not, List, [], ◌∷◌, Option, none, some, Bytes, bytes_eq, length, ltb}
use gott.Types.{Filter}
use gott.Packets.{make_sub_ack, make_unsub_ack}
use gott.Extractors.{slice, extract_sub_topic_filters, extract_unsub_topic_filters}
use gott.Broker.{World, Event}
use gott.Broker.Environment.{Environment}
use gott.Broker.Subscribe as Broker_Subscribe
use gott.Listen.{
  done, panics, Action, pure, ◌>>=◌, ◌>>◌, leave_if, when, gets, report, emit, extract,
}
use gott.Listen.Read.{read_full}
use gott.Listen.Publish.{id_of}
use gott.Listen.Acks.{flags_0010}

-- The identifier's bytes and the payload.
unfoldable pub read_request : (flags_bits : Bytes) (rem_len : ℕ) → Action (Bytes × Bytes)
unfolding read_full slice
read_request flags_bits rem_len = do
  leave_if (not (bytes_eq flags_bits flags_0010))
  leave_if (ltb rem_len 3)
  rem_bytes ← read_full rem_len
  packet_id_bytes ← extract (slice rem_bytes 0 2)
  payload ← extract (slice rem_bytes 2 (length rem_bytes))
  leave_if (ltb (length payload) 3)
  pure (packet_id_bytes, payload)

module _ (env : Environment) (client : ℕ) where
  -- `Subscribe` as an action.
  abbrev pub subscribed : Option (Bool × World) → Action Bool
  subscribed none l = (panics, l)
  subscribed (some (b, w)) l = (done b, record l { world = w })

  unfoldable pub subscribe_one : Filter → Action (Unit {0})
  unfolding Broker_Subscribe.subscribe
  subscribe_one f = do
    goes_on ← λ l. subscribed (Broker_Subscribe.subscribe client f.filter f.qos l.world) l
    when goes_on (report (Event.on_subscribe client f.filter f.qos))

  -- The loop over the filters.
  unfoldable pub subscribe_each : List Filter → Action (Unit {0})
  unfolding subscribe_one
  subscribe_each [] = pure tt
  subscribe_each (f ∷ fs) = do
    may ← gets (λ w.
        let c = w.clients client in
        env.before_subscribe w.events c.client_id c.username f.filter f.qos)
    when may (subscribe_one f)
    subscribe_each fs

  unfoldable pub on_subscribe : (flags_bits : Bytes) (rem_len : ℕ) → Action (Unit {0})
  unfolding read_request extract_sub_topic_filters subscribe_each make_sub_ack
  on_subscribe flags_bits rem_len = do
    (packet_id_bytes, payload) ← read_request flags_bits rem_len
    filter_list ← extract (extract_sub_topic_filters payload)
    subscribe_each filter_list
    emit client (make_sub_ack (id_of packet_id_bytes) filter_list)

  unfoldable pub unsubscribe_one : Bytes → Action (Unit {0})
  unfolding Broker_Subscribe.unsubscribe
  unsubscribe_one f = do
    success ← λ l.
        let (b, w) = Broker_Subscribe.unsubscribe client f l.world in
        (done b, record l { world = w })
    when success (report (Event.on_unsubscribe client f))

  unfoldable pub unsubscribe_each : List Bytes → Action (Unit {0})
  unfolding unsubscribe_one
  unsubscribe_each [] = pure tt
  unsubscribe_each (f ∷ fs) = do
    may ←
        gets (λ w.
          let c = w.clients client in env.before_unsubscribe w.events c.client_id c.username f)
    when may (unsubscribe_one f)
    unsubscribe_each fs

  unfoldable pub on_unsubscribe : (flags_bits : Bytes) (rem_len : ℕ) → Action (Unit {0})
  unfolding read_request extract_unsub_topic_filters unsubscribe_each make_unsub_ack
  on_unsubscribe flags_bits rem_len = do
    (packet_id_bytes, payload) ← read_request flags_bits rem_len
    filter_list ← extract (extract_unsub_topic_filters payload)
    unsubscribe_each filter_list
    emit client (make_unsub_ack (id_of packet_id_bytes))
