-- ===== src/Listen/Loop.antt =====
-- The loop of `listen`, and what follows it.
use gott.Common.{
  ℕ, zero, suc, Bool, true, not, ◌&&◌, ◌||◌, ◌∷◌, none, Bytes, length, if◌then◌else◌, ◌==◌,
}
use gott.Types.PacketType
use gott.Bytes.{decode}
use gott.Packets.{make_ping_resp}
use gott.Extractors.{parse_fixed_header_first_byte}
use gott.Broker.{World, Client}
use gott.Broker.Environment.{Environment}
use gott.Broker.Clients.{disconnect}
use gott.Listen.{
  remaining, Link, Result, done, leave, skip, panics, Action, ◌>>=◌, ◌>>◌, leave_if, gets, emit,
  set_client, decoded,
}
use gott.Listen.Read.{read_header, read_length, read_next}
use gott.Listen.Connect.{on_connect}
use gott.Listen.Publish.{on_publish}
use gott.Listen.Acks.{on_pub_ack, on_pub_rec, on_pub_rel, on_pub_comp}
use gott.Listen.Filters.{on_subscribe, on_unsubscribe}

-- The packet types that a client without an identifier may not send.
abbrev pub wants_id : (packet_type : ℕ) → Bool
wants_id t =
    t == PacketType.publish
    || t == PacketType.pub_ack
    || t == PacketType.pub_rec
    || t == PacketType.pub_rel
    || t == PacketType.pub_comp
    || t == PacketType.subscribe
    || t == PacketType.unsubscribe
    || t == PacketType.ping_req
    || t == PacketType.disconnect

abbrev pub is_anonymous : Client → Bool
is_anonymous c = length c.client_id == 0

-- The case `TypeDisconnect`.
abbrev pub on_disconnect : (client : ℕ) → Action (Unit {0})
on_disconnect client =
    set_client client (λ c. record c { will_message = none; graceful_disconnect = true })
    >> leave_if true

-- The broker's state when `listen` is over or when its panic ends the whole program, or the end of fuel.
pub data Ended : Type 0 where
  ended : World → Ended
  crashed : World → Ended
  out_of_fuel : Ended

module _ (env : Environment) (client : ℕ) where
  -- The `switch` on the packet type.
  unfoldable pub handle : (packet_type : ℕ) (flags_bits : Bytes) (rem_len : ℕ) → Action (Unit {0})
  unfolding on_connect on_publish on_pub_ack on_pub_rec on_pub_rel on_pub_comp on_subscribe
      on_unsubscribe make_ping_resp
  handle t bits rem_len l =
      if t == PacketType.connect
      then on_connect env client rem_len l
      else if t == PacketType.publish
      then on_publish env client bits rem_len l
      else if t == PacketType.pub_ack
      then on_pub_ack client rem_len l
      else if t == PacketType.pub_rec
      then on_pub_rec client rem_len l
      else if t == PacketType.pub_rel
      then on_pub_rel client bits l
      else if t == PacketType.pub_comp
      then on_pub_comp client rem_len l
      else if t == PacketType.subscribe
      then on_subscribe env client bits rem_len l
      else if t == PacketType.unsubscribe
      then on_unsubscribe env client bits rem_len l
      else if t == PacketType.ping_req
      then emit client make_ping_resp l
      else if t == PacketType.disconnect
      then on_disconnect client l
      else (leave, l)

  -- One round of the loop.
  unfoldable pub round : Action (Unit {0})
  unfolding read_header read_length read_next decode parse_fixed_header_first_byte handle
  round = do
    connected ← gets (λ w. (w.clients client).connected)
    leave_if (not connected)
    _ ← read_next
    (first, second) ← read_header
    rest ← read_length second
    rem_len ← λ l. (decoded (decode (second ∷ rest)), l)
    anonymous ← gets (λ w. is_anonymous (w.clients client))
    let (packet_type, flags_bits) = parse_fixed_header_first_byte first
    leave_if (anonymous && wants_id packet_type)
    handle packet_type flags_bits rem_len

  -- `c.disconnect()` in the deferred call of `Recover`: there is no other to recover from its panic.
  abbrev pub recovered : World → Ended
  recovered w = let (p, w') = disconnect env client w in if p then crashed w' else ended w'

  -- `c.disconnect()` after the loop.
  abbrev pub finish : World → Ended
  finish w = let (p, w') = disconnect env client w in if p then recovered w' else ended w'

  -- How `listen` goes on after a round, where `again` is the rest of the loop.
  abbrev pub proceed : (Link → Ended) → Result (Unit {0}) × Link → Ended
  proceed again (done _, l) = again l
  proceed again (skip, l) = again l
  proceed again (leave, l) = finish l.world
  proceed again (panics, l) = recovered l.world

  unfoldable pub loop : (fuel : ℕ) → Link → Ended
  unfolding round disconnect
  loop zero l = out_of_fuel
  loop (suc fuel) l = proceed (loop fuel) (round l)

  -- Every round that goes on takes something of the input.
  unfoldable pub listen : Link → Ended
  unfolding loop
  listen l = loop (suc (remaining l.input)) l
