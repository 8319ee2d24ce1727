-- ===== src/Listen/Answers.antt =====
-- What `listen` answers to single packets.
use gott.Common.{
  ℕ, true, false, ◌&&◌, Option, none, some, ◌==◌, ◌≡◌, refl, ◌∙◌, ap, arith, Bool-cases, inl, inr,
  ==_iff,
}
use gott.Types.{pubrec_received}
use gott.Session.{ClientMessage, update_self}
use gott.Session.Lookup.{get-store}
use gott.Topic.Level.{is_some}
use gott.Session.Store
use gott.Packets.{make_pub_rec}
use gott.Broker
use gott.Broker.{World}
use gott.Listen.{Link, skip}
use gott.Listen.Publish.{Publication, receive_at_2, store_received, id_of}

-- The session's message under the packet's identifier.
abbrev known_in : (client : ℕ) → Publication → World → Option ℕ
known_in client p w = Store.get p.packet_id (w.sessions (w.clients client).session).message_store

-- The message of a packet that was received at QoS 2.
abbrev received_message : Publication → ClientMessage
received_message p = record {
  client = none;
  topic = p.topic;
  payload = p.payload;
  qos = 2;
  retain = 0;
  status = pubrec_received;
}

store_received-known :
    (client : ℕ) (p : Publication) (w : World)
    → known_in client p
        (store_received (w.clients client).session p.packet_id (received_message p) w)
      ≡ some w.fresh
unfolding store_received
store_received-known client p w =
    let id = (w.clients client).session in
    let ms = (w.sessions id).message_store in
    let i = p.packet_id in
    ap (λ s. Store.get i s.message_store)
      (update_self w.sessions id
        (record (w.sessions id) { message_store = Store.store i w.fresh ms }))
    ∙ (get-store i w.fresh i ms ∙ rw ((==_iff i i).1 refl) refl)

store_received-session :
    (client : ℕ) (p : Publication) (w : World)
    → ((store_received (w.clients client).session p.packet_id (received_message p) w).clients
        client).has_session
      ≡ (w.clients client).has_session
unfolding store_received
store_received-session client p w = refl

receive_at_2-repeated :
    (client dup : ℕ) (p : Publication) (l : Link)
    → (l.world.clients client).has_session ≡ true
    → (dup == 1 && is_some (known_in client p l.world)) ≡ true
    → receive_at_2 client dup p l ≡ (
      skip,
      record l { world = Broker.emit client (make_pub_rec (id_of p.packet_id_bytes)) l.world },
    )
unfolding receive_at_2
receive_at_2-repeated client dup p l s k = simp (s, k) refl

receive_at_2-new :
    (client dup : ℕ) (p : Publication) (l : Link)
    → (l.world.clients client).has_session ≡ true
    → (dup == 1 && is_some (known_in client p l.world)) ≡ false
    → (receive_at_2 client dup p l).1.world
      ≡ Broker.emit client
          (make_pub_rec (id_of p.packet_id_bytes))
          (store_received (l.world.clients client).session p.packet_id (received_message p) l.world)
unfolding receive_at_2
receive_at_2-new client dup p l s k = simp (s, k) refl

-- What a received packet leaves, whichever way.
receive_at_2-known :
    (client dup : ℕ) (p : Publication) (l : Link)
    → (l.world.clients client).has_session ≡ true
    → let w = (receive_at_2 client dup p l).1.world in
      ((w.clients client).has_session ≡ true) × (is_some (known_in client p w) ≡ true)
receive_at_2-known client dup p l s =
    elim (Bool-cases (dup == 1 && is_some (known_in client p l.world))) [
      | inl k ↦ rw (receive_at_2-repeated client dup p l s k) (s, ground arith)
      | inr k ↦ rw (receive_at_2-new client dup p l s k) (
        store_received-session client p l.world ∙ s,
        ap is_some (store_received-known client p l.world),
      )
    ]

-- For a client with a session, once a packet at QoS 2 was received, a repetition of it is only
-- answered by PUBREC, whether the first was itself a repetition or not.
pub receive_at_2-again :
    (client dup : ℕ) (p : Publication) (l : Link)
    → (l.world.clients client).has_session ≡ true
    → let l' = (receive_at_2 client dup p l).1 in
      receive_at_2 client 1 p l' ≡ (
        skip,
        record l' { world = Broker.emit client (make_pub_rec (id_of p.packet_id_bytes)) l'.world },
      )
receive_at_2-again client dup p l s =
    let l' = (receive_at_2 client dup p l).1 in
    let (has, known) = receive_at_2-known client dup p l s in
    receive_at_2-repeated client 1 p l' has known
