-- ===== src/Listen/Anonymous.antt =====
-- A client that has not been given an identifier: what a packet that is no CONNECT does.
use gott.Common.{
  ℕ, Bool, true, false, ◌&&◌, List, [], ◌∷◌, Option, none, some, Bytes, length, ◌==◌, ◌≡◌, ◌≢◌,
  refl, ap, ◌∙◌, arith, Bool-cases, inl, inr,
}
use gott.Types.PacketType
use gott.Bytes.{decode}
use gott.Extractors.{parse_fixed_header_first_byte}
use gott.Broker.{World}
use gott.Broker.Environment.{Environment}
use gott.Broker.Clients.{disconnect, close_connection}
use gott.Listen.{
  Arrival, Piece, octet, binary_message, text_message, Input, tcp, web, remaining, Link, Result,
  done, leave, skip, panics, Action, after, decoded, leave_if, gets, ◌>>◌,
}
use gott.Listen.Read.{
  header_of, read_header, read_length, then_byte, pair_of, web_full, web_header, next_reader,
  read_next,
}
use gott.Listen.Plain.{Plain, read_length-Plain, decoded-Plain}
use gott.Listen.Loop.{wants_id, is_anonymous, handle, Ended, ended, finish, proceed, loop, listen}
use gott.Listen.Rounds.{after_header, opened, round-open}

-- The first byte that `listen` reads, if there is one: on a WebSocket the first of the messages from
-- the first start on.
abbrev first_octet : List Piece → Option ℕ
first_octet [] = none
first_octet (octet b ∷ rest) = some b
first_octet (binary_message ∷ rest) = first_octet rest
first_octet (text_message ∷ rest) = none

abbrev first_in_message : List Piece → Option ℕ
first_in_message [] = none
first_in_message (octet b ∷ rest) = first_in_message rest
first_in_message (binary_message ∷ rest) = first_octet rest
first_in_message (text_message ∷ rest) = none

abbrev pub first_byte : Input → Option ℕ
first_byte (tcp []) = none
first_byte (tcp (a ∷ rest)) = some a.byte
first_byte (web arrived) = first_in_message arrived

abbrev pub Unconnected : Option ℕ → Type 0
Unconnected none = Unit
Unconnected (some b) = (parse_fixed_header_first_byte b).0 ≢ PacketType.connect

-- The loop is over, and nothing of the state has changed.
abbrev Closes {ℓ} : {A : Type ℓ} → World → Result A × Link → Type 0
Closes w (done _, l) = ⊥
Closes w (leave, l) = l.world ≡ w
Closes w (skip, l) = ⊥
Closes w (panics, l) = ⊥

after-Closes {ℓ κ} :
    {A : Type ℓ} {B : Type κ} (f : A → Action B) (w : World) (p : Result A × Link)
    → Plain p.0
    → p.1.world ≡ w
    → ((a : A) (l : Link) → l.world ≡ w → Closes w (f a l))
    → Closes w (after f p)
after-Closes f w (done a, l) k e h = h a l e
after-Closes f w (leave, l) k e h = e
after-Closes f w (skip, l) k e h = absurd k
after-Closes f w (panics, l) k e h = absurd k

module _ (env : Environment) (client : ℕ) where
  -- The packet types that are not CONNECT are those that want an identifier, and unknown ones.
  handle_unknown :
      (t : ℕ) (bits : Bytes) (rem_len : ℕ) (l : Link)
      → t ≢ PacketType.connect
      → wants_id t ≡ false
      → handle env client t bits rem_len l ≡ (leave, l)
  unfolding handle
  handle_unknown t bits rem_len l n w =
      let connect : (t == PacketType.connect) ≡ false = ground arith in
      let publish : (t == PacketType.publish) ≡ false = ground arith in
      let pub_ack : (t == PacketType.pub_ack) ≡ false = ground arith in
      let pub_rec : (t == PacketType.pub_rec) ≡ false = ground arith in
      let pub_rel : (t == PacketType.pub_rel) ≡ false = ground arith in
      let pub_comp : (t == PacketType.pub_comp) ≡ false = ground arith in
      let subscribe : (t == PacketType.subscribe) ≡ false = ground arith in
      let unsubscribe : (t == PacketType.unsubscribe) ≡ false = ground arith in
      let ping_req : (t == PacketType.ping_req) ≡ false = ground arith in
      let disconnect : (t == PacketType.disconnect) ≡ false = ground arith in
      rw
        (
          connect, publish, pub_ack, pub_rec, pub_rel, pub_comp, subscribe, unsubscribe, ping_req,
          disconnect,
        )
        refl

  judge-Closes :
      (t : ℕ) (bits : Bytes) (rem_len : ℕ) (w : World) (l : Link)
      → is_anonymous (w.clients client) ≡ true
      → t ≢ PacketType.connect
      → l.world ≡ w
      → Closes w (
          after
            (λ (b : Bool). leave_if (b && wants_id t) >> handle env client t bits rem_len)
            (gets (λ w. is_anonymous (w.clients client)) l))
  judge-Closes t bits rem_len w l a n e =
      let a' : is_anonymous (l.world.clients client) ≡ true =
        ap (λ v. is_anonymous (v.clients client)) e ∙ a in
      elim (Bool-cases (wants_id t)) [
        | inl k ↦ rw (a', k) e
        | inr k ↦ rw (a', k, handle_unknown t bits rem_len l n k) e
      ]

  after_header-Closes :
      (first second : ℕ) (w : World) (l : Link)
      → is_anonymous (w.clients client) ≡ true
      → (parse_fixed_header_first_byte first).0 ≢ PacketType.connect
      → l.world ≡ w
      → Closes w (after_header env client (first, second) l)
  unfolding read_length
  after_header-Closes first second w l a n e =
      after-Closes _ w (read_length second l) (read_length-Plain second l.input) e λ rest l₁ e₁.
        after-Closes _ w (decoded (decode (second ∷ rest)), l₁)
          (decoded-Plain (decode (second ∷ rest))) e₁
          λ rem_len l₂ e₂. judge-Closes _ _ rem_len w l₂ a n e₂

  disconnect_anonymous :
      (w : World) (t : Bool × World)
      → (w.clients client).client_id ≡ []
      → (false, close_connection client w) ≡ t
      → disconnect env client w ≡ t
  unfolding disconnect
  disconnect_anonymous w t n e = rw (n, disconnect) e

  finish-anonymous :
      (w : World)
      → (w.clients client).client_id ≡ []
      → finish env client w ≡ ended (close_connection client w)
  finish-anonymous w n = rw (disconnect_anonymous w _ n refl) refl

  header-Closes :
      (arrived : List Arrival) (w : World)
      → is_anonymous (w.clients client) ≡ true
      → Unconnected (first_byte (tcp arrived))
      → Closes w (opened env client (record { input = tcp arrived; world = w }))
  unfolding read_header
  header-Closes [] w n t = refl
  header-Closes (a ∷ []) w n t = after_header-Closes a.byte 0 w _ n t refl
  header-Closes (a ∷ b ∷ rest) w n t = elim (Bool-cases b.together) [
    | inl e ↦
        rw (e, header_of)
          (after_header-Closes a.byte b.byte w (record { input = tcp rest; world = w }) n t refl)
    | inr e ↦
        rw (e, header_of)
          (after_header-Closes a.byte 0 w
            (record { input = tcp (record { byte = b.byte; together = false } ∷ rest); world = w })
            n t refl)
  ]

  -- The second byte of the header may stand in a later message.
  second-Closes :
      (a : ℕ) (arrived : List Piece) (w : World)
      → is_anonymous (w.clients client) ≡ true
      → (parse_fixed_header_first_byte a).0 ≢ PacketType.connect
      → Closes w (
          after (after_header env client) (
            pair_of (then_byte a (web_full 1 arrived).0),
            record { input = web (web_full 1 arrived).1; world = w },
          ))
  unfolding web_full
  second-Closes a [] w n t = refl
  second-Closes a (octet b ∷ rest) w n t = after_header-Closes a b w _ n t refl
  second-Closes a (binary_message ∷ rest) w n t = second-Closes a rest w n t
  second-Closes a (text_message ∷ rest) w n t = refl

  web_header-Closes :
      (arrived : List Piece) (w : World)
      → is_anonymous (w.clients client) ≡ true
      → Unconnected (first_octet arrived)
      → Closes w (opened env client (record { input = web arrived; world = w }))
  unfolding read_header web_header web_full
  web_header-Closes [] w n t = refl
  web_header-Closes (octet b ∷ rest) w n t = second-Closes b rest w n t
  web_header-Closes (binary_message ∷ rest) w n t = web_header-Closes rest w n t
  web_header-Closes (text_message ∷ rest) w n t = refl

  next-Closes :
      (arrived : List Piece) (w : World)
      → is_anonymous (w.clients client) ≡ true
      → Unconnected (first_in_message arrived)
      → Closes w
          (after (λ _. opened env client) (read_next (record { input = web arrived; world = w })))
  unfolding read_next next_reader
  next-Closes [] w n t = refl
  next-Closes (octet b ∷ rest) w n t = next-Closes rest w n t
  next-Closes (binary_message ∷ rest) w n t = web_header-Closes rest w n t
  next-Closes (text_message ∷ rest) w n t = refl

  opened-Closes :
      (input : Input) (w : World)
      → is_anonymous (w.clients client) ≡ true
      → Unconnected (first_byte input)
      → Closes w (after (λ _. opened env client) (read_next (record { input = input; world = w })))
  unfolding read_next
  opened-Closes (tcp arrived) w n t = header-Closes arrived w n t
  opened-Closes (web arrived) w n t = next-Closes arrived w n t

  proceed-Closes :
      (again : Link → Ended) (w : World) (p : Result (Unit {0}) × Link)
      → Closes w p
      → proceed env client again p ≡ finish env client w
  proceed-Closes again w (leave, l) c = rw c refl
  proceed-Closes again w (done _, l) c = absurd c
  proceed-Closes again w (skip, l) c = absurd c
  proceed-Closes again w (panics, l) c = absurd c

  -- A connected client that has no identifier, and whose first byte, if it sends one, is not that of a
  -- CONNECT packet, has no effect on the broker but that its connection is closed, whatever else it
  -- sends, on a TCP connection or a WebSocket.
  pub listen-anonymous :
      (input : Input) (w : World)
      → (w.clients client).connected ≡ true
      → (w.clients client).client_id ≡ []
      → Unconnected (first_byte input)
      → listen env client (record { input = input; world = w }) ≡ ended (close_connection client w)
  unfolding listen loop
  listen-anonymous input w c n t =
      let l : Link = record { input = input; world = w } in
      rw (round-open env client l c) (
        proceed-Closes (loop env client (remaining input)) w
          (after (λ _. opened env client) (read_next l))
          (opened-Closes input w (ap (λ id. length id == 0) n) t)
        ∙ finish-anonymous w n)
