-- ===== src/Listen/Rounds.antt =====
-- A round of `listen`: if it goes on it has taken something of the input, and it keeps the topic tree well formed.
use gott.Common.{
  ℕ, ◌<◌, ◌≤◌, true, false, ◌&&◌, List, [], ◌∷◌, Bytes, ◌==◌, ◌≡◌, refl, arith, Bool-cases, inl,
  inr,
}
use gott.Types.PacketType
use gott.Bytes.{decode}
use gott.Packets.{make_ping_resp}
use gott.Broker.{World}
use gott.Broker.Environment.{Environment}
use gott.Extractors.{parse_fixed_header_first_byte}
use gott.Listen.{
  Arrival, Piece, octet, binary_message, text_message, Input, tcp, web, remaining, Link, Result,
  done, leave, skip, panics, Action, ◌>>=◌, ◌>>◌, after, leave_if, gets, decoded,
}
use gott.Listen.Read.{header_of, read_header, read_length, next_reader, read_next}
use gott.Listen.Loop.{wants_id, is_anonymous, on_disconnect, handle, round}
use gott.Listen.Keeps.{
  Kept, Kept-refl, Keeps, Keeps-same, Keeps-if, Keeps-bind, Keeps-emit, Keeps-read_header,
  Keeps-read_next, Keeps-read_length, keeps_rules,
}
use gott.Listen.Admission.{on_connect-Keeps}
use gott.Listen.Handlers.{
  on_publish-Keeps, on_pub_ack-Keeps, on_pub_rec-Keeps, on_pub_rel-Keeps, on_pub_comp-Keeps,
  on_subscribe-Keeps, on_unsubscribe-Keeps,
}

on_disconnect-Keeps : (client : ℕ) → Keeps (on_disconnect client)
on_disconnect-Keeps client = search keeps_rules depth 20 fits 3000

-- A round that goes on has taken something of the input.
abbrev pub Eats {ℓ} : {A : Type ℓ} → Link → Result A × Link → Type 0
Eats l (done _, l') = remaining l'.input < remaining l.input
Eats l (skip, l') = remaining l'.input < remaining l.input
Eats l (leave, l') = Unit
Eats l (panics, l') = Unit

Kept-Eats {ℓ} :
    {A : Type ℓ} (l l' : Link) (p : Result A × Link)
    → remaining l'.input < remaining l.input
    → Kept l' p.1
    → Eats l p
Kept-Eats l l' (done a, l'') h k = omega (arith, k.shorter)
Kept-Eats l l' (skip, l'') h k = omega (arith, k.shorter)
Kept-Eats l l' (leave, l'') h k = tt
Kept-Eats l l' (panics, l'') h k = tt

after-Eats {ℓ κ} :
    {A : Type ℓ} {B : Type κ} (f : A → Action B) (l : Link) (p : Result A × Link)
    → ((a : A) → Keeps (f a))
    → Eats l p
    → Eats l (after f p)
after-Eats f l (done a, l') kf h = Kept-Eats l l' (f a l') h ((kf a).at l')
after-Eats f l (skip, l') kf h = h
after-Eats f l (leave, l') kf h = tt
after-Eats f l (panics, l') kf h = tt

header_of-Eats :
    (arrived : List Arrival) (w : World)
    → Eats
        (record { input = tcp arrived; world = w })
        (read_header (record { input = tcp arrived; world = w }))
unfolding header_of read_header
header_of-Eats [] w = tt
header_of-Eats (a ∷ []) w = omega arith
header_of-Eats (a ∷ b ∷ rest) w = elim (Bool-cases b.together) [
  | inl e ↦ rw (e, header_of) (omega arith)
  | inr e ↦ rw (e, header_of) (omega arith)
]

Eats-longer {ℓ} :
    {A : Type ℓ} (l l' : Link) (p : Result A × Link)
    → remaining l.input ≤ remaining l'.input
    → Eats l p
    → Eats l' p
Eats-longer l l' (done a, l'') h e = omega (arith, h, e)
Eats-longer l l' (skip, l'') h e = omega (arith, h, e)
Eats-longer l l' (leave, l'') h e = tt
Eats-longer l l' (panics, l'') h e = tt

-- Of a WebSocket, `wsNextReader` takes the start of a message.
next_reader-Eats :
    (arrived : List Piece) (w : World)
    → Eats
        (record { input = web arrived; world = w })
        (read_next (record { input = web arrived; world = w }))
unfolding next_reader read_next
next_reader-Eats [] w = tt
next_reader-Eats (octet b ∷ rest) w =
    Eats-longer (record { input = web rest; world = w })
      (record { input = web (octet b ∷ rest); world = w })
      (read_next (record { input = web rest; world = w })) (omega arith) (next_reader-Eats rest w)
next_reader-Eats (binary_message ∷ rest) w = omega arith
next_reader-Eats (text_message ∷ rest) w = tt

module _ (env : Environment) (client : ℕ) where
  handle-Keeps : (t : ℕ) (bits : Bytes) (rem_len : ℕ) → Keeps (handle env client t bits rem_len)
  unfolding handle
  handle-Keeps t bits rem_len =
      Keeps-if (t == PacketType.connect) _ _ (on_connect-Keeps env client rem_len) (
        Keeps-if (t == PacketType.publish) _ _ (on_publish-Keeps env client bits rem_len) (
          Keeps-if (t == PacketType.pub_ack) _ _ (on_pub_ack-Keeps client rem_len) (
            Keeps-if (t == PacketType.pub_rec) _ _ (on_pub_rec-Keeps client rem_len) (
              Keeps-if (t == PacketType.pub_rel) _ _ (on_pub_rel-Keeps client bits) (
                Keeps-if (t == PacketType.pub_comp) _ _ (on_pub_comp-Keeps client rem_len) (
                  Keeps-if (t == PacketType.subscribe) _ _
                    (on_subscribe-Keeps env client bits rem_len)
                    (Keeps-if (t == PacketType.unsubscribe) _ _
                      (on_unsubscribe-Keeps env client bits rem_len)
                      (Keeps-if (t == PacketType.ping_req) _ _ (Keeps-emit client make_ping_resp) (
                        Keeps-if (t == PacketType.disconnect) _ _ (on_disconnect-Keeps client)
                          (Keeps-same _))))))))))

  abbrev pub after_header : ℕ × ℕ → Action (Unit {0})
  after_header (first, second) = do
    rest ← read_length second
    rem_len ← λ l. (decoded (decode (second ∷ rest)), l)
    anonymous ← gets (λ w. is_anonymous (w.clients client))
    let (packet_type, flags_bits) = parse_fixed_header_first_byte first
    leave_if (anonymous && wants_id packet_type)
    handle env client packet_type flags_bits rem_len

  after_header-Keeps : (h : ℕ × ℕ) → Keeps (after_header h)
  after_header-Keeps h = search (keeps_rules, Keeps-read_length, handle-Keeps) depth 40 fits 5000

  abbrev pub opened : Action (Unit {0})
  opened = read_header >>= after_header

  pub round-open :
      (l : Link)
      → (l.world.clients client).connected ≡ true
      → round env client l ≡ after (λ _. opened) (read_next l)
  unfolding round
  round-open l c = rw c refl

  opened-Keeps : Keeps opened
  opened-Keeps = Keeps-bind read_header after_header Keeps-read_header after_header-Keeps

  opened-Eats :
      (input : Input) (w : World)
      → let l : Link = record { input = input; world = w } in
        Eats l (after (λ _. opened) (read_next l))
  unfolding read_next
  opened-Eats (tcp arrived) w =
      let l : Link = record { input = tcp arrived; world = w } in
      after-Eats after_header l (read_header l) after_header-Keeps (header_of-Eats arrived w)
  opened-Eats (web arrived) w =
      let l : Link = record { input = web arrived; world = w } in
      after-Eats (λ _. opened) l (read_next l) (λ _. opened-Keeps) (next_reader-Eats arrived w)

  pub round-closed :
      (l : Link) → (l.world.clients client).connected ≡ false → round env client l ≡ (leave, l)
  unfolding round
  round-closed l c = rw c refl

  pub round-Kept : (l : Link) → Kept l (round env client l).1
  round-Kept l = elim (Bool-cases (l.world.clients client).connected) [
    | inl c ↦
        rw (round-open l c)
          ((Keeps-bind read_next (λ _. opened) Keeps-read_next (λ _. opened-Keeps)).at l)
    | inr c ↦ rw (round-closed l c) (Kept-refl l)
  ]

  pub round-Eats : (l : Link) → Eats l (round env client l)
  round-Eats l = elim (Bool-cases (l.world.clients client).connected) [
    | inl c ↦ rw (round-open l c) (opened-Eats l.input l.world)
    | inr c ↦ rw (round-closed l c) tt
  ]
