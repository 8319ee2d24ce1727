-- ===== src/Listen/Messages.antt =====
-- What `listen` reads from a WebSocket: the bytes of its messages, and what it drops of them.
use gott.Common.{
  ℕ, zero, suc, ◌≤◌, true, List, [], ◌∷◌, ◌++◌, map, Bytes, length, ◌≡◌, refl, ap, arith,
}
use gott.Broker.{World}
use gott.Broker.Environment.{Environment}
use gott.Listen.{Arrival, Piece, octet, binary_message, text_message, web, Link}
use gott.Listen.Read.{full, web_full, next_reader, read_next, then_byte}
use gott.Listen.Loop.{round}
use gott.Listen.Rounds.{round-open}

-- The bytes of the messages, one after the other, up to a text message.
abbrev pub payload : List Piece → Bytes
payload [] = []
payload (octet b ∷ rest) = b ∷ payload rest
payload (binary_message ∷ rest) = payload rest
payload (text_message ∷ rest) = []

abbrev pub on_tcp : Bytes → List Arrival
on_tcp bs = map (λ b. record { byte = b; together = true }) bs

-- `readFull` gives the same on a WebSocket as on a TCP connection where the bytes of the messages
-- arrive one after the other, however they are divided into messages, and if there are as many bytes
-- as it asks for, it leaves the same bytes to read.
pub web_full-full :
    (n : ℕ) (arrived : List Piece)
    → ((web_full n arrived).0 ≡ (full n (on_tcp (payload arrived))).0)
      × (n ≤ length (payload arrived)
          → on_tcp (payload (web_full n arrived).1) ≡ (full n (on_tcp (payload arrived))).1)
unfolding web_full full
web_full-full zero arrived = (refl, λ h. refl)
web_full-full (suc n) [] = (refl, λ h. absurd (omega (arith, h)))
web_full-full (suc n) (octet b ∷ rest) =
    let (e, f) = web_full-full n rest in (ap (then_byte b) e, λ h. f (omega (arith, h)))
web_full-full (suc n) (binary_message ∷ rest) = web_full-full (suc n) rest
web_full-full (suc n) (text_message ∷ rest) = (refl, λ h. absurd (omega (arith, h)))

next_reader-rest :
    (unread : Bytes) (rest : List Piece) → next_reader (map octet unread ++ rest) ≡ next_reader rest
unfolding next_reader
next_reader-rest [] rest = refl
next_reader-rest (b ∷ unread) rest = next_reader-rest unread rest

module _ (env : Environment) (client : ℕ) (unread : Bytes) (rest : List Piece) (w : World) where
  abbrev with_unread : Link
  with_unread = record { input = web (map octet unread ++ rest); world = w }

  abbrev without : Link
  without = record { input = web rest; world = w }

  read_next-rest : read_next with_unread ≡ read_next without
  unfolding read_next
  read_next-rest = rw (next_reader-rest unread rest) refl

  -- On a WebSocket, a round of a connected client does the same whatever bytes the round before has left
  -- unread of its message: they are dropped.
  pub round-unread :
      (w.clients client).connected ≡ true
      → round env client (record { input = web (map octet unread ++ rest); world = w })
        ≡ round env client (record { input = web rest; world = w })
  round-unread c =
      rw (round-open env client with_unread c, round-open env client without c, read_next-rest) refl
