-- ===== src/Listen/Read.antt =====
-- `read`, `readByte`, `readFull` and `wsNextReader` of client.go: on a TCP connection through its
-- buffered reader, on a WebSocket message by message. When the input is used up the connection has
-- ended, and a read is an error.
use gott.Common.{ℕ, zero, suc, List, [], ◌∷◌, Bytes, if◌then◌else◌, leb}
use gott.Listen.{
  Arrival, Piece, octet, binary_message, text_message, Input, tcp, web, Result, done, leave, Action,
}

-- `read` into the two bytes of `fixedHeader`: it takes the second byte only if that is in the buffer
-- with the first; otherwise the second stays 0.
unfoldable pub header_of : List Arrival → Result (ℕ × ℕ) × List Arrival
header_of [] = (leave, [])
header_of (a ∷ []) = (done (a.byte, 0), [])
header_of (a ∷ b ∷ rest) =
    if b.together then (done (a.byte, b.byte), rest) else (done (a.byte, 0), b ∷ rest)

abbrev pub then_byte : (byte : ℕ) → Result Bytes → Result Bytes
then_byte b (done bs) = done (b ∷ bs)
then_byte b _ = leave

-- The loop of `readByte` over the remaining length, where `last` is the byte before.
unfoldable pub length_bytes : (last : ℕ) → List Arrival → Result Bytes × List Arrival
length_bytes last [] = (if leb 128 last then leave else done [], [])
length_bytes last (a ∷ rest) =
    let (r, rest') = length_bytes a.byte rest in
    if leb 128 last then (then_byte a.byte r, rest') else (done [], a ∷ rest)

-- `readFull` of `n` bytes. An end before them uses up what is there.
unfoldable pub full : (n : ℕ) → List Arrival → Result Bytes × List Arrival
full zero input = (done [], input)
full (suc n) [] = (leave, [])
full (suc n) (a ∷ rest) = let (r, rest') = full n rest in (then_byte a.byte r, rest')

-- `readFull` and `read` of `n` bytes from a WebSocket: they go on to the next message until there are
-- `n`.
unfoldable pub web_full : (n : ℕ) → List Piece → Result Bytes × List Piece
web_full zero arrived = (done [], arrived)
web_full (suc n) [] = (leave, [])
web_full (suc n) (octet b ∷ rest) = let (r, rest') = web_full n rest in (then_byte b r, rest')
web_full (suc n) (binary_message ∷ rest) = web_full (suc n) rest
web_full (suc n) (text_message ∷ rest) = (leave, rest)

abbrev pub pair_of : Result Bytes → Result (ℕ × ℕ)
pair_of (done (a ∷ b ∷ [])) = done (a, b)
pair_of _ = leave

-- `read` into `fixedHeader` from a WebSocket.
unfoldable pub web_header : List Piece → Result (ℕ × ℕ) × List Piece
unfolding web_full
web_header arrived = let (r, rest) = web_full 2 arrived in (pair_of r, rest)

-- The loop of `readByte` on a WebSocket.
unfoldable pub web_length : (last : ℕ) → List Piece → Result Bytes × List Piece
web_length last [] = (if leb 128 last then leave else done [], [])
web_length last (octet b ∷ rest) =
    let (r, rest') = web_length b rest in
    if leb 128 last then (then_byte b r, rest') else (done [], octet b ∷ rest)
web_length last (binary_message ∷ rest) =
    let further = web_length last rest in
    if leb 128 last then further else (done [], binary_message ∷ rest)
web_length last (text_message ∷ rest) =
    if leb 128 last then (leave, rest) else (done [], text_message ∷ rest)

-- `wsNextReader`: what is left of the message before is discarded.
unfoldable pub next_reader : List Piece → Result (Unit {0}) × List Piece
next_reader [] = (leave, [])
next_reader (octet b ∷ rest) = next_reader rest
next_reader (binary_message ∷ rest) = (done tt, rest)
next_reader (text_message ∷ rest) = (leave, rest)

-- A reading as an action, for either kind of connection.
abbrev pub read_input {ℓ} :
    {A : Type ℓ}
    → (List Arrival → Result A × List Arrival)
    → (List Piece → Result A × List Piece)
    → Input
    → Result A × Input
read_input f g (tcp arrived) = let (r, rest) = f arrived in (r, tcp rest)
read_input f g (web arrived) = let (r, rest) = g arrived in (r, web rest)

abbrev pub reading {ℓ} :
    {A : Type ℓ}
    → (List Arrival → Result A × List Arrival)
    → (List Piece → Result A × List Piece)
    → Action A
reading f g l = let (r, rest) = read_input f g l.input in (r, record l { input = rest })

unfoldable pub read_header : Action (ℕ × ℕ)
unfolding header_of web_header
read_header = reading header_of web_header

unfoldable pub read_length : (last : ℕ) → Action Bytes
unfolding length_bytes web_length
read_length last = reading (length_bytes last) (web_length last)

unfoldable pub read_full : (n : ℕ) → Action Bytes
unfolding full web_full
read_full n = reading (full n) (web_full n)

-- At the start of a round, on a WebSocket.
unfoldable pub read_next : Action (Unit {0})
unfolding next_reader
read_next = reading (λ arrived. (done tt, arrived)) next_reader
