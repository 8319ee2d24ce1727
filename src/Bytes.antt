-- ===== src/Bytes.antt =====
-- bytes/encoding.go and bytes/binary.go: the remaining-length code and the bits of a byte.
-- A byte slice is a list of numbers. Go's (int, error) is `Decoded`.
pub mod RoundTrip
pub mod Bits
use mathlib.Core.WellFounded.{Acc}
use gott.Common.{
  ℕ, ◌+◌, ◌*◌, ◌/◌, ◌%◌, ◌^◌, ◌<◌, bit_and, bit_or, Bool, not, List, [], ◌∷◌, ltb, ◌==◌, arith,
  if◌then◌else◌, dite, dec_lt,
}
use gott.Common.Order.{lt_wf}

pub data Decoded : Type 0 where
  value : ℕ → Decoded
  malformed : Decoded

-- One round of the loop of `Encode`: the byte that is appended for the present `x`.
unfoldable pub encode_byte : ℕ → ℕ
encode_byte x = let enc = x % 128 in (if ltb 0 (x / 128) then bit_or enc 128 else enc) % 256

pub div_shrinks : (x : ℕ) → 0 < x → x / 128 < x
div_shrinks x h = omega arith

-- The loop `for x > 0`. Every caller passes a length, so `x` is not negative.
encode_loop : (x : ℕ) → Acc ◌<◌ x → List ℕ
encode_loop x (Acc.intro _ smaller) =
    dite (dec_lt 0 x) (λ h. encode_byte x ∷ encode_loop (x / 128) (smaller _ (div_shrinks x h)))
      (λ _. [])

unfoldable pub encode : ℕ → List ℕ
unfolding encode_loop encode_byte div_shrinks lt_wf dec_lt
encode x = encode_loop x (lt_wf.apply x)

unfoldable pub decode_loop : List ℕ → ℕ → ℕ → Decoded
decode_loop [] mult acc = value acc
decode_loop (b ∷ rest) mult acc =
    let acc' = acc + bit_and b 127 * mult in
    let mult' = mult * 128 in
    if ltb (128 * 128 * 128) mult'
    then malformed
    else if bit_and b 128 == 0
    then value acc'
    else decode_loop rest mult' acc'

unfoldable pub decode : List ℕ → Decoded
unfolding decode_loop
decode stream = decode_loop stream 1 0

-- `(1<<bit)&b != 0` on bytes.
unfoldable pub bit_is_set : ℕ → ℕ → Bool
bit_is_set b bit = not (bit_and (2 ^ bit % 256) b == 0)

abbrev bit_char : ℕ → ℕ → ℕ
bit_char b k = b'0' + b / 2 ^ k % 2

-- `fmt.Sprintf("%08b", b)` of a byte: its eight binary digits, the highest first.
unfoldable pub byte_to_binary_string : ℕ → List ℕ
byte_to_binary_string b =
    bit_char b 7
    ∷ bit_char b 6
    ∷ bit_char b 5
    ∷ bit_char b 4
    ∷ bit_char b 3
    ∷ bit_char b 2
    ∷ bit_char b 1
    ∷ bit_char b 0
    ∷ []
