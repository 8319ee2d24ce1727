-- ===== src/Bytes/RoundTrip.antt =====
-- What `encode` writes, `decode` reads back, up to the length that `decode` accepts.
use mathlib.Core.WellFounded.{Acc}
use gott.Common.{
  ℕ, zero, suc, ◌+◌, ◌*◌, ◌/◌, ◌%◌, ◌^◌, ◌≤◌, ◌<◌, ◌≡◌, refl, ap, ◌∙◌, List, [], ◌∷◌, ltb, ◌==◌,
  not, length, arith, if◌then◌else◌, dec_lt, bit_and,
}
use mathlib.Core.Logic.{dif_pos, dif_neg}
use native.Mathlib.Nat.{pow-suc}
use native.Mathlib.Bridge.{le_prop}
use gott.Common.Order.{lt_wf}
use gott.Bytes.{
  value, malformed, encode_byte, div_shrinks, encode_loop, encode, decode_loop, decode,
}
use gott.Bytes.Bits.{bit_or_128, bit_and_127, bit_and_128}

encode_loop_irrelevant : (x : ℕ) (v w : Acc ◌<◌ x) → encode_loop x v ≡ encode_loop x w
unfolding encode_loop
encode_loop_irrelevant x (Acc.intro _ f) (Acc.intro _ g) = elim (dec_lt 0 x) [
  | yes h ↦
      rw (dif_pos _ le_prop h, dif_pos _ le_prop h)
        (ap (◌∷◌ (encode_byte x))
          (encode_loop_irrelevant (x / 128) (f _ (div_shrinks x h)) (g _ (div_shrinks x h))))
  | no h ↦ rw (dif_neg _ h, dif_neg _ h) refl
]

encode_loop_pos :
    (x : ℕ) (w : Acc ◌<◌ x) → 0 < x → encode_loop x w ≡ encode_byte x ∷ encode (x / 128)
unfolding encode_loop encode
encode_loop_pos x (Acc.intro _ f) h = rw (dif_pos _ le_prop h) (
    ap (◌∷◌ (encode_byte x))
      (encode_loop_irrelevant (x / 128) (f _ (div_shrinks x h)) (lt_wf.apply (x / 128))))

pub encode_pos : (x : ℕ) → 0 < x → encode x ≡ encode_byte x ∷ encode (x / 128)
unfolding encode
encode_pos x h = encode_loop_pos x (lt_wf.apply x) h

pub encode_zero : encode 0 ≡ []
unfolding encode
encode_zero = refl

-- The low seven bits are the digit, and the high bit says that more follows.
pub encode_byte_lem : (x : ℕ) → encode_byte x ≡ (if ltb 0 (x / 128) then x % 128 + 128 else x % 128)
unfolding encode_byte
encode_byte_lem x = ground (arith, bit_or_128 (x % 128))

encode_byte-lt : (x : ℕ) → encode_byte x < 256
encode_byte-lt x = ground (arith, encode_byte_lem x)

encode_byte_low : (x : ℕ) → bit_and (encode_byte x) 127 ≡ x % 128
encode_byte_low x =
    bit_and_127 (encode_byte x) (encode_byte-lt x) ∙ ground (arith, encode_byte_lem x)

encode_byte_high : (x : ℕ) → (bit_and (encode_byte x) 128 == 0) ≡ not (ltb 0 (x / 128))
encode_byte_high x =
    rw (bit_and_128 (encode_byte x) (encode_byte-lt x)) (ground (arith, encode_byte_lem x))

-- One round of `Decode` on a byte that `encode_byte` made.
decode_loop-encode_byte :
    (x m v : ℕ) (rest : List ℕ)
    → decode_loop (encode_byte x ∷ rest) m v ≡ (
        if ltb 2097152 (m * 128)
        then malformed
        else if not (ltb 0 (x / 128))
        then value (v + x % 128 * m)
        else decode_loop rest (m * 128) (v + x % 128 * m))
unfolding decode_loop
decode_loop-encode_byte x m v rest = rw (encode_byte_low x, encode_byte_high x) refl

decode_loop-nil : (m v : ℕ) → decode_loop [] m v ≡ value v
unfolding decode_loop
decode_loop-nil m v = refl

decode_at_limit :
    (x v : ℕ) → decode_loop (encode x) 2097152 v ≡ (if x == 0 then value v else malformed)
unfolding decode_loop
decode_at_limit zero v = rw encode_zero refl
decode_at_limit (suc n) v =
    rw (encode_pos (suc n) (omega arith))
      (decode_loop-encode_byte (suc n) 2097152 v (encode (suc n / 128)) ∙ ground arith)

digits_scaled : (x m : ℕ) → x % 128 * m + x / 128 * (m * 128) ≡ x * m
digits_scaled x m =
    let e : x ≡ x % 128 + x / 128 * 128 = omega arith in omega (arith, ap (λ (t : ℕ). t * m) e)

-- What is left of the digits is read at the present weight, as long as the weight is in range.
decode_round :
    (x m v k : ℕ)
    → m * 128 ≤ 2097152
    → ((y w : ℕ)
        → decode_loop (encode y) (m * 128) w
          ≡ (if ltb y k then value (w + y * (m * 128)) else malformed))
    → 0 < k
    → decode_loop (encode x) m v ≡ (if ltb x (128 * k) then value (v + x * m) else malformed)
decode_round zero m v k small next pos = rw encode_zero (decode_loop-nil m v ∙ ground arith)
decode_round (suc n) m v k small next pos = rw (encode_pos (suc n) (omega arith)) (
    decode_loop-encode_byte (suc n) m v (encode (suc n / 128))
    ∙ ground (arith, next (suc n / 128) (v + suc n % 128 * m), digits_scaled (suc n) m))

-- `Decode` reads back what `Encode` wrote for every length below 128 ^ 3, and refuses every
-- longer one.
pub decode-encode :
    (x : ℕ) → decode (encode x) ≡ (if ltb x (128 * 128 * 128) then value x else malformed)
unfolding decode
decode-encode x =
    decode_round x 1 0 16384 (omega arith)
      (λ y w.
        decode_round y 128 w 128 (omega arith)
          (λ y w.
            decode_round y 16384 w 1 (omega arith) (λ y w. decode_at_limit y w ∙ ground arith)
              (omega arith))
          (omega arith))
      (omega arith)
    ∙ ground arith

encode-pow_step : (k n : ℕ) → n < 128 ^ suc k → n / 128 < 128 ^ k
encode-pow_step k n h = omega (arith, pow-suc 128 k)

-- `Encode` needs at most `k` bytes for a number of `k` base-128 digits.
pub length-encode_le : (k x : ℕ) → x < 128 ^ k → length (encode x) ≤ k
length-encode_le zero x h = let e : x ≡ 0 = omega arith in rw (e, encode_zero) (omega arith)
length-encode_le (suc k) zero h = rw encode_zero (omega arith)
length-encode_le (suc k) (suc n) h =
    rw (encode_pos (suc n) (omega arith))
      (omega (arith, length-encode_le k (suc n / 128) (encode-pow_step k (suc n) h)))
