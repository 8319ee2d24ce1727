-- ===== src/Bytes/Bits.antt =====
-- Facts about the bits of a byte, each by a table of all its values.
use gott.Common.{
  ℕ, ◌+◌, ◌*◌, ◌/◌, ◌%◌, ◌^◌, ◌<◌, ◌≡◌, refl, bit_and, bit_or, ◌==◌, passes, passes_at, agree_at,
  both_or_none, both_or_none-eq,
}
use gott.Bytes.{bit_is_set}

pub bit_or_128 : (x : ℕ) → x < 128 → bit_or x 128 ≡ x + 128
unfolding passes
bit_or_128 x small = agree_at 128 (λ y. bit_or y 128) (λ y. y + 128) small refl

pub bit_and_127 : (x : ℕ) → x < 256 → bit_and x 127 ≡ x % 128
unfolding passes
bit_and_127 x small = agree_at 256 (λ y. bit_and y 127) (λ y. y % 128) small refl

pub bit_and_128 : (x : ℕ) → x < 256 → bit_and x 128 ≡ 128 * (x / 128)
unfolding passes
bit_and_128 x small = agree_at 256 (λ y. bit_and y 128) (λ y. 128 * (y / 128)) small refl

-- On a byte, `BitIsSet` tells whether the binary digit of that place is 1.
pub bit_is_set-digit : (b k : ℕ) → b < 256 → k < 8 → bit_is_set b k ≡ (b / 2 ^ k % 2 == 1)
unfolding passes bit_is_set both_or_none
bit_is_set-digit b k byte place = both_or_none-eq _ _ (
    passes_at (λ x. both_or_none (bit_is_set x k) (x / 2 ^ k % 2 == 1)) 256 byte
      (passes_at (λ j. passes (λ x. both_or_none (bit_is_set x j) (x / 2 ^ j % 2 == 1)) 256) 8 place
        refl))
