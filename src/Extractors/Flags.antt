-- ===== src/Extractors/Flags.antt =====
-- The flags of CONNECT and PUBLISH packets against the bits that MQTT gives them.
use gott.Common.{
  ℕ, zero, suc, ◌/◌, ◌%◌, ◌^◌, ◌<◌, Bool, not, ◌&&◌, ◌||◌, if◌then◌else◌, ◌==◌, ◌≡◌, refl, bytes_eq,
  arith, ltb,
}
use gott.Bytes.Bits.{bit_is_set-digit}
use gott.Packets.{publish_header}
use gott.Extractors.{
  ok, invalid, extract_connect_flags, extract_publish_flags, parse_fixed_header_first_byte,
}

-- The bit of the weight `2 ^ k`.
abbrev pub bit : ℕ → ℕ → Bool
bit b k = b / 2 ^ k % 2 == 1

-- On a byte of flags, CONNECT is refused where the reserved bit is set, where the will's QoS is 3, and where there is no
-- will but a QoS or a retain flag for it; otherwise the flags are the bits, and the will's QoS is
-- the number that the bits 3 and 4 make.
pub extract_connect_flags_lem :
    (b : ℕ)
    → b < 256
    → extract_connect_flags b ≡ (
        if bit b 0 || (b / 8 % 4 == 3) || not (bit b 2) && (ltb 0 (b / 8 % 4) || bit b 5)
        then invalid
        else ok (record {
          clean_session = bit b 1;
          will_flag = bit b 2;
          will_retain = bit b 5;
          password_flag = bit b 6;
          user_name_flag = bit b 7;
          will_qos = b / 8 % 4;
        }))
unfolding extract_connect_flags
extract_connect_flags_lem b byte =
    rw
      (
        bit_is_set-digit b 0 byte (omega arith),
        bit_is_set-digit b 1 byte (omega arith),
        bit_is_set-digit b 2 byte (omega arith),
        bit_is_set-digit b 3 byte (omega arith),
        bit_is_set-digit b 4 byte (omega arith),
        bit_is_set-digit b 5 byte (omega arith),
        bit_is_set-digit b 6 byte (omega arith),
        bit_is_set-digit b 7 byte (omega arith),
      )
      (ground arith)

-- A number below 2 or 3 is one of those.
lt_two : (P : ℕ → Type 0) → P 0 → P 1 → (x : ℕ) → x < 2 → P x
lt_two P p q zero h = p
lt_two P p q (suc zero) h = q
lt_two P p q (suc (suc x)) h = absurd (omega arith)

lt_three : (P : ℕ → Type 0) → P 0 → P 1 → P 2 → (x : ℕ) → x < 3 → P x
lt_three P p q r zero h = p
lt_three P p q r (suc x) h = lt_two (λ y. P (suc y)) q r x (omega arith)

-- The header byte of these fields reads back as a PUBLISH packet with them.
abbrev Reads : ℕ → ℕ → ℕ → Type 0
Reads dup qos retain =
    ((parse_fixed_header_first_byte (publish_header dup qos retain)).0 ≡ 3)
    × (extract_publish_flags (parse_fixed_header_first_byte (publish_header dup qos retain)).1
        ≡ ok (record { dup = dup; qos = qos; retain = retain == 1; packet_id = 0 }))

first-Reads : (qos retain : ℕ) → qos < 3 → retain < 2 → Reads 0 qos retain
unfolding publish_header parse_fixed_header_first_byte extract_publish_flags bytes_eq
first-Reads qos retain q r =
    lt_three (λ x. Reads 0 x retain) (lt_two (Reads 0 0) (refl, refl) (refl, refl) retain r)
      (lt_two (Reads 0 1) (refl, refl) (refl, refl) retain r)
      (lt_two (Reads 0 2) (refl, refl) (refl, refl) retain r) qos q

again-Reads : (qos retain : ℕ) → qos < 3 → retain < 2 → Reads 1 qos retain
unfolding publish_header parse_fixed_header_first_byte extract_publish_flags bytes_eq
again-Reads qos retain q r =
    lt_three (λ x. Reads 1 x retain) (lt_two (Reads 1 0) (refl, refl) (refl, refl) retain r)
      (lt_two (Reads 1 1) (refl, refl) (refl, refl) retain r)
      (lt_two (Reads 1 2) (refl, refl) (refl, refl) retain r) qos q

-- For a DUP flag and a retain flag of 0 or 1 and a QoS of at most 2, the first byte that
-- `makePublishPacket` builds reads back as a PUBLISH packet with that flag, QoS and flag.
pub publish_header-parse :
    (dup qos retain : ℕ)
    → dup < 2
    → qos < 3
    → retain < 2
    → ((parse_fixed_header_first_byte (publish_header dup qos retain)).0 ≡ 3)
      × (extract_publish_flags (parse_fixed_header_first_byte (publish_header dup qos retain)).1
          ≡ ok (record { dup = dup; qos = qos; retain = retain == 1; packet_id = 0 }))
publish_header-parse dup qos retain d q r =
    lt_two (λ x. Reads x qos retain) (first-Reads qos retain q r) (again-Reads qos retain q r) dup d
