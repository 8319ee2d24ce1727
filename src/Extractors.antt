-- ===== src/Extractors.antt =====
-- extractors.go: what a packet that was read says. A slice out of range is a panic of the source,
-- which the caller recovers from by closing the connection.
pub mod Flags
pub mod Filters
pub mod Removals
pub mod Total
use gott.Common.{
  ℕ, zero, suc, ◌+◌, ◌-◌, ◌*◌, ◌/◌, Bool, true, false, not, ◌&&◌, List, [], ◌∷◌, ◌++◌, take, drop,
  Bytes, bytes_eq, length, if◌then◌else◌, ◌==◌, ltb, leb,
}
use gott.Bytes.{bit_is_set, byte_to_binary_string}
use gott.Types.{ConnectFlags, PublishFlags, Filter}

-- Go's (value, error), a panic, or the model's own end of fuel.
pub data Extracted {ℓ} (A : Type ℓ) : Type ℓ where
  ok : A → Extracted A
  invalid : Extracted A
  panic : Extracted A
  out_of_fuel : Extracted A

infixl 5 ◌>>=◌
abbrev pub ◌>>=◌ {ℓ κ} : {A : Type ℓ} {B : Type κ} → Extracted A → (A → Extracted B) → Extracted B
ok a >>= f = f a
invalid >>= f = invalid
panic >>= f = panic
out_of_fuel >>= f = out_of_fuel

-- `b[low:high]`.
unfoldable pub slice : Bytes → (low high : ℕ) → Extracted Bytes
slice b low high =
    if leb low high && leb high (length b) then ok (take (high - low) (drop low b)) else panic

-- `binary.BigEndian.Uint16`, which panics on fewer than two bytes.
unfoldable pub uint16 : Bytes → Extracted ℕ
uint16 [] = panic
uint16 (hi ∷ []) = panic
uint16 (hi ∷ lo ∷ _) = ok (hi * 256 + lo)

-- `binary.BigEndian.Uint16(b[low : low+2])`.
unfoldable pub uint16_at : Bytes → (low : ℕ) → Extracted ℕ
unfolding slice uint16
uint16_at b low = slice b low (low + 2) >>= uint16

unfoldable pub extract_connect_flags : ℕ → Extracted ConnectFlags
unfolding bit_is_set
extract_connect_flags b =
    let qos_bit_3 = bit_is_set b 3 in
    let qos_bit_4 = bit_is_set b 4 in
    let will_flag = bit_is_set b 2 in
    let will_retain = bit_is_set b 5 in
    let reserved_bit = bit_is_set b 0 in
    let will_qos : ℕ = if qos_bit_3 then 1 else if qos_bit_4 then 2 else 0 in
    if reserved_bit
    then invalid
    else if qos_bit_3 && qos_bit_4
    then invalid
    else if not will_flag && not (will_qos == 0)
    then invalid
    else if not will_flag && will_retain
    then invalid
    else ok (record {
      clean_session = bit_is_set b 1;
      will_flag = will_flag;
      will_retain = will_retain;
      password_flag = bit_is_set b 6;
      user_name_flag = bit_is_set b 7;
      will_qos = will_qos;
    })

abbrev zero_char : Bytes
zero_char = b'0' ∷ []

abbrev one_char : Bytes
one_char = b'1' ∷ []

-- The three `switch` statements, on `bits[1:3]`, `bits[3:]` and `bits[0:1]`.
unfoldable pub qos_of : Bytes → Extracted ℕ
qos_of s =
    if bytes_eq s (b'0' ∷ b'0' ∷ [])
    then ok 0
    else if bytes_eq s (b'0' ∷ b'1' ∷ [])
    then ok 1
    else if bytes_eq s (b'1' ∷ b'0' ∷ [])
    then ok 2
    else invalid

unfoldable pub retain_of : Bytes → Extracted Bool
retain_of s =
    if bytes_eq s zero_char then ok false else if bytes_eq s one_char then ok true else invalid

unfoldable pub dup_of : Bytes → Extracted ℕ
dup_of s = if bytes_eq s zero_char then ok 0 else if bytes_eq s one_char then ok 1 else invalid

unfoldable pub extract_publish_flags : Bytes → Extracted PublishFlags
unfolding slice qos_of retain_of dup_of
extract_publish_flags bits = do
  q ← slice bits 1 3
  qos ← qos_of q
  r ← slice bits 3 (length bits)
  retain ← retain_of r
  d ← slice bits 0 1
  dup ← dup_of d
  ok (record { dup = dup; qos = qos; retain = retain; packet_id = 0 })

-- `payload[i : i+1][0]`.
abbrev pub first_byte : Bytes → Extracted ℕ
first_byte [] = panic
first_byte (b ∷ _) = ok b

-- One round of the loop of `extractSubTopicFilters`, at the offset `parsed`: the filter, and the
-- offset after it. The source's test `qos < 0 && qos > 2` is never true.
unfoldable pub next_sub_filter : Bytes → ℕ → Extracted (Filter × ℕ)
unfolding slice uint16
next_sub_filter payload parsed = do
  len_bytes ← slice payload parsed (parsed + 2)
  topic_len ← uint16 len_bytes
  topic_filter ← slice payload (parsed + 2) (parsed + 2 + topic_len)
  qos_bytes ← slice payload (parsed + 2 + topic_len) (parsed + 2 + topic_len + 1)
  qos ← first_byte qos_bytes
  if ltb qos 0 && ltb 2 qos
      then invalid
      else ok (record { filter = topic_filter; qos = qos }, parsed + (topic_len + 3))

-- The loop, on fuel; `found` is the list so far.
unfoldable pub sub_filters_loop : (fuel : ℕ) → Bytes → ℕ → List Filter → Extracted (List Filter)
unfolding next_sub_filter
sub_filters_loop zero payload parsed found =
    if ltb parsed (length payload)
    then out_of_fuel
    else if not (parsed == length payload)
    then invalid
    else ok found
sub_filters_loop (suc fuel) payload parsed found =
    let more = next_sub_filter payload parsed >>= λ (f, parsed').
    sub_filters_loop fuel payload parsed' (found ++ f ∷ []) in
    if ltb parsed (length payload)
    then more
    else if not (parsed == length payload)
    then invalid
    else ok found

unfoldable pub extract_sub_topic_filters : Bytes → Extracted (List Filter)
unfolding sub_filters_loop
extract_sub_topic_filters payload = sub_filters_loop (length payload) payload 0 []

unfoldable pub next_unsub_filter : Bytes → ℕ → Extracted (Bytes × ℕ)
unfolding slice uint16
next_unsub_filter payload parsed = do
  len_bytes ← slice payload parsed (parsed + 2)
  topic_len ← uint16 len_bytes
  topic_filter ← slice payload (parsed + 2) (parsed + 2 + topic_len)
  ok (topic_filter, parsed + (topic_len + 2))

unfoldable pub unsub_filters_loop : (fuel : ℕ) → Bytes → ℕ → List Bytes → Extracted (List Bytes)
unfolding next_unsub_filter
unsub_filters_loop zero payload parsed found =
    if ltb parsed (length payload)
    then out_of_fuel
    else if not (parsed == length payload)
    then invalid
    else ok found
unsub_filters_loop (suc fuel) payload parsed found =
    let more = next_unsub_filter payload parsed >>= λ (f, parsed').
    unsub_filters_loop fuel payload parsed' (found ++ f ∷ []) in
    if ltb parsed (length payload)
    then more
    else if not (parsed == length payload)
    then invalid
    else ok found

unfoldable pub extract_unsub_topic_filters : Bytes → Extracted (List Bytes)
unfolding unsub_filters_loop
extract_unsub_topic_filters payload = unsub_filters_loop (length payload) payload 0 []

-- The packet type and the flag bits as text.
unfoldable pub parse_fixed_header_first_byte : ℕ → ℕ × Bytes
unfolding byte_to_binary_string
parse_fixed_header_first_byte b = (b / 16, drop 4 (byte_to_binary_string b))
