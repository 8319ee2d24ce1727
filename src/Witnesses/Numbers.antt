-- ===== src/Witnesses/Numbers.antt =====
-- The remaining-length code, the bits of a byte and the packet identifiers on concrete numbers.
use gott.Common.{◌%◌, [], ◌∷◌, ◌≡◌, refl, ◌↔◌}
use gott.Bytes.{value, encode, decode}
use gott.Bytes.RoundTrip.{decode-encode}
use gott.Sequencer.{next, packet_seq, after}
use gott.Sequencer.Cycle.{next-after_iff}

encode_321 : encode 321 ≡ 193 ∷ 2 ∷ []
unfolding encode
encode_321 = refl

decode_321 : decode (193 ∷ 2 ∷ []) ≡ value 321
unfolding decode
decode_321 = refl

decode-encode_example : decode (encode 321) ≡ value 321
decode-encode_example = decode-encode 321

next-after_iff_example :
    ((next (after 1 packet_seq)).0 ≡ (next (after 65535 packet_seq)).0)
    ↔ (1 % 65534 ≡ 65535 % 65534)
next-after_iff_example = next-after_iff 1 65535
