-- ===== src/Witnesses/Packets.antt =====
-- Packets on concrete bytes.
use gott.Common.{
  ◌/◌, ◌%◌, not, ◌&&◌, ◌||◌, List, [], ◌∷◌, if◌then◌else◌, ◌==◌, ltb, ◌≡◌, refl, ◌⊎◌, arith,
}
use gott.Types.{Filter}
use gott.Packets.{publish_header, make_publish_with_id}
use gott.Extractors.{
  ok, invalid, panic, extract_connect_flags, extract_publish_flags, parse_fixed_header_first_byte,
  extract_sub_topic_filters, extract_unsub_topic_filters,
}
use gott.Extractors.Flags.{bit, extract_connect_flags_lem, publish_header-parse}
use gott.Extractors.Filters.{sub_payload, extract_sub_topic_filters-payload}
use gott.Extractors.Removals.{unsub_payload, extract_unsub_topic_filters-payload}
use gott.Extractors.Total.{extract_sub_topic_filters-total}

-- A PUBLISH packet of "n" on "t" at QoS 1 with the identifier 258.
publish_t :
    make_publish_with_id 258 (b't' ∷ []) (b'n' ∷ []) 0 1 0
    ≡ 50 ∷ 6 ∷ 0 ∷ 1 ∷ b't' ∷ 1 ∷ 2 ∷ b'n' ∷ []
unfolding make_publish_with_id
publish_t = refl

abbrev filters : List Filter
filters = record { filter = b'a' ∷ []; qos = 1 } ∷ record { filter = b'#' ∷ []; qos = 7 } ∷ []

extract_connect_flags_lem_example : extract_connect_flags 194 ≡ (
    if bit 194 0 || (194 / 8 % 4 == 3) || not (bit 194 2) && (ltb 0 (194 / 8 % 4) || bit 194 5)
    then invalid
    else ok (record {
      clean_session = bit 194 1;
      will_flag = bit 194 2;
      will_retain = bit 194 5;
      password_flag = bit 194 6;
      user_name_flag = bit 194 7;
      will_qos = 194 / 8 % 4;
    }))
extract_connect_flags_lem_example = extract_connect_flags_lem 194 (omega arith)

publish_header-parse_example :
    ((parse_fixed_header_first_byte (publish_header 1 2 1)).0 ≡ 3)
    × (extract_publish_flags (parse_fixed_header_first_byte (publish_header 1 2 1)).1
        ≡ ok (record { dup = 1; qos = 2; retain = 1 == 1; packet_id = 0 }))
publish_header-parse_example = publish_header-parse 1 2 1 (omega arith) (omega arith) (omega arith)

extract_sub_topic_filters-payload_example :
    extract_sub_topic_filters (sub_payload filters) ≡ ok filters
extract_sub_topic_filters-payload_example =
    extract_sub_topic_filters-payload filters (omega arith, (omega arith, tt))

extract_sub_topic_filters-total_example :
    (extract_sub_topic_filters (0 ∷ 9 ∷ b'a' ∷ []) ≡ panic)
    ⊎ ((fs : List Filter) × (extract_sub_topic_filters (0 ∷ 9 ∷ b'a' ∷ []) ≡ ok fs))
extract_sub_topic_filters-total_example = extract_sub_topic_filters-total (0 ∷ 9 ∷ b'a' ∷ [])

extract_unsub_topic_filters-payload_example :
    extract_unsub_topic_filters (unsub_payload ((b'a' ∷ []) ∷ (b'a' ∷ b'/' ∷ b'#' ∷ []) ∷ []))
    ≡ ok ((b'a' ∷ []) ∷ (b'a' ∷ b'/' ∷ b'#' ∷ []) ∷ [])
extract_unsub_topic_filters-payload_example =
    extract_unsub_topic_filters-payload ((b'a' ∷ []) ∷ (b'a' ∷ b'/' ∷ b'#' ∷ []) ∷ [])
      (omega arith, (omega arith, tt))
