-- ===== src/Extractors/Removals.antt =====
-- The payload of an UNSUBSCRIBE packet: what is written is read back.
use gott.Common.{
  ℕ, zero, suc, ◌+◌, ◌<◌, ◌≤◌, true, List, [], ◌∷◌, ◌++◌, All, length, length-append, append_assoc,
  append-nil, Bytes, ltb, ◌≡◌, refl, arith,
}
use gott.Packets.{put_uint16}
use gott.Extractors.{ok, next_unsub_filter, unsub_filters_loop, extract_unsub_topic_filters}
use gott.Extractors.Filters.{slice-part, uint16-put, length-put_uint16}

-- An UNSUBSCRIBE payload as MQTT lays it out: for each filter its length in two bytes and its bytes.
abbrev pub unsub_entry : Bytes → Bytes
unsub_entry f = put_uint16 (length f) ++ f

abbrev pub unsub_payload : List Bytes → Bytes
unsub_payload [] = []
unsub_payload (f ∷ fs) = unsub_entry f ++ unsub_payload fs

abbrev pub IsShort : Bytes → Type 0
IsShort f = length f < 65536

length-unsub_entry : (f : Bytes) → length (unsub_entry f) ≡ length f + 2
length-unsub_entry f =
    rw (length-append (put_uint16 (length f)) f, length-put_uint16 (length f)) (omega arith)

-- The next filter of a payload, after what was parsed.
next_unsub-entry :
    (before f rest : Bytes)
    → IsShort f
    → next_unsub_filter (before ++ (unsub_entry f ++ rest)) (length before)
      ≡ ok (f, length before + (length f + 2))
unfolding next_unsub_filter
next_unsub-entry before f rest short =
    let size = put_uint16 (length f) in
    let payload = before ++ (unsub_entry f ++ rest) in
    let n = length-put_uint16 (length f) in
    let s₁ =
      slice-part payload before size (f ++ rest) (length before) (length before + 2)
        (simp append_assoc) refl (rw n refl) in
    let s₂ =
      slice-part payload (before ++ size) f rest (length before + 2) (length before + 2 + length f)
        (simp append_assoc) (rw (length-append before size, n) refl)
        (rw (length-append before size, n) refl) in
    rw (s₁, uint16-put (length f) short, s₂) refl

length-unsub_payload : (fs : List Bytes) → length fs ≤ length (unsub_payload fs)
length-unsub_payload [] = omega arith
length-unsub_payload (f ∷ fs) =
    rw (length-append (unsub_entry f) (unsub_payload fs), length-unsub_entry f)
      (omega (arith, length-unsub_payload fs))

unsub_filters_loop-end :
    (fuel : ℕ) (before : Bytes) (found : List Bytes)
    → unsub_filters_loop fuel (before ++ []) (length before) found ≡ ok (found ++ [])
unfolding unsub_filters_loop
unsub_filters_loop-end zero before found = rw (append-nil before, append-nil found) (ground arith)
unsub_filters_loop-end (suc fuel) before found =
    rw (append-nil before, append-nil found) (ground arith)

unsub_filters_loop-payload :
    (fs : List Bytes) (fuel : ℕ) (before : Bytes) (found : List Bytes)
    → All IsShort fs
    → length fs ≤ fuel
    → unsub_filters_loop fuel (before ++ unsub_payload fs) (length before) found ≡ ok (found ++ fs)
unfolding unsub_filters_loop
unsub_filters_loop-payload [] fuel before found short enough =
    unsub_filters_loop-end fuel before found
unsub_filters_loop-payload (f ∷ fs) zero before found short enough = absurd (omega arith)
unsub_filters_loop-payload (f ∷ fs) (suc fuel) before found short enough =
    let next = next_unsub-entry before f (unsub_payload fs) short.0 in
    let longer : ltb (length before) (length (before ++ (unsub_entry f ++ unsub_payload fs)))
        ≡ true =
      rw
        (
          length-append before (unsub_entry f ++ unsub_payload fs),
          length-append (unsub_entry f) (unsub_payload fs),
          length-unsub_entry f,
        )
        (ground arith) in
    let there : length (before ++ unsub_entry f) ≡ length before + (length f + 2) =
      rw (length-append before (unsub_entry f), length-unsub_entry f) refl in
    let rest =
      unsub_filters_loop-payload fs fuel (before ++ unsub_entry f) (found ++ f ∷ []) short.1
        (omega arith) in
    rw (longer, next)
      (rw
        (
          there,
          append_assoc before (unsub_entry f) (unsub_payload fs),
          append_assoc found (f ∷ []) fs,
        )
        at rest)

-- `extractUnSubTopicFilters` reads back every list of filters of less than 65536 bytes each.
pub extract_unsub_topic_filters-payload :
    (fs : List Bytes) → All IsShort fs → extract_unsub_topic_filters (unsub_payload fs) ≡ ok fs
unfolding extract_unsub_topic_filters
extract_unsub_topic_filters-payload fs short =
    unsub_filters_loop-payload fs (length (unsub_payload fs)) [] [] short (length-unsub_payload fs)
