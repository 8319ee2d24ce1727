-- ===== src/Extractors/Filters.antt =====
-- The payload of a SUBSCRIBE packet: what is written is read back.
use gott.Common.{
  ℕ, zero, suc, ◌+◌, ◌-◌, ◌<◌, ◌≤◌, true, false, ◌&&◌, List, [], ◌∷◌, ◌++◌, All, length,
  length-append, take-append, drop-append, append_assoc, append-nil, Bytes, ltb, leb, ◌≡◌, refl, ap,
  arith,
}
use gott.Types.{Filter}
use gott.Packets.{put_uint16}
use gott.Extractors.{
  ok, slice, uint16, next_sub_filter, sub_filters_loop, extract_sub_topic_filters,
}

-- A SUBSCRIBE payload as MQTT lays it out: for each filter its length in two bytes, its bytes and
-- the QoS.
abbrev pub sub_entry : Filter → Bytes
sub_entry f = put_uint16 (length f.filter) ++ (f.filter ++ f.qos ∷ [])

abbrev pub sub_payload : List Filter → Bytes
sub_payload [] = []
sub_payload (f ∷ fs) = sub_entry f ++ sub_payload fs

abbrev pub Short : Filter → Type 0
Short f = length f.filter < 65536

-- A part of a slice, after what stands before it.
pub slice-part :
    (payload before part after : Bytes) (low high : ℕ)
    → payload ≡ before ++ (part ++ after)
    → low ≡ length before
    → high ≡ length before + length part
    → slice payload low high ≡ ok part
unfolding slice
slice-part payload before part after low high p e f =
    let a : leb (length before) (length before + length part) ≡ true = ground arith in
    let b : leb (length before + length part) (length before + (length part + length after))
        ≡ true =
      ground arith in
    let c : length before + length part - length before ≡ length part = omega arith in
    rw
      (
        p,
        e,
        f,
        drop-append before (part ++ after),
        length-append before (part ++ after),
        length-append part after,
        a,
        b,
        c,
      )
      (ap ok (take-append part after))

pub uint16-put : (n : ℕ) → n < 65536 → uint16 (put_uint16 n) ≡ ok n
unfolding uint16 put_uint16
uint16-put n h = ap ok (omega arith)

pub length-put_uint16 : (n : ℕ) → length (put_uint16 n) ≡ 2
unfolding put_uint16
length-put_uint16 n = refl

-- The next filter of a payload, after what was parsed.
module _ (before : Bytes) (f : Filter) (rest : Bytes) (short : Short f) where
  abbrev size : Bytes
  size = put_uint16 (length f.filter)

  abbrev payload : Bytes
  payload = before ++ (sub_entry f ++ rest)

  next_sub-entry :
      next_sub_filter payload (length before) ≡ ok (f, length before + (length f.filter + 3))
  unfolding next_sub_filter
  next_sub-entry =
      let n = length-put_uint16 (length f.filter) in
      let s₁ =
        slice-part payload before size (f.filter ++ (f.qos ∷ rest)) (length before)
          (length before + 2) (simp append_assoc) refl (rw n refl) in
      let s₂ =
        slice-part payload (before ++ size) f.filter (f.qos ∷ rest) (length before + 2)
          (length before + 2 + length f.filter) (simp append_assoc)
          (rw (length-append before size, n) refl) (rw (length-append before size, n) refl) in
      let dead : (ltb f.qos 0 && ltb 2 f.qos) ≡ false = ground arith in
      let s₃ =
        slice-part payload ((before ++ size) ++ f.filter) (f.qos ∷ []) rest
          (length before + 2 + length f.filter) (length before + 2 + length f.filter + 1)
          (simp append_assoc)
          (rw (length-append (before ++ size) f.filter, length-append before size, n) refl)
          (rw (length-append (before ++ size) f.filter, length-append before size, n) refl) in
      rw (s₁, uint16-put (length f.filter) short, s₂, s₃, dead) refl

length-sub_entry : (f : Filter) → length (sub_entry f) ≡ length f.filter + 3
length-sub_entry f =
    rw
      (
        length-append (put_uint16 (length f.filter)) (f.filter ++ f.qos ∷ []),
        length-put_uint16 (length f.filter),
        length-append f.filter (f.qos ∷ []),
      )
      (omega arith)

-- A payload has at least as many bytes as filters.
length-sub_payload : (fs : List Filter) → length fs ≤ length (sub_payload fs)
length-sub_payload [] = omega arith
length-sub_payload (f ∷ fs) =
    rw (length-append (sub_entry f) (sub_payload fs), length-sub_entry f)
      (omega (arith, length-sub_payload fs))

sub_filters_loop-end :
    (fuel : ℕ) (before : Bytes) (found : List Filter)
    → sub_filters_loop fuel (before ++ []) (length before) found ≡ ok (found ++ [])
unfolding sub_filters_loop
sub_filters_loop-end zero before found = rw (append-nil before, append-nil found) (ground arith)
sub_filters_loop-end (suc fuel) before found =
    rw (append-nil before, append-nil found) (ground arith)

sub_filters_loop-payload :
    (fs : List Filter) (fuel : ℕ) (before : Bytes) (found : List Filter)
    → All Short fs
    → length fs ≤ fuel
    → sub_filters_loop fuel (before ++ sub_payload fs) (length before) found ≡ ok (found ++ fs)
unfolding sub_filters_loop
sub_filters_loop-payload [] fuel before found short enough = sub_filters_loop-end fuel before found
sub_filters_loop-payload (f ∷ fs) zero before found short enough = absurd (omega arith)
sub_filters_loop-payload (f ∷ fs) (suc fuel) before found short enough =
    let next = next_sub-entry before f (sub_payload fs) short.0 in
    let longer : ltb (length before) (length (before ++ (sub_entry f ++ sub_payload fs))) ≡ true =
      rw
        (
          length-append before (sub_entry f ++ sub_payload fs),
          length-append (sub_entry f) (sub_payload fs),
          length-sub_entry f,
        )
        (ground arith) in
    let there : length (before ++ sub_entry f) ≡ length before + (length f.filter + 3) =
      rw (length-append before (sub_entry f), length-sub_entry f) refl in
    let rest =
      sub_filters_loop-payload fs fuel (before ++ sub_entry f) (found ++ f ∷ []) short.1
        (omega arith) in
    rw (longer, next)
      (rw
        (there, append_assoc before (sub_entry f) (sub_payload fs), append_assoc found (f ∷ []) fs)
        at rest)

-- `extractSubTopicFilters` reads back every list of filters of less than 65536 bytes each, whatever their
-- QoS bytes are.
pub extract_sub_topic_filters-payload :
    (fs : List Filter) → All Short fs → extract_sub_topic_filters (sub_payload fs) ≡ ok fs
unfolding extract_sub_topic_filters
extract_sub_topic_filters-payload fs short =
    sub_filters_loop-payload fs (length (sub_payload fs)) [] [] short (length-sub_payload fs)
