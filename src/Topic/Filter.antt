-- ===== src/Topic/Filter.antt =====
-- `validFilter` and `validTopicName` of topic_filter.go. An index of -1 is `none`.
use gott.Common.{
  ℕ, ◌+◌, ◌-◌, Bool, true, false, not, ◌&&◌, ◌||◌, List, [], ◌∷◌, Option, none, some, length, Bytes,
  index_byte, if◌then◌else◌, ltb, ◌==◌,
}
use gott.Common.Slices.{count_byte, index_all_byte}

-- `b[i]`; the calls below stay inside the slice.
unfoldable pub byte_at : Bytes → ℕ → ℕ
byte_at [] i = 0
byte_at (x ∷ b) ℕ.zero = x
byte_at (x ∷ b) (ℕ.suc i) = byte_at b i

-- The second and third part of the test of `multiWildcard`.
unfoldable pub multi_misplaced : Bytes → Option ℕ → Bool
unfolding byte_at
multi_misplaced filter none = false
multi_misplaced filter (some i) =
    not (i == length filter - 1) || ltb 0 i && not (byte_at filter (i - 1) == b'/')

-- The body of the loop over the single wildcards: true where it returns false.
unfoldable pub single_misplaced : Bytes → ℕ → Bool
unfolding byte_at
single_misplaced filter idx =
    if ltb 0 idx && not (byte_at filter (idx - 1) == b'/')
    then true
    else ltb 1 (length filter)
      && (idx == 0)
      && not (idx == length filter - 1)
      && not (byte_at filter (idx + 1) == b'/')

unfoldable pub any_misplaced : Bytes → List ℕ → Bool
unfolding single_misplaced
any_misplaced filter [] = false
any_misplaced filter (idx ∷ rest) =
    if single_misplaced filter idx then true else any_misplaced filter rest

unfoldable pub valid_filter : Bytes → Bool
unfolding multi_misplaced any_misplaced index_byte index_all_byte count_byte
valid_filter filter =
    if length filter == 0
    then false
    else if ltb 1 (count_byte filter b'#') || multi_misplaced filter (index_byte filter b'#')
    then false
    else not (any_misplaced filter (index_all_byte filter b'+'))

abbrev is_none : Option ℕ → Bool
is_none none = true
is_none (some _) = false

unfoldable pub valid_topic_name : Bytes → Bool
unfolding index_byte
valid_topic_name topic_name =
    is_none (index_byte topic_name b'#')
    && is_none (index_byte topic_name b'+')
    && ltb 0 (length topic_name)
