-- ===== src/Extractors/Total.antt =====
-- The loop of `extractSubTopicFilters` ends within the payload's length: every round moves on, and
-- never past the end.
use gott.Common.{
  ℕ, zero, suc, ◌+◌, ◌≤◌, ◌<◌, true, false, ◌&&◌, List, [], ◌∷◌, ◌++◌, length, Bytes, if◌then◌else◌,
  ◌==◌, ltb, leb, ◌≡◌, refl, ◌⊎◌, inl, inr, Bool-cases, arith,
}
use gott.Types.{Filter}
use gott.Extractors.{
  Extracted, ok, invalid, panic, out_of_fuel, ◌>>=◌, slice, uint16, first_byte, next_sub_filter,
  sub_filters_loop, extract_sub_topic_filters,
}

-- A result with a property, or a panic.
data OkOrPanic {A : Type 0} (P : A → Type 0) : Extracted A → Type 0 where
  panicked : OkOrPanic P panic
  succeeded : (a : A) → P a → OkOrPanic P (ok a)

slice-OkOrPanic :
    (b : Bytes) (low high : ℕ) → OkOrPanic (λ (_ : Bytes). high ≤ length b) (slice b low high)
unfolding slice
slice-OkOrPanic b low high = elim (Bool-cases (leb low high && leb high (length b))) [
  | inl h ↦ rw h (succeeded _ (ground arith))
  | inr h ↦ rw h panicked
]

uint16-OkOrPanic : (b : Bytes) → OkOrPanic (λ (_ : ℕ). Unit) (uint16 b)
unfolding uint16
uint16-OkOrPanic [] = panicked
uint16-OkOrPanic (hi ∷ []) = panicked
uint16-OkOrPanic (hi ∷ lo ∷ rest) = succeeded _ tt

first_byte-OkOrPanic : (b : Bytes) → OkOrPanic (λ (_ : ℕ). Unit) (first_byte b)
first_byte-OkOrPanic [] = panicked
first_byte-OkOrPanic (x ∷ b) = succeeded x tt

-- One step after another.
module _ {A B : Type 0} {P : A → Type 0} {Q : B → Type 0} (f : A → Extracted B)
    (g : (a : A) → P a → OkOrPanic Q (f a)) where
  bind-OkOrPanic : (x : Extracted A) → OkOrPanic P x → OkOrPanic Q (x >>= f)
  bind-OkOrPanic panic panicked = panicked
  bind-OkOrPanic (ok _) (succeeded a p) = g a p
  bind-OkOrPanic invalid r = elim r [ ]
  bind-OkOrPanic out_of_fuel r = elim r [ ]

-- The end of a round of the loop: it moved on, and not past the end.
abbrev Moved : Bytes → ℕ → Filter × ℕ → Type 0
Moved payload parsed r = (parsed < r.1) × (r.1 ≤ length payload)

-- The last step of a round: the test of the QoS is never true.
last :
    (payload : Bytes) (parsed topic_len : ℕ) (topic : Bytes) (qos : ℕ)
    → parsed + 2 + topic_len + 1 ≤ length payload
    → OkOrPanic (Moved payload parsed) (
        if ltb qos 0 && ltb 2 qos
        then invalid
        else ok (record { filter = topic; qos = qos }, parsed + (topic_len + 3)))
last payload parsed topic_len topic qos fits =
    let dead : (ltb qos 0 && ltb 2 qos) ≡ false = ground arith in
    rw dead (succeeded _ (omega arith, omega arith))

next_sub_filter-OkOrPanic :
    (payload : Bytes) (parsed : ℕ)
    → OkOrPanic (Moved payload parsed) (next_sub_filter payload parsed)
unfolding next_sub_filter
next_sub_filter-OkOrPanic payload parsed =
    bind-OkOrPanic _
      (λ len_bytes _.
        bind-OkOrPanic _
          (λ topic_len _.
            bind-OkOrPanic _
              (λ topic _.
                bind-OkOrPanic _
                  (λ qos_bytes fits.
                    bind-OkOrPanic _ (λ qos _. last payload parsed topic_len topic qos fits) _
                      (first_byte-OkOrPanic qos_bytes))
                  _ (slice-OkOrPanic payload (parsed + 2 + topic_len) (parsed + 2 + topic_len + 1)))
              _ (slice-OkOrPanic payload (parsed + 2) (parsed + 2 + topic_len)))
          _ (uint16-OkOrPanic len_bytes))
      _ (slice-OkOrPanic payload parsed (parsed + 2))

-- The loop from an offset within the payload, on enough fuel.
sub_filters_loop-OkOrPanic :
    (fuel : ℕ) (payload : Bytes) (parsed : ℕ) (found : List Filter)
    → parsed ≤ length payload
    → length payload ≤ parsed + fuel
    → OkOrPanic (λ (_ : List Filter). Unit) (sub_filters_loop fuel payload parsed found)
unfolding sub_filters_loop
sub_filters_loop-OkOrPanic zero payload parsed found within enough =
    let e : parsed ≡ length payload = omega arith in
    let a : ltb parsed (length payload) ≡ false = ground arith in
    let b : (parsed == length payload) ≡ true = ground arith in rw (a, b) (succeeded found tt)
sub_filters_loop-OkOrPanic (suc fuel) payload parsed found within enough =
    elim (Bool-cases (ltb parsed (length payload))) [
      | inl more ↦ rw more (
          bind-OkOrPanic _
            (λ r moved.
              sub_filters_loop-OkOrPanic fuel payload r.1 (found ++ r.0 ∷ []) moved.1
                (omega (arith, moved.0)))
            _ (next_sub_filter-OkOrPanic payload parsed))
      | inr done ↦
          let b : (parsed == length payload) ≡ true = ground arith in
          rw (done, b) (succeeded found tt)
    ]

or_panic :
    {A : Type 0} {P : A → Type 0} (x : Extracted A)
    → OkOrPanic P x
    → (x ≡ panic) ⊎ ((a : A) × (x ≡ ok a))
or_panic panic panicked = inl refl
or_panic (ok _) (succeeded a p) = inr (a, refl)
or_panic invalid r = elim r [ ]
or_panic out_of_fuel r = elim r [ ]

-- `extractSubTopicFilters` ends on every payload, with a list of filters or with a panic, which the
-- caller recovers from; it never returns its "invalid QoS" or "invalid payload".
pub extract_sub_topic_filters-total :
    (payload : Bytes)
    → (extract_sub_topic_filters payload ≡ panic)
      ⊎ ((fs : List Filter) × (extract_sub_topic_filters payload ≡ ok fs))
unfolding extract_sub_topic_filters
extract_sub_topic_filters-total payload =
    or_panic _
      (sub_filters_loop-OkOrPanic (length payload) payload 0 [] (omega arith) (omega arith))
