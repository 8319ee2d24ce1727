-- ===== src/Common/Table.antt =====
-- A statement about every small number, checked one number at a time.
use Prim.Native.Nat.{ℕ, zero, suc, ◌<◌}
use mathlib.Core.Path.{◌≡◌}
use mathlib.Core.Bool.{Bool, true, false}
use native.Mathlib.Omega.{arith}
use gott.Common.Tests.{if◌then◌else◌, ◌==◌, ==_iff}

-- The test passes on every number less than the bound.
unfoldable pub passes : (ℕ → Bool) → ℕ → Bool
passes test zero = true
passes test (suc bound) = if test bound then passes test bound else false

pub passes_at :
    (test : ℕ → Bool) (bound : ℕ) {x : ℕ} → x < bound → passes test bound ≡ true → test x ≡ true
unfolding passes
passes_at test zero {x = x} small table = absurd (omega arith)
passes_at test (suc bound) {x = x} small table = ground (arith, passes_at test bound {x = x})

-- Two functions with one table.
pub agree_at :
    (bound : ℕ) (f g : ℕ → ℕ) {x : ℕ}
    → x < bound
    → passes (λ y. f y == g y) bound ≡ true
    → f x ≡ g x
agree_at bound f g small table = (==_iff _ _).0 (passes_at (λ y. f y == g y) bound small table)

unfoldable pub both_or_none : Bool → Bool → Bool
both_or_none true c = c
both_or_none false true = false
both_or_none false false = true

pub both_or_none-eq : (b c : Bool) → both_or_none b c ≡ true → b ≡ c
unfolding both_or_none
both_or_none-eq b c h = ground arith
