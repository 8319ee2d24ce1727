-- ===== src/Sequencer/Cycle.antt =====
-- The packet identifiers of a broker's whole life: 1 to 65534 in turn, over and over.
use gott.Common.{ℕ, zero, suc, ◌+◌, ◌%◌, ◌≤◌, ◌≡◌, ◌↔◌, arith}
use gott.Sequencer.{Sequencer, next, val, packet_seq, after}

abbrev Expected : ℕ → Sequencer → Type 0
Expected n s = (s.upper_bound_bits ≡ 16) × (s.start ≡ 1) × ((next s).0 ≡ n % 65534 + 1)

after_lem : (n : ℕ) → Expected n (after n packet_seq)
unfolding after next
after_lem zero = ground arith
after_lem (suc n) = ground (arith, after_lem n)

-- The identifier of the packet number `n`, counted from 0, is `n % 65534 + 1`.
next-after : (n : ℕ) → (next (after n packet_seq)).0 ≡ n % 65534 + 1
next-after n = (after_lem n).2

-- Every identifier is a non-zero uint16, and 65535 is never handed out.
pub next-after_bounds :
    (n : ℕ) → (1 ≤ (next (after n packet_seq)).0) × ((next (after n packet_seq)).0 ≤ 65534)
next-after_bounds n = omega (arith, next-after n)

-- Two packets have the same identifier exactly when the number of packets between them is a
-- multiple of 65534.
pub next-after_iff :
    (m n : ℕ)
    → ((next (after m packet_seq)).0 ≡ (next (after n packet_seq)).0) ↔ (m % 65534 ≡ n % 65534)
next-after_iff m n = rw (next-after m, next-after n) (λ e. omega arith, λ e. omega arith)

-- `val` is the identifier that the last call handed out.
val-after : (n : ℕ) → val (after (suc n) packet_seq) ≡ (next (after n packet_seq)).0
unfolding val after next
val-after n = ground arith
