-- ===== src/Sequencer.antt =====
-- sequencer.go: the counter that numbers outgoing packets. The mutex makes each call one step.
-- `current` is an int64 in the source and stays below 2 ^ upper_bound_bits.
pub mod Cycle
use gott.Common.{ℕ, ◌+◌, ◌-◌, ◌^◌, ◌||◌, zero, suc, ◌==◌, if◌then◌else◌}

pub record Sequencer : Type 0 where
  pub current : ℕ
  pub upper_bound_bits : ℕ
  pub start : ℕ

-- The number that is handed out, and the sequencer after it.
unfoldable pub next : Sequencer → ℕ × Sequencer
next seq =
    let c =
      if seq.current == 2 ^ seq.upper_bound_bits - 1 || seq.current == 0
      then seq.start
      else seq.current in
    (c, record seq { current = c + 1 })

unfoldable pub val : Sequencer → ℕ
val seq = if seq.current == 0 then seq.current else seq.current - 1

-- `packetSeq` of packets.go, as the broker starts.
abbrev pub packet_seq : Sequencer
packet_seq = record { current = 0; upper_bound_bits = 16; start = 1 }

-- The sequencer after `n` calls.
unfoldable pub after : ℕ → Sequencer → Sequencer
after zero seq = seq
after (suc n) seq = (next (after n seq)).1
