-- ===== src/Cpu/Ops/Arith/Overflow.antt =====
-- The overflow flag of the 8-bit ADC and SBC (src/cpu/65816-ops.c).
use ce.Base.{ℕ, ◌+◌, ◌%◌, ◌^◌, ◌≤◌, ◌<◌, ◌≡◌, true, false, ltb, of_bool, low_byte, arith}
use ce.Cpu.State.{Machine}
use ce.Cpu.Ops.Common.{set_nz8}
use ce.Cpu.Ops.Arith.{adc8, outside8}

-- A byte read as a signed number, with 128 added.
abbrev pub biased : ℕ → ℕ
biased x = (x + 128) % 2 ^ 8

-- For a negative accumulator byte and a non-negative operand an 8-bit binary ADC sets V, by the
-- unsigned sum exceeding 127, although their signed sum is always in the range from -128 to 127.
pub adc8-overflow :
    (val : ℕ) (s : Machine)
    → s.cpu.p_d ≡ false
    → 128 ≤ low_byte s.cpu.c
    → val < 128
    → ((adc8 val s).1.cpu.p_v ≡ ltb 127 (low_byte s.cpu.c + val + of_bool s.cpu.p_c))
      × ((adc8 val s).1.cpu.p_v ≡ true)
      × (128 ≤ biased (low_byte s.cpu.c) + biased val + of_bool s.cpu.p_c)
      × (biased (low_byte s.cpu.c) + biased val + of_bool s.cpu.p_c < 384)
unfolding adc8 outside8 set_nz8
adc8-overflow val s d h g = ground arith
