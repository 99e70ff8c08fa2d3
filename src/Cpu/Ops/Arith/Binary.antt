-- ===== src/Cpu/Ops/Arith/Binary.antt =====
-- ADC and SBC in binary mode (src/cpu/65816-ops.c).
use ce.Base.{
  ℕ, ◌+◌, ◌*◌, ◌%◌, ◌^◌, ◌<◌, ◌≡◌, false, true, not, ltb, ◌==◌, bit, of_bool, low_byte, high_byte,
  arith,
}
use ce.Cpu.State.{Machine}
use ce.Cpu.Ops.Common.{set_nz8, set_nz16}
use ce.Cpu.Ops.Arith.{adc8, adc16, sbc8, sbc16}
use ce.Cpu.Ops.Compare.{compare8, compare16}

-- An 8-bit binary ADC adds exactly: the low byte of the result with the carry above it is the sum
-- of the low byte of the accumulator, the operand and the carry. The high byte stays, and Z and N
-- are those of the result.
pub adc8-binary :
    (val : ℕ) (s : Machine)
    → s.cpu.p_d ≡ false
    → s.cpu.c < 2 ^ 16
    → val < 2 ^ 8
    → let r = (adc8 val s).1.cpu in
      (low_byte r.c + of_bool r.p_c * 2 ^ 8 ≡ low_byte s.cpu.c + val + of_bool s.cpu.p_c)
      × (high_byte r.c ≡ high_byte s.cpu.c)
      × (r.p_z ≡ (low_byte r.c == 0))
      × (r.p_n ≡ bit r.c 7)
unfolding adc8 set_nz8
adc8-binary val s d h g = ground arith

-- A 16-bit binary ADC adds exactly: the result with the carry above it is the sum of the
-- accumulator, the operand and the carry, and Z and N are those of the result.
pub adc16-binary :
    (val : ℕ) (s : Machine)
    → s.cpu.p_d ≡ false
    → s.cpu.c < 2 ^ 16
    → val < 2 ^ 16
    → let r = (adc16 val s).1.cpu in
      (r.c + of_bool r.p_c * 2 ^ 16 ≡ s.cpu.c + val + of_bool s.cpu.p_c)
      × (r.p_z ≡ (r.c == 0))
      × (r.p_n ≡ bit r.c 15)
unfolding adc16 set_nz16
adc16-binary val s d h g = ground arith

-- An 8-bit binary SBC leaves the difference of the low byte of the accumulator and the operand,
-- less one if the carry is clear, modulo 2 ^ 8, and keeps the high byte. The carry is set exactly
-- when that difference is negative.
pub sbc8-binary :
    (val : ℕ) (s : Machine)
    → s.cpu.p_d ≡ false
    → s.cpu.c < 2 ^ 16
    → val < 2 ^ 8
    → let r = (sbc8 val s).1.cpu in
      ((low_byte r.c + val + 1) % 2 ^ 8 ≡ (low_byte s.cpu.c + of_bool s.cpu.p_c) % 2 ^ 8)
      × (high_byte r.c ≡ high_byte s.cpu.c)
      × (r.p_c ≡ ltb (low_byte s.cpu.c + of_bool s.cpu.p_c) (val + 1))
      × (r.p_z ≡ (low_byte r.c == 0))
      × (r.p_n ≡ bit r.c 7)
unfolding sbc8 set_nz8
sbc8-binary val s d h g = ground arith

-- The same of a 16-bit binary SBC and the whole accumulator.
pub sbc16-binary :
    (val : ℕ) (s : Machine)
    → s.cpu.p_d ≡ false
    → s.cpu.c < 2 ^ 16
    → val < 2 ^ 16
    → let r = (sbc16 val s).1.cpu in
      ((r.c + val + 1) % 2 ^ 16 ≡ (s.cpu.c + of_bool s.cpu.p_c) % 2 ^ 16)
      × (r.p_c ≡ ltb (s.cpu.c + of_bool s.cpu.p_c) (val + 1))
      × (r.p_z ≡ (r.c == 0))
      × (r.p_n ≡ bit r.c 15)
unfolding sbc16 set_nz16
sbc16-binary val s d h g = ground arith

-- From the same accumulator and operand, with the carry set before, SBC and CMP agree on Z in
-- binary mode and leave opposite carries, at both widths.
pub sbc-compare_carry :
    (val wide : ℕ) (s : Machine)
    → s.cpu.p_d ≡ false
    → s.cpu.p_c ≡ true
    → s.cpu.c < 2 ^ 16
    → val < 2 ^ 8
    → wide < 2 ^ 16
    → ((sbc8 val s).1.cpu.p_c ≡ not (compare8 s.cpu.c val s).1.cpu.p_c)
      × ((sbc8 val s).1.cpu.p_z ≡ (compare8 s.cpu.c val s).1.cpu.p_z)
      × ((sbc16 wide s).1.cpu.p_c ≡ not (compare16 s.cpu.c wide s).1.cpu.p_c)
      × ((sbc16 wide s).1.cpu.p_z ≡ (compare16 s.cpu.c wide s).1.cpu.p_z)
unfolding sbc8 sbc16 compare8 compare16 set_nz8 set_nz16
sbc-compare_carry val wide s d c h g k = (ground arith, ground arith, ground arith, ground arith)
