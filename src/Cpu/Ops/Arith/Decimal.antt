-- ===== src/Cpu/Ops/Arith/Decimal.antt =====
-- ADC and SBC of a byte in decimal mode (src/cpu/65816-ops.c).
use ce.Base.{
  ℕ, ◌+◌, ◌-◌, ◌*◌, ◌/◌, ◌%◌, ◌^◌, ◌≤◌, ◌<◌, ◌≡◌, true, of_bool, Bool, leb, low_byte, u16,
  if◌then◌else◌, arith,
}
use ce.Cpu.State.{Machine}
use ce.Cpu.Registers.Status.{of_bool-le}
use ce.Cpu.Ops.Common.{set_nz8}
use ce.Cpu.Ops.Arith.{adc8, sbc8, adc8_digits, adc8_adjust, sbc8_digits, minus16}
use ce.Cpu.Ops.Arith.Bcd.{IsBcd8, bcd8}

-- On decimal operands an 8-bit decimal ADC leaves decimal digits, and the number that they stand
-- for, with the carry as hundreds, is the sum of the two numbers and the carry.
pub adc8-decimal :
    (val : ℕ) (s : Machine)
    → s.cpu.p_d ≡ true
    → IsBcd8 s.cpu.c
    → IsBcd8 val
    → let r = (adc8 val s).1.cpu in
      IsBcd8 r.c × (bcd8 r.c + of_bool r.p_c * 100 ≡ bcd8 s.cpu.c + bcd8 val + of_bool s.cpu.p_c)
unfolding adc8 set_nz8 adc8_digits adc8_adjust
adc8-decimal val s d h g = ground arith

-- The difference of two digits with a borrow below, as the code holds it before the next digit.
abbrev borrowed : ℕ → ℕ → ℕ → ℕ
borrowed a b k = if leb (b + 1) (a + k) then a + k - b - 1 else a + k + 9 - b + 2 ^ 16 - 16

low_digit :
    (a b k : ℕ)
    → a < 10
    → b < 10
    → k ≤ 1
    → let al = minus16 (a + k) (b + 1) in
      (if leb (2 ^ 15) al then minus16 (minus16 al 0x06 % 2 ^ 4) 0x10 else al) ≡ borrowed a b k
low_digit a b k h g l = ground arith

high_digit :
    (a b al : ℕ)
    → a < 10
    → b < 10
    → al < 10
    → let r = minus16 (u16 (a * 16 + al)) (b * 16) in
      low_byte (if leb (2 ^ 15) r then minus16 r 0x60 else r) ≡ al + (a + 10 - b) % 10 * 16
high_digit a b al h g l = ground arith

high_digit_borrow :
    (a b al : ℕ)
    → a < 10
    → b < 10
    → al < 10
    → let r = minus16 (u16 (a * 16 + (al + 2 ^ 16 - 16))) (b * 16) in
      low_byte (if leb (2 ^ 15) r then minus16 r 0x60 else r) ≡ al + (a + 9 - b) % 10 * 16
high_digit_borrow a b al h g l = ground arith

-- The digits that the subtraction of two decimal bytes leaves.
sbc8_digits-value :
    (c val : ℕ) (carry : Bool)
    → IsBcd8 c
    → IsBcd8 val
    → let fits = leb (val % 16 + 1) (c % 16 + of_bool carry) in
      low_byte (sbc8_digits c val carry)
      ≡ (c % 16 + of_bool carry + 9 - val % 16) % 10
        + (c / 16 % 16 + (if fits then 10 else 9) - val / 16 % 16) % 10 * 16
unfolding sbc8_digits
sbc8_digits-value c val carry h g =
    let e = low_digit (c % 16) (val % 16) (of_bool carry) h.0 g.0 (of_bool-le carry) in
    let f =
      high_digit (c / 16 % 16) (val / 16 % 16) ((c % 16 + of_bool carry + 9 - val % 16) % 10) h.1
        g.1 (omega arith) in
    let l =
      high_digit_borrow (c / 16 % 16) (val / 16 % 16) ((c % 16 + of_bool carry + 9 - val % 16) % 10)
        h.1 g.1 (omega arith) in
    ground arith

-- On decimal operands an 8-bit decimal SBC leaves decimal digits, which stand for the difference
-- of the two numbers, less one if the carry is clear, modulo 100.
pub sbc8-decimal :
    (val : ℕ) (s : Machine)
    → s.cpu.p_d ≡ true
    → IsBcd8 s.cpu.c
    → IsBcd8 val
    → let r = (sbc8 val s).1.cpu in
      IsBcd8 r.c × (bcd8 r.c ≡ (bcd8 s.cpu.c + of_bool s.cpu.p_c + 99 - bcd8 val) % 100)
unfolding sbc8 set_nz8
sbc8-decimal val s d h g = let e = sbc8_digits-value s.cpu.c val s.cpu.p_c h g in ground arith
