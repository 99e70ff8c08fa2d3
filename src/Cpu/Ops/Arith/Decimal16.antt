-- ===== src/Cpu/Ops/Arith/Decimal16.antt =====
-- ADC of a word in decimal mode (src/cpu/65816-ops.c).
use ce.Base.{
  ℕ, ◌+◌, ◌*◌, ◌/◌, ◌%◌, ◌^◌, ◌≤◌, ◌<◌, ◌≡◌, true, of_bool, Bool, leb, u16, if◌then◌else◌, arith,
}
use ce.Cpu.State.{Machine}
use ce.Cpu.Registers.Status.{of_bool-le}
use ce.Cpu.Ops.Common.{set_nz16}
use ce.Cpu.Ops.Arith.{adc16, adc16_digits, adc16_adjust, digit}
use ce.Cpu.Ops.Arith.Bcd.{IsBcd16, bcd16}

-- One digit of the sum, and the carry in the place above it, after the adjustment.
abbrev adjusted : ℕ → ℕ
adjusted t = t % 10 + t / 10 * 16

first_digit :
    (t al : ℕ)
    → t < 20
    → al ≡ t
    → (if leb 0x000a al then (al + 0x0006) % 2 ^ 4 + 0x0010 else al) ≡ adjusted t
first_digit t al h e = ground arith

second_digit :
    (x t al : ℕ)
    → x < 10
    → t < 20
    → al ≡ x + t * 16
    → (if leb 0x00a0 al then (al + 0x0060) % 2 ^ 8 + 0x0100 else al) ≡ x + adjusted t * 16
second_digit x t al h g e = ground arith

third_digit :
    (x t al : ℕ)
    → x < 160
    → t < 20
    → al ≡ x + t * 256
    → (if leb 0x0a00 al then (al + 0x0600) % 2 ^ 12 + 0x1000 else al) ≡ x + adjusted t * 256
third_digit x t al h g e = ground arith

fourth_digit :
    (x t al : ℕ) → x < 2560 → t < 20 → al ≡ x + t * 4096 → adc16_adjust al ≡ x + adjusted t * 4096
unfolding adc16_adjust
fourth_digit x t al h g e = ground arith

-- The digit of a number at a place.
abbrev place : ℕ → ℕ → ℕ
place x k = x / 2 ^ k % 2 ^ 4

adc16_digits-value :
    (c val : ℕ) (carry : Bool)
    → IsBcd16 c
    → IsBcd16 val
    → let t = place c 0 + place val 0 + of_bool carry in
      let u = place c 4 + place val 4 + t / 10 in
      let v = place c 8 + place val 8 + u / 10 in
      let w = place c 12 + place val 12 + v / 10 in
      adc16_adjust (adc16_digits c val carry)
      ≡ t % 10 + u % 10 * 16 + v % 10 * 256 + w % 10 * 4096 + w / 10 * 65536
unfolding adc16_digits
adc16_digits-value c val carry h g =
    let k = of_bool-le carry in
    let t = place c 0 + place val 0 + of_bool carry in
    let u = place c 4 + place val 4 + t / 10 in
    let v = place c 8 + place val 8 + u / 10 in
    let w = place c 12 + place val 12 + v / 10 in
    let al = digit c 0 + digit val 0 + of_bool carry in
    let al1 = if leb 0x000a al then (al + 0x0006) % 2 ^ 4 + 0x0010 else al in
    let e1 : al1 ≡ adjusted t = first_digit t al (omega arith) (omega arith) in
    let al2 = digit c 4 + digit val 4 + al1 in
    let al3 = if leb 0x00a0 al2 then (al2 + 0x0060) % 2 ^ 8 + 0x0100 else al2 in
    let e3 : al3 ≡ t % 10 + adjusted u * 16 =
      second_digit (t % 10) u al2 (omega arith) (omega arith) (omega arith) in
    let al4 = digit c 8 + digit val 8 + al3 in
    let al5 = if leb 0x0a00 al4 then (al4 + 0x0600) % 2 ^ 12 + 0x1000 else al4 in
    let e5 : al5 ≡ t % 10 + u % 10 * 16 + adjusted v * 256 =
      third_digit (t % 10 + u % 10 * 16) v al4 (omega arith) (omega arith) (omega arith) in
    let e7 =
      fourth_digit (t % 10 + u % 10 * 16 + v % 10 * 256) w (digit c 12 + digit val 12 + al5)
        (omega arith) (omega arith) (omega arith) in
    omega arith

-- A word of four digits and a carry above them.
word_digits :
    (p q v w k n : ℕ)
    → p < 10
    → q < 10
    → v < 10
    → w < 10
    → k ≤ 1
    → n ≡ p + q * 16 + v * 256 + w * 4096 + k * 65536
    → IsBcd16 (u16 n)
      × (bcd16 (u16 n) + of_bool (leb 0x10000 n) * 10000
          ≡ p + q * 10 + v * 100 + w * 1000 + k * 10000)
word_digits p q v w k n a b c d l e = ground arith

adc16-result :
    (val : ℕ) (s : Machine)
    → s.cpu.p_d ≡ true
    → let r = (adc16 val s).1.cpu in
      let al = adc16_adjust (adc16_digits s.cpu.c val s.cpu.p_c) in
      (r.c ≡ u16 al) × (r.p_c ≡ leb 0x10000 al)
unfolding adc16 set_nz16
adc16-result val s d = ground arith

-- On decimal operands a 16-bit decimal ADC leaves four decimal digits, and the number that they
-- stand for, with the carry as ten thousands, is the sum of the two numbers and the carry.
pub adc16-decimal :
    (val : ℕ) (s : Machine)
    → s.cpu.p_d ≡ true
    → IsBcd16 s.cpu.c
    → IsBcd16 val
    → let r = (adc16 val s).1.cpu in
      IsBcd16 r.c
      × (bcd16 r.c + of_bool r.p_c * 10000 ≡ bcd16 s.cpu.c + bcd16 val + of_bool s.cpu.p_c)
adc16-decimal val s d h g =
    let k = of_bool-le s.cpu.p_c in
    let e = adc16_digits-value s.cpu.c val s.cpu.p_c h g in
    let r = adc16-result val s d in
    let w =
      word_digits _ _ _ _ _ (adc16_adjust (adc16_digits s.cpu.c val s.cpu.p_c)) (omega arith)
        (omega arith) (omega arith) (omega arith) (omega arith) e in
    rw (r.0, r.1) (w.0, omega arith)
