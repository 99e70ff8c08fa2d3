-- ===== src/Cpu/Ops/Shift/Rotate.antt =====
-- The accumulator shifts and rotations of src/cpu/65816-ops.c.
use ce.Base.{
  ℕ, Bool, ◌+◌, ◌*◌, ◌^◌, ◌<◌, ◌≡◌, of_bool, low_byte, high_byte, bit, if◌then◌else◌, arith,
}
use ce.Cpu.State.{Machine, impd, is_mode, one_of, mode_index}
use ce.Cpu.Registers.{cpu_update_pc}
use ce.Cpu.Ops.Common.{acc8, set_nz8, set_nz16}
use ce.Cpu.Ops.Shift.{
  shift_operand, shift_acc, shift_nz, finish_shift, shift_left, shift_right, rotate_left,
  rotate_right, i_asl, i_lsr, i_rol, i_ror,
}

-- The accumulator after a value of its width is written to it, and its sign bit.
abbrev written : Bool → ℕ → ℕ → ℕ
written short c v = if short then high_byte c + v else v

abbrev sign : Bool → ℕ → Bool
sign short c = if short then bit c 7 else bit c 15

i_rol-acc :
    (size cycles addr : ℕ) (s : Machine)
    → let r = (i_rol size cycles impd addr s).1.cpu in
      (r.c ≡ written (acc8 s.cpu) s.cpu.c (rotate_left (acc8 s.cpu) s.cpu.c s.cpu.p_c))
      × (r.p_c ≡ sign (acc8 s.cpu) s.cpu.c)
      × (acc8 r ≡ acc8 s.cpu)
unfolding i_rol shift_operand shift_acc shift_nz finish_shift rotate_left cpu_update_pc set_nz8
    set_nz16 one_of is_mode mode_index
i_rol-acc size cycles addr s = ground arith

i_rol-bound :
    (size cycles addr : ℕ) (s : Machine) → (i_rol size cycles impd addr s).1.cpu.c < 2 ^ 16
unfolding i_rol shift_operand shift_acc shift_nz finish_shift rotate_left cpu_update_pc set_nz8
    set_nz16 one_of is_mode mode_index
i_rol-bound size cycles addr s = ground arith

i_ror-acc :
    (size cycles addr : ℕ) (s : Machine)
    → s.cpu.c < 2 ^ 16
    → let r = (i_ror size cycles impd addr s).1.cpu in
      (r.c ≡ written (acc8 s.cpu) s.cpu.c (rotate_right (acc8 s.cpu) s.cpu.c s.cpu.p_c))
      × (r.p_c ≡ bit s.cpu.c 0)
      × (acc8 r ≡ acc8 s.cpu)
unfolding i_ror shift_operand shift_acc shift_nz finish_shift rotate_right cpu_update_pc set_nz8
    set_nz16 one_of is_mode mode_index
i_ror-acc size cycles addr s h = ground arith

rotate_right-rotate_left :
    (short : Bool) (c : ℕ) (carry : Bool)
    → c < 2 ^ 16
    → let a = written short c (rotate_left short c carry) in
      (written short a (rotate_right short a (sign short c)) ≡ c) × (bit a 0 ≡ carry)
unfolding rotate_left rotate_right
rotate_right-rotate_left short c carry h = (ground arith, ground arith)

rotate_left-rotate_right :
    (short : Bool) (c : ℕ) (carry : Bool)
    → c < 2 ^ 16
    → let a = written short c (rotate_right short c carry) in
      (written short a (rotate_left short a (bit c 0)) ≡ c) × (sign short a ≡ carry)
unfolding rotate_left rotate_right
rotate_left-rotate_right short c carry h = (ground arith, ground arith)

-- Rotating the accumulator left and then right gives back the accumulator and the carry, at both
-- widths.
pub ror-rol :
    (size cycles addr : ℕ) (s : Machine)
    → s.cpu.c < 2 ^ 16
    → let r = (i_ror size cycles impd addr (i_rol size cycles impd addr s).1).1.cpu in
      (r.c ≡ s.cpu.c) × (r.p_c ≡ s.cpu.p_c)
ror-rol size cycles addr s h =
    let t = (i_rol size cycles impd addr s).1 in
    let l = i_rol-acc size cycles addr s in
    let r = i_ror-acc size cycles addr t (i_rol-bound size cycles addr s) in
    let e = rotate_right-rotate_left (acc8 s.cpu) s.cpu.c s.cpu.p_c h in (cc, cc)

-- Rotating the accumulator right and then left gives back the accumulator and the carry, at both
-- widths.
pub rol-ror :
    (size cycles addr : ℕ) (s : Machine)
    → s.cpu.c < 2 ^ 16
    → let r = (i_rol size cycles impd addr (i_ror size cycles impd addr s).1).1.cpu in
      (r.c ≡ s.cpu.c) × (r.p_c ≡ s.cpu.p_c)
rol-ror size cycles addr s h =
    let t = (i_ror size cycles impd addr s).1 in
    let l = i_ror-acc size cycles addr s h in
    let r = i_rol-acc size cycles addr t in
    let e = rotate_left-rotate_right (acc8 s.cpu) s.cpu.c s.cpu.p_c h in (cc, cc)

-- ASL on the accumulator doubles it exactly, with the carry as the bit above, and LSR halves it
-- exactly, with the carry as the remainder. At 8 bits both act on the low byte and keep the high
-- byte.
pub asl-lsr_exact :
    (size cycles addr : ℕ) (s : Machine)
    → s.cpu.c < 2 ^ 16
    → let l = (i_asl size cycles impd addr s).1.cpu in
      let r = (i_lsr size cycles impd addr s).1.cpu in
      if acc8 s.cpu
      then (low_byte l.c + of_bool l.p_c * 2 ^ 8 ≡ low_byte s.cpu.c * 2)
        × (low_byte r.c * 2 + of_bool r.p_c ≡ low_byte s.cpu.c)
        × (high_byte l.c ≡ high_byte s.cpu.c)
        × (high_byte r.c ≡ high_byte s.cpu.c)
      else (l.c + of_bool l.p_c * 2 ^ 16 ≡ s.cpu.c * 2) × (r.c * 2 + of_bool r.p_c ≡ s.cpu.c)
unfolding i_asl i_lsr shift_operand shift_acc shift_nz finish_shift shift_left shift_right
    cpu_update_pc set_nz8 set_nz16 one_of is_mode mode_index
asl-lsr_exact size cycles addr s h = ground arith
