-- ===== src/Cpu/Ops/Compare/Order.antt =====
-- What the flags of CMP, CPX and CPY say of the two numbers (src/cpu/65816-ops.c).
use ce.Base.{ℕ, ◌+◌, ◌-◌, ◌%◌, ◌^◌, ◌<◌, ◌≡◌, leb, ◌==◌, bit, low_byte, arith}
use ce.Cpu.State.{Machine}
use ce.Cpu.Ops.Compare.{compare8, compare16}

-- After a comparison at 8 or 16 bits the carry is set exactly when the register is at least the
-- operand, and Z exactly when they are equal; at 8 bits N is the highest bit of their difference.
pub compare-order :
    (reg val wide : ℕ) (s : Machine)
    → reg < 2 ^ 16
    → val < 2 ^ 8
    → wide < 2 ^ 16
    → let r = (compare8 reg val s).1.cpu in
      let w = (compare16 reg wide s).1.cpu in
      (r.p_c ≡ leb val (low_byte reg))
      × (r.p_z ≡ (low_byte reg == val))
      × (r.p_n ≡ bit ((low_byte reg + 2 ^ 8 - val) % 2 ^ 8) 7)
      × (w.p_c ≡ leb wide reg)
      × (w.p_z ≡ (reg == wide))
unfolding compare8 compare16
compare-order reg val wide s h g k = ground arith
