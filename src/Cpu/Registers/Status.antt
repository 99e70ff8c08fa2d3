-- ===== src/Cpu/Registers/Status.antt =====
-- The status register as a byte: `_cpu_get_sr` and `_cpu_set_sr` of src/cpu/65816-util.c.
use ce.Base.{
  ℕ, ◌+◌, ◌*◌, ◌/◌, ◌%◌, ◌^◌, ◌≤◌, ◌<◌, ◌≡◌, Bool, true, false, of_bool, odd, bit, refl, arith,
}
use ce.Cpu.State.{Cpu, Machine}
use ce.Cpu.Registers.{cpu_get_sr, cpu_set_sr}

pub of_bool-le : (b : Bool) → of_bool b ≤ 1
of_bool-le true = omega arith
of_bool-le false = omega arith

pub of_bool-bit : (v k : ℕ) → of_bool (bit v k) ≡ v / 2 ^ k % 2
of_bool-bit v k = ground arith

odd-of_bool : (b : Bool) (n q : ℕ) → n ≡ of_bool b + q * 2 → odd n ≡ b
odd-of_bool true n q e = ground arith
odd-of_bool false n q e = ground arith

-- A byte that is loaded into the status register is read back from it.
pub get_sr-set_sr : (v : ℕ) (s : Machine) → v < 2 ^ 8 → cpu_get_sr (cpu_set_sr v s).1.cpu ≡ v
unfolding cpu_get_sr cpu_set_sr
get_sr-set_sr v s h =
    rw
      (
        of_bool-bit v 0,
        of_bool-bit v 1,
        of_bool-bit v 2,
        of_bool-bit v 3,
        of_bool-bit v 4,
        of_bool-bit v 5,
        of_bool-bit v 6,
        of_bool-bit v 7,
      )
      (omega arith)

bit-sr_c : (r : Cpu) → bit (cpu_get_sr r) 0 ≡ r.p_c
unfolding cpu_get_sr
bit-sr_c r =
    odd-of_bool r.p_c _
      (of_bool r.p_z
        + of_bool r.p_i * 2
        + of_bool r.p_d * 4
        + of_bool r.p_xb * 8
        + of_bool r.p_m * 16
        + of_bool r.p_v * 32
        + of_bool r.p_n * 64)
      (omega (arith, of_bool-le))

bit-sr_z : (r : Cpu) → bit (cpu_get_sr r) 1 ≡ r.p_z
unfolding cpu_get_sr
bit-sr_z r =
    odd-of_bool r.p_z _
      (of_bool r.p_i
        + of_bool r.p_d * 2
        + of_bool r.p_xb * 4
        + of_bool r.p_m * 8
        + of_bool r.p_v * 16
        + of_bool r.p_n * 32)
      (omega (arith, of_bool-le))

bit-sr_i : (r : Cpu) → bit (cpu_get_sr r) 2 ≡ r.p_i
unfolding cpu_get_sr
bit-sr_i r =
    odd-of_bool r.p_i _
      (of_bool r.p_d
        + of_bool r.p_xb * 2
        + of_bool r.p_m * 4
        + of_bool r.p_v * 8
        + of_bool r.p_n * 16)
      (omega (arith, of_bool-le))

bit-sr_d : (r : Cpu) → bit (cpu_get_sr r) 3 ≡ r.p_d
unfolding cpu_get_sr
bit-sr_d r =
    odd-of_bool r.p_d _ (of_bool r.p_xb + of_bool r.p_m * 2 + of_bool r.p_v * 4 + of_bool r.p_n * 8)
      (omega (arith, of_bool-le))

bit-sr_xb : (r : Cpu) → bit (cpu_get_sr r) 4 ≡ r.p_xb
unfolding cpu_get_sr
bit-sr_xb r =
    odd-of_bool r.p_xb _ (of_bool r.p_m + of_bool r.p_v * 2 + of_bool r.p_n * 4)
      (omega (arith, of_bool-le))

bit-sr_m : (r : Cpu) → bit (cpu_get_sr r) 5 ≡ r.p_m
unfolding cpu_get_sr
bit-sr_m r = odd-of_bool r.p_m _ (of_bool r.p_v + of_bool r.p_n * 2) (omega (arith, of_bool-le))

bit-sr_v : (r : Cpu) → bit (cpu_get_sr r) 6 ≡ r.p_v
unfolding cpu_get_sr
bit-sr_v r = odd-of_bool r.p_v _ (of_bool r.p_n) (omega (arith, of_bool-le))

bit-sr_n : (r : Cpu) → bit (cpu_get_sr r) 7 ≡ r.p_n
unfolding cpu_get_sr
bit-sr_n r = odd-of_bool r.p_n _ (0) (omega (arith, of_bool-le))

-- The status register's own byte, loaded again, changes nothing.
pub set_sr-get_sr : (s : Machine) → (cpu_set_sr (cpu_get_sr s.cpu) s).1 ≡ s
unfolding cpu_set_sr
set_sr-get_sr s =
    rw
      (
        bit-sr_c s.cpu,
        bit-sr_z s.cpu,
        bit-sr_i s.cpu,
        bit-sr_d s.cpu,
        bit-sr_xb s.cpu,
        bit-sr_m s.cpu,
        bit-sr_v s.cpu,
        bit-sr_n s.cpu,
      )
      refl
