-- ===== src/Cpu/Valid/Modes.antt =====
-- The handlers that set the stack pointer or the mode flags directly keep the invariant: what they
-- store depends on the mode that they find.
use ce.Base.{
  Bool, false, refl, if◌then◌else◌, ℕ, ◌^◌, ◌<◌, bit_and, bit_or, ◌-◌, arith, true, bit, ◌≡◌,
}
use ce.Base.Bits.{bit-bit_and, bit-bit_or}
use ce.Cpu.State.{Cpu, Machine, enable}
use ce.Cpu.Valid.{IsValid, Keeps}
use ce.Cpu.Valid.Flow.{rti_return-Keeps, rti_return_long-Keeps}
use ce.Cpu.Valid.Parts.{stack_pop_byte-Keeps}
use ce.Cpu.Monad.{◌>>◌}
use ce.Cpu.Memory.{get_mem_byte, addr_add_val_bank_wrap}
use ce.Cpu.Registers.{cpu_set_sr, cpu_get_sr, cpu_update_pc, cpu_get_immd_byte}
use ce.Cpu.Stack.{stack_pop_byte}
use ce.Cpu.Ops.Jump.{narrow_index, rti_return, rti_return_long, i_rti}
use ce.Cpu.Ops.Pull.{i_plp}
use ce.Cpu.Ops.Status.{i_rep, i_sep, i_xce}
use ce.Cpu.Ops.Transfer.{i_tcs, i_txs}
use ce.Cpu.Ops.Interrupt.{i_stp}
use ce.Cpu.Step.{reset_cpu}

-- Bit 5 of the status register is M.
bit-sr : (r : Cpu) → bit (cpu_get_sr r) 5 ≡ r.p_m
unfolding cpu_get_sr
bit-sr r = ground arith

pub i_tcs-Keeps : Keeps i_tcs
unfolding i_tcs cpu_update_pc
i_tcs-Keeps = record { keeps = λ s v. ground arith }

pub i_txs-Keeps : Keeps i_txs
unfolding i_txs cpu_update_pc
i_txs-Keeps = record { keeps = λ s v. ground arith }

pub i_xce-Keeps : Keeps i_xce
unfolding i_xce cpu_update_pc
i_xce-Keeps = record { keeps = λ s v. ground arith }

pub i_stp-Keeps : Keeps i_stp
unfolding i_stp
i_stp-Keeps = record { keeps = λ s v. ground arith }

pub i_plp-Keeps : Keeps i_plp
unfolding i_plp cpu_update_pc cpu_set_sr narrow_index stack_pop_byte
i_plp-Keeps = record {
  keeps = λ s v. ground (arith, bit-bit_or 5 0x30 (stack_pop_byte enable s.cpu.setacc s).0);
}

pub i_rep-Keeps : Keeps i_rep
unfolding i_rep cpu_update_pc cpu_set_sr narrow_index cpu_get_immd_byte
i_rep-Keeps = record {
  keeps = λ s v.
      let val = (cpu_get_immd_byte s.cpu.setacc s).0 in
      ground (
        arith,
        bit-sr s.cpu,
        bit-bit_and 5 (cpu_get_sr s.cpu) (bit_or (255 - val) 0x30),
        bit-bit_or 5 (255 - val) 0x30,
      );
}

pub i_sep-Keeps : Keeps i_sep
unfolding i_sep cpu_update_pc cpu_set_sr narrow_index get_mem_byte
i_sep-Keeps = record {
  keeps = λ s v.
      let val = (get_mem_byte (addr_add_val_bank_wrap s.cpu.pc 1) s.cpu.setacc s).0 in
      ground (arith, bit-sr s.cpu, bit-bit_or 5 (cpu_get_sr s.cpu) (bit_and val 0xcf));
}

-- A status byte is safe to load where it leaves M set in emulation mode.
set_sr-IsValid :
    (v : ℕ) (s : Machine)
    → IsValid s.cpu
    → (s.cpu.p_e ≡ true → bit v 5 ≡ true)
    → IsValid (cpu_set_sr v s).1.cpu
unfolding cpu_set_sr
set_sr-IsValid v s h safe = ground arith

rti_tail :
    (emulation : Bool) (sr val : ℕ) (t : Machine)
    → IsValid t.cpu
    → (t.cpu.p_e ≡ true → emulation ≡ true)
    → (emulation ≡ true → bit sr 5 ≡ true)
    → IsValid
        ((if emulation
            then (do cpu_set_sr (bit_or (bit_and sr 0x30) (bit_and val 0xcf)); rti_return)
            else (do cpu_set_sr val; rti_return_long))
          t).1.cpu
rti_tail true sr val t h k m = rti_return-Keeps.keeps _ (
    set_sr-IsValid _ t h (λ _.
      ground
        (arith, m refl, bit-bit_or 5 (bit_and sr 0x30) (bit_and val 0xcf), bit-bit_and 5 sr 0x30)))
rti_tail false sr val t h k m =
    rti_return_long-Keeps.keeps _ (set_sr-IsValid val t h (λ e. cc (k e)))

p_e-pop_byte : (acc : Bool) (s : Machine) → (stack_pop_byte enable acc s).1.cpu.p_e ≡ s.cpu.p_e
unfolding stack_pop_byte
p_e-pop_byte acc s = refl

pub i_rti-Keeps : Keeps i_rti
unfolding i_rti
i_rti-Keeps = record {
  keeps = λ s h.
      rti_tail s.cpu.p_e (cpu_get_sr s.cpu) (stack_pop_byte enable s.cpu.setacc s).0
        (stack_pop_byte enable s.cpu.setacc s).1
        ((stack_pop_byte-Keeps enable s.cpu.setacc).keeps s h)
        (λ e. cc (p_e-pop_byte s.cpu.setacc s, e)) (λ e. cc (h.short e, bit-sr s.cpu));
}

-- A reset makes any processor valid whose accumulator and program counter fit.
pub reset_cpu-IsValid : (r : Cpu) → r.c < 2 ^ 16 → r.pc < 2 ^ 16 → IsValid (reset_cpu r)
unfolding reset_cpu
reset_cpu-IsValid r h k = ground arith
