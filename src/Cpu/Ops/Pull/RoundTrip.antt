-- ===== src/Cpu/Ops/Pull/RoundTrip.antt =====
-- A pull undoes the push of the same register (src/cpu/65816-ops.c).
use ce.Base.{◌+◌, ◌%◌, ◌^◌, ◌<◌, ◌≡◌, bit, if◌then◌else◌, arith}
use ce.Cpu.State.{Machine}
use ce.Cpu.Memory.{update}
use ce.Cpu.Stack.{stack_push_byte, stack_push_word, stack_pop_byte, stack_pop_word}
use ce.Cpu.Registers.{cpu_update_pc}
use ce.Cpu.Ops.Common.{acc8, idx8, set_nz8, set_nz16}
use ce.Cpu.Ops.Push.{push_register, i_pha, i_phx, i_phy}
use ce.Cpu.Ops.Pull.{i_pla, i_plx, i_ply}
use ce.Cpu.Valid.{IsValid}

-- PLA after PHA gives back the accumulator and the stack pointer, at both widths and in both
-- modes, goes two instruction bytes on, and sets N by the sign of what was pushed.
pub pla-pha :
    (s : Machine)
    → IsValid s.cpu
    → let r = (i_pla (i_pha s).1).1.cpu in
      (r.c ≡ s.cpu.c)
      × (r.sp ≡ s.cpu.sp)
      × (r.pc ≡ (s.cpu.pc + 2) % 2 ^ 16)
      × (r.p_n ≡ (if acc8 s.cpu then bit s.cpu.c 7 else bit s.cpu.c 15))
unfolding i_pla i_pha push_register stack_push_byte stack_push_word stack_pop_byte stack_pop_word
    update cpu_update_pc set_nz8 set_nz16
pla-pha s v = ground arith

-- PLX after PHX, and PLY after PHY, give back the index register and the stack pointer, when the
-- index registers fit their present width.
pub plx-phx :
    (s : Machine)
    → IsValid s.cpu
    → (if idx8 s.cpu then (s.cpu.x < 2 ^ 8) × (s.cpu.y < 2 ^ 8) else Unit {0})
    → let r = (i_plx (i_phx s).1).1.cpu in
      let q = (i_ply (i_phy s).1).1.cpu in
      (r.x ≡ s.cpu.x) × (r.sp ≡ s.cpu.sp) × (q.y ≡ s.cpu.y) × (q.sp ≡ s.cpu.sp)
unfolding i_plx i_phx i_ply i_phy push_register stack_push_byte stack_push_word stack_pop_byte
    stack_pop_word update cpu_update_pc set_nz8 set_nz16
plx-phx s v fit = ground arith
