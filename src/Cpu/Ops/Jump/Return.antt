-- ===== src/Cpu/Ops/Jump/Return.antt =====
-- A return undoes its call: JSR and RTS, JSL and RTL (src/cpu/65816-ops.c).
use ce.Base.{ℕ, ◌+◌, ◌*◌, ◌%◌, ◌^◌, ◌≤◌, ◌<◌, ◌≡◌, true, arith}
use ce.Cpu.State.{Machine}
use ce.Cpu.Memory.{update, addr_add_val_bank_wrap}
use ce.Cpu.Registers.{cpu_get_effective_pc, cpu_get_pbr}
use ce.Cpu.Stack.{stack_push_word, stack_pop_word, stack_push24, stack_pop24}
use ce.Cpu.Valid.{IsValid}
use ce.Cpu.Ops.Jump.{i_jsr, i_jsl, i_rts, i_rtl}

-- JSR goes to its target, and RTS after it to the instruction behind the JSR, three bytes on within
-- the bank, with the stack pointer as before.
pub rts-jsr :
    (cycles addr : ℕ) (s : Machine)
    → IsValid s.cpu
    → let t = (i_jsr cycles addr s).1 in
      let r = (i_rts t).1.cpu in
      (t.cpu.pc ≡ addr % 2 ^ 16)
      × (r.pc ≡ (s.cpu.pc + 3) % 2 ^ 16)
      × (r.pbr ≡ s.cpu.pbr)
      × (r.sp ≡ s.cpu.sp)
unfolding i_jsr i_rts stack_push_word stack_pop_word update addr_add_val_bank_wrap
rts-jsr cycles addr s v = ground arith

-- JSL goes to its target in the target's bank, and RTL after it to the instruction behind the
-- JSL, four bytes on within the caller's bank, with the stack pointer as before. In emulation mode
-- the stack pointer is to be at least 0x103 at the call.
pub rtl-jsl :
    (cycles addr : ℕ) (s : Machine)
    → IsValid s.cpu
    → addr < 2 ^ 24
    → (s.cpu.p_e ≡ true → 0x103 ≤ s.cpu.sp)
    → let t = (i_jsl cycles addr s).1 in
      let r = (i_rtl t).1.cpu in
      (t.cpu.pbr * 2 ^ 16 + t.cpu.pc ≡ addr)
      × (r.pc ≡ (s.cpu.pc + 4) % 2 ^ 16)
      × (r.pbr ≡ s.cpu.pbr)
      × (r.sp ≡ s.cpu.sp)
unfolding i_jsl i_rtl stack_push24 stack_pop24 update addr_add_val_bank_wrap cpu_get_effective_pc
    cpu_get_pbr
rtl-jsl cycles addr s v h room = ground arith
