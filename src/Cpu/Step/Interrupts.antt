-- ===== src/Cpu/Step/Interrupts.antt =====
-- When stepCPU enters an interrupt, and which (src/cpu/65816.c).
use ce.Base.{ℕ, ◌+◌, ◌*◌, ◌^◌, ◌≡◌, true, false, not, ◌&&◌, ◌||◌, u8, bit_and, if◌then◌else◌, arith}
use ce.Cpu.State.{Cpu, Machine}
use ce.Cpu.Memory.{get_mem_byte}
use ce.Cpu.Registers.{cpu_get_sr}
use ce.Cpu.Stack.{stack_push_byte, stack_push_word, stack_push24}
use ce.Cpu.Ops.Interrupt.{
  enter_handler, load_vector, vec_native_nmi, vec_native_irq, vec_emu_nmi, vec_emu_irq,
}
use ce.Cpu.Ops.Interrupt.Return.{rti-enter_handler}
use ce.Cpu.Ops.Jump.{i_rti}
use ce.Cpu.Valid.{IsValid}
use ce.Cpu.Step.{handle_interrupts}

-- The vector of the interrupt that is pending.
abbrev pub pending_vector : Cpu → ℕ
pending_vector r =
    if r.p_nmi
    then (if r.p_e then vec_emu_nmi else vec_native_nmi)
    else (if r.p_e then vec_emu_irq else vec_native_irq)

enter_handler-vector :
    (f : ℕ → ℕ) (emu native : ℕ) (s : Machine)
    → let r = (enter_handler f emu native s).1 in
      let v = if s.cpu.p_e then emu else native in
      (r.cpu.pc ≡ u8 (r.mem.val v) + u8 (r.mem.val (v + 1)) * 2 ^ 8)
      × (r.cpu.pbr ≡ 0)
      × (r.cpu.p_d ≡ false)
      × (r.cpu.p_nmi ≡ s.cpu.p_nmi)
      × (r.cpu.p_irq ≡ s.cpu.p_irq)
      × (r.cpu.p_i ≡ s.cpu.p_i)
unfolding enter_handler load_vector stack_push_byte stack_push_word stack_push24 get_mem_byte
enter_handler-vector f emu native s = ground arith

-- An NMI is entered whenever it is pending, an IRQ when it is pending, not masked, and there is no
-- NMI: the program counter is then the word at the vector of the mode, in bank 0, D is clear, and
-- the request that was entered is no longer pending, while an IRQ that waits behind an NMI still
-- is. An IRQ sets I and an NMI leaves it. Otherwise nothing changes.
pub interrupt-entry :
    (s : Machine)
    → let r = (handle_interrupts s).1 in
      let v = pending_vector s.cpu in
      if s.cpu.p_nmi || s.cpu.p_irq && not s.cpu.p_i
      then (r.cpu.pc ≡ u8 (r.mem.val v) + u8 (r.mem.val (v + 1)) * 2 ^ 8)
        × (r.cpu.pbr ≡ 0)
        × (r.cpu.p_d ≡ false)
        × (r.cpu.p_nmi ≡ false)
        × (r.cpu.p_irq ≡ (s.cpu.p_nmi && s.cpu.p_irq))
        × (r.cpu.p_i ≡ (s.cpu.p_i || not s.cpu.p_nmi))
      else r ≡ s
unfolding handle_interrupts
interrupt-entry s =
    let n =
      enter_handler-vector (λ v. bit_and v 0xef) vec_emu_nmi vec_native_nmi
        (record s { cpu = record s.cpu { p_nmi = false } }) in
    let q =
      enter_handler-vector (λ v. bit_and v 0xef) vec_emu_irq vec_native_irq
        (record s { cpu = record s.cpu { p_irq = false } }) in
    ground arith

-- In native mode RTI returns from an NMI to exactly where it was entered: the program counter, the
-- program bank, the stack pointer and the status register are as before.
pub rti-nmi :
    (s : Machine)
    → IsValid s.cpu
    → s.cpu.p_e ≡ false
    → s.cpu.p_nmi ≡ true
    → let r = (i_rti (handle_interrupts s).1).1.cpu in
      (r.pc ≡ s.cpu.pc)
      × (r.pbr ≡ s.cpu.pbr)
      × (r.sp ≡ s.cpu.sp)
      × (cpu_get_sr r ≡ cpu_get_sr s.cpu)
unfolding handle_interrupts cpu_get_sr
rti-nmi s v e n = rw n (
    rti-enter_handler (λ v. bit_and v 0xef) vec_emu_nmi vec_native_nmi
      (record s { cpu = record s.cpu { p_nmi = false } }) (ground arith) e)
