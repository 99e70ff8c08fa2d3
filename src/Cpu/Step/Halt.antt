-- ===== src/Cpu/Step/Halt.antt =====
-- What stops the processor, and what starts it again: the guards of stepCPU (src/cpu/65816.c).
use ce.Base.{
  ℕ, zero, suc, ◌≡◌, ◌∙◌, ◌||◌, ◌&&◌, not, Bool, Bool-cases, true, false, refl, if◌then◌else◌, inl,
  inr, bit_and, some, arith,
}
use ce.Cpu.State.{Machine, ErrorCode}
use ce.Cpu.Memory.{get_mem_byte, get_mem_word}
use ce.Cpu.Registers.{cpu_get_effective_pc}
use ce.Cpu.Stack.{stack_push_byte, stack_push_word, stack_push24}
use ce.Cpu.Instr.{Instr}
use ce.Cpu.Decode.Total.{decode-total}
use ce.Cpu.Execute.{execute}
use ce.Cpu.Ops.Interrupt.{
  enter_handler, load_vector, vec_native_nmi, vec_native_irq, vec_emu_nmi, vec_emu_irq,
}
use ce.Cpu.Step.{step_cpu, run_instruction, dispatch, handle_interrupts}

-- The machine after `n` calls of stepCPU.
unfoldable pub run : ℕ → Machine → Machine
run zero s = s
run (suc n) s = run n (step_cpu s).1

step-halted :
    (s : Machine) → (s.cpu.p_crash || s.cpu.p_stp && not s.cpu.p_rst) ≡ true → (step_cpu s).1 ≡ s
unfolding step_cpu
step-halted s h = ground arith

-- A processor that has crashed, or that STP has stopped and that is not being reset, does not
-- change, nor does its memory, over any number of calls of stepCPU.
run-halted :
    (n : ℕ) (s : Machine) → (s.cpu.p_crash || s.cpu.p_stp && not s.cpu.p_rst) ≡ true → run n s ≡ s
unfolding run
run-halted zero s h = refl
run-halted (suc n) s h = rw (step-halted s h) (run-halted n s h)

enter_handler-crash :
    (f : ℕ → ℕ) (emu native : ℕ) (s : Machine)
    → (enter_handler f emu native s).1.cpu.p_crash ≡ s.cpu.p_crash
unfolding enter_handler load_vector stack_push_byte stack_push_word stack_push24 get_mem_byte
enter_handler-crash f emu native s = ground arith

handle_interrupts-crash : (s : Machine) → (handle_interrupts s).1.cpu.p_crash ≡ s.cpu.p_crash
unfolding handle_interrupts
handle_interrupts-crash s =
    let n =
      enter_handler-crash (λ v. bit_and v 0xef) vec_emu_nmi vec_native_nmi
        (record s { cpu = record s.cpu { p_nmi = false } }) in
    let q =
      enter_handler-crash (λ v. bit_and v 0xef) vec_emu_irq vec_native_irq
        (record s { cpu = record s.cpu { p_irq = false } }) in
    ground arith

-- What the code that a call returns says of the machine that it leaves.
abbrev Told : ErrorCode × Machine → Type 0
Told (ErrorCode.ok, r) = r.cpu.p_crash ≡ false
Told (ErrorCode.crash, r) = r.cpu.p_crash ≡ true
Told (ErrorCode.stp, r) = (r.cpu.p_crash ≡ false) × (r.cpu.p_stp && not r.cpu.p_rst ≡ true)
Told (_, r) = true ≡ false

dispatch-Told : (i : Instr) (s : Machine) → Told (dispatch (some i) s)
unfolding dispatch
dispatch-Told i s = elim (Bool-cases (execute i s).1.cpu.p_crash) [
  | inl e ↦ simp e refl
  | inr e ↦ simp e (handle_interrupts-crash (execute i s).1 ∙ e)
]

run_instruction-Told : (s : Machine) → Told (run_instruction s)
unfolding run_instruction get_mem_byte
run_instruction-Told s =
    let d =
      decode-total (get_mem_byte (cpu_get_effective_pc s.cpu) s.cpu.setacc s).0 (ground arith) in
    rw d.1 (dispatch-Told d.0 _)

step_cpu-Told : (s : Machine) → Told (step_cpu s)
unfolding step_cpu get_mem_word
step_cpu-Told s = elim (Bool-cases s.cpu.p_crash) [
  | inl e ↦ simp e refl
  | inr e ↦ elim (Bool-cases s.cpu.p_rst) [
    | inl f ↦ simp (e, f) refl
    | inr f ↦ elim (Bool-cases s.cpu.p_stp) [
      | inl g ↦ simp (e, f, g) (refl, refl)
      | inr g ↦ simp (e, f, g) (run_instruction-Told s)
    ]
  ]
]

abbrev pub code_ok : ErrorCode → Bool
code_ok ErrorCode.ok = true
code_ok _ = false

halted-again :
    (c : ErrorCode) (r : Machine) (n : ℕ)
    → Told (c, r)
    → if code_ok c then r.cpu.p_crash ≡ false else step_cpu (run n r) ≡ (c, r)
unfolding step_cpu
halted-again ErrorCode.ok r n h = h
halted-again ErrorCode.crash r n h =
    let same = run-halted n r (ground (arith, h)) in rw same (ground (arith, h))
halted-again ErrorCode.stp r n h =
    let same = run-halted n r (ground (arith, h)) in rw same (ground (arith, h))
halted-again _ r n h = absurd (ground (arith, h))

-- A call of stepCPU that returns CPU_ERR_OK leaves a processor that has not crashed. Whenever a
-- call returns any other code, that of an instruction that it has executed included, all the calls
-- that follow it return the same code and leave the machine as the first one left it.
pub step_cpu-halts :
    (s : Machine) (n : ℕ)
    → let r = step_cpu s in
      if code_ok r.0 then r.1.cpu.p_crash ≡ false else step_cpu (run n r.1) ≡ (r.0, r.1)
step_cpu-halts s n = halted-again (step_cpu s).0 (step_cpu s).1 n (step_cpu-Told s)
