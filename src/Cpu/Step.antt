-- ===== src/Cpu/Step.antt =====
-- src/cpu/65816.c: initCPU, resetCPU and stepCPU. The null checks are compiled only under
-- CPU_DEBUG_CHECK_NULL, and are left out.
pub mod Interrupts
pub mod Opcode
pub mod Halt
use ce.Base.{◌+◌, low_byte, bit_and, true, false, ◌&&◌, not, Option, none, some}
use ce.Base.{if◌then◌else◌}
use ce.Cpu.State.{Cpu, ErrorCode}
use ce.Cpu.Monad.{M, Act, ◌>>=◌, ◌>>◌, return, get, modify}
use ce.Cpu.Set
use ce.Cpu.Memory.{get_mem_byte, get_mem_word}
use ce.Cpu.Registers.{cpu_get_effective_pc}
use ce.Cpu.Instr.{Instr}
use ce.Cpu.Decode.{decode}
use ce.Cpu.Execute.{execute}
use ce.Cpu.Ops.Interrupt.{enter_handler, vec_native_nmi, vec_native_irq, vec_emu_nmi, vec_emu_irq}
use ce.Cpu.Ops.Interrupt.{vec_reset}

-- `cpu->SP &= 0x00ff; cpu->SP |= 0x0100;` keeps the low byte of SP.
unfoldable pub reset_cpu : Cpu → Cpu
reset_cpu r = record r {
  d = 0;
  dbr = 0;
  pbr = 0;
  sp = low_byte r.sp + 0x0100;
  x = low_byte r.x;
  y = low_byte r.y;
  p_m = true;
  p_xb = true;
  p_d = false;
  p_i = true;
  p_e = true;
  cycles = 0;
  p_crash = false;
  p_stp = false;
  p_irq = false;
  p_nmi = false;
  p_rst = true;
}

unfoldable pub init_cpu : Cpu → Cpu
unfolding reset_cpu
init_cpu r = reset_cpu (record r { cop_vect_enable = false })

-- NMI first; then IRQ, unless it is masked. The B flag is clear in the pushed status.
unfoldable pub handle_interrupts : Act
handle_interrupts = do
  s ← get
  if s.p_nmi
      then (do
        modify (λ r. record r { p_nmi = false })
        enter_handler (λ v. bit_and v 0xef) vec_emu_nmi vec_native_nmi)
      else if s.p_irq && not s.p_i
      then (do
        modify (λ r. record r { p_irq = false })
        enter_handler (λ v. bit_and v 0xef) vec_emu_irq vec_native_irq
        Set.p_i true)
      else return tt

-- The case of the switch, the crash flag, then the interrupts.
unfoldable pub dispatch : Option Instr → M ErrorCode
dispatch none = return ErrorCode.unknown_opcode
dispatch (some instr) = do
  execute instr
  r ← get
  if r.p_crash then return ErrorCode.crash else (do handle_interrupts; return ErrorCode.ok)

-- The opcode is read at the program counter.
unfoldable pub run_instruction : M ErrorCode
run_instruction = do
  s ← get
  opcode ← get_mem_byte (cpu_get_effective_pc s) s.setacc
  dispatch (decode opcode)

unfoldable pub step_cpu : M ErrorCode
step_cpu = do
  s ← get
  if s.p_crash
      then return ErrorCode.crash
      else if s.p_rst
      then (do
        modify (λ r. record r { p_rst = false })
        target ← get_mem_word vec_reset s.setacc
        Set.pc target
        return ErrorCode.ok)
      else if s.p_stp
      then return ErrorCode.stp
      else run_instruction
