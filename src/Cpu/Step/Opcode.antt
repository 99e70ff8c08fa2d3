-- ===== src/Cpu/Step/Opcode.antt =====
-- stepCPU never meets an opcode that its switch does not know (src/cpu/65816.c).
use ce.Base.{◌≡◌, Option, some, Bool, true, false, arith}
use ce.Cpu.State.{Machine, ErrorCode}
use ce.Cpu.Memory.{get_mem_byte}
use ce.Cpu.Registers.{cpu_get_effective_pc}
use ce.Cpu.Instr.{Instr}
use ce.Cpu.Decode.Total.{decode-total}
use ce.Cpu.Step.{step_cpu, run_instruction, dispatch}

-- The error codes that a call of stepCPU returns.
unfoldable pub is_step_code : ErrorCode → Bool
is_step_code ErrorCode.ok = true
is_step_code ErrorCode.crash = true
is_step_code ErrorCode.stp = true
is_step_code ErrorCode.unknown_opcode = false
is_step_code ErrorCode.null_cpu = false
is_step_code ErrorCode.str_parse = false

dispatch-code : (i : Instr) (s : Machine) → is_step_code (dispatch (some i) s).0 ≡ true
unfolding dispatch is_step_code
dispatch-code i s = ground arith

opcode-code :
    (o : Option Instr) (i : Instr) (s : Machine) → o ≡ some i → is_step_code (dispatch o s).0 ≡ true
opcode-code o i s e = rw e (dispatch-code i s)

run_instruction-code : (s : Machine) → is_step_code (run_instruction s).0 ≡ true
unfolding run_instruction get_mem_byte
run_instruction-code s =
    let d =
      decode-total (get_mem_byte (cpu_get_effective_pc s.cpu) s.cpu.setacc s).0 (ground arith) in
    opcode-code _ d.0 _ d.1

-- Every call of stepCPU returns CPU_ERR_OK, CPU_ERR_CRASH or CPU_ERR_STP: it never returns
-- CPU_ERR_UNKNOWN_OPCODE, whatever the memory holds.
pub step_cpu-code : (s : Machine) → is_step_code (step_cpu s).0 ≡ true
unfolding step_cpu is_step_code
step_cpu-code s = let r = run_instruction-code s in ground arith
