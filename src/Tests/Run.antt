-- ===== src/Tests/Run.antt =====
-- The model run on concrete machines.
use ce.Base.{◌≡◌, refl}
use ce.Cpu.State.{ErrorCode, one_of}
use ce.Cpu.Memory.{get_mem_byte, set_mem_byte, update, addr_add_val_bank_wrap}
use ce.Cpu.Registers.{cpu_get_effective_pc, cpu_update_pc, cpu_get_immd_byte}
use ce.Cpu.Address.{get_immediate, get_relative8}
use ce.Cpu.Decode.{decode}
use ce.Cpu.Execute.{execute, memory_op, plain_op, address}
use ce.Cpu.Ops.Arith.{i_adc, adc8, arith_cycles}
use ce.Cpu.Ops.Branch.{i_bra}
use ce.Cpu.Ops.Common.{page_cycle, set_nz8}
use ce.Cpu.Step.{step_cpu, run_instruction, dispatch, handle_interrupts}
use ce.Cpu.Step.Halt.{run}
use ce.Cpu.Ops.Interrupt.{move_byte}
use ce.Cpu.Ops.Interrupt.Move.{moves}
use ce.Tests.Machines.{boot, native, stopped}

adc_result : (step_cpu boot).1.cpu.c ≡ 0x1285
unfolding step_cpu run_instruction dispatch decode get_mem_byte cpu_get_effective_pc execute
    memory_op i_adc cpu_update_pc arith_cycles one_of page_cycle address get_immediate adc8 set_nz8
    handle_interrupts addr_add_val_bank_wrap
adc_result = refl

adc_pc : (step_cpu boot).1.cpu.pc ≡ 0x1002
unfolding step_cpu run_instruction dispatch decode get_mem_byte cpu_get_effective_pc execute
    memory_op i_adc cpu_update_pc arith_cycles one_of page_cycle address get_immediate adc8 set_nz8
    handle_interrupts addr_add_val_bank_wrap
adc_pc = refl

branch_back : (run 2 boot).cpu.pc ≡ 0x1000
unfolding run step_cpu run_instruction dispatch decode get_mem_byte cpu_get_effective_pc execute
    memory_op plain_op i_adc i_bra get_relative8 cpu_update_pc arith_cycles one_of page_cycle
    address get_immediate adc8 set_nz8 handle_interrupts addr_add_val_bank_wrap cpu_get_immd_byte
branch_back = refl

stopped_code : (step_cpu stopped).0 ≡ ErrorCode.stp
unfolding step_cpu
stopped_code = refl

moved_byte : (moves 1 3 native).mem.val 0x41 ≡ 22
unfolding moves move_byte get_immediate cpu_get_effective_pc cpu_update_pc get_mem_byte set_mem_byte
    update addr_add_val_bank_wrap
moved_byte = refl
