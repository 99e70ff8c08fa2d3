-- ===== src/Tests/MoreWitnesses.antt =====
-- The theorems on the stack, the memory, the registers and the shifts at inputs that meet their
-- hypotheses.
use ce.Base.{
  [], arith, bit, false, if◌then◌else◌, low_byte, ltb, none, not, of_bool, refl, some, true, u8, ℕ,
  ◌%◌, ◌*◌, ◌++◌, ◌+◌, ◌-◌, ◌<◌, ◌==◌, ◌^◌, ◌∷◌, ◌≡◌, ◌≤◌,
}
use ce.Cpu.Address.Bounds.{address-IsAddress}
use ce.Cpu.Address.Result.{IsAddress}
use ce.Cpu.Execute.{address}
use ce.Cpu.Instr.{Operand}
use ce.Cpu.Memory.{byte_at}
use ce.Cpu.Ops.Arith.{adc16, adc8, sbc16, sbc8}
use ce.Cpu.Ops.Arith.Bcd.{IsBcd16, IsBcd8, bcd16, bcd8}
use ce.Cpu.Ops.Arith.Binary.{sbc-compare_carry}
use ce.Cpu.Ops.Arith.Decimal.{sbc8-decimal}
use ce.Cpu.Ops.Arith.Decimal16.{adc16-decimal}
use ce.Cpu.Ops.Arith.Overflow.{adc8-overflow, biased}
use ce.Cpu.Ops.Branch.{branch_if, i_bra}
use ce.Cpu.Ops.Branch.Target.{branch-target, branch_target}
use ce.Cpu.Ops.Compare.{compare16, compare8}
use ce.Debugger.Disassembler.{Opcode}
use ce.Debugger.Disassembler.Agree.{
  inst_differs, mode_differs, opcode_table-decode, same_inst, same_mode,
}
use ce.Debugger.Disassembler.Size.{opcode_at}
use ce.Debugger.Symbols.{before_value, newline, st_load_file}
use ce.Debugger.Symbols.Values.{decimal-as_hex}
use ce.Hw.CircBuf.{circ_buf_is_empty}
use ce.Hw.CircBuf.Queue.{run_circ_buf, run_queue}
use ce.Hw.CircBuf.Refine.{contents, run_refines}
use ce.Hw.Uart.Interrupt.{step_16c750-status}
use ce.Hw.Uart.Received.{check_rbr-shown}
use ce.Hw.Uart.Step.{check_rbr, irq_active, reg_addr, show_rbr, step_16c750}
use ce.Tests.Containers.{
  ascii, ascii-CtypeOk, at_value, bit_dpx, decode_34, exact_loads, exact_loads-LoadOk, fifo,
  fifo-CircBufOk, fifo_ops, one_byte_in, start_table, start_table-TableOk, uart_connected,
  uart_connected-UartOk, uart_mem, uart_pass,
}
use ce.Tests.Machines.{boot, boot-IsValid, decimal, negative}
use ce.Util.Hashtable.{Table}
use ce.Util.Hashtable.Calls.{ht_get, ht_remove}
use ce.Util.Hashtable.Load.{IsLight}
use ce.Util.Hashtable.Refine.{ht_remove-get}
use ce.Util.Hashtable.Slots.{TableOk}

ht_remove-get_example :
    (t' : Table ℕ) × (ht_remove exact_loads start_table 9 ≡ some (ht_get start_table 9, t'))
    × TableOk t'
    × IsLight exact_loads t'
    × ((k : ℕ) → ht_get t' k ≡ (if k == 9 then none else ht_get start_table k))
ht_remove-get_example =
    ht_remove-get exact_loads start_table 9 exact_loads-LoadOk start_table-TableOk refl

opcode_table-decode_example :
    (o : Opcode) × (opcode_at 0x34 ≡ some o)
    × (same_inst bit_dpx o ≡ not (inst_differs 0x34))
    × (same_mode bit_dpx o ≡ not (mode_differs 0x34))
opcode_table-decode_example = opcode_table-decode 0x34 bit_dpx decode_34

run_refines_example : run_circ_buf fifo fifo_ops ≡ run_queue (contents fifo) fifo_ops
run_refines_example = run_refines fifo_ops fifo fifo-CircBufOk

step_16c750-status_example :
    let q = step_16c750 one_byte_in uart_connected uart_mem in
    let iir = byte_at q.mem (reg_addr q.uart 2) in
    let lsr = byte_at q.mem (reg_addr q.uart 5) in
    (q.irq ≡ irq_active q.uart)
    × (bit iir 0 ≡ not q.irq)
    × (bit lsr 0 ≡ not (circ_buf_is_empty q.uart.rx_buf))
    × (bit lsr 5 ≡ circ_buf_is_empty q.uart.tx_buf)
    × (bit lsr 6 ≡ circ_buf_is_empty q.uart.tx_buf)
step_16c750-status_example = step_16c750-status one_byte_in uart_connected uart_mem

adc16-decimal_example :
    let r = (adc16 0x9999 decimal).1.cpu in
    IsBcd16 r.c
    × (bcd16 r.c + of_bool r.p_c * 10000
        ≡ bcd16 decimal.cpu.c + bcd16 0x9999 + of_bool decimal.cpu.p_c)
adc16-decimal_example =
    adc16-decimal 0x9999 decimal refl ((omega arith, omega arith, omega arith, omega arith))
      ((omega arith, omega arith, omega arith, omega arith))

sbc8-decimal_example :
    let r = (sbc8 0x55 decimal).1.cpu in
    IsBcd8 r.c × (bcd8 r.c ≡ (bcd8 decimal.cpu.c + of_bool decimal.cpu.p_c + 99 - bcd8 0x55) % 100)
sbc8-decimal_example =
    sbc8-decimal 0x55 decimal refl ((omega arith, omega arith)) ((omega arith, omega arith))

sbc-compare_carry_example :
    ((sbc8 0x35 boot).1.cpu.p_c ≡ not (compare8 boot.cpu.c 0x35 boot).1.cpu.p_c)
    × ((sbc8 0x35 boot).1.cpu.p_z ≡ (compare8 boot.cpu.c 0x35 boot).1.cpu.p_z)
    × ((sbc16 0x1235 boot).1.cpu.p_c ≡ not (compare16 boot.cpu.c 0x1235 boot).1.cpu.p_c)
    × ((sbc16 0x1235 boot).1.cpu.p_z ≡ (compare16 boot.cpu.c 0x1235 boot).1.cpu.p_z)
sbc-compare_carry_example =
    sbc-compare_carry 0x35 0x1235 boot refl refl (omega arith) (omega arith) (omega arith)

branch-target_example :
    let f = (branch_if false boot).1 in
    let t = (branch_if true boot).1 in
    let a = (i_bra boot).1 in
    (f.cpu.pc ≡ (boot.cpu.pc + 2) % 2 ^ 16)
    × (t.cpu.pc ≡ branch_target boot)
    × (a.cpu.pc ≡ branch_target boot)
    × (t.cpu.pbr ≡ boot.cpu.pbr)
    × (t.cpu.sp ≡ boot.cpu.sp)
    × (t.mem.val ≡ boot.mem.val)
branch-target_example = branch-target boot boot-IsValid

address-IsAddress_example :
    IsAddress false boot
      (address (Operand.absolute) false boot).0
      (address (Operand.absolute) false boot).1
address-IsAddress_example = address-IsAddress (Operand.absolute) false boot boot-IsValid

adc8-overflow_example :
    ((adc8 0x70 negative).1.cpu.p_v
      ≡ ltb 127 (low_byte negative.cpu.c + 0x70 + of_bool negative.cpu.p_c))
    × ((adc8 0x70 negative).1.cpu.p_v ≡ true)
    × (128 ≤ biased (low_byte negative.cpu.c) + biased 0x70 + of_bool negative.cpu.p_c)
    × (biased (low_byte negative.cpu.c) + biased 0x70 + of_bool negative.cpu.p_c < 384)
adc8-overflow_example = adc8-overflow 0x70 negative refl (omega arith) (omega arith)

check_rbr-shown_example :
    let r = check_rbr (show_rbr uart_pass) in
    (byte_at r.mem (reg_addr uart_pass.uart 0) ≡ u8 62)
    × (contents r.uart.rx_buf ≡ (
        if uart_pass.mem.acc_r (reg_addr uart_pass.uart 0)
        then (63 ∷ 0 ∷ [])
        else 62 ∷ (63 ∷ 0 ∷ [])))
check_rbr-shown_example = check_rbr-shown uart_pass 62 (63 ∷ 0 ∷ []) uart_connected-UartOk refl

decimal-as_hex_example :
    let start = record at_value { phase = before_value; addr = 0; done = false } in
    st_load_file ascii exact_loads (0x31 ∷ (0x30 ∷ []) ++ newline ∷ ([])) start
    ≡ st_load_file ascii exact_loads (0x24 ∷ 0x31 ∷ (0x30 ∷ []) ++ newline ∷ ([])) start
decimal-as_hex_example =
    decimal-as_hex ascii exact_loads 0x31 (0x30 ∷ []) ([]) 0 at_value ascii-CtypeOk
      ((refl, (refl, tt)))
