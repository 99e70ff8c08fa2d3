-- ===== src/Tests/Witnesses.antt =====
-- The theorems on single steps and whole runs at inputs that meet their hypotheses.
use ce.Base.{
  List, [], arith, false, if◌then◌else◌, inr, not, of_bool, refl, some, suc, true, u8, ℕ, ◌%◌, ◌&&◌,
  ◌*◌, ◌++◌, ◌+◌, ◌==◌, ◌^◌, ◌||◌, ◌∷◌, ◌≡◌,
}
use ce.Cpu.Ops.Arith.{adc8}
use ce.Cpu.Ops.Arith.Bcd.{IsBcd8, bcd8}
use ce.Cpu.Ops.Arith.Decimal.{adc8-decimal}
use ce.Cpu.Ops.Interrupt.{enter_handler}
use ce.Cpu.Ops.Interrupt.Copy.{dst, mvn-copies, mvns, src}
use ce.Cpu.Ops.Interrupt.Move.{moves, moves-finish}
use ce.Cpu.Ops.Interrupt.Return.{rti-enter_handler}
use ce.Cpu.Ops.Jump.{i_rti}
use ce.Cpu.Registers.{cpu_get_sr}
use ce.Cpu.Step.{handle_interrupts, step_cpu}
use ce.Cpu.Step.Halt.{code_ok, run, step_cpu-halts}
use ce.Cpu.Step.Interrupts.{interrupt-entry, pending_vector}
use ce.Cpu.Step.Opcode.{is_step_code, step_cpu-code}
use ce.Cpu.Valid.{IsValid}
use ce.Cpu.Valid.Step.{step_cpu-IsValid}
use ce.Debugger.Symbols.{SymbolTable, enter, st_resolve_by_addr, st_resolve_by_ident}
use ce.Debugger.Symbols.Enter.{SymbolsOk, enter-resolves, or_new}
use ce.Hw.CircBuf.Refine.{contents}
use ce.Hw.Uart.Receive.{UartOk}
use ce.Hw.Uart.Received.{step_16c750-waiting, waiting}
use ce.Hw.Uart.Step.{step_16c750}
use ce.Tests.Containers.{
  exact, exact-PlatformOk, exact_loads, exact_loads-LoadOk, long_name, map_ops, no_symbols,
  no_symbols-SymbolsOk, one_byte_in, one_symbol, pop_call, start_table, start_table-TableOk,
  two_items, two_items-ArrayOk, uart_connected, uart_connected-UartOk, uart_mem,
}
use ce.Tests.Machines.{boot, boot-IsValid, decimal, native, native-IsValid, pending, stopped}
use ce.Util.Hashtable.{Table}
use ce.Util.Hashtable.Calls.{ht_get, ht_put}
use ce.Util.Hashtable.Hash.{ht_hash_string, ht_sget, ht_sput}
use ce.Util.Hashtable.Load.{IsLight}
use ce.Util.Hashtable.Map.{run_map, run_table, run_table-run_map, sget-same_suffix}
use ce.Util.Hashtable.Refine.{ht_put-get}
use ce.Util.Hashtable.Slots.{TableOk}
use ce.Util.Stack.Refine.{call_stack_refines}
use ce.Util.Stack.Spec.{Step, call_stack, refused}
use ce.Util.Stack.Table.{ArrayOk, items}

step_cpu-IsValid_example : IsValid (step_cpu boot).1.cpu
step_cpu-IsValid_example = step_cpu-IsValid boot boot-IsValid

step_cpu-code_example : is_step_code (step_cpu boot).0 ≡ true
step_cpu-code_example = step_cpu-code boot

step_cpu-halts_example :
    let r = step_cpu stopped in
    if code_ok r.0 then r.1.cpu.p_crash ≡ false else step_cpu (run 3 r.1) ≡ (r.0, r.1)
step_cpu-halts_example = step_cpu-halts stopped 3

run_table-run_map_example :
    run_table exact_loads start_table map_ops ≡ some (run_map (ht_get start_table) map_ops)
run_table-run_map_example =
    run_table-run_map exact_loads map_ops start_table exact_loads-LoadOk start_table-TableOk refl

sget-same_suffix_example :
    (t' : Table ℕ) × (ht_sput exact_loads true start_table ((1 ∷ []) ++ long_name) 5
      ≡ some (false, t'))
    × (ht_sget t' ((2 ∷ 3 ∷ []) ++ long_name) ≡ some 5)
sget-same_suffix_example =
    sget-same_suffix exact_loads start_table (1 ∷ []) (2 ∷ 3 ∷ []) long_name 5 exact_loads-LoadOk
      start_table-TableOk refl (omega arith)

step_16c750-waiting_example :
    let u = (step_16c750 one_byte_in uart_connected uart_mem).uart in
    (contents u.rx_buf ≡ waiting one_byte_in uart_connected uart_mem) × UartOk u
step_16c750-waiting_example =
    step_16c750-waiting one_byte_in uart_connected uart_mem uart_connected-UartOk

call_stack_refines_example :
    let r = call_stack exact two_items pop_call in
    ArrayOk r.2
    × Step (refused exact two_items pop_call) (items two_items) pop_call (r.0, r.1) (items r.2)
call_stack_refines_example =
    call_stack_refines exact two_items pop_call exact-PlatformOk two_items-ArrayOk refl

mvn-copies_example :
    ((mvns (suc 2) native).mem.val (dst native + 1) ≡ u8 (native.mem.val (src native + 1)))
    × ((mvns (suc 2) native).mem.val 0x50 ≡ native.mem.val 0x50)
mvn-copies_example =
    mvn-copies 2 1 native 0x50 native-IsValid (ground arith) (omega arith) (omega arith)
      (inr (omega arith))

moves-finish_example :
    let r = (moves 1 (suc native.cpu.c) native).cpu in
    (r.c ≡ 0xffff)
    × (r.x ≡ (native.cpu.x + suc native.cpu.c * 1) % 2 ^ 16)
    × (r.y ≡ (native.cpu.y + suc native.cpu.c * 1) % 2 ^ 16)
    × (r.pc ≡ (native.cpu.pc + 3) % 2 ^ 16)
moves-finish_example = moves-finish 1 native native-IsValid (omega arith)

rti-enter_handler_example :
    let r = (i_rti (enter_handler (λ v. v) 0xfffe 0xffe6 native).1).1.cpu in
    (r.pc ≡ native.cpu.pc)
    × (r.pbr ≡ native.cpu.pbr)
    × (r.sp ≡ native.cpu.sp)
    × (cpu_get_sr r ≡ cpu_get_sr native.cpu)
rti-enter_handler_example = rti-enter_handler (λ v. v) 0xfffe 0xffe6 native native-IsValid refl

interrupt-entry_example :
    let r = (handle_interrupts pending).1 in
    let v = pending_vector pending.cpu in
    if pending.cpu.p_nmi || pending.cpu.p_irq && not pending.cpu.p_i
    then (r.cpu.pc ≡ u8 (r.mem.val v) + u8 (r.mem.val (v + 1)) * 2 ^ 8)
      × (r.cpu.pbr ≡ 0)
      × (r.cpu.p_d ≡ false)
      × (r.cpu.p_nmi ≡ false)
      × (r.cpu.p_irq ≡ (pending.cpu.p_nmi && pending.cpu.p_irq))
      × (r.cpu.p_i ≡ (pending.cpu.p_i || not pending.cpu.p_nmi))
    else r ≡ pending
interrupt-entry_example = interrupt-entry pending

enter-resolves_example :
    (st' : SymbolTable) × (enter exact_loads one_symbol no_symbols ≡ some st')
    × SymbolsOk exact_loads st'
    × ((a : ℕ)
        → st_resolve_by_addr st' a ≡ (
            if a == one_symbol.addr
            then or_new (st_resolve_by_addr no_symbols a) (some one_symbol)
            else st_resolve_by_addr no_symbols a))
    × ((s : List ℕ)
        → st_resolve_by_ident st' s ≡ (
            if ht_hash_string s == ht_hash_string one_symbol.ident
            then or_new (st_resolve_by_ident no_symbols s) (some one_symbol)
            else st_resolve_by_ident no_symbols s))
enter-resolves_example =
    enter-resolves exact_loads no_symbols one_symbol exact_loads-LoadOk no_symbols-SymbolsOk

adc8-decimal_example :
    let r = (adc8 0x99 decimal).1.cpu in
    IsBcd8 r.c
    × (bcd8 r.c + of_bool r.p_c * 100 ≡ bcd8 decimal.cpu.c + bcd8 0x99 + of_bool decimal.cpu.p_c)
adc8-decimal_example =
    adc8-decimal 0x99 decimal refl ((omega arith, omega arith)) ((omega arith, omega arith))

ht_put-get_example :
    (t' : Table ℕ) × (ht_put exact_loads true start_table 9 5 ≡ some (false, t'))
    × TableOk t'
    × IsLight exact_loads t'
    × ((k : ℕ) → ht_get t' k ≡ (if k == 9 then some 5 else ht_get start_table k))
ht_put-get_example =
    ht_put-get exact_loads start_table 9 5 exact_loads-LoadOk start_table-TableOk refl
