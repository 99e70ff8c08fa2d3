-- ===== src/Debugger/Loop.antt =====
-- src/debugger/debugger.c, main: a round of the event loop. `none` for a key is ERR, when none is
-- pressed.
pub mod Serial
pub mod Running
use ce.Base.{
  ℕ, zero, suc, ◌+◌, u16, Bool, true, false, not, ◌&&◌, ◌||◌, ◌==◌, if◌then◌else◌, Option, none,
  some, List, [], ◌∷◌,
}
use ce.Cpu.State.{Cpu, Machine, ErrorCode}
use ce.Cpu.Memory.Arrays.{test_mem_flags}
use ce.Cpu.Registers.{cpu_get_effective_pc}
use ce.Cpu.Step.{step_cpu, reset_cpu}
use ce.Hw.Uart.{Socket}
use ce.Hw.Uart.Step.{Pass, step_16c750}
use ce.Util.Stack.{Platform}
use ce.Debugger.Disassembler.Size.{get_opcode_size}
use ce.Debugger.Load.{CmdErr}
use ce.Debugger.Command.{Session, Outcome, CmdStatus, set_cpu}
use ce.Debugger.Command.Named.{World}
use ce.Debugger.Command.Devices.{toggle_break}
use ce.Debugger.Command.Execute.{command_execute}
use ce.Debugger.Entry.{CmdData, command_entry, command_clear, typed, key_cr}
use ce.Debugger.History.{Hist, update_cpu_hist}
use ce.Debugger.Watch.{ScrollDir, scroll_window, scroll_down, scroll_up}
use ce.Debugger.Keys.{Ui, key_f, key_escape, key_ctrl_x, is_key, machine_of, step_ui, handle_key}

-- RUN_MODE_STEPS_UNTIL_DISP_UPDATE
abbrev pub steps_until_update : ℕ
steps_until_update = 9463

unfoldable pub run_mode : Ui → Ui
unfolding step_ui
run_mode ui =
    if ui.in_run_mode
    then (let n = ui.run_mode_step_count + 1 in
        record (step_ui ui) { run_mode_step_count = if n == steps_until_update then 0 else n })
    else ui

unfoldable pub check_break : Ui → Ui
check_break ui =
    let m = machine_of ui in
    if (test_mem_flags m.mem (cpu_get_effective_pc m.cpu)).b
    then record ui { in_run_mode = false }
    else ui

-- The UART is stepped, and its result becomes the IRQ line.
unfoldable pub serve_uart : Socket → Ui → Ui
serve_uart sock ui =
    let s = ui.session in
    let m = machine_of ui in
    if s.uart.enabled
    then (let q = step_16c750 sock s.uart m.mem in
        record ui {
          session = record s {
            uart = q.uart;
            machine = record { cpu = record m.cpu { p_irq = q.irq }; mem = q.mem };
          };
        })
    else ui

-- A crash or a reset ends the run mode, unless the key has a status of its own.
unfoldable pub check_status : Option ℕ → Ui → Ui
check_status c ui =
    let r = (machine_of ui).cpu in
    if is_key (key_f 12) c || is_key key_escape c || is_key key_ctrl_x c
    then ui
    else if r.p_crash || r.p_rst
    then record ui { in_run_mode = false }
    else ui

abbrev pub keep_key : Option ℕ → Ui → Ui
keep_key none ui = ui
keep_key (some c) ui = record ui { prev_c = some c }

abbrev pub press : World → Platform (List ℕ) → Option ℕ → Ui → Option Ui
press w p none ui = some ui
press w p (some c) ui = handle_key w p c ui

-- A round, with the key and with what the socket calls of its step of the UART give.
unfoldable pub round : World → Platform (List ℕ) → Option ℕ → Socket → Ui → Option Ui
round w p c sock ui = elim (press w p c ui) [
  | none ↦ none
  | some ui' ↦ some (keep_key c (check_status c (serve_uart sock (check_break (run_mode ui')))))
]
