-- ===== src/Debugger/Keys.antt =====
-- src/debugger/debugger.c, main: what the event loop does with a key. The display, the mouse and the
-- signals are left out.
use ce.Base.{
  ℕ, ◌+◌, u16, Bool, true, false, not, ◌&&◌, ◌||◌, ◌==◌, if◌then◌else◌, Option, none, some, List,
}
use ce.Cpu.State.{Machine}
use ce.Cpu.Registers.{cpu_get_effective_pc}
use ce.Cpu.Step.{step_cpu, reset_cpu}
use ce.Util.Stack.{Platform}
use ce.Debugger.Disassembler.Size.{get_opcode_size}
use ce.Debugger.Load.{CmdErr}
use ce.Debugger.Command.{Session, Outcome, CmdStatus, set_cpu}
use ce.Debugger.Command.Named.{World}
use ce.Debugger.Command.Devices.{toggle_break}
use ce.Debugger.Command.Execute.{command_execute}
use ce.Debugger.Entry.{CmdData, command_entry, command_clear, typed, key_cr}
use ce.Debugger.History.{Hist, update_cpu_hist}
use ce.Debugger.Watch.{ScrollDir, scroll_window, scroll_down, scroll_up}

-- The variables of main that live on from round to round; `win_msg` is whether a message is shown.
pub record Ui : Type 0 where
  pub session : Session
  pub cmd_data : CmdData
  pub inst_hist : Hist
  pub in_run_mode : Bool
  pub run_mode_step_count : ℕ
  pub prev_c : Option ℕ
  pub cmd_exit : Bool
  pub win_msg : Bool

-- The keys of ncurses, `KEY_F(n)` and KEY_RESIZE, KEY_MOUSE, and those of debugger.h.
abbrev pub key_f : ℕ → ℕ
key_f n = 0x108 + n

abbrev pub key_escape : ℕ
key_escape = 27

abbrev pub key_ctrl_x : ℕ
key_ctrl_x = 24

abbrev pub is_key : ℕ → Option ℕ → Bool
is_key k none = false
is_key k (some c) = c == k

abbrev pub machine_of : Ui → Machine
machine_of ui = ui.session.machine

abbrev pub with_machine : Machine → Ui → Ui
with_machine m ui = record ui { session = record ui.session { machine = m } }

-- update_cpu_hist on the processor as it is now.
abbrev pub record_hist : Bool → Ui → Ui
record_hist replace ui = record ui {
  inst_hist = update_cpu_hist ui.inst_hist (machine_of ui) replace;
}

-- stepCPU, and its entry in the history.
unfoldable pub step_ui : Ui → Ui
step_ui ui = record_hist false (with_machine (step_cpu (machine_of ui)).1 ui)

-- F6: the instruction is skipped.
unfoldable pub skip_instruction : Ui → Option Ui
skip_instruction ui = elim (get_opcode_size (machine_of ui)) [
  | none ↦ none
  | some size ↦
      let m = machine_of ui in
      some (
        record_hist true
          (with_machine (record m { cpu = record m.cpu { pc = u16 (m.cpu.pc + size) } }) ui))
]

-- What becomes of the result of a command.
unfoldable pub finish_command : Outcome → Ui → Ui
finish_command o ui =
    let ui' = record ui { session = o.session } in
    let cleared = record ui' { cmd_data = command_clear ui'.cmd_data } in
    elim o.status [
      | CmdErr.exit ↦ record ui' { cmd_exit = true }
      | _ ↦ elim o.stat [
        | CmdStatus.ok ↦ record_hist true cleared
        | CmdStatus.info ↦ record cleared { win_msg = true }
        | CmdStatus.err ↦ record ui' { win_msg = true }
      ]
    ]

-- The key goes to the command line, which may run a command.
unfoldable pub enter_key : World → Platform (List ℕ) → ℕ → Ui → Option Ui
enter_key w p c ui =
    let (run, d) = command_entry p c ui.cmd_data in
    let ui' = record ui { cmd_data = d } in
    if not run then some ui' else elim (command_execute w (typed d) d.cmdbuf_index ui.session) [
      | none ↦ none
      | some o ↦ some (finish_command o ui')
    ]

-- `ALT` with `n` or `p` scrolls the selected watch window.
unfoldable pub scroll_selected : ℕ → Ui → Ui
scroll_selected c ui =
    let s = ui.session in
    let scroll = λ (dir : ScrollDir).
      if s.watch1.is_selected
      then record ui { session = record s { watch1 = scroll_window dir s.watch1 } }
      else record ui { session = record s { watch2 = scroll_window dir s.watch2 } } in
    if c == 0x6e then scroll scroll_down else if c == 0x70 then scroll scroll_up else ui

unfoldable pub switch_selected : Ui → Ui
switch_selected ui =
    let s = ui.session in
    let first = s.watch1.is_selected in
    record ui {
      session = record s {
        watch1 = record s.watch1 { is_selected = not first };
        watch2 = record s.watch2 { is_selected = first };
      };
    }

-- The `default` case.
unfoldable pub other_key : World → Platform (List ℕ) → ℕ → Ui → Option Ui
other_key w p c ui =
    if ui.win_msg
    then some (if c == key_cr || c == key_escape then record ui { win_msg = false } else ui)
    else if is_key key_escape ui.prev_c
    then some (scroll_selected c ui)
    else if c == key_escape
    then some ui
    else if is_key key_ctrl_x ui.prev_c && c == 0x6f
    then some (switch_selected ui)
    else enter_key w p c ui

-- The switch on the key.
unfoldable pub handle_key : World → Platform (List ℕ) → ℕ → Ui → Option Ui
handle_key w p c ui =
    let m = machine_of ui in
    let s = ui.session in
    if c == 3 || c == key_ctrl_x || c == 0x19a || c == 0x199
    then some ui
    else if c == key_f 1
    then some (with_machine (record m { mem = toggle_break (cpu_get_effective_pc m.cpu) m.mem }) ui)
    else if c == key_f 2
    then some (record ui { session = set_cpu (λ r. record r { p_irq = not r.p_irq }) s })
    else if c == key_f 3
    then some (record ui { session = set_cpu (λ r. record r { p_nmi = not r.p_nmi }) s })
    else if c == key_f 4
    then some (record ui { in_run_mode = false })
    else if c == key_f 5
    then some (record ui { in_run_mode = true; run_mode_step_count = 0 })
    else if c == key_f 6
    then (if not ui.in_run_mode then skip_instruction ui else some ui)
    else if c == key_f 7
    then some (if not ui.in_run_mode then step_ui ui else ui)
    else if c == key_f 9
    then some (record (record_hist false (record ui { session = set_cpu reset_cpu s })) {
      in_run_mode = false;
    })
    else if c == key_f 12
    then some ui
    else if c == 7
    then some (record ui { cmd_data = command_clear ui.cmd_data })
    else if c == 0x3f
    then some (record ui { win_msg = true })
    else other_key w p c ui
