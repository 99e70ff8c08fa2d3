-- ===== src/Debugger/Command/Devices.antt =====
-- src/debugger/debugger.c, command_execute: `sym`, `cpu`, `break`, `uart` and `mouse`.
pub mod Break
use ce.Base.{
  ℕ, ◌+◌, u32, Bool, true, false, not, ltb, ◌==◌, if◌then◌else◌, Option, none, some, List, [], ◌∷◌,
}
use ce.Cpu.State.{Memory}
use ce.Cpu.Memory.Arrays.{test_mem_flags, set_mem_flags, reset_mem_flags}
use ce.Hw.Uart.{Uart}
use ce.Hw.Uart.Port.{init_port_16c750}
use ce.Debugger.Symbols.{Status, Loader, SymbolTable, line_start, st_load_file}
use ce.Debugger.Parse.{codes, str_eq, is_addr_do_parse, is_dec_do_parse}
use ce.Debugger.Load.{CmdErr}
use ce.Debugger.Command.{Session, Outcome, fail, done, inform, set_cpu, lower}
use ce.Debugger.Command.Register.{Assigned, set_register, assigned, refused}
use ce.Debugger.Command.Named.{World}

-- The switch on the status of a load; the text of the messages is left out.
abbrev pub sym_err : Status → CmdErr
sym_err Status.ok = CmdErr.ok
sym_err Status.missing_delim = CmdErr.special
sym_err Status.missing_value = CmdErr.special
sym_err Status.unexpected_char = CmdErr.special

abbrev pub sym_outcome : Status → Session → Outcome
sym_outcome Status.ok s = done s
sym_outcome e s = fail (sym_err e) s

-- `none` where st_load_file has none.
unfoldable pub cmd_sym : World → List (List ℕ) → Session → Option Outcome
cmd_sym w [] s = some (fail CmdErr.expected_arg s)
cmd_sym w (name ∷ ts) s = elim (w.symbol_file (lower name)) [
  | none ↦ some (fail CmdErr.file_unknown_error s)
  | some chars ↦
      let start : Loader = record {
        st = s.symbol_table;
        phase = line_start;
        ident = [];
        addr = 0;
        linenum = 1;
        done = false;
        err = Status.ok;
      } in
      elim (st_load_file w.ctype w.loads chars start) [
        | none ↦ none
        | some l ↦ some (sym_outcome l.err (record s { symbol_table = l.st }))
      ]
]

abbrev pub cop_status : Session → CmdErr
cop_status s =
    if s.machine.cpu.cop_vect_enable then CmdErr.cop_vec_enabled else CmdErr.cop_vec_disabled

unfoldable pub cmd_cop : List (List ℕ) → Session → Outcome
cmd_cop [] s = fail CmdErr.expected_arg s
cmd_cop (t ∷ ts) s =
    if str_eq (lower t) (codes "enable")
    then inform CmdErr.cop_vec_enabled (set_cpu (λ r. record r { cop_vect_enable = true }) s)
    else if str_eq (lower t) (codes "disable")
    then inform CmdErr.cop_vec_disabled (set_cpu (λ r. record r { cop_vect_enable = true }) s)
    else if str_eq (lower t) (codes "status")
    then inform (cop_status s) s
    else fail CmdErr.unknown_arg s

abbrev pub register_outcome : Assigned → Session → Outcome
register_outcome (assigned m) s = done (record s { machine = m })
register_outcome (refused e) s = fail e s

unfoldable pub cmd_register : List ℕ → List (List ℕ) → Session → Outcome
cmd_register tok [] s = fail CmdErr.expected_value s
cmd_register tok (t ∷ ts) s = elim (is_addr_do_parse t s.symbol_table) [
  | none ↦ fail CmdErr.unknown_sym_or_value s
  | some val ↦ register_outcome (set_register tok val s.machine) s
]

unfoldable pub cmd_cpu : List (List ℕ) → Session → Outcome
cmd_cpu [] s = fail CmdErr.expected_reg s
cmd_cpu (t ∷ ts) s =
    if str_eq (lower t) (codes "cop") then cmd_cop ts s else cmd_register (lower t) ts s

-- MEM_FLAG_B
abbrev pub mem_flag_b : ℕ
mem_flag_b = 4

-- The break point of an address is toggled.
unfoldable pub toggle_break : ℕ → Memory → Memory
toggle_break addr mem =
    if (test_mem_flags mem addr).b
    then reset_mem_flags addr mem_flag_b mem
    else set_mem_flags addr mem_flag_b mem

unfoldable pub cmd_break : List (List ℕ) → Session → Outcome
cmd_break [] s = fail CmdErr.expected_value s
cmd_break (t ∷ ts) s = elim (is_addr_do_parse t s.symbol_table) [
  | none ↦ fail CmdErr.unknown_sym_or_value s
  | some addr ↦
      done (record s { machine = record s.machine { mem = toggle_break addr s.machine.mem } })
]

-- UART_SOCK_PORT
abbrev pub uart_sock_port : ℕ
uart_sock_port = 6501

-- `uart c750`, with its address and its port.
unfoldable pub set_up_uart : World → ℕ → ℕ → Session → Outcome
set_up_uart w addr port s =
    let (e, uart, closed) = init_port_16c750 w.port_calls (record s.uart { addr = addr }) port in
    let off = record s { uart = record uart { enabled = false } } in
    if not (e == 0)
    then fail CmdErr.special off
    else if port == 0
    then inform CmdErr.uart_disabled off
    else done (record s { uart = record uart { enabled = true } })

abbrev pub port_of : List (List ℕ) → Option ℕ
port_of [] = some uart_sock_port
port_of (t ∷ ts) = is_dec_do_parse (lower t)

unfoldable pub cmd_uart : World → List (List ℕ) → Session → Outcome
cmd_uart w [] s = fail CmdErr.expected_arg s
cmd_uart w (device ∷ []) s = fail CmdErr.expected_value s
cmd_uart w (device ∷ t ∷ ts) s = elim (is_addr_do_parse t s.symbol_table) [
  | none ↦ fail CmdErr.unknown_sym_or_value s
  | some addr ↦ elim (port_of ts) [
    | none ↦ fail CmdErr.expected_value s
    | some port ↦
        if ltb 0xffff port
        then fail CmdErr.port_num_invalid s
        else if str_eq (lower device) (codes "c750")
        then set_up_uart w addr port s
        else fail CmdErr.unsupported_device s
  ]
]

unfoldable pub mouse_scroll : List (List ℕ) → Session → Outcome
mouse_scroll [] s = fail CmdErr.expected_arg s
mouse_scroll (t ∷ ts) s =
    if str_eq (lower t) (codes "default")
    then done (record s { invert_mouse_scroll = false })
    else if str_eq (lower t) (codes "reverse")
    then done (record s { invert_mouse_scroll = true })
    else fail CmdErr.unknown_arg s

unfoldable pub cmd_mouse : List (List ℕ) → Session → Outcome
cmd_mouse [] s = fail CmdErr.expected_arg s
cmd_mouse (t ∷ ts) s =
    if str_eq (lower t) (codes "scroll") then mouse_scroll ts s else fail CmdErr.unknown_arg s
