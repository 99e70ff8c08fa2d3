-- ===== src/Debugger/Command/Named.antt =====
-- src/debugger/debugger.c, command_execute: the named commands, on the tokens that follow the name.
use ce.Base.{ℕ, Bool, true, false, not, ltb, if◌then◌else◌, Option, none, some, List, [], ◌∷◌}
use ce.Cpu.Text.{tostr_cpu}
use ce.Debugger.Load.Processor.{load_file_cpu}
use ce.Cpu.Memory.Arrays.{save_mem_arr}
use ce.Hw.Uart.Port.{PortCalls}
use ce.Util.Hashtable.{LoadTests}
use ce.Debugger.Symbols.{Ctype, SymbolTable}
use ce.Debugger.Parse.{codes, str_eq, is_addr_do_parse}
use ce.Debugger.Load.{CmdErr, File, basic_bin_block, llvm_mos_sim, load_file_mem}
use ce.Debugger.Command.{
  CmdStatus, Watch, Session, Saved, image, text, Outcome, fail, done, set_cpu, lower,
}

-- What the environment gives to the commands: the file of a path, for writing also whether it can be
-- opened and written; the characters of a symbol file; the socket calls; and what the variables of
-- fromstrCPU hold before it sets them.
pub record World : Type 0 where
  pub file : List ℕ → File
  pub creates : List ℕ → Bool
  pub buffer_given : Bool
  pub write_fails : Bool
  pub symbol_file : List ℕ → Option (List ℕ)
  pub port_calls : PortCalls
  pub locals : ℕ → ℕ
  pub ctype : Ctype
  pub loads : LoadTests

unfoldable pub cmd_irq : List (List ℕ) → Session → Outcome
cmd_irq [] s = fail CmdErr.expected_arg s
cmd_irq (t ∷ ts) s =
    if str_eq (lower t) (codes "set")
    then done (set_cpu (λ r. record r { p_irq = true }) s)
    else if str_eq (lower t) (codes "clear")
    then done (set_cpu (λ r. record r { p_irq = false }) s)
    else fail CmdErr.unknown_arg s

unfoldable pub cmd_nmi : List (List ℕ) → Session → Outcome
cmd_nmi [] s = fail CmdErr.expected_arg s
cmd_nmi (t ∷ ts) s =
    if str_eq (lower t) (codes "set")
    then done (set_cpu (λ r. record r { p_nmi = true }) s)
    else if str_eq (lower t) (codes "clear")
    then done (set_cpu (λ r. record r { p_nmi = false }) s)
    else fail CmdErr.unknown_arg s

-- One argument of `mw1` or `mw2`. An address is stored before it is tested.
unfoldable pub watch_arg : SymbolTable → List ℕ → Watch → CmdErr × Watch
watch_arg st t w =
    if str_eq (lower t) (codes "mem")
    then (CmdErr.ok, record w { disasm_mode = false })
    else if str_eq (lower t) (codes "asm")
    then (CmdErr.ok, record w { disasm_mode = true })
    else if str_eq (lower t) (codes "pc")
    then (CmdErr.ok, record w { follow_pc = true })
    else if str_eq (lower t) (codes "addr")
    then (CmdErr.ok, record w { follow_pc = false })
    else elim (is_addr_do_parse t st) [
      | none ↦ (CmdErr.unknown_sym_or_value, w)
      | some val ↦
          (if ltb 0xffffff val then CmdErr.val_overflow else CmdErr.ok, record w { addr_s = val })
    ]

abbrev pub is_ok : CmdErr → Bool
is_ok CmdErr.ok = true
is_ok _ = false

unfoldable pub watch_args : SymbolTable → List (List ℕ) → Watch → CmdErr × Watch
watch_args st [] w = (CmdErr.ok, w)
watch_args st (t ∷ ts) w =
    let (e, w') = watch_arg st t w in
    let rest = watch_args st ts w' in if is_ok e then rest else (e, w')

-- `put` stores the watch that the command names.
unfoldable pub cmd_watch : Watch → (Watch → Session) → List (List ℕ) → Session → Outcome
cmd_watch w put [] s = fail CmdErr.expected_arg s
cmd_watch w put (t ∷ ts) s =
    let (e, w') = watch_args s.symbol_table (t ∷ ts) w in
    if is_ok e then done (put w') else fail e (put w')

abbrev pub with_saved : Saved → Outcome → Outcome
with_saved x o = record o { saved = some x }

-- The text of the processor goes through a buffer of 160 characters; behind them the code writes
-- over what else is on the stack.
unfoldable pub cmd_save : World → List (List ℕ) → Session → Outcome
cmd_save w [] s = fail CmdErr.expected_arg s
cmd_save w (t ∷ []) s = fail CmdErr.expected_filename s
cmd_save w (t ∷ name ∷ ts) s =
    if str_eq (lower t) (codes "mem")
    then (if not (w.creates (lower name))
        then fail CmdErr.file_io_error s
        else if not w.buffer_given
        then fail CmdErr.out_of_mem s
        else if w.write_fails
        then fail CmdErr.file_io_error s
        else with_saved (image (save_mem_arr s.machine.mem (λ _. 0) 0 0x1000000)) (done s))
    else if str_eq (lower t) (codes "cpu")
    then (if not (w.creates (lower name))
        then fail CmdErr.file_io_error s
        else with_saved (text (tostr_cpu s.machine.cpu)) (done s))
    else fail CmdErr.expected_arg s

-- The memory after load_file_mem.
unfoldable pub load_mem_at : World → List ℕ → Bool → ℕ → Session → Option Outcome
load_mem_at w name mos base_addr s =
    elim (load_file_mem (w.file name) base_addr (if mos then llvm_mos_sim else basic_bin_block)
      s.machine.mem) [
        | none ↦ none
        | some (e, m) ↦ some record {
          stat = if is_ok e then CmdStatus.ok else CmdStatus.err;
          status = e;
          session = record s { machine = record s.machine { mem = m } };
          saved = none;
        }
      ]

-- `none` where the code computes with a null pointer. With a base address the name of the file is
-- that of the lower-case copy.
unfoldable pub load_mem : World → Bool → List (List ℕ) → Session → Option Outcome
load_mem w mos [] s = none
load_mem w mos (t ∷ ts) s = elim (is_addr_do_parse t s.symbol_table) [
  | none ↦ load_mem_at w t mos 0 s
  | some base_addr ↦ if ltb 0xffffff base_addr then some (fail CmdErr.val_overflow s) else elim ts [
    | [] ↦ some (fail CmdErr.expected_filename s)
    | name ∷ _ ↦ load_mem_at w (lower name) mos base_addr s
  ]
]

unfoldable pub load_cpu : World → List (List ℕ) → Session → Outcome
load_cpu w [] s = fail CmdErr.expected_filename s
load_cpu w (name ∷ ts) s =
    let (e, r) = load_file_cpu w.locals (w.file (lower name)) s.machine.cpu in
    record {
      stat = if is_ok e then CmdStatus.ok else CmdStatus.err;
      status = e;
      session = set_cpu (λ _. r) s;
      saved = none;
    }

unfoldable pub cmd_load : World → List (List ℕ) → Session → Option Outcome
cmd_load w [] s = some (fail CmdErr.expected_arg s)
cmd_load w (t ∷ ts) s =
    if str_eq (lower t) (codes "mem")
    then elim ts [
      | [] ↦ some (fail CmdErr.expected_arg s)
      | u ∷ us ↦
          if str_eq (lower u) (codes "mos")
          then load_mem w true us s
          else load_mem w false (u ∷ us) s
    ]
    else if str_eq (lower t) (codes "cpu")
    then some (load_cpu w ts s)
    else some (fail CmdErr.unknown_arg s)
