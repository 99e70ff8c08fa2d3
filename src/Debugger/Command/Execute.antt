-- ===== src/Debugger/Command/Execute.antt =====
-- src/debugger/debugger.c, command_execute: which command a line is.
use ce.Base.{ℕ, Bool, false, ◌||◌, ◌==◌, if◌then◌else◌, Option, none, some, List, [], ◌∷◌}
use ce.Debugger.Parse.{codes, str_eq}
use ce.Debugger.Load.{CmdErr}
use ce.Debugger.Command.{Session, Outcome, CmdStatus, done, inform, lower, tokens}
use ce.Debugger.Command.Named.{World, cmd_irq, cmd_nmi, cmd_watch, cmd_save, cmd_load}
use ce.Debugger.Command.Devices.{cmd_sym, cmd_cpu, cmd_break, cmd_uart, cmd_mouse}
use ce.Debugger.Command.Store.{skip_space, cmd_store}

abbrev pub starts_comment : List ℕ → Bool
starts_comment [] = false
starts_comment (c ∷ t) = c == 0x23

-- The command with the name `tok` on the tokens `ts` behind it; `line` is the command as typed.
unfoldable pub named : World → List ℕ → List ℕ → List (List ℕ) → Session → Option Outcome
named w line tok ts s =
    if starts_comment tok
    then some (done s)
    else if str_eq tok (codes "?")
    then some (inform CmdErr.help_main s)
    else if str_eq tok (codes "???")
    then some (inform CmdErr.help_not s)
    else if str_eq tok (codes "irq")
    then some (cmd_irq ts s)
    else if str_eq tok (codes "nmi")
    then some (cmd_nmi ts s)
    else if str_eq tok (codes "mw1")
    then some (cmd_watch s.watch1 (λ w'. record s { watch1 = w' }) ts s)
    else if str_eq tok (codes "mw2")
    then some (cmd_watch s.watch2 (λ w'. record s { watch2 = w' }) ts s)
    else if str_eq tok (codes "exit") || str_eq tok (codes "quit")
    then some record { stat = CmdStatus.ok; status = CmdErr.exit; session = s; saved = none }
    else if str_eq tok (codes "save")
    then some (cmd_save w ts s)
    else if str_eq tok (codes "load")
    then cmd_load w ts s
    else if str_eq tok (codes "sym")
    then cmd_sym w ts s
    else if str_eq tok (codes "cpu")
    then some (cmd_cpu ts s)
    else if str_eq tok (codes "b")
        || str_eq tok (codes "br")
        || str_eq tok (codes "bre")
        || str_eq tok (codes "break")
    then some (cmd_break ts s)
    else if str_eq tok (codes "uart")
    then some (cmd_uart w ts s)
    else if str_eq tok (codes "mouse")
    then some (cmd_mouse ts s)
    else cmd_store line s

unfoldable pub command_execute : World → List ℕ → ℕ → Session → Option Outcome
command_execute w cmdbuf cmdbuf_index s =
    let line = skip_space cmdbuf in
    let ts = tokens [] line in
    if cmdbuf_index == 0
    then some (done s)
    else elim ts [ [] ↦ some (done s) | tok ∷ rest ↦ named w line (lower tok) rest s ]
