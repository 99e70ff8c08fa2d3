-- ===== src/Debugger/Command.antt =====
-- src/debugger/debugger.c: the state that a command works on, and the words of a command. The
-- commands are functions of their own: Register has the assignments to the processor, Named and
-- Devices the named commands, Store the memory writes, and Execute the choice between them.
pub mod SaveLoad
pub mod Register
pub mod Named
pub mod Devices
pub mod Store
pub mod Execute
use ce.Base.{
  ℕ, Bool, true, false, ◌||◌, ◌==◌, if◌then◌else◌, Option, none, some, List, [], ◌∷◌, ◌++◌, map,
}
use ce.Cpu.State.{Cpu, Machine}
use ce.Hw.Uart.{Uart}
use ce.Debugger.Symbols.{SymbolTable}
use ce.Debugger.Parse.{tolower}
use ce.Debugger.Load.{CmdErr, File}

-- `cmd_status_t`.
pub data CmdStatus : Type 0 where
  ok : CmdStatus
  info : CmdStatus
  err : CmdStatus

-- `watch_t` less its window and the window's size.
pub record Watch : Type 0 where
  pub addr_s : ℕ
  pub bytes_per_line : ℕ
  pub disasm_mode : Bool
  pub follow_pc : Bool
  pub is_selected : Bool

-- What `command_execute` is given pointers to, and its static variable `addr`.
pub record Session : Type 0 where
  pub watch1 : Watch
  pub watch2 : Watch
  pub machine : Machine
  pub symbol_table : SymbolTable
  pub uart : Uart
  pub invert_mouse_scroll : Bool
  pub addr : ℕ

-- What a save writes: the bytes of the memory, or the text of the processor.
pub data Saved : Type 0 where
  image : (ℕ → ℕ) → Saved
  text : List ℕ → Saved

pub record Outcome : Type 0 where
  pub stat : CmdStatus
  pub status : CmdErr
  pub session : Session
  pub saved : Option Saved

-- `*status = e; return STAT_…;`
abbrev pub fail : CmdErr → Session → Outcome
fail e s = record { stat = CmdStatus.err; status = e; session = s; saved = none }

abbrev pub done : Session → Outcome
done s = record { stat = CmdStatus.ok; status = CmdErr.ok; session = s; saved = none }

abbrev pub inform : CmdErr → Session → Outcome
inform e s = record { stat = CmdStatus.info; status = e; session = s; saved = none }

abbrev pub set_cpu : (Cpu → Cpu) → Session → Session
set_cpu f s = record s { machine = record s.machine { cpu = f s.machine.cpu } }

-- The delimiters of strtok.
abbrev pub is_delim : ℕ → Bool
is_delim c = c == 0x20 || c == 0x09 || c == 0x0a || c == 0x0d

abbrev pub add_word : List ℕ → List (List ℕ) → List (List ℕ)
add_word [] ws = ws
add_word (c ∷ w) ws = (c ∷ w) ∷ ws

-- The tokens of a string, the characters of the first one so far given.
unfoldable pub tokens : List ℕ → List ℕ → List (List ℕ)
tokens word [] = add_word word []
tokens word (c ∷ s) =
    let next = tokens [] s in
    let longer = tokens (word ++ c ∷ []) s in if is_delim c then add_word word next else longer

-- A token of the lower-case copy; the tokens of the copy and of the command lie at the same places.
abbrev pub lower : List ℕ → List ℕ
lower = map tolower
