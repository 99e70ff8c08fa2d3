-- ===== src/Debugger/Command/Store.antt =====
-- src/debugger/debugger.c, command_execute: a line that is no named command, `address: value …`.
pub mod RoundTrip
pub mod Total
use ce.Base.{
  ℕ, zero, suc, ◌+◌, u32, Bool, true, false, not, ◌&&◌, ◌||◌, ◌==◌, if◌then◌else◌, Option, none,
  some, List, [], ◌∷◌, length,
}
use ce.Cpu.State.{Machine}
use ce.Cpu.Memory.{set_mem_byte}
use ce.Debugger.Symbols.{SymbolTable}
use ce.Debugger.Parse.{isspace, is_addr_do_parse}
use ce.Debugger.Load.{CmdErr}
use ce.Debugger.Command.{Session, Outcome, fail, done}

-- What the loop changes, and its locals that live on.
pub record Line : Type 0 where
  pub machine : Machine
  pub addr : ℕ
  pub found_store_delim : Bool

abbrev pub colon : ℕ
colon = 0x3a

abbrev pub skip_space : List ℕ → List ℕ
skip_space [] = []
skip_space (c ∷ s) = let rest = skip_space s in if isspace c then rest else c ∷ s

abbrev pub ends_word : ℕ → Bool
ends_word c = isspace c || c == colon

-- The characters before the end, a space or a colon, and what follows them.
abbrev pub word_end : List ℕ → List ℕ × List ℕ
word_end [] = ([], [])
word_end (c ∷ s) = let (w, rest) = word_end s in if ends_word c then ([], c ∷ s) else (c ∷ w, rest)

-- What is done with the value of a word.
unfoldable pub use_value : ℕ → Line → Line
use_value val l =
    if l.found_store_delim
    then record l { machine = (set_mem_byte l.addr val true l.machine).1; addr = u32 (l.addr + 1) }
    else record l { addr = val }

abbrev pub is_delim_here : List ℕ → List ℕ → Bool
is_delim_here [] (c ∷ s) = c == colon
is_delim_here _ _ = false

abbrev pub is_nil : List ℕ → Bool
is_nil [] = true
is_nil _ = false

abbrev pub tail : List ℕ → List ℕ
tail [] = []
tail (c ∷ s) = s

-- What one round of the loop does: it ends, for want of a value or not, or goes on.
pub data Round : Type 0 where
  stop : Bool → Line → Round
  go : List ℕ → Line → Round

-- A round on the word that was found and on what follows it.
unfoldable pub store_word : SymbolTable → List ℕ → List ℕ → Line → Round
unfolding use_value
store_word st tok next l =
    if not l.found_store_delim && is_nil next
    then stop false l
    else if not l.found_store_delim && is_delim_here tok next
    then go (tail next) (record l { found_store_delim = true })
    else if is_nil tok
    then stop false l
    else elim (is_addr_do_parse tok st) [
      | none ↦ stop true l
      | some val ↦ go next (use_value val l)
    ]

-- The loop, on what is left of the line; `none` means that the fuel ran out.
unfoldable pub store_words : SymbolTable → ℕ → List ℕ → Line → Option (Bool × Line)
store_words st zero s l = none
store_words st (suc fuel) [] l = some (false, l)
store_words st (suc fuel) (c ∷ s) l =
    let (tok, next) = word_end (skip_space (c ∷ s)) in
    elim (store_word st tok next l) [
      | stop failed l' ↦ some (failed, l')
      | go s' l' ↦ store_words st fuel s' l'
    ]

unfoldable pub cmd_store : List ℕ → Session → Option Outcome
cmd_store line s =
    elim (store_words s.symbol_table (length line + 1) line
      (record { machine = s.machine; addr = s.addr; found_store_delim = false })) [
        | none ↦ none
        | some (failed, l) ↦
            let s' = record s { machine = l.machine; addr = l.addr } in
            some (
              if failed
              then fail CmdErr.unknown_sym_or_value s'
              else if l.found_store_delim
              then done s'
              else fail CmdErr.unknown_cmd s')
      ]
