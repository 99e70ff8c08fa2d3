-- ===== src/Debugger/Load/Processor.antt =====
-- src/debugger/debugger.c: load_file_cpu.
use ce.Base.{ℕ, zero, suc, not, ltb, ◌||◌, ◌==◌, if◌then◌else◌, none, some, List, [], ◌∷◌, length}
use ce.Cpu.State.{Cpu, ErrorCode}
use ce.Cpu.Text.{fromstr_cpu}
use ce.Debugger.Load.{CmdErr, File, stat_err}

-- The string in a buffer of `n` characters. The bytes of the file fill it, so it need not hold a
-- NUL: the one that sscanf stops at is then taken to be the character behind them.
abbrev pub buffer_string : ℕ → List ℕ → List ℕ
buffer_string zero bs = []
buffer_string (suc n) [] = []
buffer_string (suc n) (b ∷ bs) = let rest = buffer_string n bs in if b == 0 then [] else b ∷ rest

abbrev pub parse_status : ErrorCode → CmdErr
parse_status ErrorCode.ok = CmdErr.ok
parse_status _ = CmdErr.cpu_corrupt_file

-- `locals` is for fromstrCPU.
unfoldable pub load_file_cpu : (ℕ → ℕ) → File → Cpu → CmdErr × Cpu
load_file_cpu locals f cpu = elim f.stat_error [
  | some e ↦ (stat_err e, cpu)
  | none ↦
      if ltb 1024 f.size
      then (CmdErr.file_too_large, cpu)
      else if not f.opens
      then (CmdErr.file_io_error, cpu)
      else if f.size == 0 || length f.bytes == 0
      then (CmdErr.file_io_error, cpu)
      else let (e, cpu') = fromstr_cpu locals (buffer_string f.size f.bytes) cpu in
        (parse_status e, cpu')
]
