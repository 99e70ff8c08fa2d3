-- ===== src/Debugger/History.antt =====
-- src/debugger/debugger.c: update_cpu_hist, the history of the instructions, and hist_init. The
-- windows are left out.
pub mod Recent
use ce.Base.{ℕ, ◌+◌, ◌-◌, ◌/◌, ◌%◌, ◌^◌, u64, Bool, false, not, ltb, ◌==◌, if◌then◌else◌}
use ce.Cpu.State.{Cpu, Machine}
use ce.Cpu.Memory.{update, get_mem_byte}
use ce.Cpu.Registers.{cpu_get_effective_pc, cpu_get_immd_long}

-- CPU_HIST_ENTRIES
abbrev pub cpu_hist_entries : ℕ
cpu_hist_entries = 40

-- An element of the arrays `cpu` and `mem`.
pub record HistEntry : Type 0 where
  pub cpu : Cpu
  pub opcode : ℕ
  pub operand1 : ℕ
  pub operand2 : ℕ
  pub operand3 : ℕ

-- `hist_t` less its window.
pub record Hist : Type 0 where
  pub entry_count : ℕ
  pub entry_start : ℕ
  pub entries : ℕ → HistEntry

unfoldable pub hist_init : (ℕ → HistEntry) → Hist
hist_init zeroed = record { entry_count = 0; entry_start = 0; entries = zeroed }

-- The registers, and the four bytes from the program counter on.
unfoldable pub capture : Machine → HistEntry
unfolding get_mem_byte cpu_get_immd_long
capture m =
    let val = (cpu_get_immd_long false m).0 in
    record {
      cpu = m.cpu;
      opcode = (get_mem_byte (cpu_get_effective_pc m.cpu) false m).0;
      operand1 = val % 2 ^ 8;
      operand2 = val / 2 ^ 8 % 2 ^ 8;
      operand3 = val / 2 ^ 16 % 2 ^ 8;
    }

abbrev pub insert_at : ℕ → HistEntry → Hist → Hist
insert_at i e h = record h { entries = update h.entries i e }

unfoldable pub update_cpu_hist : Hist → Machine → Bool → Hist
update_cpu_hist hist m replace =
    let e = capture m in
    if m.cpu.p_rst
    then insert_at 0 e (record hist { entry_count = 1; entry_start = 0 })
    else if m.cpu.p_crash
    then hist
    else if ltb hist.entry_count cpu_hist_entries
    then (if not replace
        then insert_at hist.entry_count e (record hist { entry_count = hist.entry_count + 1 })
        else insert_at (u64 (hist.entry_count + 2 ^ 64 - 1)) e hist)
    else if not replace
    then insert_at hist.entry_start e
        (record hist { entry_start = (hist.entry_start + 1) % cpu_hist_entries })
    else insert_at (if hist.entry_start == 0 then hist.entry_count - 1 else hist.entry_start - 1) e
        hist
