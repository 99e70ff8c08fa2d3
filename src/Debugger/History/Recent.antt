-- ===== src/Debugger/History/Recent.antt =====
-- The history as a window on the latest instructions (src/debugger/debugger.c, update_cpu_hist).
use ce.Base.{ℕ, ◌+◌, ◌-◌, ◌%◌, ◌<◌, ◌≤◌, ◌≡◌, Bool, true, false, ltb, if◌then◌else◌, arith}
use ce.Cpu.State.{Machine}
use ce.Cpu.Memory.{update}
use ce.Debugger.History.{Hist, HistEntry, capture, update_cpu_hist}

-- The array is filled from its beginning, and then goes round.
pub record HistOk (h : Hist) : Type 0 where
  pub count_fits : h.entry_count ≤ 40
  pub start_fits : h.entry_start < 40
  pub unrotated : h.entry_count < 40 → h.entry_start ≡ 0

-- The entry `k` places before the latest one.
unfoldable pub recent : Hist → ℕ → HistEntry
recent h k = h.entries ((h.entry_start + h.entry_count + 39 - k) % 40)

-- What the entries are after a step that is neither a reset nor a crash, from those before.
abbrev pub Follows : Bool → Hist → Machine → Hist → Type 0
Follows replace h m h' =
    HistOk h'
    × (h'.entry_count ≡ (
        if replace then h.entry_count else if ltb h.entry_count 40 then h.entry_count + 1 else 40))
    × (recent h' 0 ≡ capture m)
    × ((k : ℕ)
        → k + 1 < h'.entry_count
        → recent h' (k + 1) ≡ recent h (if replace then k + 1 else k))

-- A push puts the processor and the bytes at its program counter in front of the latest 39 entries,
-- in their order, and counts up to 40; a replacement of the latest entry keeps all others.
pub update_cpu_hist-Follows :
    (h : Hist) (m : Machine) (replace : Bool)
    → HistOk h
    → m.cpu.p_rst ≡ false
    → m.cpu.p_crash ≡ false
    → (replace ≡ true → 0 < h.entry_count)
    → Follows replace h m (update_cpu_hist h m replace)
unfolding update_cpu_hist recent update
update_cpu_hist-Follows h m false v r c n =
    (ground arith, ground arith, ground arith, λ k l. ground arith)
update_cpu_hist-Follows h m true v r c n =
    (ground arith, ground arith, ground arith, λ k l. ground arith)
