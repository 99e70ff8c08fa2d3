-- ===== src/Debugger/Watch.antt =====
-- src/debugger/debugger.c: scroll_window and watch_init.
use ce.Base.{ℕ, ◌+◌, ◌-◌, ◌^◌, ◌<◌, ◌≤◌, u32, Bool, not, ltb, leb, if◌then◌else◌, arith}
use ce.Debugger.Command.{Watch}

-- `scroll_dir_t`.
pub data ScrollDir : Type 0 where
  scroll_down scroll_up : ScrollDir

-- MEMORY_SIZE
abbrev pub memory_size : ℕ
memory_size = 0x1000000

unfoldable pub watch_init : Bool → Bool → Bool → Watch
watch_init disasm_mode follow_pc is_selected = record {
  addr_s = 0;
  bytes_per_line = 8;
  disasm_mode = disasm_mode;
  follow_pc = follow_pc;
  is_selected = is_selected;
}

abbrev pub addr_offs : Watch → ℕ
addr_offs w = if not w.disasm_mode then w.bytes_per_line else 1

abbrev pub scrolled : ScrollDir → Watch → ℕ
scrolled scroll_up w = if ltb w.addr_s (addr_offs w) then 0 else w.addr_s - addr_offs w
scrolled scroll_down w =
    if leb memory_size (u32 (addr_offs w + w.addr_s))
    then u32 (memory_size + 2 ^ 32 - addr_offs w)
    else u32 (w.addr_s + addr_offs w)

unfoldable pub scroll_window : ScrollDir → Watch → Watch
scroll_window dir w = if w.follow_pc then w else record w { addr_s = scrolled dir w }

-- Scrolling keeps the start of a watch window inside of the memory, and moves it by at most one
-- line of the display or one byte of a disassembly.
pub scroll_window-bounds :
    (dir : ScrollDir) (w : Watch)
    → w.addr_s < memory_size
    → 0 < w.bytes_per_line
    → w.bytes_per_line ≤ 0x1000
    → let a = (scroll_window dir w).addr_s in
      (a < memory_size) × (a ≤ w.addr_s + addr_offs w) × (w.addr_s ≤ a + addr_offs w)
unfolding scroll_window
scroll_window-bounds scroll_down w h p q = ground arith
scroll_window-bounds scroll_up w h p q = ground arith
