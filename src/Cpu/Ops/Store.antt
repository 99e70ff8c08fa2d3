-- ===== src/Cpu/Ops/Store.antt =====
-- src/cpu/65816-ops.c: STA, STX, STY, STZ.
use ce.Base.{ℕ, ◌+◌, ◌/◌, ◌%◌, ◌^◌, u8, u32, Bool, ◌&&◌, not, if◌then◌else◌, [], ◌∷◌}
use ce.Cpu.State.{
  AddrMode, dp, dpx, dpindx, dpy, inddpy, inddply, dpind, dpindl, abs, absx, absy, absl, abslx,
  immd, sr, srindy, is_mode, one_of,
}
use ce.Cpu.Monad.{Act, ◌>>=◌, ◌>>◌, get, when, add_cycles}
use ce.Cpu.Memory.{addr_add_val_bank_wrap, set_mem_byte, set_mem_word, set_mem_word_bank_wrap}
use ce.Cpu.Registers.{cpu_update_pc, cpu_crash}
use ce.Cpu.Ops.Common.{WordWriter, acc8, dl_cycle, page_cycle, page_cycle_x}

-- The accumulator to memory, at its width.
unfoldable pub store_acc : WordWriter → ℕ → Act
store_acc write_word addr = do
  s ← get
  if acc8 s then set_mem_byte addr (u8 s.c) s.setacc else write_word addr s.c s.setacc

unfoldable pub i_sta : ℕ → ℕ → AddrMode → ℕ → Act
i_sta size cycles mode addr = do
  if one_of mode (dp ∷ dpx ∷ immd ∷ sr ∷ [])
      then (do when (one_of mode (dp ∷ dpx ∷ [])) dl_cycle; store_acc set_mem_word_bank_wrap addr)
      else if one_of mode (
          inddpy ∷ dpind ∷ dpindl ∷ dpindx ∷ inddply ∷ abs ∷ absl ∷ abslx ∷ srindy ∷ absx ∷ absy
          ∷ [])
      then (do
        when (one_of mode (inddpy ∷ dpind ∷ dpindl ∷ dpindx ∷ inddply ∷ [])) dl_cycle
        store_acc set_mem_word addr
        page_cycle mode addr)
      else cpu_crash
  r ← get
  when (not (acc8 r)) (add_cycles 1)
  cpu_update_pc size
  add_cycles cycles

-- The two bytes of a register; the high byte, at `addr_high`, only if `wide`.
unfoldable pub store_bytes : Bool → ℕ → ℕ → ℕ → Act
store_bytes wide addr addr_high v = do
  s ← get
  set_mem_byte addr (v % 2 ^ 8) s.setacc
  when wide (do set_mem_byte addr_high (v / 2 ^ 8 % 2 ^ 8) s.setacc; add_cycles 1)

-- `addr + 1` is not masked: no bank wrapping.
unfoldable pub i_stx : ℕ → ℕ → AddrMode → ℕ → Act
i_stx size cycles mode addr = do
  s ← get
  let wide = not s.p_e && not s.p_xb
  if one_of mode (dp ∷ dpy ∷ [])
      then (do store_bytes wide addr (addr_add_val_bank_wrap addr 1) s.x; dl_cycle)
      else if is_mode mode abs
      then store_bytes wide addr (u32 (addr + 1)) s.x
      else cpu_crash
  add_cycles cycles
  cpu_update_pc size

unfoldable pub i_sty : ℕ → ℕ → AddrMode → ℕ → Act
i_sty size cycles mode addr = do
  s ← get
  let wide = not s.p_e && not s.p_xb
  if one_of mode (dp ∷ dpx ∷ [])
      then (do store_bytes wide addr (addr_add_val_bank_wrap addr 1) s.y; dl_cycle)
      else if is_mode mode abs
      then store_bytes wide addr (u32 (addr + 1)) s.y
      else cpu_crash
  add_cycles cycles
  cpu_update_pc size

unfoldable pub i_stz : ℕ → ℕ → AddrMode → ℕ → Act
i_stz size cycles mode addr = do
  s ← get
  let wide = not s.p_m
  if one_of mode (dp ∷ dpx ∷ [])
      then (do store_bytes wide addr (addr_add_val_bank_wrap addr 1) 0; dl_cycle)
      else if one_of mode (abs ∷ absx ∷ [])
      then (do
        store_bytes wide addr (u32 (addr + 1)) 0
        when (is_mode mode absx) (page_cycle_x addr))
      else cpu_crash
  add_cycles cycles
  cpu_update_pc size
