-- ===== src/Cpu/Ops/Load.antt =====
-- src/cpu/65816-ops.c: LDA, LDX, LDY.
use ce.Base.{ℕ, ◌+◌, high_byte, if◌then◌else◌, [], ◌∷◌}
use ce.Cpu.State.{
  AddrMode, dp, dpx, dpindx, dpy, inddpy, inddply, dpind, dpindl, abs, absx, absy, absl, abslx,
  immd, sr, srindy, is_mode, one_of,
}
use ce.Cpu.Monad.{Act, ◌>>=◌, ◌>>◌, get, when, add_cycles}
use ce.Cpu.Set
use ce.Cpu.Memory.{get_mem_byte, get_mem_word, get_mem_word_bank_wrap}
use ce.Cpu.Registers.{cpu_update_pc, cpu_crash}
use ce.Cpu.Ops.Common.{
  WordReader, acc8, immd_size, dl_cycle, page_cycle, page_cycle_x, page_cycle_y, set_nz8, set_nz16,
}

-- `cpu->C` from memory, at the accumulator's width.
unfoldable pub load_acc : WordReader → ℕ → Act
load_acc read_word addr = do
  s ← get
  if acc8 s
      then (do val ← get_mem_byte addr s.setacc; Set.c (high_byte s.c + val))
      else (do val ← read_word addr s.setacc; Set.c val)

unfoldable pub i_lda : ℕ → ℕ → AddrMode → ℕ → Act
i_lda size cycles mode addr = do
  s ← get
  if one_of mode (dp ∷ dpx ∷ immd ∷ sr ∷ [])
      then (do when (one_of mode (dp ∷ dpx ∷ [])) dl_cycle; load_acc get_mem_word_bank_wrap addr)
      else if one_of mode (
          inddpy ∷ dpind ∷ dpindl ∷ dpindx ∷ inddply ∷ abs ∷ absl ∷ abslx ∷ srindy ∷ absx ∷ absy
          ∷ [])
      then (do
        when (one_of mode (inddpy ∷ dpind ∷ dpindl ∷ dpindx ∷ inddply ∷ [])) dl_cycle
        load_acc get_mem_word addr
        page_cycle mode addr)
      else cpu_crash
  r ← get
  if acc8 r then set_nz8 r.c else (do set_nz16 r.c; add_cycles 1)
  cpu_update_pc (immd_size (acc8 s) mode size)
  add_cycles cycles

-- `cpu->X` from memory with its flags; the wide branch costs a cycle.
unfoldable pub load_x : WordReader → ℕ → Act
load_x read_word addr = do
  s ← get
  let narrow = do val ← get_mem_byte addr s.setacc; Set.x val; set_nz8 val
  if s.p_e
      then narrow
      else if s.p_xb
      then narrow
      else (do val ← read_word addr s.setacc; Set.x val; set_nz16 val; add_cycles 1)

unfoldable pub i_ldx : ℕ → ℕ → AddrMode → ℕ → Act
i_ldx size cycles mode addr = do
  s ← get
  if one_of mode (dp ∷ dpy ∷ [])
      then (do load_x get_mem_word_bank_wrap addr; dl_cycle)
      else if one_of mode (abs ∷ absy ∷ [])
      then (do load_x get_mem_word addr; page_cycle_y addr)
      else if is_mode mode immd
      then load_x get_mem_word_bank_wrap addr
      else cpu_crash
  add_cycles cycles
  cpu_update_pc (immd_size (if s.p_e then s.p_e else s.p_xb) mode size)

unfoldable pub load_y : WordReader → ℕ → Act
load_y read_word addr = do
  s ← get
  let narrow = do val ← get_mem_byte addr s.setacc; Set.y val; set_nz8 val
  if s.p_e
      then narrow
      else if s.p_xb
      then narrow
      else (do val ← read_word addr s.setacc; Set.y val; set_nz16 val; add_cycles 1)

unfoldable pub i_ldy : ℕ → ℕ → AddrMode → ℕ → Act
i_ldy size cycles mode addr = do
  s ← get
  if one_of mode (dp ∷ dpx ∷ [])
      then (do load_y get_mem_word_bank_wrap addr; dl_cycle)
      else if one_of mode (abs ∷ absx ∷ [])
      then (do load_y get_mem_word addr; page_cycle_x addr)
      else if is_mode mode immd
      then load_y get_mem_word_bank_wrap addr
      else cpu_crash
  add_cycles cycles
  cpu_update_pc (immd_size (if s.p_e then s.p_e else s.p_xb) mode size)
