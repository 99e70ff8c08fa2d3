-- ===== src/Cpu/Ops/Compare.antt =====
-- src/cpu/65816-ops.c: CMP, CPX, CPY.
pub mod Order
use ce.Base.{ℕ, ◌+◌, ◌-◌, ◌^◌, u8, u16, low_byte, bit, Bool, ◌==◌, not, if◌then◌else◌, ltb, [], ◌∷◌}
use ce.Cpu.State.{
  AddrMode, dp, dpx, dpindx, inddpy, inddply, dpind, dpindl, abs, absx, absy, absl, abslx, immd, sr,
  srindy, is_mode, one_of,
}
use ce.Cpu.Monad.{Act, ◌>>=◌, ◌>>◌, get, when, add_cycles}
use ce.Cpu.Set
use ce.Cpu.Memory.{get_mem_byte, get_mem_word, get_mem_word_bank_wrap}
use ce.Cpu.Registers.{cpu_update_pc, cpu_crash}
use ce.Cpu.Ops.Common.{WordReader, acc8, idx8, immd_size, dl_cycle, page_cycle}

-- The flags of `reg - val`: a carry when there is no borrow, found by comparing with the result.
unfoldable pub compare8 : ℕ → ℕ → Act
compare8 reg val = do
  let res = u8 (low_byte reg + 2 ^ 8 - val)
  Set.p_n (bit res 7)
  Set.p_z (res == 0)
  Set.p_c (not (ltb (low_byte reg) res))

unfoldable pub compare16 : ℕ → ℕ → Act
compare16 reg val = do
  let res = u16 (reg + 2 ^ 16 - val)
  Set.p_n (bit res 15)
  Set.p_z (res == 0)
  Set.p_c (not (ltb reg res))

-- A register against memory, 8 bits wide if `short`; the wide branch costs a cycle.
unfoldable pub compare_mem : Bool → ℕ → WordReader → ℕ → Act
compare_mem short reg read_word addr = do
  s ← get
  if short
      then (do val ← get_mem_byte addr s.setacc; compare8 reg val)
      else (do val ← read_word addr s.setacc; compare16 reg val; add_cycles 1)

unfoldable pub i_cmp : ℕ → ℕ → AddrMode → ℕ → Act
i_cmp size cycles mode addr = do
  s ← get
  if one_of mode (dp ∷ dpx ∷ immd ∷ sr ∷ [])
      then (do
        compare_mem (acc8 s) s.c get_mem_word_bank_wrap addr
        when (one_of mode (dp ∷ dpx ∷ [])) dl_cycle)
      else if one_of mode (
          abs ∷ absl ∷ abslx ∷ absx ∷ absy ∷ dpind ∷ dpindl ∷ inddpy ∷ dpindx ∷ inddply ∷ srindy
          ∷ [])
      then (do
        compare_mem (acc8 s) s.c get_mem_word addr
        page_cycle mode addr
        when (one_of mode (dpind ∷ dpindl ∷ inddpy ∷ dpindx ∷ inddply ∷ [])) dl_cycle)
      else cpu_crash
  cpu_update_pc (immd_size (acc8 s) mode size)
  add_cycles cycles

-- What CPX and CPY do with their register.
unfoldable pub compare_index : ℕ → ℕ → ℕ → AddrMode → ℕ → Act
compare_index reg size cycles mode addr = do
  s ← get
  if one_of mode (dp ∷ immd ∷ [])
      then (do
        compare_mem (idx8 s) reg get_mem_word_bank_wrap addr
        when (is_mode mode dp) dl_cycle)
      else if is_mode mode abs
      then compare_mem (idx8 s) reg get_mem_word addr
      else cpu_crash
  cpu_update_pc (immd_size (idx8 s) mode size)
  add_cycles cycles

unfoldable pub i_cpx : ℕ → ℕ → AddrMode → ℕ → Act
unfolding compare_index
i_cpx size cycles mode addr = do s ← get; compare_index s.x size cycles mode addr

unfoldable pub i_cpy : ℕ → ℕ → AddrMode → ℕ → Act
unfolding compare_index
i_cpy size cycles mode addr = do s ← get; compare_index s.y size cycles mode addr
