-- ===== src/Cpu/Ops/Count.antt =====
-- src/cpu/65816-ops.c: INC, DEC, INA, DEA, INX, INY, DEX, DEY.
use ce.Base.{ℕ, ◌+◌, ◌*◌, ◌^◌, u8, u16, low_byte, high_byte, Bool, if◌then◌else◌, [], ◌∷◌}
use ce.Cpu.State.{AddrMode, dp, dpx, abs, absx, is_mode, one_of}
use ce.Cpu.Monad.{Act, ◌>>=◌, ◌>>◌, get, when, add_cycles}
use ce.Cpu.Set
use ce.Cpu.Memory.{
  addr_add_val_bank_wrap, get_mem_byte, get_mem_word, set_mem_byte, set_mem_word,
  set_mem_word_bank_wrap,
}
use ce.Cpu.Registers.{cpu_update_pc, cpu_crash}
use ce.Cpu.Ops.Common.{acc8, idx8, dl_cycle, page_cycle_x, set_nz8, set_nz16, set_nz_acc}

-- What INC and DEC share; `step` is the change, modulo the width.
unfoldable pub count_mem : ℕ → AddrMode → ℕ → Act
count_mem step mode addr = do
  s ← get
  if one_of mode (dp ∷ dpx ∷ [])
      then (do
        (if acc8 s
            then (do
              v ← get_mem_byte addr s.setacc
              let val = u8 (v + step)
              set_mem_byte addr val s.setacc
              set_nz8 val)
            else (do
              lo ← get_mem_byte addr s.setacc
              hi ← get_mem_byte (addr_add_val_bank_wrap addr 1) s.setacc
              let val = u16 (lo + hi * 2 ^ 8 + step)
              set_mem_word_bank_wrap addr val s.setacc
              set_nz16 val
              add_cycles 2))
        dl_cycle)
      else if one_of mode (abs ∷ absx ∷ [])
      then (do
        (if acc8 s
            then (do
              v ← get_mem_byte addr s.setacc
              let val = u8 (v + step)
              set_mem_byte addr val s.setacc
              set_nz8 val)
            else (do
              v ← get_mem_word addr s.setacc
              let val = u16 (v + step)
              set_mem_word addr val s.setacc
              set_nz16 val
              add_cycles 2))
        when (is_mode mode absx) (page_cycle_x addr))
      else cpu_crash

-- Subtracting 1 is adding 0xffff, modulo 2 ^ 8 and modulo 2 ^ 16.
unfoldable pub i_dec : ℕ → ℕ → AddrMode → ℕ → Act
unfolding count_mem
i_dec size cycles mode addr = do count_mem 0xffff mode addr; cpu_update_pc size; add_cycles cycles

unfoldable pub i_inc : ℕ → ℕ → AddrMode → ℕ → Act
unfolding count_mem
i_inc size cycles mode addr = do count_mem 1 mode addr; cpu_update_pc size; add_cycles cycles

-- What INA and DEA share.
unfoldable pub count_acc : ℕ → Act
count_acc step = do
  s ← get
  Set.c (if acc8 s then low_byte (s.c + step) + high_byte s.c else u16 (s.c + step))
  set_nz_acc
  cpu_update_pc 1
  add_cycles 2

unfoldable pub i_dea : Act
unfolding count_acc
i_dea = count_acc 0xffff

unfoldable pub i_ina : Act
unfolding count_acc
i_ina = count_acc 1

-- The counted index register at its width.
abbrev pub count_index : Bool → ℕ → ℕ → ℕ
count_index short v step = if short then low_byte (v + step) else u16 (v + step)

-- N and Z from an index register at its width.
unfoldable pub set_nz_index : Bool → ℕ → Act
set_nz_index short v = if short then set_nz8 v else set_nz16 v

unfoldable pub i_dex : Act
i_dex = do
  s ← get
  let v = count_index (idx8 s) s.x 0xffff
  Set.x v
  set_nz_index (idx8 s) v
  cpu_update_pc 1
  add_cycles 2

unfoldable pub i_dey : Act
i_dey = do
  s ← get
  let v = count_index (idx8 s) s.y 0xffff
  Set.y v
  set_nz_index (idx8 s) v
  cpu_update_pc 1
  add_cycles 2

unfoldable pub i_inx : Act
i_inx = do
  s ← get
  let v = count_index (idx8 s) s.x 1
  Set.x v
  set_nz_index (idx8 s) v
  cpu_update_pc 1
  add_cycles 2

unfoldable pub i_iny : Act
i_iny = do
  s ← get
  let v = count_index (idx8 s) s.y 1
  Set.y v
  set_nz_index (idx8 s) v
  cpu_update_pc 1
  add_cycles 2
