-- ===== src/Cpu/Ops/Logic.antt =====
-- src/cpu/65816-ops.c: AND, ORA, EOR, BIT, TRB, TSB.
use ce.Base.{
  ℕ, ◌+◌, low_byte, high_byte, bit, ◌==◌, not, if◌then◌else◌, bit_and, bit_or, bit_xor, [], ◌∷◌,
}
use ce.Cpu.State.{
  AddrMode, dp, dpx, dpindx, inddpy, inddply, dpind, dpindl, abs, absx, absy, absl, abslx, immd, sr,
  srindy, is_mode, one_of,
}
use ce.Cpu.Monad.{Act, ◌>>=◌, ◌>>◌, get, when, add_cycles}
use ce.Cpu.Set
use ce.Cpu.Memory.{
  get_mem_byte, get_mem_word, get_mem_word_bank_wrap, set_mem_byte, set_mem_word,
  set_mem_word_bank_wrap,
}
use ce.Cpu.Registers.{cpu_update_pc, cpu_crash}
use ce.Cpu.Ops.Common.{WordReader, acc8, immd_size, dl_cycle, page_cycle, page_cycle_x, set_nz_acc}

-- `cpu->C` combined with memory, at the accumulator's width.
unfoldable pub combine_acc : (ℕ → ℕ → ℕ) → WordReader → ℕ → Act
combine_acc op read_word addr = do
  s ← get
  if acc8 s
      then (do val ← get_mem_byte addr s.setacc; Set.c (high_byte s.c + op (low_byte s.c) val))
      else (do val ← read_word addr s.setacc; Set.c (op s.c val))

-- AND sets the flags in each branch; the wide branch costs a cycle.
unfoldable pub and_acc : WordReader → ℕ → Act
and_acc read_word addr = do
  combine_acc bit_and read_word addr
  set_nz_acc
  s ← get
  when (not (acc8 s)) (add_cycles 1)

unfoldable pub i_and : ℕ → ℕ → AddrMode → ℕ → Act
i_and size cycles mode addr = do
  s ← get
  if one_of mode (dp ∷ dpx ∷ [])
      then (do and_acc get_mem_word_bank_wrap addr; dl_cycle)
      else if one_of mode (
          dpind ∷ dpindl ∷ abs ∷ absx ∷ absy ∷ absl ∷ abslx ∷ dpindx ∷ inddpy ∷ inddply ∷ srindy
          ∷ [])
      then (do
        and_acc get_mem_word addr
        page_cycle mode addr
        when (one_of mode (dpind ∷ dpindl ∷ dpindx ∷ inddpy ∷ inddply ∷ [])) dl_cycle)
      else if one_of mode (immd ∷ sr ∷ [])
      then and_acc get_mem_word_bank_wrap addr
      else cpu_crash
  add_cycles cycles
  cpu_update_pc (immd_size (acc8 s) mode size)

-- What ORA and EOR do after the switch.
unfoldable pub finish_logic : ℕ → ℕ → Act
finish_logic size cycles = do
  set_nz_acc
  s ← get
  when (not (acc8 s)) (add_cycles 1)
  add_cycles cycles
  cpu_update_pc size

unfoldable pub i_ora : ℕ → ℕ → AddrMode → ℕ → Act
i_ora size cycles mode addr = do
  s ← get
  if one_of mode (dp ∷ dpx ∷ [])
      then (do combine_acc bit_or get_mem_word_bank_wrap addr; dl_cycle)
      else if one_of mode (
          dpind ∷ dpindl ∷ abs ∷ absx ∷ absy ∷ absl ∷ abslx ∷ dpindx ∷ inddpy ∷ inddply ∷ srindy
          ∷ [])
      then (do
        combine_acc bit_or get_mem_word addr
        page_cycle mode addr
        when (one_of mode (dpind ∷ dpindl ∷ dpindx ∷ inddpy ∷ inddply ∷ [])) dl_cycle)
      else if one_of mode (immd ∷ sr ∷ [])
      then combine_acc bit_or get_mem_word_bank_wrap addr
      else cpu_crash
  finish_logic (immd_size (acc8 s) mode size) cycles

unfoldable pub i_eor : ℕ → ℕ → AddrMode → ℕ → Act
i_eor size cycles mode addr = do
  s ← get
  if one_of mode (dp ∷ dpx ∷ [])
      then (do combine_acc bit_xor get_mem_word_bank_wrap addr; dl_cycle)
      else if one_of mode (
          dpind ∷ dpindl ∷ dpindx ∷ inddpy ∷ inddply ∷ abs ∷ absx ∷ absy ∷ absl ∷ abslx ∷ srindy
          ∷ [])
      then (do
        when (one_of mode (dpind ∷ dpindl ∷ dpindx ∷ inddpy ∷ inddply ∷ [])) dl_cycle
        combine_acc bit_xor get_mem_word addr
        page_cycle mode addr)
      else if one_of mode (immd ∷ sr ∷ [])
      then combine_acc bit_xor get_mem_word_bank_wrap addr
      else cpu_crash
  finish_logic (immd_size (acc8 s) mode size) cycles

-- Z from the masked accumulator; N and V from the operand's two highest bits.
unfoldable pub bit_flags : WordReader → ℕ → Act
bit_flags read_word addr = do
  s ← get
  if acc8 s
      then (do
        val ← get_mem_byte addr s.setacc
        Set.p_z (bit_and (low_byte s.c) val == 0)
        Set.p_n (bit val 7)
        Set.p_v (bit val 6))
      else (do
        val ← read_word addr s.setacc
        Set.p_z (bit_and s.c val == 0)
        Set.p_n (bit val 15)
        Set.p_v (bit val 14)
        add_cycles 1)

-- Only Z for the immediate mode.
unfoldable pub bit_immediate : ℕ → Act
bit_immediate addr = do
  s ← get
  if acc8 s
      then (do val ← get_mem_byte addr s.setacc; Set.p_z (bit_and (low_byte s.c) val == 0))
      else (do
        val ← get_mem_word_bank_wrap addr s.setacc
        Set.p_z (bit_and s.c val == 0)
        add_cycles 1)

unfoldable pub i_bit : ℕ → ℕ → AddrMode → ℕ → Act
i_bit size cycles mode addr = do
  s ← get
  if one_of mode (dp ∷ dpx ∷ [])
      then (do bit_flags get_mem_word_bank_wrap addr; dl_cycle)
      else if one_of mode (abs ∷ absx ∷ [])
      then (do bit_flags get_mem_word addr; when (is_mode mode absx) (page_cycle_x addr))
      else when (is_mode mode immd) (bit_immediate addr)
  add_cycles cycles
  cpu_update_pc (immd_size (acc8 s) mode size)

-- Read, combine with the accumulator, write back; Z from the bits in common.
unfoldable pub test_bits : (ℕ → ℕ → ℕ) → (ℕ → ℕ → ℕ) → AddrMode → ℕ → Act
test_bits op8 op16 mode addr = do
  s ← get
  if acc8 s
      then (do
        val ← get_mem_byte addr s.setacc
        set_mem_byte addr (op8 val s.c) s.setacc
        Set.p_z (bit_and (low_byte s.c) val == 0))
      else (do
        val ←
            (if is_mode mode dp
              then get_mem_word_bank_wrap addr s.setacc
              else get_mem_word addr s.setacc)
        (if is_mode mode dp
            then set_mem_word_bank_wrap addr (op16 val s.c) s.setacc
            else set_mem_word addr (op16 val s.c) s.setacc)
        Set.p_z (bit_and s.c val == 0)
        add_cycles 2)
  when (is_mode mode dp) dl_cycle

unfoldable pub i_trb : ℕ → ℕ → AddrMode → ℕ → Act
i_trb size cycles mode addr = do
  test_bits (λ val c. bit_and val (bit_xor c 0xff)) (λ val c. bit_and val (bit_xor c 0xffff)) mode
      addr
  cpu_update_pc size
  add_cycles cycles

unfoldable pub i_tsb : ℕ → ℕ → AddrMode → ℕ → Act
i_tsb size cycles mode addr = do
  test_bits (λ val c. bit_or val (low_byte c)) (λ val c. bit_or val c) mode addr
  cpu_update_pc size
  add_cycles cycles
