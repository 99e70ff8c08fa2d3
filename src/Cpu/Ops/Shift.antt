-- ===== src/Cpu/Ops/Shift.antt =====
-- src/cpu/65816-ops.c: ASL, LSR, ROL, ROR.
pub mod Rotate
use ce.Base.{
  ℕ, ◌+◌, ◌*◌, ◌/◌, ◌%◌, ◌^◌, u8, u16, low_byte, high_byte, bit, of_bool, Bool, false, ◌==◌,
  if◌then◌else◌, [], ◌∷◌,
}
use ce.Cpu.State.{AddrMode, dp, dpx, abs, absx, impd, is_mode, one_of}
use ce.Cpu.Monad.{M, Act, ◌>>=◌, ◌>>◌, return, get, add_cycles}
use ce.Cpu.Set
use ce.Cpu.Memory.{
  get_mem_word, get_mem_word_bank_wrap, set_mem_byte, set_mem_word, set_mem_word_bank_wrap,
}
use ce.Cpu.Registers.{cpu_update_pc, cpu_crash}
use ce.Cpu.Ops.Common.{WordReader, WordWriter, acc8, dl_cycle, set_nz8, set_nz16}

-- The shifted value at the accumulator's width, from the value before and the carry.
abbrev pub Shifter : Type 0
Shifter = Bool → ℕ → Bool → ℕ

-- What the four handlers share: read, shift, write back. 0 is shifted where the mode is invalid.
unfoldable pub shift_mem : Shifter → WordReader → WordWriter → ℕ → M (ℕ × ℕ)
shift_mem shift read_word write_word addr = do
  s ← get
  pre_data ← read_word addr s.setacc
  let post_data = shift (acc8 s) pre_data s.p_c
  if acc8 s
      then set_mem_byte addr (u8 post_data) s.setacc
      else (do write_word addr post_data s.setacc; add_cycles 2)
  return (pre_data, post_data)

unfoldable pub shift_acc : Shifter → M (ℕ × ℕ)
shift_acc shift = do
  s ← get
  let post_data = shift (acc8 s) s.c s.p_c
  Set.c (if acc8 s then high_byte s.c + post_data else post_data)
  return (s.c, post_data)

unfoldable pub shift_operand : Shifter → AddrMode → ℕ → M (ℕ × ℕ)
shift_operand shift mode addr =
    if one_of mode (dp ∷ dpx ∷ [])
    then (do
      data' ← shift_mem shift get_mem_word_bank_wrap set_mem_word_bank_wrap addr
      dl_cycle
      return data')
    else if one_of mode (abs ∷ absx ∷ [])
    then shift_mem shift get_mem_word set_mem_word addr
    else if is_mode mode impd
    then shift_acc shift
    else (do cpu_crash; return (0, 0))

-- Z, and N by the value's sign bit.
unfoldable pub shift_nz : Bool → ℕ → Act
shift_nz short v = if short then set_nz8 v else set_nz16 v

unfoldable pub finish_shift : ℕ → ℕ → Act
finish_shift size cycles = do add_cycles cycles; cpu_update_pc size

-- `(pre << 1) & 0xff` and `(uint16_t)(pre << 1)`.
unfoldable pub shift_left : Shifter
shift_left short v carry = if short then u8 (v * 2) else u16 (v * 2)

-- `(pre >> 1) & 0x7f` and `pre >> 1`.
unfoldable pub shift_right : Shifter
shift_right short v carry = if short then v / 2 % 2 ^ 7 else v / 2

-- The bit shifted out comes from the carry.
unfoldable pub rotate_left : Shifter
rotate_left short v carry =
    if short then u8 (v * 2) + of_bool carry else u16 (v * 2) + of_bool carry

unfoldable pub rotate_right : Shifter
rotate_right short v carry =
    if short then v / 2 % 2 ^ 7 + of_bool carry * 2 ^ 7 else v / 2 + of_bool carry * 2 ^ 15

unfoldable pub i_asl : ℕ → ℕ → AddrMode → ℕ → Act
i_asl size cycles mode addr = do
  s ← get
  (pre_data, post_data) ← shift_operand shift_left mode addr
  Set.p_c (if acc8 s then bit pre_data 7 else bit pre_data 15)
  shift_nz (acc8 s) post_data
  finish_shift size cycles

unfoldable pub i_lsr : ℕ → ℕ → AddrMode → ℕ → Act
i_lsr size cycles mode addr = do
  s ← get
  (pre_data, post_data) ← shift_operand shift_right mode addr
  Set.p_c (bit pre_data 0)
  Set.p_n false
  Set.p_z (if acc8 s then low_byte post_data == 0 else post_data == 0)
  finish_shift size cycles

unfoldable pub i_rol : ℕ → ℕ → AddrMode → ℕ → Act
i_rol size cycles mode addr = do
  s ← get
  (pre_data, post_data) ← shift_operand rotate_left mode addr
  Set.p_c (if acc8 s then bit pre_data 7 else bit pre_data 15)
  shift_nz (acc8 s) post_data
  finish_shift size cycles

unfoldable pub i_ror : ℕ → ℕ → AddrMode → ℕ → Act
i_ror size cycles mode addr = do
  s ← get
  (pre_data, post_data) ← shift_operand rotate_right mode addr
  Set.p_c (bit pre_data 0)
  shift_nz (acc8 s) post_data
  finish_shift size cycles
