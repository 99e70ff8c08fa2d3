-- ===== src/Cpu/Ops/Arith.antt =====
-- src/cpu/65816-ops.c: ADC and SBC, binary and decimal.
pub mod Decimal16
pub mod Bcd
pub mod Binary
pub mod Decimal
pub mod Overflow
use ce.Base.{
  ℕ, ◌+◌, ◌-◌, ◌*◌, ◌/◌, ◌%◌, ◌^◌, u16, u32, low_byte, high_byte, of_bool, Bool, if◌then◌else◌, ltb,
  leb, [], ◌∷◌,
}
use ce.Cpu.State.{AddrMode, dp, dpx, dpindx, inddpy, inddply, dpind, dpindl, immd, sr, one_of}
use ce.Cpu.Monad.{Act, ◌>>=◌, ◌>>◌, get, when, add_cycles}
use ce.Cpu.Set
use ce.Cpu.Memory.{get_mem_byte, get_mem_word, get_mem_word_bank_wrap}
use ce.Cpu.Registers.{cpu_update_pc}
use ce.Cpu.Ops.Common.{WordReader, acc8, immd_size, dl_cycle, page_cycle, set_nz8, set_nz16}

-- `(int16_t)al < -128 || (int16_t)al > 127` of a uint16_t, and the same of a uint32_t.
unfoldable pub outside8 : ℕ → Bool
outside8 al = if ltb al (2 ^ 15) then ltb 127 al else ltb al (2 ^ 16 - 128)

unfoldable pub outside16 : ℕ → Bool
outside16 al = if ltb al (2 ^ 31) then ltb 32767 al else ltb al (2 ^ 32 - 32768)

-- The digit of `x` at `k` bits, in place: `x & (0xf << k)`.
abbrev pub digit : ℕ → ℕ → ℕ
digit x k = x / 2 ^ k % 2 ^ 4 * 2 ^ k

-- Steps 1a to 1c of the decimal addition of a byte, then step 1e.
unfoldable pub adc8_digits : ℕ → ℕ → Bool → ℕ
adc8_digits c val carry =
    let al = digit c 0 + digit val 0 + of_bool carry in
    let al1 = if leb 0x0a al then (al + 0x06) % 2 ^ 4 + 0x10 else al in
    digit c 4 + digit val 4 + al1

unfoldable pub adc8_adjust : ℕ → ℕ
adc8_adjust al = if leb 0xa0 al then al + 0x60 else al

-- The digits of a word from the lowest up, each adjusted before the next; then the last one.
unfoldable pub adc16_digits : ℕ → ℕ → Bool → ℕ
adc16_digits c val carry =
    let al = digit c 0 + digit val 0 + of_bool carry in
    let al1 = if leb 0x000a al then (al + 0x0006) % 2 ^ 4 + 0x0010 else al in
    let al2 = digit c 4 + digit val 4 + al1 in
    let al3 = if leb 0x00a0 al2 then (al2 + 0x0060) % 2 ^ 8 + 0x0100 else al2 in
    let al4 = digit c 8 + digit val 8 + al3 in
    let al5 = if leb 0x0a00 al4 then (al4 + 0x0600) % 2 ^ 12 + 0x1000 else al4 in
    digit c 12 + digit val 12 + al5

unfoldable pub adc16_adjust : ℕ → ℕ
adc16_adjust al = if leb 0xa000 al then al + 0x6000 else al

-- The cycles that ADC and SBC add for the addressing mode.
unfoldable pub arith_cycles : AddrMode → ℕ → Act
arith_cycles mode addr = do
  page_cycle mode addr
  when (one_of mode (dpind ∷ dpindl ∷ inddpy ∷ dpindx ∷ dp ∷ dpx ∷ inddply ∷ [])) dl_cycle

-- The 16-bit operand.
unfoldable pub arith_word : AddrMode → WordReader
arith_word mode addr setacc =
    if one_of mode (dp ∷ dpx ∷ immd ∷ sr ∷ [])
    then get_mem_word_bank_wrap addr setacc
    else get_mem_word addr setacc

unfoldable pub adc8 : ℕ → Act
adc8 val = do
  s ← get
  let sum = if s.p_d then adc8_digits s.c val s.p_c else low_byte s.c + val + of_bool s.p_c
  let al = if s.p_d then adc8_adjust sum else sum
  Set.p_v (outside8 sum)
  Set.c (high_byte s.c + low_byte al)
  Set.p_c (leb 0x100 al)
  set_nz8 al

unfoldable pub adc16 : ℕ → Act
adc16 val = do
  s ← get
  let sum = if s.p_d then adc16_digits s.c val s.p_c else s.c + val + of_bool s.p_c
  let al = if s.p_d then adc16_adjust sum else sum
  Set.p_v (outside16 sum)
  Set.c (u16 al)
  Set.p_c (leb 0x10000 al)
  set_nz16 (u16 al)

unfoldable pub i_adc : ℕ → ℕ → AddrMode → ℕ → Act
i_adc size cycles mode addr = do
  s ← get
  if acc8 s
      then (do val ← get_mem_byte addr s.setacc; adc8 val)
      else (do val ← arith_word mode addr s.setacc; adc16 val; add_cycles 1)
  arith_cycles mode addr
  cpu_update_pc (immd_size (acc8 s) mode size)
  add_cycles cycles

-- uint16_t and uint32_t differences.
abbrev pub minus16 : ℕ → ℕ → ℕ
minus16 a b = u16 (a + 2 ^ 16 - b)

abbrev pub minus32 : ℕ → ℕ → ℕ
minus32 a b = u32 (a + 2 ^ 32 - b)

-- Steps 3a to 3d of the decimal subtraction of a byte.
unfoldable pub sbc8_digits : ℕ → ℕ → Bool → ℕ
sbc8_digits c val carry =
    let al = minus16 (digit c 0 + of_bool carry) (digit val 0 + 1) in
    let al1 = if leb (2 ^ 15) al then minus16 (minus16 al 0x06 % 2 ^ 4) 0x10 else al in
    let al2 = minus16 (u16 (digit c 4 + al1)) (digit val 4) in
    if leb (2 ^ 15) al2 then minus16 al2 0x60 else al2

unfoldable pub sbc16_digits : ℕ → ℕ → Bool → ℕ
sbc16_digits c val carry =
    let al = minus32 (digit c 0 + of_bool carry) (digit val 0 + 1) in
    let al1 = if leb 0x000a al then minus32 (minus32 al 0x0006 % 2 ^ 4) 0x0010 else al in
    let al2 = minus32 (u32 (digit c 4 + al1)) (digit val 4) in
    let al3 = if leb 0x00a0 al2 then minus32 (minus32 al2 0x0060 % 2 ^ 8) 0x0100 else al2 in
    let al4 = minus32 (u32 (digit c 8 + al3)) (digit val 8) in
    let al5 = if leb 0x0a00 al4 then minus32 (minus32 al4 0x0600 % 2 ^ 12) 0x1000 else al4 in
    let al6 = minus32 (u32 (digit c 12 + al5)) (digit val 12) in
    if leb 0xa000 al6 then minus32 al6 0x6000 else al6

unfoldable pub sbc8 : ℕ → Act
sbc8 val = do
  s ← get
  let alb = minus16 (low_byte s.c + of_bool s.p_c) (val + 1)
  let al = if s.p_d then sbc8_digits s.c val s.p_c else alb
  Set.c (high_byte s.c + low_byte al)
  set_nz8 al
  Set.p_v (outside8 alb)
  Set.p_c (leb 0x100 alb)

unfoldable pub sbc16 : ℕ → Act
sbc16 val = do
  s ← get
  let alb = minus32 (s.c + of_bool s.p_c) (val + 1)
  let al = if s.p_d then sbc16_digits s.c val s.p_c else alb
  Set.c (u16 al)
  set_nz16 (u16 al)
  Set.p_v (outside16 alb)
  Set.p_c (leb 0x10000 alb)

unfoldable pub i_sbc : ℕ → ℕ → AddrMode → ℕ → Act
i_sbc size cycles mode addr = do
  s ← get
  if acc8 s
      then (do val ← get_mem_byte addr s.setacc; sbc8 val)
      else (do val ← arith_word mode addr s.setacc; sbc16 val; add_cycles 1)
  arith_cycles mode addr
  cpu_update_pc (immd_size (acc8 s) mode size)
  add_cycles cycles
