-- ===== src/Cpu/Ops/Common.antt =====
-- src/cpu/65816-ops.c: the conditions and steps that the handlers share.
use ce.Base.{ℕ, ◌+◌, ◌-◌, ◌/◌, ◌%◌, ◌^◌, u32, low_byte, bit, Bool, ◌==◌, ◌&&◌, ◌||◌, not}
use ce.Base.{if◌then◌else◌}
use ce.Cpu.State.{Cpu, AddrMode, absx, absy, inddpy, immd, is_mode}
use ce.Cpu.Monad.{M, Act, ◌>>=◌, ◌>>◌, get, skip, when, add_cycles}
use ce.Cpu.Set

-- `cpu->P.E || (!cpu->P.E && cpu->P.M)`: the accumulator is 8 bits wide.
abbrev pub acc8 : Cpu → Bool
acc8 s = s.p_e || (not s.p_e && s.p_m)

-- `cpu->P.E || (!cpu->P.E && cpu->P.XB)`: the index registers are 8 bits wide.
abbrev pub idx8 : Cpu → Bool
idx8 s = s.p_e || (not s.p_e && s.p_xb)

-- `cpu->D & 0xff`
abbrev pub dl_set : Cpu → Bool
dl_set s = not (s.d % 2 ^ 8 == 0)

-- `(addr & 0xffff00) != ((addr - index) & 0xffff00) || (!cpu->P.E && !cpu->P.XB)`
abbrev pub page_crossed : Cpu → ℕ → ℕ → Bool
page_crossed s addr index =
    not (addr / 2 ^ 8 % 2 ^ 16 == u32 (addr + 2 ^ 32 - index) / 2 ^ 8 % 2 ^ 16)
    || (not s.p_e && not s.p_xb)

unfoldable pub dl_cycle : Act
dl_cycle = do s ← get; when (dl_set s) (add_cycles 1)

unfoldable pub page_cycle_x : ℕ → Act
page_cycle_x addr = do s ← get; when (page_crossed s addr s.x) (add_cycles 1)

unfoldable pub page_cycle_y : ℕ → Act
page_cycle_y addr = do s ← get; when (page_crossed s addr s.y) (add_cycles 1)

-- The indexed modes that the handlers check for a page crossing.
unfoldable pub page_cycle : AddrMode → ℕ → Act
unfolding page_cycle_x page_cycle_y
page_cycle mode addr =
    if is_mode mode absx
    then page_cycle_x addr
    else if is_mode mode absy || is_mode mode inddpy
    then page_cycle_y addr
    else skip

-- One operand byte more for a 16-bit immediate.
abbrev pub immd_size : Bool → AddrMode → ℕ → ℕ
immd_size short mode size = if not short && is_mode mode immd then size + 1 else size

-- N and Z from an 8-bit and from a 16-bit value.
unfoldable pub set_nz8 : ℕ → Act
set_nz8 v = do Set.p_n (bit v 7); Set.p_z (low_byte v == 0)

unfoldable pub set_nz16 : ℕ → Act
set_nz16 v = do Set.p_n (bit v 15); Set.p_z (v == 0)

-- N and Z from the accumulator at its width.
unfoldable pub set_nz_acc : Act
unfolding set_nz8 set_nz16
set_nz_acc = do s ← get; if acc8 s then set_nz8 s.c else set_nz16 s.c

-- A wide read: `_get_mem_word` or `_get_mem_word_bank_wrap`.
abbrev pub WordReader : Type 0
WordReader = ℕ → Bool → M ℕ

-- A wide write: `_set_mem_word` or `_set_mem_word_bank_wrap`.
abbrev pub WordWriter : Type 0
WordWriter = ℕ → ℕ → Bool → Act
