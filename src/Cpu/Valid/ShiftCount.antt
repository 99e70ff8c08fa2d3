-- ===== src/Cpu/Valid/ShiftCount.antt =====
-- The handlers of src/cpu/65816-ops.c in Ops/Shift, Ops/Count keep the invariant.
use ce.Base.{ℕ, Bool}
use ce.Cpu.State.{AddrMode}
use ce.Cpu.Ops.Common.{WordReader, WordWriter}
use ce.Cpu.Valid.{Keeps}
use ce.Cpu.Valid.Addresses.{address_rules}
use ce.Cpu.Ops.Shift.{
  shift_mem, shift_acc, shift_operand, shift_nz, finish_shift, i_asl, i_lsr, i_rol, i_ror, Shifter,
}
use ce.Cpu.Ops.Count.{
  count_mem, i_dec, i_inc, count_acc, i_dea, i_ina, set_nz_index, i_dex, i_dey, i_inx, i_iny,
}

pub shift_mem-Keeps :
    (shift : Shifter) (read_word : WordReader)
    (read_word_keeps : (a : ℕ) (acc : Bool) → Keeps (read_word a acc)) (write_word : WordWriter)
    (write_word_keeps : (a v : ℕ) (acc : Bool) → Keeps (write_word a v acc)) (addr : ℕ)
    → Keeps (shift_mem shift read_word write_word addr)
unfolding shift_mem
shift_mem-Keeps shift read_word read_word_keeps write_word write_word_keeps addr =
    search address_rules depth 30

pub shift_acc-Keeps : (shift : Shifter) → Keeps (shift_acc shift)
unfolding shift_acc
shift_acc-Keeps shift = search address_rules depth 30

pub shift_operand-Keeps :
    (shift : Shifter) (mode : AddrMode) (addr : ℕ) → Keeps (shift_operand shift mode addr)
unfolding shift_operand
shift_operand-Keeps shift mode addr =
    search (address_rules, shift_mem-Keeps, shift_acc-Keeps) depth 30

pub shift_nz-Keeps : (short : Bool) (v : ℕ) → Keeps (shift_nz short v)
unfolding shift_nz
shift_nz-Keeps short v = search address_rules depth 30

pub finish_shift-Keeps : (size : ℕ) (cycles : ℕ) → Keeps (finish_shift size cycles)
unfolding finish_shift
finish_shift-Keeps size cycles = search address_rules depth 30

pub i_asl-Keeps :
    (size : ℕ) (cycles : ℕ) (mode : AddrMode) (addr : ℕ) → Keeps (i_asl size cycles mode addr)
unfolding i_asl
i_asl-Keeps size cycles mode addr =
    search (address_rules, shift_operand-Keeps, shift_nz-Keeps, finish_shift-Keeps) depth 30

pub i_lsr-Keeps :
    (size : ℕ) (cycles : ℕ) (mode : AddrMode) (addr : ℕ) → Keeps (i_lsr size cycles mode addr)
unfolding i_lsr
i_lsr-Keeps size cycles mode addr =
    search (address_rules, shift_operand-Keeps, finish_shift-Keeps) depth 30

pub i_rol-Keeps :
    (size : ℕ) (cycles : ℕ) (mode : AddrMode) (addr : ℕ) → Keeps (i_rol size cycles mode addr)
unfolding i_rol
i_rol-Keeps size cycles mode addr =
    search (address_rules, shift_operand-Keeps, shift_nz-Keeps, finish_shift-Keeps) depth 30

pub i_ror-Keeps :
    (size : ℕ) (cycles : ℕ) (mode : AddrMode) (addr : ℕ) → Keeps (i_ror size cycles mode addr)
unfolding i_ror
i_ror-Keeps size cycles mode addr =
    search (address_rules, shift_operand-Keeps, shift_nz-Keeps, finish_shift-Keeps) depth 30

pub count_mem-Keeps : (step : ℕ) (mode : AddrMode) (addr : ℕ) → Keeps (count_mem step mode addr)
unfolding count_mem
count_mem-Keeps step mode addr = search address_rules depth 30

pub i_dec-Keeps :
    (size : ℕ) (cycles : ℕ) (mode : AddrMode) (addr : ℕ) → Keeps (i_dec size cycles mode addr)
unfolding i_dec
i_dec-Keeps size cycles mode addr = search (address_rules, count_mem-Keeps) depth 30

pub i_inc-Keeps :
    (size : ℕ) (cycles : ℕ) (mode : AddrMode) (addr : ℕ) → Keeps (i_inc size cycles mode addr)
unfolding i_inc
i_inc-Keeps size cycles mode addr = search (address_rules, count_mem-Keeps) depth 30

pub count_acc-Keeps : (step : ℕ) → Keeps (count_acc step)
unfolding count_acc
count_acc-Keeps step = search address_rules depth 30

pub i_dea-Keeps : Keeps i_dea
unfolding i_dea
i_dea-Keeps = search (address_rules, count_acc-Keeps) depth 30

pub i_ina-Keeps : Keeps i_ina
unfolding i_ina
i_ina-Keeps = search (address_rules, count_acc-Keeps) depth 30

pub set_nz_index-Keeps : (short : Bool) (v : ℕ) → Keeps (set_nz_index short v)
unfolding set_nz_index
set_nz_index-Keeps short v = search address_rules depth 30

pub i_dex-Keeps : Keeps i_dex
unfolding i_dex
i_dex-Keeps = search (address_rules, set_nz_index-Keeps) depth 30

pub i_dey-Keeps : Keeps i_dey
unfolding i_dey
i_dey-Keeps = search (address_rules, set_nz_index-Keeps) depth 30

pub i_inx-Keeps : Keeps i_inx
unfolding i_inx
i_inx-Keeps = search (address_rules, set_nz_index-Keeps) depth 30

pub i_iny-Keeps : Keeps i_iny
unfolding i_iny
i_iny-Keeps = search (address_rules, set_nz_index-Keeps) depth 30
