-- ===== src/Cpu/Advance/ShiftCount.antt =====
-- How far the handlers of src/cpu/65816-ops.c move the program counter (ShiftCount).
use ce.Base.{ℕ, Bool}
use ce.Cpu.State.{AddrMode}
use ce.Cpu.Ops.Common.{WordReader, WordWriter}
use ce.Cpu.Advance.{Still, Advances, AdvancesBy, get-AdvancesBy, Advances-AdvancesBy}
use ce.Cpu.Advance.Parts.{part_still_rules, advance_rules}
use ce.Cpu.Ops.Shift.{
  shift_mem, shift_acc, shift_operand, shift_nz, finish_shift, i_asl, i_lsr, i_rol, i_ror, Shifter,
}
use ce.Cpu.Ops.Count.{count_mem, i_dec, i_inc}

shift_mem-Still :
    (shift : Shifter) (read_word : WordReader)
    (read_word_still : (a : ℕ) (acc : Bool) → Still (read_word a acc)) (write_word : WordWriter)
    (write_word_still : (a v : ℕ) (acc : Bool) → Still (write_word a v acc)) (addr : ℕ)
    → Still (shift_mem shift read_word write_word addr)
unfolding shift_mem
shift_mem-Still shift read_word read_word_still write_word write_word_still addr =
    search part_still_rules depth 30

shift_acc-Still : (shift : Shifter) → Still (shift_acc shift)
unfolding shift_acc
shift_acc-Still shift = search part_still_rules depth 30

shift_operand-Still :
    (shift : Shifter) (mode : AddrMode) (addr : ℕ) → Still (shift_operand shift mode addr)
unfolding shift_operand
shift_operand-Still shift mode addr =
    search (part_still_rules, shift_mem-Still, shift_acc-Still) depth 30

shift_nz-Still : (short : Bool) (v : ℕ) → Still (shift_nz short v)
unfolding shift_nz
shift_nz-Still short v = search part_still_rules depth 30

finish_shift-Advances : (size cycles : ℕ) → Advances size (finish_shift size cycles)
unfolding finish_shift
finish_shift-Advances size cycles = search advance_rules depth 30

pub i_asl-AdvancesBy :
    (size cycles : ℕ) (mode : AddrMode) (addr : ℕ)
    → AdvancesBy (λ r. size) (i_asl size cycles mode addr)
unfolding i_asl
i_asl-AdvancesBy size cycles mode addr =
    search
      (advance_rules, shift_operand-Still, shift_nz-Still, finish_shift-Advances, get-AdvancesBy)
      depth 30

pub i_lsr-AdvancesBy :
    (size cycles : ℕ) (mode : AddrMode) (addr : ℕ)
    → AdvancesBy (λ r. size) (i_lsr size cycles mode addr)
unfolding i_lsr
i_lsr-AdvancesBy size cycles mode addr =
    search (advance_rules, shift_operand-Still, finish_shift-Advances, get-AdvancesBy) depth 30

pub i_rol-AdvancesBy :
    (size cycles : ℕ) (mode : AddrMode) (addr : ℕ)
    → AdvancesBy (λ r. size) (i_rol size cycles mode addr)
unfolding i_rol
i_rol-AdvancesBy size cycles mode addr =
    search
      (advance_rules, shift_operand-Still, shift_nz-Still, finish_shift-Advances, get-AdvancesBy)
      depth 30

pub i_ror-AdvancesBy :
    (size cycles : ℕ) (mode : AddrMode) (addr : ℕ)
    → AdvancesBy (λ r. size) (i_ror size cycles mode addr)
unfolding i_ror
i_ror-AdvancesBy size cycles mode addr =
    search
      (advance_rules, shift_operand-Still, shift_nz-Still, finish_shift-Advances, get-AdvancesBy)
      depth 30

count_mem-Still : (step : ℕ) (mode : AddrMode) (addr : ℕ) → Still (count_mem step mode addr)
unfolding count_mem
count_mem-Still step mode addr = search part_still_rules depth 30

pub i_dec-AdvancesBy :
    (size cycles : ℕ) (mode : AddrMode) (addr : ℕ)
    → AdvancesBy (λ r. size) (i_dec size cycles mode addr)
unfolding i_dec
i_dec-AdvancesBy size cycles mode addr =
    search (advance_rules, count_mem-Still, Advances-AdvancesBy) depth 30

pub i_inc-AdvancesBy :
    (size cycles : ℕ) (mode : AddrMode) (addr : ℕ)
    → AdvancesBy (λ r. size) (i_inc size cycles mode addr)
unfolding i_inc
i_inc-AdvancesBy size cycles mode addr =
    search (advance_rules, count_mem-Still, Advances-AdvancesBy) depth 30
