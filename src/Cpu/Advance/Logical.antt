-- ===== src/Cpu/Advance/Logical.antt =====
-- How far the handlers of src/cpu/65816-ops.c move the program counter (Logical).
use ce.Base.{ℕ, Bool}
use ce.Cpu.State.{AddrMode}
use ce.Cpu.Ops.Common.{WordReader, acc8, idx8, immd_size}
use ce.Cpu.Advance.{Still, Advances, AdvancesBy, get-AdvancesBy, Advances-AdvancesBy}
use ce.Cpu.Advance.Parts.{part_still_rules, advance_rules}
use ce.Cpu.Ops.Logic.{
  combine_acc, and_acc, i_and, finish_logic, i_ora, i_eor, bit_flags, bit_immediate, i_bit,
  test_bits, i_trb, i_tsb,
}
use ce.Cpu.Ops.Compare.{compare8, compare16, compare_mem, i_cmp, compare_index, i_cpx, i_cpy}

combine_acc-Still :
    (op : (ℕ → ℕ → ℕ)) (read_word : WordReader)
    (read_word_still : (a : ℕ) (acc : Bool) → Still (read_word a acc)) (addr : ℕ)
    → Still (combine_acc op read_word addr)
unfolding combine_acc
combine_acc-Still op read_word read_word_still addr = search part_still_rules depth 30

and_acc-Still :
    (read_word : WordReader) (read_word_still : (a : ℕ) (acc : Bool) → Still (read_word a acc))
    (addr : ℕ)
    → Still (and_acc read_word addr)
unfolding and_acc
and_acc-Still read_word read_word_still addr = search (part_still_rules, combine_acc-Still) depth 30

pub i_and-AdvancesBy :
    (size cycles : ℕ) (mode : AddrMode) (addr : ℕ)
    → AdvancesBy (λ r. immd_size (acc8 r) mode size) (i_and size cycles mode addr)
unfolding i_and
i_and-AdvancesBy size cycles mode addr =
    search (advance_rules, and_acc-Still, get-AdvancesBy) depth 30

finish_logic-Advances : (size cycles : ℕ) → Advances size (finish_logic size cycles)
unfolding finish_logic
finish_logic-Advances size cycles = search advance_rules depth 30

pub i_ora-AdvancesBy :
    (size cycles : ℕ) (mode : AddrMode) (addr : ℕ)
    → AdvancesBy (λ r. immd_size (acc8 r) mode size) (i_ora size cycles mode addr)
unfolding i_ora
i_ora-AdvancesBy size cycles mode addr =
    search (advance_rules, combine_acc-Still, finish_logic-Advances, get-AdvancesBy) depth 30

pub i_eor-AdvancesBy :
    (size cycles : ℕ) (mode : AddrMode) (addr : ℕ)
    → AdvancesBy (λ r. immd_size (acc8 r) mode size) (i_eor size cycles mode addr)
unfolding i_eor
i_eor-AdvancesBy size cycles mode addr =
    search (advance_rules, combine_acc-Still, finish_logic-Advances, get-AdvancesBy) depth 30

bit_flags-Still :
    (read_word : WordReader) (read_word_still : (a : ℕ) (acc : Bool) → Still (read_word a acc))
    (addr : ℕ)
    → Still (bit_flags read_word addr)
unfolding bit_flags
bit_flags-Still read_word read_word_still addr = search part_still_rules depth 30

bit_immediate-Still : (addr : ℕ) → Still (bit_immediate addr)
unfolding bit_immediate
bit_immediate-Still addr = search part_still_rules depth 30

pub i_bit-AdvancesBy :
    (size cycles : ℕ) (mode : AddrMode) (addr : ℕ)
    → AdvancesBy (λ r. immd_size (acc8 r) mode size) (i_bit size cycles mode addr)
unfolding i_bit
i_bit-AdvancesBy size cycles mode addr =
    search (advance_rules, bit_flags-Still, bit_immediate-Still, get-AdvancesBy) depth 30

test_bits-Still :
    (op8 : (ℕ → ℕ → ℕ)) (op16 : (ℕ → ℕ → ℕ)) (mode : AddrMode) (addr : ℕ)
    → Still (test_bits op8 op16 mode addr)
unfolding test_bits
test_bits-Still op8 op16 mode addr = search part_still_rules depth 30

pub i_trb-AdvancesBy :
    (size cycles : ℕ) (mode : AddrMode) (addr : ℕ)
    → AdvancesBy (λ r. size) (i_trb size cycles mode addr)
unfolding i_trb
i_trb-AdvancesBy size cycles mode addr =
    search (advance_rules, test_bits-Still, Advances-AdvancesBy) depth 30

pub i_tsb-AdvancesBy :
    (size cycles : ℕ) (mode : AddrMode) (addr : ℕ)
    → AdvancesBy (λ r. size) (i_tsb size cycles mode addr)
unfolding i_tsb
i_tsb-AdvancesBy size cycles mode addr =
    search (advance_rules, test_bits-Still, Advances-AdvancesBy) depth 30

compare8-Still : (reg : ℕ) (val : ℕ) → Still (compare8 reg val)
unfolding compare8
compare8-Still reg val = search part_still_rules depth 30

compare16-Still : (reg : ℕ) (val : ℕ) → Still (compare16 reg val)
unfolding compare16
compare16-Still reg val = search part_still_rules depth 30

compare_mem-Still :
    (short : Bool) (reg : ℕ) (read_word : WordReader)
    (read_word_still : (a : ℕ) (acc : Bool) → Still (read_word a acc)) (addr : ℕ)
    → Still (compare_mem short reg read_word addr)
unfolding compare_mem
compare_mem-Still short reg read_word read_word_still addr =
    search (part_still_rules, compare8-Still, compare16-Still) depth 30

pub i_cmp-AdvancesBy :
    (size cycles : ℕ) (mode : AddrMode) (addr : ℕ)
    → AdvancesBy (λ r. immd_size (acc8 r) mode size) (i_cmp size cycles mode addr)
unfolding i_cmp
i_cmp-AdvancesBy size cycles mode addr =
    search (advance_rules, compare_mem-Still, get-AdvancesBy) depth 30

compare_index-AdvancesBy :
    (reg size cycles : ℕ) (mode : AddrMode) (addr : ℕ)
    → AdvancesBy (λ r. immd_size (idx8 r) mode size) (compare_index reg size cycles mode addr)
unfolding compare_index
compare_index-AdvancesBy reg size cycles mode addr =
    search (advance_rules, compare_mem-Still, get-AdvancesBy) depth 30

pub i_cpx-AdvancesBy :
    (size cycles : ℕ) (mode : AddrMode) (addr : ℕ)
    → AdvancesBy (λ r. immd_size (idx8 r) mode size) (i_cpx size cycles mode addr)
unfolding i_cpx
i_cpx-AdvancesBy size cycles mode addr = record {
  moved_by = λ s. (compare_index-AdvancesBy _ size cycles mode addr).moved_by s;
}

pub i_cpy-AdvancesBy :
    (size cycles : ℕ) (mode : AddrMode) (addr : ℕ)
    → AdvancesBy (λ r. immd_size (idx8 r) mode size) (i_cpy size cycles mode addr)
unfolding i_cpy
i_cpy-AdvancesBy size cycles mode addr = record {
  moved_by = λ s. (compare_index-AdvancesBy _ size cycles mode addr).moved_by s;
}
