-- ===== src/Cpu/Valid/Logical.antt =====
-- The handlers of src/cpu/65816-ops.c in Ops/Logic, Ops/Compare keep the invariant.
use ce.Base.{ℕ, Bool}
use ce.Cpu.State.{AddrMode}
use ce.Cpu.Ops.Common.{WordReader}
use ce.Cpu.Valid.{Keeps}
use ce.Cpu.Valid.Addresses.{address_rules}
use ce.Cpu.Ops.Logic.{
  combine_acc, and_acc, i_and, finish_logic, i_ora, i_eor, bit_flags, bit_immediate, i_bit,
  test_bits, i_trb, i_tsb,
}
use ce.Cpu.Ops.Compare.{compare8, compare16, compare_mem, i_cmp, compare_index, i_cpx, i_cpy}

pub combine_acc-Keeps :
    (op : (ℕ → ℕ → ℕ)) (read_word : WordReader)
    (read_word_keeps : (a : ℕ) (acc : Bool) → Keeps (read_word a acc)) (addr : ℕ)
    → Keeps (combine_acc op read_word addr)
unfolding combine_acc
combine_acc-Keeps op read_word read_word_keeps addr = search address_rules depth 30

pub and_acc-Keeps :
    (read_word : WordReader) (read_word_keeps : (a : ℕ) (acc : Bool) → Keeps (read_word a acc))
    (addr : ℕ)
    → Keeps (and_acc read_word addr)
unfolding and_acc
and_acc-Keeps read_word read_word_keeps addr = search (address_rules, combine_acc-Keeps) depth 30

pub i_and-Keeps :
    (size : ℕ) (cycles : ℕ) (mode : AddrMode) (addr : ℕ) → Keeps (i_and size cycles mode addr)
unfolding i_and
i_and-Keeps size cycles mode addr = search (address_rules, and_acc-Keeps) depth 30

pub finish_logic-Keeps : (size : ℕ) (cycles : ℕ) → Keeps (finish_logic size cycles)
unfolding finish_logic
finish_logic-Keeps size cycles = search address_rules depth 30

pub i_ora-Keeps :
    (size : ℕ) (cycles : ℕ) (mode : AddrMode) (addr : ℕ) → Keeps (i_ora size cycles mode addr)
unfolding i_ora
i_ora-Keeps size cycles mode addr =
    search (address_rules, combine_acc-Keeps, finish_logic-Keeps) depth 30

pub i_eor-Keeps :
    (size : ℕ) (cycles : ℕ) (mode : AddrMode) (addr : ℕ) → Keeps (i_eor size cycles mode addr)
unfolding i_eor
i_eor-Keeps size cycles mode addr =
    search (address_rules, combine_acc-Keeps, finish_logic-Keeps) depth 30

pub bit_flags-Keeps :
    (read_word : WordReader) (read_word_keeps : (a : ℕ) (acc : Bool) → Keeps (read_word a acc))
    (addr : ℕ)
    → Keeps (bit_flags read_word addr)
unfolding bit_flags
bit_flags-Keeps read_word read_word_keeps addr = search address_rules depth 30

pub bit_immediate-Keeps : (addr : ℕ) → Keeps (bit_immediate addr)
unfolding bit_immediate
bit_immediate-Keeps addr = search address_rules depth 30

pub i_bit-Keeps :
    (size : ℕ) (cycles : ℕ) (mode : AddrMode) (addr : ℕ) → Keeps (i_bit size cycles mode addr)
unfolding i_bit
i_bit-Keeps size cycles mode addr =
    search (address_rules, bit_flags-Keeps, bit_immediate-Keeps) depth 30

pub test_bits-Keeps :
    (op8 : (ℕ → ℕ → ℕ)) (op16 : (ℕ → ℕ → ℕ)) (mode : AddrMode) (addr : ℕ)
    → Keeps (test_bits op8 op16 mode addr)
unfolding test_bits
test_bits-Keeps op8 op16 mode addr = search address_rules depth 30

pub i_trb-Keeps :
    (size : ℕ) (cycles : ℕ) (mode : AddrMode) (addr : ℕ) → Keeps (i_trb size cycles mode addr)
unfolding i_trb
i_trb-Keeps size cycles mode addr = search (address_rules, test_bits-Keeps) depth 30

pub i_tsb-Keeps :
    (size : ℕ) (cycles : ℕ) (mode : AddrMode) (addr : ℕ) → Keeps (i_tsb size cycles mode addr)
unfolding i_tsb
i_tsb-Keeps size cycles mode addr = search (address_rules, test_bits-Keeps) depth 30

pub compare8-Keeps : (reg : ℕ) (val : ℕ) → Keeps (compare8 reg val)
unfolding compare8
compare8-Keeps reg val = search address_rules depth 30

pub compare16-Keeps : (reg : ℕ) (val : ℕ) → Keeps (compare16 reg val)
unfolding compare16
compare16-Keeps reg val = search address_rules depth 30

pub compare_mem-Keeps :
    (short : Bool) (reg : ℕ) (read_word : WordReader)
    (read_word_keeps : (a : ℕ) (acc : Bool) → Keeps (read_word a acc)) (addr : ℕ)
    → Keeps (compare_mem short reg read_word addr)
unfolding compare_mem
compare_mem-Keeps short reg read_word read_word_keeps addr =
    search (address_rules, compare8-Keeps, compare16-Keeps) depth 30

pub i_cmp-Keeps :
    (size : ℕ) (cycles : ℕ) (mode : AddrMode) (addr : ℕ) → Keeps (i_cmp size cycles mode addr)
unfolding i_cmp
i_cmp-Keeps size cycles mode addr = search (address_rules, compare_mem-Keeps) depth 30

pub compare_index-Keeps :
    (reg : ℕ) (size : ℕ) (cycles : ℕ) (mode : AddrMode) (addr : ℕ)
    → Keeps (compare_index reg size cycles mode addr)
unfolding compare_index
compare_index-Keeps reg size cycles mode addr = search (address_rules, compare_mem-Keeps) depth 30

pub i_cpx-Keeps :
    (size : ℕ) (cycles : ℕ) (mode : AddrMode) (addr : ℕ) → Keeps (i_cpx size cycles mode addr)
unfolding i_cpx
i_cpx-Keeps size cycles mode addr = search (address_rules, compare_index-Keeps) depth 30

pub i_cpy-Keeps :
    (size : ℕ) (cycles : ℕ) (mode : AddrMode) (addr : ℕ) → Keeps (i_cpy size cycles mode addr)
unfolding i_cpy
i_cpy-Keeps size cycles mode addr = search (address_rules, compare_index-Keeps) depth 30
