-- ===== src/Cpu/Address/Bounds.antt =====
-- The effective addresses of src/cpu/65816-util.c lie in the 24-bit address space, and computing one
-- changes nothing but read flags.
use ce.Base.{Bool, arith}
use ce.Cpu.State.{Machine}
use ce.Cpu.Memory.{
  get_mem_byte, get_mem_word_bank_wrap, get_mem_word_page_wrap, get_mem_long_bank_wrap,
  addr_add_val_bank_wrap, addr_add_val_page_wrap,
}
use ce.Cpu.Registers.{
  cpu_get_immd_byte, cpu_get_immd_word, cpu_get_immd_long, cpu_get_pbr, cpu_get_dbr,
  cpu_get_effective_pc,
}
use ce.Cpu.Address.{
  get_absolute_indexed_indirect_x, get_absolute_indirect, get_absolute_indirect_long, get_absolute,
  get_absolute_indexed_x, get_absolute_indexed_y, get_long_indexed_x, get_long, get_immediate,
  get_stack_relative, get_stack_relative_indirect_indexed_y,
}
use ce.Cpu.Instr.{Operand}
use ce.Cpu.Execute.{address}
use ce.Cpu.Valid.{IsValid}
use ce.Cpu.Address.Result.{IsAddress}
use ce.Cpu.Address.DirectPage.{
  direct_page-lt, direct_page_indirect-lt, direct_page_indirect_long-lt, direct_page_indexed_x-lt,
  direct_page_indexed_indirect_x-lt, direct_page_indexed_y-lt, direct_page_indirect_indexed_y-lt,
  direct_page_indirect_long_indexed_y-lt,
}

absolute_indexed_indirect_x-lt :
    (acc : Bool) (s : Machine)
    → IsValid s.cpu
    → IsAddress acc s
        (get_absolute_indexed_indirect_x acc s).0
        (get_absolute_indexed_indirect_x acc s).1
unfolding get_absolute_indexed_indirect_x cpu_get_immd_byte cpu_get_immd_word cpu_get_immd_long
    get_mem_byte get_mem_word_bank_wrap get_mem_word_page_wrap get_mem_long_bank_wrap
    addr_add_val_bank_wrap addr_add_val_page_wrap cpu_get_pbr cpu_get_dbr cpu_get_effective_pc
absolute_indexed_indirect_x-lt acc s v = ground arith

absolute_indirect-lt :
    (acc : Bool) (s : Machine)
    → IsValid s.cpu
    → IsAddress acc s (get_absolute_indirect acc s).0 (get_absolute_indirect acc s).1
unfolding get_absolute_indirect cpu_get_immd_byte cpu_get_immd_word cpu_get_immd_long get_mem_byte
    get_mem_word_bank_wrap get_mem_word_page_wrap get_mem_long_bank_wrap addr_add_val_bank_wrap
    addr_add_val_page_wrap cpu_get_pbr cpu_get_dbr cpu_get_effective_pc
absolute_indirect-lt acc s v = ground arith

absolute_indirect_long-lt :
    (acc : Bool) (s : Machine)
    → IsValid s.cpu
    → IsAddress acc s (get_absolute_indirect_long acc s).0 (get_absolute_indirect_long acc s).1
unfolding get_absolute_indirect_long cpu_get_immd_byte cpu_get_immd_word cpu_get_immd_long
    get_mem_byte get_mem_word_bank_wrap get_mem_word_page_wrap get_mem_long_bank_wrap
    addr_add_val_bank_wrap addr_add_val_page_wrap cpu_get_pbr cpu_get_dbr cpu_get_effective_pc
absolute_indirect_long-lt acc s v = ground arith

absolute-lt :
    (acc : Bool) (s : Machine)
    → IsValid s.cpu
    → IsAddress acc s (get_absolute acc s).0 (get_absolute acc s).1
unfolding get_absolute cpu_get_immd_byte cpu_get_immd_word cpu_get_immd_long get_mem_byte
    get_mem_word_bank_wrap get_mem_word_page_wrap get_mem_long_bank_wrap addr_add_val_bank_wrap
    addr_add_val_page_wrap cpu_get_pbr cpu_get_dbr cpu_get_effective_pc
absolute-lt acc s v = ground arith

absolute_indexed_x-lt :
    (acc : Bool) (s : Machine)
    → IsValid s.cpu
    → IsAddress acc s (get_absolute_indexed_x acc s).0 (get_absolute_indexed_x acc s).1
unfolding get_absolute_indexed_x cpu_get_immd_byte cpu_get_immd_word cpu_get_immd_long get_mem_byte
    get_mem_word_bank_wrap get_mem_word_page_wrap get_mem_long_bank_wrap addr_add_val_bank_wrap
    addr_add_val_page_wrap cpu_get_pbr cpu_get_dbr cpu_get_effective_pc
absolute_indexed_x-lt acc s v = ground arith

absolute_indexed_y-lt :
    (acc : Bool) (s : Machine)
    → IsValid s.cpu
    → IsAddress acc s (get_absolute_indexed_y acc s).0 (get_absolute_indexed_y acc s).1
unfolding get_absolute_indexed_y cpu_get_immd_byte cpu_get_immd_word cpu_get_immd_long get_mem_byte
    get_mem_word_bank_wrap get_mem_word_page_wrap get_mem_long_bank_wrap addr_add_val_bank_wrap
    addr_add_val_page_wrap cpu_get_pbr cpu_get_dbr cpu_get_effective_pc
absolute_indexed_y-lt acc s v = ground arith

long_indexed_x-lt :
    (acc : Bool) (s : Machine)
    → IsValid s.cpu
    → IsAddress acc s (get_long_indexed_x acc s).0 (get_long_indexed_x acc s).1
unfolding get_long_indexed_x cpu_get_immd_byte cpu_get_immd_word cpu_get_immd_long get_mem_byte
    get_mem_word_bank_wrap get_mem_word_page_wrap get_mem_long_bank_wrap addr_add_val_bank_wrap
    addr_add_val_page_wrap cpu_get_pbr cpu_get_dbr cpu_get_effective_pc
long_indexed_x-lt acc s v = ground arith

long-lt :
    (acc : Bool) (s : Machine)
    → IsValid s.cpu
    → IsAddress acc s (get_long acc s).0 (get_long acc s).1
unfolding get_long cpu_get_immd_byte cpu_get_immd_word cpu_get_immd_long get_mem_byte
    get_mem_word_bank_wrap get_mem_word_page_wrap get_mem_long_bank_wrap addr_add_val_bank_wrap
    addr_add_val_page_wrap cpu_get_pbr cpu_get_dbr cpu_get_effective_pc
long-lt acc s v = ground arith

immediate-lt :
    (acc : Bool) (s : Machine)
    → IsValid s.cpu
    → IsAddress acc s (get_immediate acc s).0 (get_immediate acc s).1
unfolding get_immediate cpu_get_immd_byte cpu_get_immd_word cpu_get_immd_long get_mem_byte
    get_mem_word_bank_wrap get_mem_word_page_wrap get_mem_long_bank_wrap addr_add_val_bank_wrap
    addr_add_val_page_wrap cpu_get_pbr cpu_get_dbr cpu_get_effective_pc
immediate-lt acc s v = ground arith

stack_relative-lt :
    (acc : Bool) (s : Machine)
    → IsValid s.cpu
    → IsAddress acc s (get_stack_relative acc s).0 (get_stack_relative acc s).1
unfolding get_stack_relative cpu_get_immd_byte cpu_get_immd_word cpu_get_immd_long get_mem_byte
    get_mem_word_bank_wrap get_mem_word_page_wrap get_mem_long_bank_wrap addr_add_val_bank_wrap
    addr_add_val_page_wrap cpu_get_pbr cpu_get_dbr cpu_get_effective_pc
stack_relative-lt acc s v = ground arith

stack_relative_indirect_indexed_y-lt :
    (acc : Bool) (s : Machine)
    → IsValid s.cpu
    → IsAddress acc s
        (get_stack_relative_indirect_indexed_y acc s).0
        (get_stack_relative_indirect_indexed_y acc s).1
unfolding get_stack_relative_indirect_indexed_y cpu_get_immd_byte cpu_get_immd_word
    cpu_get_immd_long get_mem_byte get_mem_word_bank_wrap get_mem_word_page_wrap
    get_mem_long_bank_wrap addr_add_val_bank_wrap addr_add_val_page_wrap cpu_get_pbr cpu_get_dbr
    cpu_get_effective_pc
stack_relative_indirect_indexed_y-lt acc s v = ground arith

-- For every addressing mode, from a valid processor: the address is below 2 ^ 24; the processor,
-- the bytes of the memory and the write and break flags are as before; and so are the read flags
-- if access flags are off.
pub address-IsAddress :
    (operand : Operand) (acc : Bool) (s : Machine)
    → IsValid s.cpu
    → IsAddress acc s (address operand acc s).0 (address operand acc s).1
unfolding address
address-IsAddress Operand.absolute_indexed_indirect_x acc s v =
    absolute_indexed_indirect_x-lt acc s v
address-IsAddress Operand.absolute_indirect acc s v = absolute_indirect-lt acc s v
address-IsAddress Operand.absolute_indirect_long acc s v = absolute_indirect_long-lt acc s v
address-IsAddress Operand.absolute acc s v = absolute-lt acc s v
address-IsAddress Operand.absolute_indexed_x acc s v = absolute_indexed_x-lt acc s v
address-IsAddress Operand.absolute_indexed_y acc s v = absolute_indexed_y-lt acc s v
address-IsAddress Operand.long_indexed_x acc s v = long_indexed_x-lt acc s v
address-IsAddress Operand.direct_page acc s v = direct_page-lt acc s v
address-IsAddress Operand.direct_page_indirect acc s v = direct_page_indirect-lt acc s v
address-IsAddress Operand.direct_page_indirect_long acc s v = direct_page_indirect_long-lt acc s v
address-IsAddress Operand.direct_page_indexed_x acc s v = direct_page_indexed_x-lt acc s v
address-IsAddress Operand.direct_page_indexed_indirect_x acc s v =
    direct_page_indexed_indirect_x-lt acc s v
address-IsAddress Operand.direct_page_indexed_y acc s v = direct_page_indexed_y-lt acc s v
address-IsAddress Operand.direct_page_indirect_indexed_y acc s v =
    direct_page_indirect_indexed_y-lt acc s v
address-IsAddress Operand.direct_page_indirect_long_indexed_y acc s v =
    direct_page_indirect_long_indexed_y-lt acc s v
address-IsAddress Operand.long acc s v = long-lt acc s v
address-IsAddress Operand.immediate acc s v = immediate-lt acc s v
address-IsAddress Operand.stack_relative acc s v = stack_relative-lt acc s v
address-IsAddress Operand.stack_relative_indirect_indexed_y acc s v =
    stack_relative_indirect_indexed_y-lt acc s v
address-IsAddress Operand.no_address acc s v = ground arith
