-- ===== src/Cpu/Address/DirectPage.antt =====
-- The effective addresses of the direct page modes of src/cpu/65816-util.c.
use ce.Base.{Bool, arith}
use ce.Cpu.State.{Machine}
use ce.Cpu.Memory.{
  get_mem_byte, get_mem_word_bank_wrap, get_mem_word_page_wrap, get_mem_long_bank_wrap,
  addr_add_val_bank_wrap, addr_add_val_page_wrap,
}
use ce.Cpu.Registers.{
  cpu_get_immd_byte, cpu_get_immd_word, cpu_get_immd_long, cpu_get_pbr, cpu_get_dbr,
  cpu_get_effective_pc,
}
use ce.Cpu.Address.{
  get_direct_page, get_direct_page_indirect, get_direct_page_indirect_long,
  get_direct_page_indexed_x, get_direct_page_indexed_indirect_x, get_direct_page_indexed_y,
  get_direct_page_indirect_indexed_y, get_direct_page_indirect_long_indexed_y,
}
use ce.Cpu.Valid.{IsValid}
use ce.Cpu.Address.Result.{IsAddress}

pub direct_page-lt :
    (acc : Bool) (s : Machine)
    → IsValid s.cpu
    → IsAddress acc s (get_direct_page acc s).0 (get_direct_page acc s).1
unfolding get_direct_page cpu_get_immd_byte cpu_get_immd_word cpu_get_immd_long get_mem_byte
    get_mem_word_bank_wrap get_mem_word_page_wrap get_mem_long_bank_wrap addr_add_val_bank_wrap
    addr_add_val_page_wrap cpu_get_pbr cpu_get_dbr cpu_get_effective_pc
direct_page-lt acc s v = ground arith

pub direct_page_indirect-lt :
    (acc : Bool) (s : Machine)
    → IsValid s.cpu
    → IsAddress acc s (get_direct_page_indirect acc s).0 (get_direct_page_indirect acc s).1
unfolding get_direct_page_indirect cpu_get_immd_byte cpu_get_immd_word cpu_get_immd_long
    get_mem_byte get_mem_word_bank_wrap get_mem_word_page_wrap get_mem_long_bank_wrap
    addr_add_val_bank_wrap addr_add_val_page_wrap cpu_get_pbr cpu_get_dbr cpu_get_effective_pc
direct_page_indirect-lt acc s v = ground arith

pub direct_page_indirect_long-lt :
    (acc : Bool) (s : Machine)
    → IsValid s.cpu
    → IsAddress acc s
        (get_direct_page_indirect_long acc s).0
        (get_direct_page_indirect_long acc s).1
unfolding get_direct_page_indirect_long cpu_get_immd_byte cpu_get_immd_word cpu_get_immd_long
    get_mem_byte get_mem_word_bank_wrap get_mem_word_page_wrap get_mem_long_bank_wrap
    addr_add_val_bank_wrap addr_add_val_page_wrap cpu_get_pbr cpu_get_dbr cpu_get_effective_pc
direct_page_indirect_long-lt acc s v = ground arith

pub direct_page_indexed_x-lt :
    (acc : Bool) (s : Machine)
    → IsValid s.cpu
    → IsAddress acc s (get_direct_page_indexed_x acc s).0 (get_direct_page_indexed_x acc s).1
unfolding get_direct_page_indexed_x cpu_get_immd_byte cpu_get_immd_word cpu_get_immd_long
    get_mem_byte get_mem_word_bank_wrap get_mem_word_page_wrap get_mem_long_bank_wrap
    addr_add_val_bank_wrap addr_add_val_page_wrap cpu_get_pbr cpu_get_dbr cpu_get_effective_pc
direct_page_indexed_x-lt acc s v = ground arith

pub direct_page_indexed_indirect_x-lt :
    (acc : Bool) (s : Machine)
    → IsValid s.cpu
    → IsAddress acc s
        (get_direct_page_indexed_indirect_x acc s).0
        (get_direct_page_indexed_indirect_x acc s).1
unfolding get_direct_page_indexed_indirect_x cpu_get_immd_byte cpu_get_immd_word cpu_get_immd_long
    get_mem_byte get_mem_word_bank_wrap get_mem_word_page_wrap get_mem_long_bank_wrap
    addr_add_val_bank_wrap addr_add_val_page_wrap cpu_get_pbr cpu_get_dbr cpu_get_effective_pc
direct_page_indexed_indirect_x-lt acc s v = ground arith

pub direct_page_indexed_y-lt :
    (acc : Bool) (s : Machine)
    → IsValid s.cpu
    → IsAddress acc s (get_direct_page_indexed_y acc s).0 (get_direct_page_indexed_y acc s).1
unfolding get_direct_page_indexed_y cpu_get_immd_byte cpu_get_immd_word cpu_get_immd_long
    get_mem_byte get_mem_word_bank_wrap get_mem_word_page_wrap get_mem_long_bank_wrap
    addr_add_val_bank_wrap addr_add_val_page_wrap cpu_get_pbr cpu_get_dbr cpu_get_effective_pc
direct_page_indexed_y-lt acc s v = ground arith

pub direct_page_indirect_indexed_y-lt :
    (acc : Bool) (s : Machine)
    → IsValid s.cpu
    → IsAddress acc s
        (get_direct_page_indirect_indexed_y acc s).0
        (get_direct_page_indirect_indexed_y acc s).1
unfolding get_direct_page_indirect_indexed_y cpu_get_immd_byte cpu_get_immd_word cpu_get_immd_long
    get_mem_byte get_mem_word_bank_wrap get_mem_word_page_wrap get_mem_long_bank_wrap
    addr_add_val_bank_wrap addr_add_val_page_wrap cpu_get_pbr cpu_get_dbr cpu_get_effective_pc
direct_page_indirect_indexed_y-lt acc s v = ground arith

pub direct_page_indirect_long_indexed_y-lt :
    (acc : Bool) (s : Machine)
    → IsValid s.cpu
    → IsAddress acc s
        (get_direct_page_indirect_long_indexed_y acc s).0
        (get_direct_page_indirect_long_indexed_y acc s).1
unfolding get_direct_page_indirect_long_indexed_y cpu_get_immd_byte cpu_get_immd_word
    cpu_get_immd_long get_mem_byte get_mem_word_bank_wrap get_mem_word_page_wrap
    get_mem_long_bank_wrap addr_add_val_bank_wrap addr_add_val_page_wrap cpu_get_pbr cpu_get_dbr
    cpu_get_effective_pc
direct_page_indirect_long_indexed_y-lt acc s v = ground arith
