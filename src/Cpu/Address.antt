-- ===== src/Cpu/Address.antt =====
-- src/cpu/65816-util.c: the addressing modes. Each action reads the operand of the current
-- instruction and gives the effective address.
pub mod DirectPage
pub mod Result
pub mod Bounds
use ce.Base.{ℕ, ◌+◌, ◌%◌, ◌^◌, u32, bit, Bool, ◌==◌, ◌&&◌, if◌then◌else◌}
use ce.Cpu.State.{Cpu}
use ce.Cpu.Monad.{M, ◌>>=◌, return, get}
use ce.Cpu.Memory.{addr_add_val_bank_wrap, addr_add_val_page_wrap}
use ce.Cpu.Memory.{get_mem_word_bank_wrap, get_mem_word_page_wrap, get_mem_long_bank_wrap}
use ce.Cpu.Registers.{cpu_get_pbr, cpu_get_dbr, cpu_get_effective_pc}
use ce.Cpu.Registers.{cpu_get_immd_byte, cpu_get_immd_word, cpu_get_immd_long}

-- `cpu->P.E && ((cpu->D & 0xff) == 0)`
abbrev pub page_wraps : Cpu → Bool
page_wraps s = s.p_e && s.d % 2 ^ 8 == 0

unfoldable pub get_absolute_indexed_indirect_x : Bool → M ℕ
get_absolute_indexed_indirect_x setacc = do
  address ← cpu_get_immd_word setacc
  s ← get
  get_mem_word_bank_wrap ((address + s.x) % 2 ^ 16 + cpu_get_pbr s) setacc

unfoldable pub get_absolute_indirect : Bool → M ℕ
get_absolute_indirect setacc = do
  address ← cpu_get_immd_word setacc
  get_mem_word_bank_wrap address setacc

unfoldable pub get_absolute_indirect_long : Bool → M ℕ
get_absolute_indirect_long setacc = do
  address ← cpu_get_immd_word setacc
  get_mem_long_bank_wrap address setacc

unfoldable pub get_absolute : Bool → M ℕ
get_absolute setacc = do
  address ← cpu_get_immd_word setacc
  s ← get
  return (cpu_get_dbr s + address)

unfoldable pub get_absolute_indexed_x : Bool → M ℕ
get_absolute_indexed_x setacc = do
  address ← cpu_get_immd_word setacc
  s ← get
  return (u32 (address + cpu_get_dbr s + s.x) % 2 ^ 24)

unfoldable pub get_absolute_indexed_y : Bool → M ℕ
get_absolute_indexed_y setacc = do
  address ← cpu_get_immd_word setacc
  s ← get
  return (u32 (address + cpu_get_dbr s + s.y) % 2 ^ 24)

unfoldable pub get_long_indexed_x : Bool → M ℕ
get_long_indexed_x setacc = do
  address ← cpu_get_immd_long setacc
  s ← get
  return (u32 (address + s.x) % 2 ^ 24)

unfoldable pub get_direct_page : Bool → M ℕ
get_direct_page setacc = do
  s ← get
  offset ← cpu_get_immd_byte setacc
  return (addr_add_val_bank_wrap s.d offset)

unfoldable pub get_direct_page_indirect : Bool → M ℕ
get_direct_page_indirect setacc = do
  address ← cpu_get_immd_byte setacc
  s ← get
  pointer ←
      get_mem_word_bank_wrap
        (if page_wraps s
          then addr_add_val_page_wrap s.d address
          else addr_add_val_bank_wrap s.d address)
        setacc
  return (pointer + cpu_get_dbr s)

unfoldable pub get_direct_page_indirect_long : Bool → M ℕ
get_direct_page_indirect_long setacc = do
  address ← cpu_get_immd_byte setacc
  s ← get
  get_mem_long_bank_wrap (addr_add_val_bank_wrap s.d address) setacc

unfoldable pub get_direct_page_indexed_x : Bool → M ℕ
get_direct_page_indexed_x setacc = do
  address ← cpu_get_immd_byte setacc
  s ← get
  return (
      if page_wraps s
      then addr_add_val_page_wrap s.d (address + s.x)
      else addr_add_val_bank_wrap (addr_add_val_bank_wrap address s.d) s.x)

unfoldable pub get_direct_page_indexed_indirect_x : Bool → M ℕ
get_direct_page_indexed_indirect_x setacc = do
  address ← cpu_get_immd_byte setacc
  s ← get
  pointer ←
      get_mem_word_bank_wrap
        (if page_wraps s
          then addr_add_val_page_wrap s.d (address + s.x)
          else addr_add_val_bank_wrap address (s.d + s.x))
        setacc
  return (pointer + cpu_get_dbr s)

unfoldable pub get_direct_page_indexed_y : Bool → M ℕ
get_direct_page_indexed_y setacc = do
  address ← cpu_get_immd_byte setacc
  s ← get
  return (
      if page_wraps s
      then addr_add_val_page_wrap s.d (address + s.y)
      else addr_add_val_bank_wrap (addr_add_val_bank_wrap address s.d) s.y)

unfoldable pub get_direct_page_indirect_indexed_y : Bool → M ℕ
get_direct_page_indirect_indexed_y setacc = do
  address ← cpu_get_immd_byte setacc
  s ← get
  pointer ←
      if page_wraps s
      then get_mem_word_page_wrap (addr_add_val_bank_wrap s.d address) setacc
      else get_mem_word_bank_wrap (addr_add_val_bank_wrap s.d address) setacc
  return (u32 (pointer + cpu_get_dbr s + s.y) % 2 ^ 24)

unfoldable pub get_direct_page_indirect_long_indexed_y : Bool → M ℕ
get_direct_page_indirect_long_indexed_y setacc = do
  address ← cpu_get_immd_byte setacc
  s ← get
  pointer ← get_mem_long_bank_wrap (addr_add_val_bank_wrap s.d address) setacc
  return (u32 (pointer + s.y) % 2 ^ 24)

-- The sign extension sets the bits above the operand's.
unfoldable pub get_relative8 : Bool → M ℕ
get_relative8 setacc = do
  offset ← cpu_get_immd_byte setacc
  s ← get
  let offset' = if bit offset 7 then offset + 0xffffff00 else offset
  return (addr_add_val_bank_wrap (addr_add_val_bank_wrap (cpu_get_effective_pc s) 2) offset')

unfoldable pub get_relative16 : Bool → M ℕ
get_relative16 setacc = do
  offset ← cpu_get_immd_word setacc
  s ← get
  let offset' = if bit offset 15 then offset + 0xffff0000 else offset
  return (addr_add_val_bank_wrap (addr_add_val_bank_wrap (cpu_get_effective_pc s) 3) offset')

unfoldable pub get_long : Bool → M ℕ
get_long setacc = cpu_get_immd_long setacc

unfoldable pub get_immediate : Bool → M ℕ
get_immediate setacc = do s ← get; return (addr_add_val_bank_wrap (cpu_get_effective_pc s) 1)

unfoldable pub get_stack_relative : Bool → M ℕ
get_stack_relative setacc = do
  address ← cpu_get_immd_byte setacc
  s ← get
  return (addr_add_val_bank_wrap s.sp address)

unfoldable pub get_stack_relative_indirect_indexed_y : Bool → M ℕ
get_stack_relative_indirect_indexed_y setacc = do
  address ← cpu_get_immd_byte setacc
  s ← get
  pointer ← get_mem_word_bank_wrap (addr_add_val_bank_wrap s.sp address) setacc
  return (u32 (pointer + cpu_get_dbr s + s.y) % 2 ^ 24)
