-- ===== src/Cpu/Valid/Parts.antt =====
-- The memory, register, stack and cycle functions keep the invariant.
use ce.Base.{ℕ, Bool, arith}
use ce.Cpu.State.{AddrMode, EmulStack}
use ce.Cpu.Valid.{Keeps, keep_rules}
use ce.Cpu.Memory.{
  get_mem_byte, get_mem_word, get_mem_word_page_wrap, get_mem_word_bank_wrap,
  get_mem_long_bank_wrap, set_mem_byte, set_mem_word, set_mem_word_bank_wrap,
}
use ce.Cpu.Registers.{
  cpu_update_pc, cpu_crash, cpu_set_sp, cpu_get_immd_byte, cpu_get_immd_word, cpu_get_immd_long,
}
use ce.Cpu.Stack.{
  stack_push_byte, stack_push_word, stack_push24, stack_pop_byte, stack_pop_word, stack_pop24,
}
use ce.Cpu.Ops.Common.{
  dl_cycle, page_cycle, page_cycle_x, page_cycle_y, set_nz8, set_nz16, set_nz_acc,
}

pub get_mem_byte-Keeps : (addr : ℕ) (acc : Bool) → Keeps (get_mem_byte addr acc)
unfolding get_mem_byte
get_mem_byte-Keeps addr acc = record { keeps = λ s v. v }

pub get_mem_word-Keeps : (addr : ℕ) (acc : Bool) → Keeps (get_mem_word addr acc)
unfolding get_mem_word
get_mem_word-Keeps addr acc = record { keeps = λ s v. v }

pub get_mem_word_page_wrap-Keeps : (addr : ℕ) (acc : Bool) → Keeps (get_mem_word_page_wrap addr acc)
unfolding get_mem_word_page_wrap
get_mem_word_page_wrap-Keeps addr acc = record { keeps = λ s v. v }

pub get_mem_word_bank_wrap-Keeps : (addr : ℕ) (acc : Bool) → Keeps (get_mem_word_bank_wrap addr acc)
unfolding get_mem_word_bank_wrap
get_mem_word_bank_wrap-Keeps addr acc = record { keeps = λ s v. v }

pub get_mem_long_bank_wrap-Keeps : (addr : ℕ) (acc : Bool) → Keeps (get_mem_long_bank_wrap addr acc)
unfolding get_mem_long_bank_wrap
get_mem_long_bank_wrap-Keeps addr acc = record { keeps = λ s v. v }

pub set_mem_byte-Keeps : (addr v : ℕ) (acc : Bool) → Keeps (set_mem_byte addr v acc)
unfolding set_mem_byte
set_mem_byte-Keeps addr v acc = record { keeps = λ s h. h }

pub set_mem_word-Keeps : (addr v : ℕ) (acc : Bool) → Keeps (set_mem_word addr v acc)
unfolding set_mem_word
set_mem_word-Keeps addr v acc = record { keeps = λ s h. h }

pub set_mem_word_bank_wrap-Keeps :
    (addr v : ℕ) (acc : Bool) → Keeps (set_mem_word_bank_wrap addr v acc)
unfolding set_mem_word_bank_wrap
set_mem_word_bank_wrap-Keeps addr v acc = record { keeps = λ s h. h }

pub cpu_crash-Keeps : Keeps cpu_crash
unfolding cpu_crash
cpu_crash-Keeps = record { keeps = λ s v. ground arith }

pub cpu_set_sp-Keeps : (addr : ℕ) → Keeps (cpu_set_sp addr)
unfolding cpu_set_sp
cpu_set_sp-Keeps addr = record { keeps = λ s v. ground arith }

pub cpu_update_pc-Keeps : (n : ℕ) → Keeps (cpu_update_pc n)
unfolding cpu_update_pc
cpu_update_pc-Keeps n = search keep_rules

pub cpu_get_immd_byte-Keeps : (acc : Bool) → Keeps (cpu_get_immd_byte acc)
unfolding cpu_get_immd_byte
cpu_get_immd_byte-Keeps acc = record { keeps = λ s v. v }

pub cpu_get_immd_word-Keeps : (acc : Bool) → Keeps (cpu_get_immd_word acc)
unfolding cpu_get_immd_word
cpu_get_immd_word-Keeps acc = record { keeps = λ s v. v }

pub cpu_get_immd_long-Keeps : (acc : Bool) → Keeps (cpu_get_immd_long acc)
unfolding cpu_get_immd_long
cpu_get_immd_long-Keeps acc = record { keeps = λ s v. v }

pub ruleset access_rules = (
  keep_rules, get_mem_byte-Keeps, get_mem_word-Keeps, get_mem_word_page_wrap-Keeps,
  get_mem_word_bank_wrap-Keeps, get_mem_long_bank_wrap-Keeps, set_mem_byte-Keeps,
  set_mem_word-Keeps, set_mem_word_bank_wrap-Keeps, cpu_crash-Keeps, cpu_set_sp-Keeps,
  cpu_update_pc-Keeps, cpu_get_immd_byte-Keeps, cpu_get_immd_word-Keeps, cpu_get_immd_long-Keeps,
)

pub stack_push_byte-Keeps : (v : ℕ) (acc : Bool) → Keeps (stack_push_byte v acc)
unfolding stack_push_byte
stack_push_byte-Keeps v acc = record { keeps = λ s h. ground arith }

pub stack_push_word-Keeps :
    (v : ℕ) (mode : EmulStack) (acc : Bool) → Keeps (stack_push_word v mode acc)
unfolding stack_push_word
stack_push_word-Keeps v mode acc = record { keeps = λ s h. ground arith }

pub stack_push24-Keeps : (v : ℕ) (acc : Bool) → Keeps (stack_push24 v acc)
unfolding stack_push24
stack_push24-Keeps v acc = record { keeps = λ s h. ground arith }

pub stack_pop_byte-Keeps : (mode : EmulStack) (acc : Bool) → Keeps (stack_pop_byte mode acc)
unfolding stack_pop_byte
stack_pop_byte-Keeps mode acc = record { keeps = λ s h. ground arith }

pub stack_pop_word-Keeps : (mode : EmulStack) (acc : Bool) → Keeps (stack_pop_word mode acc)
unfolding stack_pop_word
stack_pop_word-Keeps mode acc = record { keeps = λ s h. ground arith }

pub stack_pop24-Keeps : (acc : Bool) → Keeps (stack_pop24 acc)
unfolding stack_pop24
stack_pop24-Keeps acc = record { keeps = λ s h. ground arith }

pub dl_cycle-Keeps : Keeps dl_cycle
unfolding dl_cycle
dl_cycle-Keeps = search keep_rules

pub page_cycle_x-Keeps : (addr : ℕ) → Keeps (page_cycle_x addr)
unfolding page_cycle_x
page_cycle_x-Keeps addr = search keep_rules

pub page_cycle_y-Keeps : (addr : ℕ) → Keeps (page_cycle_y addr)
unfolding page_cycle_y
page_cycle_y-Keeps addr = search keep_rules

pub set_nz8-Keeps : (v : ℕ) → Keeps (set_nz8 v)
unfolding set_nz8
set_nz8-Keeps v = search keep_rules

pub set_nz16-Keeps : (v : ℕ) → Keeps (set_nz16 v)
unfolding set_nz16
set_nz16-Keeps v = search keep_rules

pub set_nz_acc-Keeps : Keeps set_nz_acc
unfolding set_nz_acc
set_nz_acc-Keeps = search keep_rules depth 9

pub page_cycle-Keeps : (mode : AddrMode) (addr : ℕ) → Keeps (page_cycle mode addr)
unfolding page_cycle
page_cycle-Keeps mode addr = search keep_rules depth 9

pub ruleset part_rules = (
  access_rules, stack_push_byte-Keeps, stack_push_word-Keeps, stack_push24-Keeps,
  stack_pop_byte-Keeps, stack_pop_word-Keeps, stack_pop24-Keeps, dl_cycle-Keeps, page_cycle_x-Keeps,
  page_cycle_y-Keeps, page_cycle-Keeps, set_nz8-Keeps, set_nz16-Keeps, set_nz_acc-Keeps,
)
