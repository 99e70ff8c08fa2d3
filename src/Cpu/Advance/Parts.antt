-- ===== src/Cpu/Advance/Parts.antt =====
-- The memory and cycle functions leave the program counter.
use ce.Base.{ℕ, Bool, refl}
use ce.Cpu.State.{AddrMode}
use ce.Cpu.Advance.{Still, Still-Advances, Advances-Still, cpu_update_pc-Advances, still_rules}
use ce.Cpu.Memory.{
  get_mem_byte, get_mem_word, get_mem_word_bank_wrap, set_mem_byte, set_mem_word,
  set_mem_word_bank_wrap,
}
use ce.Cpu.Registers.{cpu_crash}
use ce.Cpu.Ops.Common.{
  dl_cycle, page_cycle, page_cycle_x, page_cycle_y, set_nz8, set_nz16, set_nz_acc,
}

pub get_mem_byte-Still : (addr : ℕ) (acc : Bool) → Still (get_mem_byte addr acc)
unfolding get_mem_byte
get_mem_byte-Still addr acc = record { still = λ s. refl }

pub get_mem_word-Still : (addr : ℕ) (acc : Bool) → Still (get_mem_word addr acc)
unfolding get_mem_word
get_mem_word-Still addr acc = record { still = λ s. refl }

pub get_mem_word_bank_wrap-Still : (addr : ℕ) (acc : Bool) → Still (get_mem_word_bank_wrap addr acc)
unfolding get_mem_word_bank_wrap
get_mem_word_bank_wrap-Still addr acc = record { still = λ s. refl }

pub set_mem_byte-Still : (addr v : ℕ) (acc : Bool) → Still (set_mem_byte addr v acc)
unfolding set_mem_byte
set_mem_byte-Still addr v acc = record { still = λ s. refl }

pub set_mem_word-Still : (addr v : ℕ) (acc : Bool) → Still (set_mem_word addr v acc)
unfolding set_mem_word
set_mem_word-Still addr v acc = record { still = λ s. refl }

pub set_mem_word_bank_wrap-Still :
    (addr v : ℕ) (acc : Bool) → Still (set_mem_word_bank_wrap addr v acc)
unfolding set_mem_word_bank_wrap
set_mem_word_bank_wrap-Still addr v acc = record { still = λ s. refl }

pub cpu_crash-Still : Still cpu_crash
unfolding cpu_crash
cpu_crash-Still = record { still = λ s. refl }

pub dl_cycle-Still : Still dl_cycle
unfolding dl_cycle
dl_cycle-Still = search still_rules

pub page_cycle_x-Still : (addr : ℕ) → Still (page_cycle_x addr)
unfolding page_cycle_x
page_cycle_x-Still addr = search still_rules

pub page_cycle_y-Still : (addr : ℕ) → Still (page_cycle_y addr)
unfolding page_cycle_y
page_cycle_y-Still addr = search still_rules

pub set_nz8-Still : (v : ℕ) → Still (set_nz8 v)
unfolding set_nz8
set_nz8-Still v = search still_rules

pub set_nz16-Still : (v : ℕ) → Still (set_nz16 v)
unfolding set_nz16
set_nz16-Still v = search still_rules

pub set_nz_acc-Still : Still set_nz_acc
unfolding set_nz_acc
set_nz_acc-Still = search still_rules depth 9

pub page_cycle-Still : (mode : AddrMode) (addr : ℕ) → Still (page_cycle mode addr)
unfolding page_cycle
page_cycle-Still mode addr = search still_rules depth 9

pub ruleset part_still_rules = (
  still_rules, get_mem_byte-Still, get_mem_word-Still, get_mem_word_bank_wrap-Still,
  set_mem_byte-Still, set_mem_word-Still, set_mem_word_bank_wrap-Still, cpu_crash-Still,
  dl_cycle-Still, page_cycle_x-Still, page_cycle_y-Still, set_nz8-Still, set_nz16-Still,
  set_nz_acc-Still, page_cycle-Still,
)

pub ruleset advance_rules =
    (part_still_rules, Still-Advances, Advances-Still, cpu_update_pc-Advances)
