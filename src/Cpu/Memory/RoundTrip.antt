-- ===== src/Cpu/Memory/RoundTrip.antt =====
-- A word written is read back, and nothing else changes: the accessors of src/cpu/65816-util.c.
use ce.Base.{ℕ, ◌+◌, ◌/◌, ◌%◌, ◌^◌, ◌<◌, ◌≡◌, ◌≢◌, Bool, arith}
use ce.Cpu.State.{Machine}
use ce.Cpu.Memory.{
  update, get_mem_word, get_mem_word_bank_wrap, set_mem_word, set_mem_word_bank_wrap,
}

-- `_get_mem_word` gives the word that `_set_mem_word` stored at the same address below 2 ^ 24, at
-- the top address too, where the high byte goes to address 0. No byte at an address `a` other than
-- these two changes, nor does the processor.
pub get_word-set_word :
    (addr v a : ℕ) (set_acc get_acc : Bool) (s : Machine)
    → addr < 2 ^ 24
    → v < 2 ^ 16
    → a ≢ addr
    → a ≢ (addr + 1) % 2 ^ 24
    → let s' = (set_mem_word addr v set_acc s).1 in
      ((get_mem_word addr get_acc s').0 ≡ v) × (s'.mem.val a ≡ s.mem.val a) × (s'.cpu ≡ s.cpu)
unfolding get_mem_word set_mem_word update
get_word-set_word addr v a set_acc get_acc s h g p q = ground arith

-- The same of the accessors that wrap within a bank: no byte at an address `a` of another bank
-- changes.
pub get_word-set_word_bank :
    (addr v a : ℕ) (set_acc get_acc : Bool) (s : Machine)
    → addr < 2 ^ 24
    → v < 2 ^ 16
    → a / 2 ^ 16 ≢ addr / 2 ^ 16
    → let s' = (set_mem_word_bank_wrap addr v set_acc s).1 in
      ((get_mem_word_bank_wrap addr get_acc s').0 ≡ v)
      × (s'.mem.val a ≡ s.mem.val a)
      × (s'.cpu ≡ s.cpu)
unfolding get_mem_word_bank_wrap set_mem_word_bank_wrap update
get_word-set_word_bank addr v a set_acc get_acc s h g p = ground arith
