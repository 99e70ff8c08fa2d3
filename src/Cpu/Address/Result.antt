-- ===== src/Cpu/Address/Result.antt =====
-- What an address computation of src/cpu/65816-util.c gives and leaves: an address of the 24-bit
-- space, and the machine as before but for read flags.
use ce.Base.{ℕ, ◌^◌, ◌<◌, ◌≡◌, ◌⊎◌, Bool, true}
use ce.Cpu.State.{Machine}

pub record IsAddress (acc : Bool) (s : Machine) (addr : ℕ) (s' : Machine) : Type 0 where
  pub in_space : addr < 2 ^ 24
  pub same_cpu : s'.cpu ≡ s.cpu
  pub same_val : s'.mem.val ≡ s.mem.val
  pub same_w : s'.mem.acc_w ≡ s.mem.acc_w
  pub same_b : s'.mem.acc_b ≡ s.mem.acc_b
  pub same_r : (acc ≡ true) ⊎ (s'.mem.acc_r ≡ s.mem.acc_r)
