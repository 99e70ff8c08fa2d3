-- ===== src/Cpu/Memory/Arrays/Flags.antt =====
-- The access flags that the debugger tests, sets and resets (src/cpu/65816-util.c).
use ce.Base.{ℕ, ◌≡◌, ◌≢◌, bit, not, ◌&&◌, ◌||◌, arith}
use ce.Cpu.State.{Memory}
use ce.Cpu.Memory.{update}
use ce.Cpu.Memory.Arrays.{test_mem_flags, test_and_reset_mem_flags, set_mem_flags, reset_mem_flags}

-- `_test_and_reset_mem_flags` returns the flags from before and clears those of the mask, so that
-- after `_set_mem_flags` with the same mask none of the mask's flags is left, the others are as
-- before both calls, and so are the flags of every other address and all bytes.
pub test_and_reset-set_mem_flags :
    (addr mask a : ℕ) (mem : Memory)
    → a ≢ addr
    → let r = test_and_reset_mem_flags addr mask (set_mem_flags addr mask mem) in
      let f = test_mem_flags r.1 addr in
      (r.0.r ≡ (bit mask 0 || mem.acc_r addr))
      × (r.0.w ≡ (bit mask 1 || mem.acc_w addr))
      × (r.0.b ≡ (bit mask 2 || mem.acc_b addr))
      × (f.r ≡ (not (bit mask 0) && mem.acc_r addr))
      × (f.w ≡ (not (bit mask 1) && mem.acc_w addr))
      × (f.b ≡ (not (bit mask 2) && mem.acc_b addr))
      × (test_mem_flags r.1 a ≡ test_mem_flags mem a)
      × (r.1.val ≡ mem.val)
unfolding test_and_reset_mem_flags set_mem_flags reset_mem_flags test_mem_flags update
test_and_reset-set_mem_flags addr mask a mem ne = ground arith
