-- ===== src/Cpu/Memory/Arrays.antt =====
-- src/cpu/65816-util.c: copies between the memory and a buffer, and the access flags of an address.
pub mod Copies
pub mod Flags
use ce.Base.{ℕ, zero, suc, ◌+◌, u8, u32, bit, Bool, not, ◌&&◌, ◌||◌}
use ce.Cpu.State.{Memory}
use ce.Cpu.Memory.{update, byte_at, store}

-- The loop of `_init_mem_arr`: `i` and `j` are its variables, and the count is what is left of it.
unfoldable pub init_loop : (ℕ → ℕ) → ℕ → ℕ → ℕ → Memory → Memory
init_loop src i j zero mem = mem
init_loop src i j (suc n) mem = init_loop src (u32 (i + 1)) (u32 (j + 1)) n (store i (src j) mem)

unfoldable pub init_mem_arr : (ℕ → ℕ) → ℕ → ℕ → Memory → Memory
unfolding init_loop
init_mem_arr src base_addr count mem = init_loop src base_addr 0 count mem

-- The loop of `_save_mem_arr`, which writes `dst[i]` and not `dst[j]`.
unfoldable pub save_loop : Memory → ℕ → ℕ → ℕ → (ℕ → ℕ) → ℕ → ℕ
save_loop mem i j zero dst = dst
save_loop mem i j (suc n) dst =
    save_loop mem (u32 (i + 1)) (u32 (j + 1)) n (update dst i (byte_at mem i))

unfoldable pub save_mem_arr : Memory → (ℕ → ℕ) → ℕ → ℕ → ℕ → ℕ
unfolding save_loop
save_mem_arr mem dst base_addr count = save_loop mem base_addr 0 count dst

-- `mem_flag_t`.
pub record MemFlag : Type 0 where
  pub r : Bool
  pub w : Bool
  pub b : Bool

unfoldable pub test_mem_flags : Memory → ℕ → MemFlag
test_mem_flags mem addr = record { r = mem.acc_r addr; w = mem.acc_w addr; b = mem.acc_b addr }

unfoldable pub reset_mem_flags : ℕ → ℕ → Memory → Memory
reset_mem_flags addr mask mem = record mem {
  acc_r = update mem.acc_r addr (not (bit mask 0) && mem.acc_r addr);
  acc_w = update mem.acc_w addr (not (bit mask 1) && mem.acc_w addr);
  acc_b = update mem.acc_b addr (not (bit mask 2) && mem.acc_b addr);
}

unfoldable pub set_mem_flags : ℕ → ℕ → Memory → Memory
set_mem_flags addr mask mem = record mem {
  acc_r = update mem.acc_r addr (bit mask 0 || mem.acc_r addr);
  acc_w = update mem.acc_w addr (bit mask 1 || mem.acc_w addr);
  acc_b = update mem.acc_b addr (bit mask 2 || mem.acc_b addr);
}

unfoldable pub test_and_reset_mem_flags : ℕ → ℕ → Memory → MemFlag × Memory
test_and_reset_mem_flags addr mask mem = (test_mem_flags mem addr, reset_mem_flags addr mask mem)
