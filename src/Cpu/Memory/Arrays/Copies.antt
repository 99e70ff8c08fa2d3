-- ===== src/Cpu/Memory/Arrays/Copies.antt =====
-- The copy loops of src/cpu/65816-util.c.
use native.Mathlib.Nat.{zero-add}
use ce.Base.{ℕ, zero, suc, ◌+◌, ◌^◌, ◌≤◌, ◌<◌, ◌≡◌, ◌⊎◌, u8, u32, ap, ◌∙◌, refl, arith}
use ce.Cpu.State.{Memory}
use ce.Cpu.Memory.{update, byte_at, store}
use ce.Cpu.Memory.Arrays.{init_loop, init_mem_arr, save_loop, save_mem_arr}

init_loop-outside :
    (src : ℕ → ℕ) (i j n a : ℕ) (mem : Memory)
    → i + n < 2 ^ 32
    → ((a < i) ⊎ (i + n ≤ a))
    → (init_loop src i j n mem).val a ≡ mem.val a
unfolding init_loop update
init_loop-outside src i j zero a mem h out = refl
init_loop-outside src i j (suc n) a mem h out =
    let e =
      init_loop-outside src (u32 (i + 1)) (u32 (j + 1)) n a (store i (src j) mem) (omega arith)
        (ground arith) in
    ground arith

init_loop-inside :
    (src : ℕ → ℕ) (i j n k : ℕ) (mem : Memory)
    → i + n < 2 ^ 32
    → j + n < 2 ^ 32
    → k < n
    → (init_loop src i j n mem).val (i + k) ≡ u8 (src (j + k))
unfolding init_loop update
init_loop-inside src i j zero k mem h g l = absurd (omega arith)
init_loop-inside src i j (suc n) zero mem h g l =
    let e =
      init_loop-outside src (u32 (i + 1)) (u32 (j + 1)) n i (store i (src j) mem) (omega arith)
        (ground arith) in
    ground arith
init_loop-inside src i j (suc n) (suc k) mem h g l =
    let e =
      init_loop-inside src (u32 (i + 1)) (u32 (j + 1)) n k (store i (src j) mem) (omega arith)
        (omega arith) (omega arith) in
    ground arith

pub init_mem_arr-outside :
    (src : ℕ → ℕ) (base_addr count a : ℕ) (mem : Memory)
    → base_addr + count < 2 ^ 32
    → ((a < base_addr) ⊎ (base_addr + count ≤ a))
    → (init_mem_arr src base_addr count mem).val a ≡ mem.val a
unfolding init_mem_arr
init_mem_arr-outside src base_addr count a mem h out =
    init_loop-outside src base_addr 0 count a mem h out

pub init_mem_arr-inside :
    (src : ℕ → ℕ) (base_addr count k : ℕ) (mem : Memory)
    → base_addr + count < 2 ^ 32
    → k < count
    → (init_mem_arr src base_addr count mem).val (base_addr + k) ≡ u8 (src k)
unfolding init_mem_arr
init_mem_arr-inside src base_addr count k mem h l =
    init_loop-inside src base_addr 0 count k mem h (omega arith) l
    ∙ ap (λ (i : ℕ). u8 (src i)) (zero-add k)

save_loop-outside :
    (mem : Memory) (i j n : ℕ) (dst : ℕ → ℕ) (a : ℕ)
    → i + n < 2 ^ 32
    → ((a < i) ⊎ (i + n ≤ a))
    → save_loop mem i j n dst a ≡ dst a
unfolding save_loop update
save_loop-outside mem i j zero dst a h out = refl
save_loop-outside mem i j (suc n) dst a h out =
    let e =
      save_loop-outside mem (u32 (i + 1)) (u32 (j + 1)) n (update dst i (byte_at mem i)) a
        (omega arith) (ground arith) in
    ground arith

save_loop-inside :
    (mem : Memory) (i j n : ℕ) (dst : ℕ → ℕ) (k : ℕ)
    → i + n < 2 ^ 32
    → k < n
    → save_loop mem i j n dst (i + k) ≡ byte_at mem (i + k)
unfolding save_loop update
save_loop-inside mem i j zero dst k h l = absurd (omega arith)
save_loop-inside mem i j (suc n) dst zero h l =
    let e =
      save_loop-outside mem (u32 (i + 1)) (u32 (j + 1)) n (update dst i (byte_at mem i)) i
        (omega arith) (ground arith) in
    ground arith
save_loop-inside mem i j (suc n) dst (suc k) h l =
    let e =
      save_loop-inside mem (u32 (i + 1)) (u32 (j + 1)) n (update dst i (byte_at mem i)) k
        (omega arith) (omega arith) in
    ground arith

-- `_init_mem_arr` stores the `count` bytes of the buffer from the base address on and changes no
-- other byte; `_save_mem_arr` after it puts each of them into the other buffer at the address that
-- it has in the memory, base address included, and changes no other place of that buffer.
pub save_mem_arr-init_mem_arr :
    (src dst : ℕ → ℕ) (base_addr count k a : ℕ) (mem : Memory)
    → base_addr + count < 2 ^ 32
    → k < count
    → ((a < base_addr) ⊎ (base_addr + count ≤ a))
    → let m = init_mem_arr src base_addr count mem in
      let out = save_mem_arr m dst base_addr count in
      (m.val (base_addr + k) ≡ u8 (src k))
      × (m.val a ≡ mem.val a)
      × (out (base_addr + k) ≡ u8 (src k))
      × (out a ≡ dst a)
unfolding init_mem_arr save_mem_arr
save_mem_arr-init_mem_arr src dst base_addr count k a mem h l out =
    let m = init_mem_arr src base_addr count mem in
    let e = init_loop-inside src base_addr 0 count k mem h (omega arith) l in
    let f = init_loop-outside src base_addr 0 count a mem h out in
    let g = save_loop-inside m base_addr 0 count dst k h l in
    let o = save_loop-outside m base_addr 0 count dst a h out in ground arith
