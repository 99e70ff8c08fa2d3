-- ===== src/Cpu/Ops/Interrupt/Move.antt =====
-- The block moves as loops (src/cpu/65816-ops.c): the instruction is executed again, at the same
-- program counter, until the accumulator has passed zero.
use ce.Base.{ℕ, zero, suc, ◌+◌, ◌*◌, ◌%◌, ◌^◌, ◌≤◌, ◌<◌, ◌≡◌, refl, u8, ◌==◌, if◌then◌else◌, arith}
use ce.Cpu.State.{Machine}
use ce.Cpu.Memory.{update, get_mem_byte, set_mem_byte, addr_add_val_bank_wrap}
use ce.Cpu.Registers.{cpu_update_pc, cpu_get_effective_pc}
use ce.Cpu.Address.{get_immediate}
use ce.Cpu.Ops.Interrupt.{move_byte}
use ce.Cpu.Valid.{IsValid}
use ce.Cpu.Valid.Control.{move_byte-Keeps}

-- `n` executions of a block move with the given step.
unfoldable pub moves : ℕ → ℕ → Machine → Machine
moves step zero s = s
moves step (suc n) s = moves step n (move_byte step s).1

-- One execution of a block move, from a valid processor: the byte at the source is at the
-- destination, and the registers step.
pub move_byte-registers :
    (step : ℕ) (s : Machine)
    → IsValid s.cpu
    → step < 2 ^ 16
    → let r = (move_byte step s).1.cpu in
      (r.c ≡ (s.cpu.c + 0xffff) % 2 ^ 16)
      × (r.x ≡ (s.cpu.x + step) % 2 ^ 16)
      × (r.y ≡ (s.cpu.y + step) % 2 ^ 16)
      × (r.pc ≡ (if s.cpu.c == 0 then (s.cpu.pc + 3) % 2 ^ 16 else s.cpu.pc))
      × (r.pbr ≡ s.cpu.pbr)
unfolding move_byte get_immediate cpu_update_pc cpu_get_effective_pc get_mem_byte set_mem_byte
    update
move_byte-registers step s v h = ground arith

-- The banks in the operand of a block move, the source after the destination.
abbrev pub dst_bank : Machine → ℕ
dst_bank s = u8 (s.mem.val (s.cpu.pbr * 2 ^ 16 + (s.cpu.pc + 1) % 2 ^ 16))

abbrev pub src_bank : Machine → ℕ
src_bank s = u8 (s.mem.val (s.cpu.pbr * 2 ^ 16 + (s.cpu.pc + 2) % 2 ^ 16))

pub move_byte-val :
    (step : ℕ) (s : Machine) (a : ℕ)
    → IsValid s.cpu
    → (move_byte step s).1.mem.val a ≡ (
        if a == dst_bank s * 2 ^ 16 + s.cpu.y
        then u8 (s.mem.val (src_bank s * 2 ^ 16 + s.cpu.x))
        else s.mem.val a)
unfolding move_byte get_immediate cpu_update_pc cpu_get_effective_pc get_mem_byte set_mem_byte
    update addr_add_val_bank_wrap
move_byte-val step s a v = ground arith

step_mod : (x k step : ℕ) → ((x + step) % 2 ^ 16 + k * step) % 2 ^ 16 ≡ (x + suc k * step) % 2 ^ 16
step_mod x k step = omega arith

step_mod' : (x k step : ℕ) → ((x + k * step) % 2 ^ 16 + step) % 2 ^ 16 ≡ (x + suc k * step) % 2 ^ 16
step_mod' x k step = omega arith

-- While the accumulator lasts, `k` executions of a block move count it down by `k`, step the index
-- registers `k` times, and leave the program counter on the instruction.
pub moves-running :
    (k step : ℕ) (s : Machine)
    → IsValid s.cpu
    → step < 2 ^ 16
    → k ≤ s.cpu.c
    → let r = (moves step k s).cpu in
      (r.c + k ≡ s.cpu.c)
      × (r.x ≡ (s.cpu.x + k * step) % 2 ^ 16)
      × (r.y ≡ (s.cpu.y + k * step) % 2 ^ 16)
      × (r.pc ≡ s.cpu.pc)
      × (r.pbr ≡ s.cpu.pbr)
      × IsValid r
unfolding moves
moves-running zero step s v g h = ground arith
moves-running (suc k) step s v g h =
    let t = (move_byte step s).1 in
    let m = move_byte-registers step s v g in
    let w = (move_byte-Keeps step).keeps s v in
    let e = moves-running k step t w g (ground arith) in
    let x = step_mod s.cpu.x k step in let y = step_mod s.cpu.y k step in ground arith

moves-suc : (n step : ℕ) (s : Machine) → moves step (suc n) s ≡ (move_byte step (moves step n s)).1
unfolding moves
moves-suc zero step s = refl
moves-suc (suc n) step s = moves-suc n step (move_byte step s).1

-- A block move whose accumulator is `n` ends after `n + 1` executions: the accumulator is then
-- 0xffff, the index registers have stepped `n + 1` times, and the program counter is behind the
-- instruction.
pub moves-finish :
    (step : ℕ) (s : Machine)
    → IsValid s.cpu
    → step < 2 ^ 16
    → let r = (moves step (suc s.cpu.c) s).cpu in
      (r.c ≡ 0xffff)
      × (r.x ≡ (s.cpu.x + suc s.cpu.c * step) % 2 ^ 16)
      × (r.y ≡ (s.cpu.y + suc s.cpu.c * step) % 2 ^ 16)
      × (r.pc ≡ (s.cpu.pc + 3) % 2 ^ 16)
moves-finish step s v g =
    let e = moves-running s.cpu.c step s v g (omega arith) in
    let m = move_byte-registers step (moves step s.cpu.c s) e.5 g in
    let x = step_mod' s.cpu.x s.cpu.c step in
    let y = step_mod' s.cpu.y s.cpu.c step in rw (moves-suc s.cpu.c step s) (ground arith)
