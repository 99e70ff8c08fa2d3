-- ===== src/Cpu/Ops/Interrupt/Copy.antt =====
-- MVN copies a block (src/cpu/65816-ops.c).
use ce.Base.{ℕ, zero, suc, ◌+◌, ◌*◌, ◌%◌, ◌^◌, ◌≤◌, ◌<◌, ◌≡◌, ◌⊎◌, refl, u8, arith}
use ce.Cpu.State.{Machine}
use ce.Cpu.Ops.Interrupt.{move_byte, i_mvn}
use ce.Cpu.Ops.Interrupt.Move.{moves, move_byte-registers, move_byte-val, dst_bank, src_bank}
use ce.Cpu.Valid.{IsValid}
use ce.Cpu.Valid.Control.{move_byte-Keeps}

-- The bytes that a block move is to write from `d` on do not hold its operand, and a later byte of
-- its source at `a` is not written before it is read.
pub record CanCopy (s : Machine) (k : ℕ) : Type 0 where
  pub src_room : s.cpu.x + k ≤ 2 ^ 16
  pub dst_room : s.cpu.y + k ≤ 2 ^ 16
  pub ahead :
      let d = dst_bank s * 2 ^ 16 + s.cpu.y in
      let a = src_bank s * 2 ^ 16 + s.cpu.x in (d ≤ a) ⊎ (a + k ≤ d)
  pub first_operand :
      let d = dst_bank s * 2 ^ 16 + s.cpu.y in
      let p = s.cpu.pbr * 2 ^ 16 + (s.cpu.pc + 1) % 2 ^ 16 in (p < d) ⊎ (d + k ≤ p)
  pub second_operand :
      let d = dst_bank s * 2 ^ 16 + s.cpu.y in
      let p = s.cpu.pbr * 2 ^ 16 + (s.cpu.pc + 2) % 2 ^ 16 in (p < d) ⊎ (d + k ≤ p)

dst_bank-move_byte :
    (k : ℕ) (s : Machine)
    → IsValid s.cpu
    → CanCopy s (suc k)
    → 1 ≤ s.cpu.c
    → let t = (move_byte 1 s).1 in (dst_bank t ≡ dst_bank s) × (src_bank t ≡ src_bank s)
dst_bank-move_byte k s v h l =
    let m = move_byte-registers 1 s v (omega arith) in
    let p = move_byte-val 1 s (s.cpu.pbr * 2 ^ 16 + (s.cpu.pc + 1) % 2 ^ 16) v in
    let q = move_byte-val 1 s (s.cpu.pbr * 2 ^ 16 + (s.cpu.pc + 2) % 2 ^ 16) v in ground arith

CanCopy-next :
    (k : ℕ) (s : Machine)
    → IsValid s.cpu
    → CanCopy s (suc (suc k))
    → 1 ≤ s.cpu.c
    → CanCopy (move_byte 1 s).1 (suc k)
CanCopy-next k s v h l =
    let m = move_byte-registers 1 s v (omega arith) in
    let e = dst_bank-move_byte (suc k) s v h l in ground arith

-- The address that a block move writes first, and the one that it reads first.
abbrev pub dst : Machine → ℕ
dst s = dst_bank s * 2 ^ 16 + s.cpu.y

abbrev pub src : Machine → ℕ
src s = src_bank s * 2 ^ 16 + s.cpu.x

moves-frame :
    (k : ℕ) (s : Machine) (a : ℕ)
    → IsValid s.cpu
    → CanCopy s (suc k)
    → k ≤ s.cpu.c
    → ((a < dst s) ⊎ (dst s + suc k ≤ a))
    → (moves 1 (suc k) s).mem.val a ≡ s.mem.val a
unfolding moves
moves-frame zero s a v h l out = let e = move_byte-val 1 s a v in ground arith
moves-frame (suc k) s a v h l out =
    let e = move_byte-val 1 s a v in
    let m = move_byte-registers 1 s v (omega arith) in
    let b = dst_bank-move_byte (suc k) s v h (omega arith) in
    let n = CanCopy-next k s v h (omega arith) in
    let w = (move_byte-Keeps 1).keeps s v in
    let ih = moves-frame k (move_byte 1 s).1 a w n (ground arith) (ground arith) in ground arith

copied :
    (k i : ℕ) (s : Machine)
    → IsValid s.cpu
    → CanCopy s (suc k)
    → k ≤ s.cpu.c
    → i ≤ k
    → (moves 1 (suc k) s).mem.val (dst s + i) ≡ u8 (s.mem.val (src s + i))
unfolding moves
copied zero i s v h l m = let e = move_byte-val 1 s (dst s + i) v in ground arith
copied (suc k) zero s v h l m =
    let e = move_byte-val 1 s (dst s) v in
    let r = move_byte-registers 1 s v (omega arith) in
    let b = dst_bank-move_byte (suc k) s v h (omega arith) in
    let n = CanCopy-next k s v h (omega arith) in
    let w = (move_byte-Keeps 1).keeps s v in
    let f = moves-frame k (move_byte 1 s).1 (dst s) w n (ground arith) (ground arith) in
    ground arith
copied (suc k) (suc i) s v h l m =
    let e = move_byte-val 1 s (src s + suc i) v in
    let r = move_byte-registers 1 s v (omega arith) in
    let b = dst_bank-move_byte (suc k) s v h (omega arith) in
    let n = CanCopy-next k s v h (omega arith) in
    let w = (move_byte-Keeps 1).keeps s v in
    let ih = copied k i (move_byte 1 s).1 w n (ground arith) (omega arith) in ground arith

-- The machine after `n` executions of MVN.
unfoldable pub mvns : ℕ → Machine → Machine
mvns zero s = s
mvns (suc n) s = mvns n (i_mvn s).1

mvns-moves : (n : ℕ) (s : Machine) → mvns n s ≡ moves 1 n s
unfolding mvns moves i_mvn
mvns-moves zero s = refl
mvns-moves (suc n) s = mvns-moves n (move_byte 1 s).1

-- MVN copies: after `k + 1` executions each of the `k + 1` bytes at the destination is what the
-- source byte was at the start, and no byte outside the destination has changed. The blocks do not
-- cross the end of their banks, the destination begins at or before the source or behind its end,
-- and it does not hold the operand of the instruction itself.
pub mvn-copies :
    (k i : ℕ) (s : Machine) (a : ℕ)
    → IsValid s.cpu
    → CanCopy s (suc k)
    → k ≤ s.cpu.c
    → i ≤ k
    → ((a < dst s) ⊎ (dst s + suc k ≤ a))
    → ((mvns (suc k) s).mem.val (dst s + i) ≡ u8 (s.mem.val (src s + i)))
      × ((mvns (suc k) s).mem.val a ≡ s.mem.val a)
mvn-copies k i s a v h l m out =
    rw (mvns-moves (suc k) s) (copied k i s v h l m, moves-frame k s a v h l out)
