-- ===== src/Cpu/Ops/Transfer.antt =====
-- src/cpu/65816-ops.c: transfers between registers, NOP and XBA.
use ce.Base.{
  ℕ, ◌+◌, ◌*◌, ◌/◌, ◌%◌, ◌^◌, u16, low_byte, high_byte, Bool, ◌&&◌, ◌||◌, not, if◌then◌else◌,
}
use ce.Cpu.State.{Cpu}
use ce.Cpu.Monad.{Act, ◌>>=◌, ◌>>◌, get, add_cycles}
use ce.Cpu.Set
use ce.Cpu.Registers.{cpu_update_pc}
use ce.Cpu.Ops.Status.{one_byte}
use ce.Cpu.Ops.Common.{set_nz8, set_nz16}

-- What the transfers to an index register share: the value, and N and Z at the index width.
-- The test is `cpu->P.XB || cpu->P.E`.
abbrev pub index_short : Cpu → Bool
index_short s = s.p_xb || s.p_e

abbrev pub to_index : Cpu → ℕ → ℕ
to_index s v = if index_short s then low_byte v else v

unfoldable pub index_nz : Cpu → ℕ → Act
index_nz s v = if index_short s then set_nz8 (low_byte v) else set_nz16 v

unfoldable pub i_tax : Act
i_tax = one_byte (do s ← get; Set.x (to_index s s.c); index_nz s s.c)

unfoldable pub i_tay : Act
i_tay = one_byte (do s ← get; Set.y (to_index s s.c); index_nz s s.c)

unfoldable pub i_tcs : Act
i_tcs = one_byte (do s ← get; Set.sp (if s.p_e then low_byte s.c + 0x0100 else s.c))

unfoldable pub i_tcd : Act
i_tcd = one_byte (do s ← get; Set.d s.c; set_nz16 s.c)

unfoldable pub i_tdc : Act
i_tdc = one_byte (do s ← get; Set.c s.d; set_nz16 s.d)

unfoldable pub i_tsc : Act
i_tsc =
    one_byte
      (do s ← get; let v = if s.p_e then low_byte s.sp + 0x0100 else s.sp; Set.c v; set_nz16 v)

unfoldable pub i_tsx : Act
i_tsx = one_byte (do s ← get; Set.x (to_index s s.sp); index_nz s s.sp)

-- What TXA and TYA share: an index register into the accumulator, at the accumulator's width.
unfoldable pub index_to_acc : ℕ → Act
index_to_acc v = do
  s ← get
  if s.p_m || s.p_e
      then (do Set.c (low_byte v + high_byte s.c); set_nz8 v)
      else if s.p_xb && not s.p_m
      then (do Set.c (low_byte v); set_nz16 (low_byte v))
      else (do Set.c v; set_nz16 v)

unfoldable pub i_txa : Act
i_txa = one_byte (do s ← get; index_to_acc s.x)

unfoldable pub i_tya : Act
i_tya = one_byte (do s ← get; index_to_acc s.y)

unfoldable pub i_txs : Act
i_txs = one_byte (do
  s ← get
  Set.sp (if s.p_e then low_byte s.x + 0x0100 else if s.p_xb then low_byte s.x else s.x))

unfoldable pub i_txy : Act
i_txy = one_byte (do s ← get; Set.y (to_index s s.x); index_nz s s.x)

unfoldable pub i_tyx : Act
i_tyx = one_byte (do s ← get; Set.x (to_index s s.y); index_nz s s.y)

unfoldable pub i_nop : Act
i_nop = do cpu_update_pc 1; add_cycles 2

unfoldable pub i_xba : Act
i_xba = do
  s ← get
  let v = u16 (s.c * 2 ^ 8 + s.c / 2 ^ 8 % 2 ^ 8)
  Set.c v
  set_nz8 v
  cpu_update_pc 1
  add_cycles 3
