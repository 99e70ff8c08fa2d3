-- ===== src/Cpu/Advance/Execute.antt =====
-- How far an instruction that takes an address moves the program counter (src/cpu/65816.c).
use ce.Base.{
  ℕ, ◌+◌, ◌%◌, ◌^◌, ◌≡◌, ◌∙◌, ap, refl, Bool, true, false, not, ◌||◌, ◌&&◌, if◌then◌else◌,
}
use ce.Cpu.State.{Cpu, Machine, AddrMode}
use ce.Cpu.Instr.{Instr, MemoryOp, Operand}
use MemoryOp.{
  ora, tsb, asl, trb, and, bit, rol, eor, lsr, adc, stz, ror, sta, sty, stx, ldy, lda, ldx, cpy,
  cmp, dec, cpx, sbc, inc,
}
use ce.Cpu.Ops.Common.{acc8, idx8, immd_size}
use ce.Cpu.Execute.{address, memory_op, execute}
use ce.Cpu.Address.Bounds.{address-IsAddress}
use ce.Cpu.Valid.{IsValid}
use ce.Cpu.Advance.{AdvancesBy}
use ce.Cpu.Advance.LoadStore.{
  i_adc-AdvancesBy, i_stz-AdvancesBy, i_sta-AdvancesBy, i_sty-AdvancesBy, i_stx-AdvancesBy,
  i_ldy-AdvancesBy, i_lda-AdvancesBy, i_ldx-AdvancesBy, i_sbc-AdvancesBy,
}
use ce.Cpu.Advance.Logical.{
  i_ora-AdvancesBy, i_tsb-AdvancesBy, i_trb-AdvancesBy, i_and-AdvancesBy, i_bit-AdvancesBy,
  i_eor-AdvancesBy, i_cpy-AdvancesBy, i_cmp-AdvancesBy, i_cpx-AdvancesBy,
}
use ce.Cpu.Advance.ShiftCount.{
  i_asl-AdvancesBy, i_rol-AdvancesBy, i_lsr-AdvancesBy, i_ror-AdvancesBy, i_dec-AdvancesBy,
  i_inc-AdvancesBy,
}

-- The operations that can have an immediate operand.
abbrev pub takes_immediate : MemoryOp → Bool
takes_immediate adc = true
takes_immediate sbc = true
takes_immediate lda = true
takes_immediate and = true
takes_immediate ora = true
takes_immediate eor = true
takes_immediate bit = true
takes_immediate cmp = true
takes_immediate cpx = true
takes_immediate cpy = true
takes_immediate ldx = true
takes_immediate ldy = true
takes_immediate _ = false

-- Those whose operand has the width of the index registers.
abbrev pub is_index_op : MemoryOp → Bool
is_index_op ldx = true
is_index_op ldy = true
is_index_op cpx = true
is_index_op cpy = true
is_index_op _ = false

-- Whether the immediate operand has 8 bits.
abbrev pub operand_short : MemoryOp → Cpu → Bool
operand_short op r = if is_index_op op then idx8 r else acc8 r

abbrev pub op_size : MemoryOp → AddrMode → ℕ → Cpu → ℕ
op_size op mode size r =
    if takes_immediate op then immd_size (operand_short op r) mode size else size

-- LDX and LDY test E and XB one after the other.
one_by_one :
    (e xb : Bool) (mode : AddrMode) (size : ℕ)
    → immd_size (if e then e else xb) mode size ≡ immd_size (e || (not e && xb)) mode size
one_by_one true xb mode size = refl
one_by_one false xb mode size = refl

as_idx8 :
    {A : Type 0} {act : Machine → A × Machine} (mode : AddrMode) (size : ℕ)
    → AdvancesBy (λ r. immd_size (if r.p_e then r.p_e else r.p_xb) mode size) act
    → AdvancesBy (λ r. immd_size (idx8 r) mode size) act
as_idx8 mode size h = record {
  moved_by = λ s.
      h.moved_by s ∙ ap (λ n. (s.cpu.pc + n) % 2 ^ 16) (one_by_one s.cpu.p_e s.cpu.p_xb mode size);
}

memory_op-AdvancesBy :
    (op : MemoryOp) (size cycles : ℕ) (mode : AddrMode) (addr : ℕ)
    → AdvancesBy (op_size op mode size) (memory_op op size cycles mode addr)
unfolding memory_op
memory_op-AdvancesBy ora size cycles mode addr = i_ora-AdvancesBy size cycles mode addr
memory_op-AdvancesBy tsb size cycles mode addr = i_tsb-AdvancesBy size cycles mode addr
memory_op-AdvancesBy asl size cycles mode addr = i_asl-AdvancesBy size cycles mode addr
memory_op-AdvancesBy trb size cycles mode addr = i_trb-AdvancesBy size cycles mode addr
memory_op-AdvancesBy and size cycles mode addr = i_and-AdvancesBy size cycles mode addr
memory_op-AdvancesBy bit size cycles mode addr = i_bit-AdvancesBy size cycles mode addr
memory_op-AdvancesBy rol size cycles mode addr = i_rol-AdvancesBy size cycles mode addr
memory_op-AdvancesBy eor size cycles mode addr = i_eor-AdvancesBy size cycles mode addr
memory_op-AdvancesBy lsr size cycles mode addr = i_lsr-AdvancesBy size cycles mode addr
memory_op-AdvancesBy adc size cycles mode addr = i_adc-AdvancesBy size cycles mode addr
memory_op-AdvancesBy stz size cycles mode addr = i_stz-AdvancesBy size cycles mode addr
memory_op-AdvancesBy ror size cycles mode addr = i_ror-AdvancesBy size cycles mode addr
memory_op-AdvancesBy sta size cycles mode addr = i_sta-AdvancesBy size cycles mode addr
memory_op-AdvancesBy sty size cycles mode addr = i_sty-AdvancesBy size cycles mode addr
memory_op-AdvancesBy stx size cycles mode addr = i_stx-AdvancesBy size cycles mode addr
memory_op-AdvancesBy ldy size cycles mode addr =
    as_idx8 mode size (i_ldy-AdvancesBy size cycles mode addr)
memory_op-AdvancesBy lda size cycles mode addr = i_lda-AdvancesBy size cycles mode addr
memory_op-AdvancesBy ldx size cycles mode addr =
    as_idx8 mode size (i_ldx-AdvancesBy size cycles mode addr)
memory_op-AdvancesBy cpy size cycles mode addr = i_cpy-AdvancesBy size cycles mode addr
memory_op-AdvancesBy cmp size cycles mode addr = i_cmp-AdvancesBy size cycles mode addr
memory_op-AdvancesBy dec size cycles mode addr = i_dec-AdvancesBy size cycles mode addr
memory_op-AdvancesBy cpx size cycles mode addr = i_cpx-AdvancesBy size cycles mode addr
memory_op-AdvancesBy sbc size cycles mode addr = i_sbc-AdvancesBy size cycles mode addr
memory_op-AdvancesBy inc size cycles mode addr = i_inc-AdvancesBy size cycles mode addr

-- From a valid processor, any mode of such an instruction leaves the program counter behind it.
pub execute-pc :
    (op : MemoryOp) (size cycles : ℕ) (mode : AddrMode) (operand : Operand) (s : Machine)
    → IsValid s.cpu
    → (execute (Instr.memory op size cycles mode operand) s).1.cpu.pc
      ≡ (s.cpu.pc + op_size op mode size s.cpu) % 2 ^ 16
unfolding execute
execute-pc op size cycles mode operand s v =
    let a = address-IsAddress operand s.cpu.setacc s v in
    let r = address operand s.cpu.setacc s in
    (memory_op-AdvancesBy op size cycles mode r.0).moved_by r.1
    ∙ ap (λ q. (q.pc + op_size op mode size q) % 2 ^ 16) a.same_cpu
