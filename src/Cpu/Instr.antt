-- ===== src/Cpu/Instr.antt =====
-- src/cpu/65816.c: the instructions that the switch of stepCPU tells apart. A case of the switch is a
-- value of `Instr`: the handler called, with the arguments written in that case.
use ce.Base.{ℕ}
use ce.Cpu.State.{AddrMode}

-- The handlers that take a size, cycles, an addressing mode and an address.
pub data MemoryOp : Type 0 where
  ora tsb asl trb and bit rol eor lsr adc stz ror : MemoryOp
  sta sty stx ldy lda ldx cpy cmp dec cpx sbc inc : MemoryOp

-- The handlers that take the processor, or the processor and the memory, alone.
pub data PlainOp : Type 0 where
  brk cop php phd bpl clc ina tcs plp pld bmi sec : PlainOp
  dea tsc rti wdm mvp pha phk bvc mvn cli phy tcd : PlainOp
  rts per pla rtl bvs sei ply tdc bra brl dey txa : PlainOp
  phb bcc tya txs txy tay tax plb bcs clv tsx tyx : PlainOp
  rep iny dex wai bne pei cld phx stp sep inx nop : PlainOp
  xba beq pea sed plx xce : PlainOp

-- The functions `_addrCPU_get…` that compute the address; `no_address` is the literal 0.
pub data Operand : Type 0 where
  direct_page_indexed_indirect_x stack_relative direct_page : Operand
  direct_page_indirect_long immediate absolute : Operand
  long direct_page_indirect_indexed_y direct_page_indirect : Operand
  stack_relative_indirect_indexed_y direct_page_indexed_x direct_page_indirect_long_indexed_y :
      Operand
  absolute_indexed_y absolute_indexed_x long_indexed_x : Operand
  absolute_indirect absolute_indexed_indirect_x direct_page_indexed_y : Operand
  absolute_indirect_long no_address : Operand

pub data Instr : Type 0 where
  memory : MemoryOp → ℕ → ℕ → AddrMode → Operand → Instr
  plain : PlainOp → Instr
  jmp : ℕ → AddrMode → Operand → Instr
  jsr : ℕ → Operand → Instr
  jsl : ℕ → Operand → Instr
