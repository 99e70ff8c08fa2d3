-- ===== src/Cpu/Execute.antt =====
-- src/cpu/65816.c: what a decoded instruction does: the address first, then the handler.
use ce.Base.{ℕ, Bool}
use ce.Cpu.State.{AddrMode}
use ce.Cpu.Monad.{M, Act, ◌>>=◌, return, get}
use ce.Cpu.Instr.{Instr, MemoryOp, PlainOp, Operand}
use ce.Cpu.Address.{
  get_direct_page_indexed_indirect_x, get_stack_relative, get_direct_page,
  get_direct_page_indirect_long, get_immediate, get_absolute, get_long,
  get_direct_page_indirect_indexed_y, get_direct_page_indirect,
  get_stack_relative_indirect_indexed_y, get_direct_page_indexed_x,
  get_direct_page_indirect_long_indexed_y, get_absolute_indexed_y, get_absolute_indexed_x,
  get_long_indexed_x, get_absolute_indirect, get_absolute_indexed_indirect_x,
  get_direct_page_indexed_y, get_absolute_indirect_long,
}
use ce.Cpu.Ops.Arith.{i_adc, i_sbc}
use ce.Cpu.Ops.Branch.{i_bpl, i_bmi, i_bvc, i_bvs, i_bra, i_brl, i_bcc, i_bcs, i_bne, i_beq}
use ce.Cpu.Ops.Compare.{i_cpy, i_cmp, i_cpx}
use ce.Cpu.Ops.Count.{i_dec, i_inc, i_ina, i_dea, i_dey, i_iny, i_dex, i_inx}
use ce.Cpu.Ops.Interrupt.{i_brk, i_cop, i_wdm, i_mvp, i_mvn, i_wai, i_stp}
use ce.Cpu.Ops.Jump.{i_rti, i_rts, i_rtl, i_jmp, i_jsr, i_jsl}
use ce.Cpu.Ops.Load.{i_ldy, i_lda, i_ldx}
use ce.Cpu.Ops.Logic.{i_ora, i_tsb, i_trb, i_and, i_bit, i_eor}
use ce.Cpu.Ops.Pull.{i_plp, i_pld, i_pla, i_ply, i_plb, i_plx}
use ce.Cpu.Ops.Push.{i_php, i_phd, i_pha, i_phk, i_phy, i_per, i_phb, i_pei, i_phx, i_pea}
use ce.Cpu.Ops.Shift.{i_asl, i_rol, i_lsr, i_ror}
use ce.Cpu.Ops.Status.{i_clc, i_sec, i_cli, i_sei, i_clv, i_rep, i_cld, i_sep, i_sed, i_xce}
use ce.Cpu.Ops.Store.{i_stz, i_sta, i_sty, i_stx}
use ce.Cpu.Ops.Transfer.{
  i_tcs, i_tsc, i_tcd, i_tdc, i_txa, i_tya, i_txs, i_txy, i_tay, i_tax, i_tsx, i_tyx, i_nop, i_xba,
}

unfoldable pub address : Operand → Bool → M ℕ
address Operand.direct_page_indexed_indirect_x setacc = get_direct_page_indexed_indirect_x setacc
address Operand.stack_relative setacc = get_stack_relative setacc
address Operand.direct_page setacc = get_direct_page setacc
address Operand.direct_page_indirect_long setacc = get_direct_page_indirect_long setacc
address Operand.immediate setacc = get_immediate setacc
address Operand.absolute setacc = get_absolute setacc
address Operand.long setacc = get_long setacc
address Operand.direct_page_indirect_indexed_y setacc = get_direct_page_indirect_indexed_y setacc
address Operand.direct_page_indirect setacc = get_direct_page_indirect setacc
address Operand.stack_relative_indirect_indexed_y setacc =
    get_stack_relative_indirect_indexed_y setacc
address Operand.direct_page_indexed_x setacc = get_direct_page_indexed_x setacc
address Operand.direct_page_indirect_long_indexed_y setacc =
    get_direct_page_indirect_long_indexed_y setacc
address Operand.absolute_indexed_y setacc = get_absolute_indexed_y setacc
address Operand.absolute_indexed_x setacc = get_absolute_indexed_x setacc
address Operand.long_indexed_x setacc = get_long_indexed_x setacc
address Operand.absolute_indirect setacc = get_absolute_indirect setacc
address Operand.absolute_indexed_indirect_x setacc = get_absolute_indexed_indirect_x setacc
address Operand.direct_page_indexed_y setacc = get_direct_page_indexed_y setacc
address Operand.absolute_indirect_long setacc = get_absolute_indirect_long setacc
address Operand.no_address setacc = return 0

unfoldable pub memory_op : MemoryOp → ℕ → ℕ → AddrMode → ℕ → Act
memory_op MemoryOp.ora = i_ora
memory_op MemoryOp.tsb = i_tsb
memory_op MemoryOp.asl = i_asl
memory_op MemoryOp.trb = i_trb
memory_op MemoryOp.and = i_and
memory_op MemoryOp.bit = i_bit
memory_op MemoryOp.rol = i_rol
memory_op MemoryOp.eor = i_eor
memory_op MemoryOp.lsr = i_lsr
memory_op MemoryOp.adc = i_adc
memory_op MemoryOp.stz = i_stz
memory_op MemoryOp.ror = i_ror
memory_op MemoryOp.sta = i_sta
memory_op MemoryOp.sty = i_sty
memory_op MemoryOp.stx = i_stx
memory_op MemoryOp.ldy = i_ldy
memory_op MemoryOp.lda = i_lda
memory_op MemoryOp.ldx = i_ldx
memory_op MemoryOp.cpy = i_cpy
memory_op MemoryOp.cmp = i_cmp
memory_op MemoryOp.dec = i_dec
memory_op MemoryOp.cpx = i_cpx
memory_op MemoryOp.sbc = i_sbc
memory_op MemoryOp.inc = i_inc

unfoldable pub plain_op : PlainOp → Act
plain_op PlainOp.brk = i_brk
plain_op PlainOp.cop = i_cop
plain_op PlainOp.php = i_php
plain_op PlainOp.phd = i_phd
plain_op PlainOp.bpl = i_bpl
plain_op PlainOp.clc = i_clc
plain_op PlainOp.ina = i_ina
plain_op PlainOp.tcs = i_tcs
plain_op PlainOp.plp = i_plp
plain_op PlainOp.pld = i_pld
plain_op PlainOp.bmi = i_bmi
plain_op PlainOp.sec = i_sec
plain_op PlainOp.dea = i_dea
plain_op PlainOp.tsc = i_tsc
plain_op PlainOp.rti = i_rti
plain_op PlainOp.wdm = i_wdm
plain_op PlainOp.mvp = i_mvp
plain_op PlainOp.pha = i_pha
plain_op PlainOp.phk = i_phk
plain_op PlainOp.bvc = i_bvc
plain_op PlainOp.mvn = i_mvn
plain_op PlainOp.cli = i_cli
plain_op PlainOp.phy = i_phy
plain_op PlainOp.tcd = i_tcd
plain_op PlainOp.rts = i_rts
plain_op PlainOp.per = i_per
plain_op PlainOp.pla = i_pla
plain_op PlainOp.rtl = i_rtl
plain_op PlainOp.bvs = i_bvs
plain_op PlainOp.sei = i_sei
plain_op PlainOp.ply = i_ply
plain_op PlainOp.tdc = i_tdc
plain_op PlainOp.bra = i_bra
plain_op PlainOp.brl = i_brl
plain_op PlainOp.dey = i_dey
plain_op PlainOp.txa = i_txa
plain_op PlainOp.phb = i_phb
plain_op PlainOp.bcc = i_bcc
plain_op PlainOp.tya = i_tya
plain_op PlainOp.txs = i_txs
plain_op PlainOp.txy = i_txy
plain_op PlainOp.tay = i_tay
plain_op PlainOp.tax = i_tax
plain_op PlainOp.plb = i_plb
plain_op PlainOp.bcs = i_bcs
plain_op PlainOp.clv = i_clv
plain_op PlainOp.tsx = i_tsx
plain_op PlainOp.tyx = i_tyx
plain_op PlainOp.rep = i_rep
plain_op PlainOp.iny = i_iny
plain_op PlainOp.dex = i_dex
plain_op PlainOp.wai = i_wai
plain_op PlainOp.bne = i_bne
plain_op PlainOp.pei = i_pei
plain_op PlainOp.cld = i_cld
plain_op PlainOp.phx = i_phx
plain_op PlainOp.stp = i_stp
plain_op PlainOp.sep = i_sep
plain_op PlainOp.inx = i_inx
plain_op PlainOp.nop = i_nop
plain_op PlainOp.xba = i_xba
plain_op PlainOp.beq = i_beq
plain_op PlainOp.pea = i_pea
plain_op PlainOp.sed = i_sed
plain_op PlainOp.plx = i_plx
plain_op PlainOp.xce = i_xce

unfoldable pub execute : Instr → Act
execute (Instr.memory op size cycles mode operand) = do
  s ← get
  addr ← address operand s.setacc
  memory_op op size cycles mode addr
execute (Instr.plain op) = plain_op op
execute (Instr.jmp cycles mode operand) = do
  s ← get
  addr ← address operand s.setacc
  i_jmp cycles mode addr
execute (Instr.jsr cycles operand) = do s ← get; addr ← address operand s.setacc; i_jsr cycles addr
execute (Instr.jsl cycles operand) = do s ← get; addr ← address operand s.setacc; i_jsl cycles addr
