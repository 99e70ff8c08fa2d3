-- ===== src/Debugger/Disassembler/Handlers.antt =====
-- The mnemonics of src/debugger/disassembler.h that belong to the handlers of src/cpu/65816.c.
use ce.Cpu.Instr.{
  Instr, MemoryOp, PlainOp, memory, plain, jmp, jsr, jsl, ora, tsb, asl, trb, and, bit, rol, eor,
  lsr, adc, stz, ror, sta, sty, stx, ldy, lda, ldx, cpy, cmp, dec, cpx, sbc, inc, brk, cop, php,
  phd, bpl, clc, ina, tcs, plp, pld, bmi, sec, dea, tsc, rti, wdm, mvp, pha, phk, bvc, mvn, cli,
  phy, tcd, rts, per, pla, rtl, bvs, sei, ply, tdc, bra, brl, dey, txa, phb, bcc, tya, txs, txy,
  tay, tax, plb, bcs, clv, tsx, tyx, rep, iny, dex, wai, bne, pei, cld, phx, stp, sep, inx, nop,
  xba, beq, pea, sed, plx, xce,
}
use ce.Debugger.Disassembler.{
  Inst, inst_adc, inst_and, inst_asl, inst_bcc, inst_bcs, inst_beq, inst_bit, inst_bmi, inst_bne,
  inst_bpl, inst_bra, inst_brk, inst_brl, inst_bvc, inst_bvs, inst_clc, inst_cld, inst_cli,
  inst_clv, inst_cmp, inst_cop, inst_cpx, inst_cpy, inst_dec, inst_dex, inst_dey, inst_eor,
  inst_inc, inst_inx, inst_iny, inst_jmp, inst_jsl, inst_jsr, inst_lda, inst_ldx, inst_ldy,
  inst_lsr, inst_mvn, inst_mvp, inst_nop, inst_ora, inst_pea, inst_pei, inst_per, inst_pha,
  inst_phb, inst_phd, inst_phk, inst_php, inst_phx, inst_phy, inst_pla, inst_plb, inst_pld,
  inst_plp, inst_plx, inst_ply, inst_rep, inst_rol, inst_ror, inst_rti, inst_rtl, inst_rts,
  inst_sbc, inst_sec, inst_sed, inst_sei, inst_sep, inst_sta, inst_stp, inst_stx, inst_sty,
  inst_stz, inst_tax, inst_tay, inst_tcd, inst_tcs, inst_tdc, inst_trb, inst_tsb, inst_tsc,
  inst_tsx, inst_txa, inst_txs, inst_txy, inst_tya, inst_tyx, inst_wai, inst_wdm, inst_xba,
  inst_xce,
}

-- The mnemonic of a handler; INA and DEA are INC and DEC of the accumulator.
abbrev memory_inst : MemoryOp → Inst
memory_inst ora = inst_ora
memory_inst tsb = inst_tsb
memory_inst asl = inst_asl
memory_inst trb = inst_trb
memory_inst and = inst_and
memory_inst bit = inst_bit
memory_inst rol = inst_rol
memory_inst eor = inst_eor
memory_inst lsr = inst_lsr
memory_inst adc = inst_adc
memory_inst stz = inst_stz
memory_inst ror = inst_ror
memory_inst sta = inst_sta
memory_inst sty = inst_sty
memory_inst stx = inst_stx
memory_inst ldy = inst_ldy
memory_inst lda = inst_lda
memory_inst ldx = inst_ldx
memory_inst cpy = inst_cpy
memory_inst cmp = inst_cmp
memory_inst dec = inst_dec
memory_inst cpx = inst_cpx
memory_inst sbc = inst_sbc
memory_inst inc = inst_inc

abbrev plain_inst : PlainOp → Inst
plain_inst brk = inst_brk
plain_inst cop = inst_cop
plain_inst php = inst_php
plain_inst phd = inst_phd
plain_inst bpl = inst_bpl
plain_inst clc = inst_clc
plain_inst ina = inst_inc
plain_inst tcs = inst_tcs
plain_inst plp = inst_plp
plain_inst pld = inst_pld
plain_inst bmi = inst_bmi
plain_inst sec = inst_sec
plain_inst dea = inst_dec
plain_inst tsc = inst_tsc
plain_inst rti = inst_rti
plain_inst wdm = inst_wdm
plain_inst mvp = inst_mvp
plain_inst pha = inst_pha
plain_inst phk = inst_phk
plain_inst bvc = inst_bvc
plain_inst mvn = inst_mvn
plain_inst cli = inst_cli
plain_inst phy = inst_phy
plain_inst tcd = inst_tcd
plain_inst rts = inst_rts
plain_inst per = inst_per
plain_inst pla = inst_pla
plain_inst rtl = inst_rtl
plain_inst bvs = inst_bvs
plain_inst sei = inst_sei
plain_inst ply = inst_ply
plain_inst tdc = inst_tdc
plain_inst bra = inst_bra
plain_inst brl = inst_brl
plain_inst dey = inst_dey
plain_inst txa = inst_txa
plain_inst phb = inst_phb
plain_inst bcc = inst_bcc
plain_inst tya = inst_tya
plain_inst txs = inst_txs
plain_inst txy = inst_txy
plain_inst tay = inst_tay
plain_inst tax = inst_tax
plain_inst plb = inst_plb
plain_inst bcs = inst_bcs
plain_inst clv = inst_clv
plain_inst tsx = inst_tsx
plain_inst tyx = inst_tyx
plain_inst rep = inst_rep
plain_inst iny = inst_iny
plain_inst dex = inst_dex
plain_inst wai = inst_wai
plain_inst bne = inst_bne
plain_inst pei = inst_pei
plain_inst cld = inst_cld
plain_inst phx = inst_phx
plain_inst stp = inst_stp
plain_inst sep = inst_sep
plain_inst inx = inst_inx
plain_inst nop = inst_nop
plain_inst xba = inst_xba
plain_inst beq = inst_beq
plain_inst pea = inst_pea
plain_inst sed = inst_sed
plain_inst plx = inst_plx
plain_inst xce = inst_xce

abbrev pub handler_inst : Instr → Inst
handler_inst (memory op size cycles mode operand) = memory_inst op
handler_inst (plain op) = plain_inst op
handler_inst (jmp size mode operand) = inst_jmp
handler_inst (jsr cycles operand) = inst_jsr
handler_inst (jsl cycles operand) = inst_jsl
