-- ===== src/Debugger/Disassembler/MidHigh.antt =====
-- src/debugger/disassembler.c: the entries 0x80 to 0xbf of opcode_table.
use ce.Base.{List, [], ◌∷◌}
use ce.Cpu.State.{
  abs, absl, abslx, absx, absy, dp, dpind, dpindl, dpindx, dpx, dpy, immd, impd, inddply, inddpy,
  pcr, pcrl, sr, srindy,
}
use ce.Debugger.Disassembler.{
  Opcode, entry, no_register, reg_a, reg_x, inst_bcc, inst_bcs, inst_bit, inst_bra, inst_brl,
  inst_clv, inst_dey, inst_lda, inst_ldx, inst_ldy, inst_phb, inst_plb, inst_sta, inst_stx,
  inst_sty, inst_stz, inst_tax, inst_tay, inst_tsx, inst_txa, inst_txs, inst_txy, inst_tya,
  inst_tyx,
}

abbrev pub opcodes_80 : List Opcode
opcodes_80 =
    entry pcr inst_bra no_register
    ∷ entry dpindx inst_sta reg_a
    ∷ entry pcrl inst_brl no_register
    ∷ entry sr inst_sta reg_a
    ∷ entry dp inst_sty reg_x
    ∷ entry dp inst_sta reg_a
    ∷ entry dp inst_stx reg_x
    ∷ entry dpindl inst_sta reg_a
    ∷ entry impd inst_dey reg_x
    ∷ entry immd inst_bit reg_a
    ∷ entry impd inst_txa reg_a
    ∷ entry impd inst_phb no_register
    ∷ entry abs inst_sty reg_x
    ∷ entry abs inst_sta reg_a
    ∷ entry abs inst_stx reg_x
    ∷ entry absl inst_sta reg_a
    ∷ entry pcr inst_bcc no_register
    ∷ entry inddpy inst_sta reg_a
    ∷ entry dpind inst_sta reg_a
    ∷ entry srindy inst_sta reg_a
    ∷ entry dpx inst_sty reg_x
    ∷ entry dpx inst_sta reg_a
    ∷ entry dpy inst_stx reg_x
    ∷ entry inddply inst_sta reg_a
    ∷ entry impd inst_tya reg_a
    ∷ entry absy inst_sta reg_x
    ∷ entry impd inst_txs reg_x
    ∷ entry impd inst_txy reg_x
    ∷ entry abs inst_stz reg_a
    ∷ entry absx inst_sta reg_a
    ∷ entry absx inst_stz reg_a
    ∷ entry abslx inst_sta reg_a
    ∷ entry immd inst_ldy reg_x
    ∷ entry dpindx inst_lda reg_a
    ∷ entry immd inst_ldx reg_x
    ∷ entry sr inst_lda reg_a
    ∷ entry dp inst_ldy reg_x
    ∷ entry dp inst_lda reg_a
    ∷ entry dp inst_ldx reg_x
    ∷ entry dpindl inst_lda reg_a
    ∷ entry impd inst_tay reg_x
    ∷ entry immd inst_lda reg_a
    ∷ entry impd inst_tax reg_x
    ∷ entry impd inst_plb no_register
    ∷ entry abs inst_ldy reg_x
    ∷ entry abs inst_lda reg_a
    ∷ entry abs inst_ldx reg_x
    ∷ entry absl inst_lda reg_a
    ∷ entry pcr inst_bcs no_register
    ∷ entry inddpy inst_lda reg_a
    ∷ entry dpind inst_lda reg_a
    ∷ entry srindy inst_lda reg_a
    ∷ entry dpx inst_ldy reg_x
    ∷ entry dpx inst_lda reg_a
    ∷ entry dpy inst_ldx reg_x
    ∷ entry inddply inst_lda reg_a
    ∷ entry impd inst_clv no_register
    ∷ entry absy inst_lda reg_a
    ∷ entry impd inst_tsx reg_x
    ∷ entry impd inst_tyx reg_x
    ∷ entry absx inst_ldy reg_x
    ∷ entry absx inst_lda reg_a
    ∷ entry absy inst_ldx reg_x
    ∷ entry abslx inst_lda reg_a
    ∷ []
