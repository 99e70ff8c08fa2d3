-- ===== src/Debugger/Disassembler/MidLow.antt =====
-- src/debugger/disassembler.c: the entries 0x40 to 0x7f of opcode_table.
use ce.Base.{List, [], ◌∷◌}
use ce.Cpu.State.{
  abs, absindx, absl, abslx, absx, absy, bmv, dp, dpind, dpindl, dpindx, dpx, immd, impd, inddply,
  inddpy, pcr, sr, srindy,
}
use ce.Debugger.Disassembler.{
  Opcode, entry, no_register, reg_a, reg_x, inst_adc, inst_bvc, inst_bvs, inst_cli, inst_eor,
  inst_jmp, inst_lsr, inst_mvn, inst_mvp, inst_per, inst_pha, inst_phk, inst_phy, inst_pla,
  inst_ply, inst_ror, inst_rti, inst_rtl, inst_rts, inst_sei, inst_stz, inst_tcd, inst_tdc,
  inst_wdm,
}

abbrev pub opcodes_40 : List Opcode
opcodes_40 =
    entry impd inst_rti no_register
    ∷ entry dpindx inst_eor reg_a
    ∷ entry immd inst_wdm no_register
    ∷ entry sr inst_eor reg_a
    ∷ entry bmv inst_mvp no_register
    ∷ entry dp inst_eor reg_a
    ∷ entry dp inst_lsr reg_a
    ∷ entry dpindl inst_eor reg_a
    ∷ entry impd inst_pha reg_a
    ∷ entry immd inst_eor reg_a
    ∷ entry impd inst_lsr reg_a
    ∷ entry impd inst_phk no_register
    ∷ entry abs inst_jmp no_register
    ∷ entry abs inst_eor reg_a
    ∷ entry abs inst_lsr reg_a
    ∷ entry absl inst_eor reg_a
    ∷ entry pcr inst_bvc no_register
    ∷ entry inddpy inst_eor reg_a
    ∷ entry dpind inst_eor reg_a
    ∷ entry srindy inst_eor reg_a
    ∷ entry bmv inst_mvn no_register
    ∷ entry dpx inst_eor reg_a
    ∷ entry dpx inst_lsr reg_a
    ∷ entry inddply inst_eor reg_a
    ∷ entry impd inst_cli no_register
    ∷ entry absy inst_eor reg_a
    ∷ entry impd inst_phy reg_x
    ∷ entry impd inst_tcd reg_a
    ∷ entry absl inst_jmp reg_a
    ∷ entry absx inst_eor reg_a
    ∷ entry absx inst_lsr reg_a
    ∷ entry abslx inst_eor reg_a
    ∷ entry impd inst_rts no_register
    ∷ entry dpindx inst_adc reg_a
    ∷ entry abs inst_per no_register
    ∷ entry sr inst_adc reg_a
    ∷ entry dp inst_stz reg_a
    ∷ entry dp inst_adc reg_a
    ∷ entry dp inst_ror reg_a
    ∷ entry dpindl inst_adc reg_a
    ∷ entry impd inst_pla reg_a
    ∷ entry immd inst_adc reg_a
    ∷ entry impd inst_ror reg_a
    ∷ entry impd inst_rtl no_register
    ∷ entry absindx inst_jmp no_register
    ∷ entry abs inst_adc reg_a
    ∷ entry abs inst_ror reg_a
    ∷ entry absl inst_adc reg_a
    ∷ entry pcr inst_bvs no_register
    ∷ entry inddpy inst_adc reg_a
    ∷ entry dpind inst_adc reg_a
    ∷ entry srindy inst_adc reg_a
    ∷ entry dpx inst_stz reg_a
    ∷ entry dpx inst_adc reg_a
    ∷ entry dpx inst_ror reg_a
    ∷ entry inddply inst_adc reg_a
    ∷ entry impd inst_sei no_register
    ∷ entry absy inst_adc reg_a
    ∷ entry impd inst_ply reg_x
    ∷ entry impd inst_tdc reg_a
    ∷ entry absindx inst_jmp no_register
    ∷ entry absx inst_adc reg_a
    ∷ entry absx inst_ror reg_a
    ∷ entry abslx inst_adc reg_a
    ∷ []
