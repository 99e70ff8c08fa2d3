-- ===== src/Debugger/Disassembler/High.antt =====
-- src/debugger/disassembler.c: the entries 0xc0 to 0xff of opcode_table.
use ce.Base.{List, [], ◌∷◌}
use ce.Cpu.State.{
  abs, absindl, absindx, absl, abslx, absx, absy, dp, dpind, dpindl, dpindx, dpx, immd, impd,
  inddply, inddpy, pcr, sr, srindy,
}
use ce.Debugger.Disassembler.{
  Opcode, entry, no_register, reg_a, reg_x, inst_beq, inst_bne, inst_cld, inst_cmp, inst_cpx,
  inst_cpy, inst_dec, inst_dex, inst_inc, inst_inx, inst_iny, inst_jmp, inst_jsr, inst_nop,
  inst_pea, inst_pei, inst_phx, inst_plx, inst_rep, inst_sbc, inst_sed, inst_sep, inst_stp,
  inst_wai, inst_xba, inst_xce,
}

abbrev pub opcodes_c0 : List Opcode
opcodes_c0 =
    entry immd inst_cpy reg_x
    ∷ entry dpindx inst_cmp reg_a
    ∷ entry immd inst_rep no_register
    ∷ entry sr inst_cmp reg_a
    ∷ entry dp inst_cpy reg_x
    ∷ entry dp inst_cmp reg_a
    ∷ entry dp inst_dec reg_a
    ∷ entry dpindl inst_cmp reg_a
    ∷ entry impd inst_iny reg_x
    ∷ entry immd inst_cmp reg_a
    ∷ entry impd inst_dex reg_x
    ∷ entry impd inst_wai no_register
    ∷ entry abs inst_cpy reg_x
    ∷ entry abs inst_cmp reg_a
    ∷ entry abs inst_dec reg_a
    ∷ entry absl inst_cmp reg_a
    ∷ entry pcr inst_bne no_register
    ∷ entry inddpy inst_cmp reg_a
    ∷ entry dpind inst_cmp reg_a
    ∷ entry srindy inst_cmp reg_a
    ∷ entry dpind inst_pei no_register
    ∷ entry dpx inst_cmp reg_a
    ∷ entry dpx inst_dec reg_a
    ∷ entry inddply inst_cmp reg_a
    ∷ entry impd inst_cld no_register
    ∷ entry absy inst_cmp reg_a
    ∷ entry impd inst_phx reg_x
    ∷ entry impd inst_stp no_register
    ∷ entry absindl inst_jmp no_register
    ∷ entry absx inst_cmp reg_a
    ∷ entry absx inst_dec reg_a
    ∷ entry abslx inst_cmp reg_a
    ∷ entry immd inst_cpx reg_x
    ∷ entry dpindx inst_sbc reg_a
    ∷ entry immd inst_sep no_register
    ∷ entry sr inst_sbc reg_a
    ∷ entry dp inst_cpx reg_x
    ∷ entry dp inst_sbc reg_a
    ∷ entry dp inst_inc reg_a
    ∷ entry dpindl inst_sbc reg_a
    ∷ entry impd inst_inx reg_x
    ∷ entry immd inst_sbc reg_a
    ∷ entry impd inst_nop no_register
    ∷ entry impd inst_xba no_register
    ∷ entry abs inst_cpx reg_x
    ∷ entry abs inst_sbc reg_a
    ∷ entry abs inst_inc reg_a
    ∷ entry absl inst_sbc reg_a
    ∷ entry pcr inst_beq no_register
    ∷ entry inddpy inst_sbc reg_a
    ∷ entry dpind inst_sbc reg_a
    ∷ entry srindy inst_sbc reg_a
    ∷ entry abs inst_pea no_register
    ∷ entry dpx inst_sbc reg_a
    ∷ entry dpx inst_inc reg_a
    ∷ entry inddply inst_sbc reg_a
    ∷ entry impd inst_sed no_register
    ∷ entry absy inst_sbc reg_a
    ∷ entry impd inst_plx reg_x
    ∷ entry impd inst_xce no_register
    ∷ entry absindx inst_jsr no_register
    ∷ entry absx inst_sbc reg_a
    ∷ entry absx inst_inc reg_a
    ∷ entry abslx inst_sbc reg_a
    ∷ []
