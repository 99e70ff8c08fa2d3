-- ===== src/Debugger/Disassembler/Low.antt =====
-- src/debugger/disassembler.c: the entries 0x00 to 0x3f of opcode_table.
use ce.Base.{List, [], ◌∷◌}
use ce.Cpu.State.{
  abs, absl, abslx, absx, absy, dp, dpind, dpindl, dpindx, dpx, immd, impd, inddply, inddpy, pcr,
  sr, srindy,
}
use ce.Debugger.Disassembler.{
  Opcode, entry, no_register, reg_a, inst_and, inst_asl, inst_bit, inst_bmi, inst_bpl, inst_brk,
  inst_clc, inst_cop, inst_dec, inst_inc, inst_jsr, inst_ora, inst_phd, inst_php, inst_pld,
  inst_plp, inst_rol, inst_sec, inst_tcs, inst_trb, inst_tsb, inst_tsc,
}

abbrev pub opcodes_00 : List Opcode
opcodes_00 =
    entry dp inst_brk no_register
    ∷ entry dpindx inst_ora reg_a
    ∷ entry dp inst_cop no_register
    ∷ entry sr inst_ora reg_a
    ∷ entry dp inst_tsb reg_a
    ∷ entry dp inst_ora reg_a
    ∷ entry dp inst_asl reg_a
    ∷ entry dpindl inst_ora reg_a
    ∷ entry impd inst_php no_register
    ∷ entry immd inst_ora reg_a
    ∷ entry impd inst_asl reg_a
    ∷ entry impd inst_phd no_register
    ∷ entry abs inst_tsb reg_a
    ∷ entry abs inst_ora reg_a
    ∷ entry abs inst_asl reg_a
    ∷ entry absl inst_ora reg_a
    ∷ entry pcr inst_bpl no_register
    ∷ entry inddpy inst_ora reg_a
    ∷ entry dpind inst_ora reg_a
    ∷ entry srindy inst_ora reg_a
    ∷ entry dp inst_trb reg_a
    ∷ entry dpx inst_ora reg_a
    ∷ entry dpx inst_asl reg_a
    ∷ entry inddply inst_ora reg_a
    ∷ entry impd inst_clc no_register
    ∷ entry absy inst_ora reg_a
    ∷ entry impd inst_inc reg_a
    ∷ entry impd inst_tcs reg_a
    ∷ entry abs inst_trb reg_a
    ∷ entry absx inst_ora reg_a
    ∷ entry absx inst_asl reg_a
    ∷ entry abslx inst_ora reg_a
    ∷ entry abs inst_jsr no_register
    ∷ entry dpindx inst_and reg_a
    ∷ entry absl inst_jsr no_register
    ∷ entry sr inst_and reg_a
    ∷ entry dp inst_bit reg_a
    ∷ entry dp inst_and reg_a
    ∷ entry dp inst_rol reg_a
    ∷ entry dpindl inst_and reg_a
    ∷ entry impd inst_plp no_register
    ∷ entry immd inst_and reg_a
    ∷ entry impd inst_rol reg_a
    ∷ entry impd inst_pld no_register
    ∷ entry abs inst_bit reg_a
    ∷ entry abs inst_and reg_a
    ∷ entry abs inst_rol reg_a
    ∷ entry absl inst_and reg_a
    ∷ entry pcr inst_bmi no_register
    ∷ entry inddpy inst_and reg_a
    ∷ entry dpind inst_and reg_a
    ∷ entry srindy inst_and reg_a
    ∷ entry dpindx inst_bit reg_a
    ∷ entry dpindx inst_and reg_a
    ∷ entry dpindx inst_rol reg_a
    ∷ entry inddply inst_and reg_a
    ∷ entry impd inst_sec no_register
    ∷ entry absy inst_and reg_a
    ∷ entry impd inst_dec reg_a
    ∷ entry impd inst_tsc reg_a
    ∷ entry absx inst_bit reg_a
    ∷ entry absx inst_and reg_a
    ∷ entry absx inst_rol reg_a
    ∷ entry abslx inst_and reg_a
    ∷ []
