-- ===== src/Debugger/Disassembler.antt =====
-- src/debugger/disassembler.c and disassembler.h: the table of opcodes, and the size of an
-- instruction that get_opcode returns. The text that it prints is not modelled.
pub mod Advance
pub mod Low
pub mod MidLow
pub mod MidHigh
pub mod High
pub mod Size
pub mod Handlers
pub mod Agree
use ce.Base.{ℕ}
use ce.Cpu.State.{
  AddrMode, dp, dpx, dpindx, dpy, inddpy, inddply, dpind, dpindl, abs, absx, absy, indabs, absl,
  abslx, absindl, absindx, immd, sr, srindy, impd, bmv, pcr, pcrl,
}

-- `instruction_t`
pub data Inst : Type 0 where
  inst_adc inst_and inst_asl inst_bcc inst_bcs inst_beq inst_bit inst_bmi : Inst
  inst_bne inst_bpl inst_bra inst_brk inst_brl inst_bvc inst_bvs inst_clc : Inst
  inst_cld inst_cli inst_clv inst_cmp inst_cop inst_cpx inst_cpy inst_dec : Inst
  inst_dex inst_dey inst_eor inst_inc inst_inx inst_iny inst_jmp inst_jsl : Inst
  inst_jsr inst_lda inst_ldx inst_ldy inst_lsr inst_mvn inst_mvp inst_nop : Inst
  inst_ora inst_pea inst_pei inst_per inst_pha inst_phb inst_phd inst_phk : Inst
  inst_php inst_phx inst_phy inst_pla inst_plb inst_pld inst_plp inst_plx : Inst
  inst_ply inst_rep inst_rol inst_ror inst_rti inst_rtl inst_rts inst_sbc : Inst
  inst_sec inst_sed inst_sei inst_sep inst_sta inst_stp inst_stx inst_sty : Inst
  inst_stz inst_tax inst_tay inst_tcd inst_tcs inst_tdc inst_trb inst_tsb : Inst
  inst_tsc inst_tsx inst_txa inst_txs inst_txy inst_tya inst_tyx inst_wai : Inst
  inst_wdm inst_xba inst_xce : Inst

-- The value of the enumerator.
unfoldable pub inst_index : Inst → ℕ
inst_index inst_adc = 0
inst_index inst_and = 1
inst_index inst_asl = 2
inst_index inst_bcc = 3
inst_index inst_bcs = 4
inst_index inst_beq = 5
inst_index inst_bit = 6
inst_index inst_bmi = 7
inst_index inst_bne = 8
inst_index inst_bpl = 9
inst_index inst_bra = 10
inst_index inst_brk = 11
inst_index inst_brl = 12
inst_index inst_bvc = 13
inst_index inst_bvs = 14
inst_index inst_clc = 15
inst_index inst_cld = 16
inst_index inst_cli = 17
inst_index inst_clv = 18
inst_index inst_cmp = 19
inst_index inst_cop = 20
inst_index inst_cpx = 21
inst_index inst_cpy = 22
inst_index inst_dec = 23
inst_index inst_dex = 24
inst_index inst_dey = 25
inst_index inst_eor = 26
inst_index inst_inc = 27
inst_index inst_inx = 28
inst_index inst_iny = 29
inst_index inst_jmp = 30
inst_index inst_jsl = 31
inst_index inst_jsr = 32
inst_index inst_lda = 33
inst_index inst_ldx = 34
inst_index inst_ldy = 35
inst_index inst_lsr = 36
inst_index inst_mvn = 37
inst_index inst_mvp = 38
inst_index inst_nop = 39
inst_index inst_ora = 40
inst_index inst_pea = 41
inst_index inst_pei = 42
inst_index inst_per = 43
inst_index inst_pha = 44
inst_index inst_phb = 45
inst_index inst_phd = 46
inst_index inst_phk = 47
inst_index inst_php = 48
inst_index inst_phx = 49
inst_index inst_phy = 50
inst_index inst_pla = 51
inst_index inst_plb = 52
inst_index inst_pld = 53
inst_index inst_plp = 54
inst_index inst_plx = 55
inst_index inst_ply = 56
inst_index inst_rep = 57
inst_index inst_rol = 58
inst_index inst_ror = 59
inst_index inst_rti = 60
inst_index inst_rtl = 61
inst_index inst_rts = 62
inst_index inst_sbc = 63
inst_index inst_sec = 64
inst_index inst_sed = 65
inst_index inst_sei = 66
inst_index inst_sep = 67
inst_index inst_sta = 68
inst_index inst_stp = 69
inst_index inst_stx = 70
inst_index inst_sty = 71
inst_index inst_stz = 72
inst_index inst_tax = 73
inst_index inst_tay = 74
inst_index inst_tcd = 75
inst_index inst_tcs = 76
inst_index inst_tdc = 77
inst_index inst_trb = 78
inst_index inst_tsb = 79
inst_index inst_tsc = 80
inst_index inst_tsx = 81
inst_index inst_txa = 82
inst_index inst_txs = 83
inst_index inst_txy = 84
inst_index inst_tya = 85
inst_index inst_tyx = 86
inst_index inst_wai = 87
inst_index inst_wdm = 88
inst_index inst_xba = 89
inst_index inst_xce = 90

-- `regtype_t`
pub data Register : Type 0 where
  no_register reg_x reg_a : Register

-- `opcode_t`
pub record Opcode : Type 0 where
  pub addr_mode : AddrMode
  pub inst : Inst
  pub reg : Register

abbrev pub entry : AddrMode → Inst → Register → Opcode
entry m i r = record { addr_mode = m; inst = i; reg = r }

-- `addr_fmt_sizes`
unfoldable pub addr_fmt_size : AddrMode → ℕ
addr_fmt_size dp = 2
addr_fmt_size dpx = 2
addr_fmt_size dpindx = 2
addr_fmt_size dpy = 2
addr_fmt_size inddpy = 2
addr_fmt_size inddply = 2
addr_fmt_size dpind = 2
addr_fmt_size dpindl = 2
addr_fmt_size abs = 3
addr_fmt_size absx = 3
addr_fmt_size absy = 3
addr_fmt_size indabs = 3
addr_fmt_size absl = 4
addr_fmt_size abslx = 4
addr_fmt_size absindl = 3
addr_fmt_size absindx = 3
addr_fmt_size immd = 2
addr_fmt_size sr = 2
addr_fmt_size srindy = 2
addr_fmt_size impd = 1
addr_fmt_size bmv = 3
addr_fmt_size pcr = 2
addr_fmt_size pcrl = 3
