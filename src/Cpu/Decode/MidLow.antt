-- ===== src/Cpu/Decode/MidLow.antt =====
-- src/cpu/65816.c: the cases 0x40 to 0x7f of the switch of stepCPU.
use ce.Base.{List, [], ◌∷◌}
use ce.Cpu.State.{
  abs, absindx, absl, abslx, absx, absy, dp, dpind, dpindl, dpindx, dpx, immd, impd, indabs,
  inddply, inddpy, sr, srindy,
}
use ce.Cpu.Instr.{
  Instr, memory, plain, jmp, eor, lsr, adc, stz, ror, rti, wdm, mvp, pha, phk, bvc, mvn, cli, phy,
  tcd, rts, per, pla, rtl, bvs, sei, ply, tdc, direct_page_indexed_indirect_x, stack_relative,
  direct_page, direct_page_indirect_long, immediate, absolute, long, direct_page_indirect_indexed_y,
  direct_page_indirect, stack_relative_indirect_indexed_y, direct_page_indexed_x,
  direct_page_indirect_long_indexed_y, absolute_indexed_y, absolute_indexed_x, long_indexed_x,
  absolute_indirect, absolute_indexed_indirect_x, no_address,
}

abbrev pub decode_40 : List Instr
decode_40 =
    plain rti
    ∷ memory eor 2 6 dpindx direct_page_indexed_indirect_x
    ∷ plain wdm
    ∷ memory eor 2 4 sr stack_relative
    ∷ plain mvp
    ∷ memory eor 2 3 dp direct_page
    ∷ memory lsr 2 5 dp direct_page
    ∷ memory eor 2 6 dpindl direct_page_indirect_long
    ∷ plain pha
    ∷ memory eor 2 2 immd immediate
    ∷ memory lsr 1 2 impd no_address
    ∷ plain phk
    ∷ jmp 3 abs absolute
    ∷ memory eor 3 4 abs absolute
    ∷ memory lsr 3 6 abs absolute
    ∷ memory eor 4 5 absl long
    ∷ plain bvc
    ∷ memory eor 2 5 inddpy direct_page_indirect_indexed_y
    ∷ memory eor 2 5 dpind direct_page_indirect
    ∷ memory eor 2 7 srindy stack_relative_indirect_indexed_y
    ∷ plain mvn
    ∷ memory eor 2 4 dpx direct_page_indexed_x
    ∷ memory lsr 2 6 dpx direct_page_indexed_x
    ∷ memory eor 2 6 inddply direct_page_indirect_long_indexed_y
    ∷ plain cli
    ∷ memory eor 3 4 absy absolute_indexed_y
    ∷ plain phy
    ∷ plain tcd
    ∷ jmp 4 absl long
    ∷ memory eor 3 4 absx absolute_indexed_x
    ∷ memory lsr 3 7 absx absolute_indexed_x
    ∷ memory eor 4 5 abslx long_indexed_x
    ∷ plain rts
    ∷ memory adc 2 6 dpindx direct_page_indexed_indirect_x
    ∷ plain per
    ∷ memory adc 2 4 sr stack_relative
    ∷ memory stz 2 3 dp direct_page
    ∷ memory adc 2 3 dp direct_page
    ∷ memory ror 2 5 dp direct_page
    ∷ memory adc 2 6 dpindl direct_page_indirect_long
    ∷ plain pla
    ∷ memory adc 2 2 immd immediate
    ∷ memory ror 1 2 impd no_address
    ∷ plain rtl
    ∷ jmp 5 indabs absolute_indirect
    ∷ memory adc 3 4 abs absolute
    ∷ memory ror 3 6 abs absolute
    ∷ memory adc 4 5 absl long
    ∷ plain bvs
    ∷ memory adc 2 5 inddpy direct_page_indirect_indexed_y
    ∷ memory adc 2 5 dpind direct_page_indirect
    ∷ memory adc 2 7 srindy stack_relative_indirect_indexed_y
    ∷ memory stz 2 4 dpx direct_page_indexed_x
    ∷ memory adc 2 4 dpindx direct_page_indexed_x
    ∷ memory ror 2 6 dpx direct_page_indexed_x
    ∷ memory adc 2 6 inddply direct_page_indirect_long_indexed_y
    ∷ plain sei
    ∷ memory adc 3 4 absy absolute_indexed_y
    ∷ plain ply
    ∷ plain tdc
    ∷ jmp 6 absindx absolute_indexed_indirect_x
    ∷ memory adc 3 4 absx absolute_indexed_x
    ∷ memory ror 3 7 absx absolute_indexed_x
    ∷ memory adc 4 5 abslx long_indexed_x
    ∷ []
