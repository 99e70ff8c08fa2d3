-- ===== src/Cpu/Decode/MidHigh.antt =====
-- src/cpu/65816.c: the cases 0x80 to 0xbf of the switch of stepCPU.
use ce.Base.{List, [], ◌∷◌}
use ce.Cpu.State.{
  abs, absl, abslx, absx, absy, dp, dpind, dpindl, dpindx, dpx, dpy, immd, inddply, inddpy, sr,
  srindy,
}
use ce.Cpu.Instr.{
  Instr, memory, plain, bit, stz, sta, sty, stx, ldy, lda, ldx, bra, brl, dey, txa, phb, bcc, tya,
  txs, txy, tay, tax, plb, bcs, clv, tsx, tyx, direct_page_indexed_indirect_x, stack_relative,
  direct_page, direct_page_indirect_long, immediate, absolute, long, direct_page_indirect_indexed_y,
  direct_page_indirect, stack_relative_indirect_indexed_y, direct_page_indexed_x,
  direct_page_indirect_long_indexed_y, absolute_indexed_y, absolute_indexed_x, long_indexed_x,
  direct_page_indexed_y,
}

abbrev pub decode_80 : List Instr
decode_80 =
    plain bra
    ∷ memory sta 2 6 dpindx direct_page_indexed_indirect_x
    ∷ plain brl
    ∷ memory sta 2 4 sr stack_relative
    ∷ memory sty 2 3 dp direct_page
    ∷ memory sta 2 3 dp direct_page
    ∷ memory stx 2 3 dp direct_page
    ∷ memory sta 2 6 dpindl direct_page_indirect_long
    ∷ plain dey
    ∷ memory bit 2 2 immd immediate
    ∷ plain txa
    ∷ plain phb
    ∷ memory sty 3 4 abs absolute
    ∷ memory sta 3 4 abs absolute
    ∷ memory stx 3 4 abs absolute
    ∷ memory sta 4 5 absl long
    ∷ plain bcc
    ∷ memory sta 2 6 inddpy direct_page_indirect_indexed_y
    ∷ memory sta 2 5 dpind direct_page_indirect
    ∷ memory sta 2 7 srindy stack_relative_indirect_indexed_y
    ∷ memory sty 2 4 dpx direct_page_indexed_x
    ∷ memory sta 2 4 dpx direct_page_indexed_x
    ∷ memory stx 2 4 dpy direct_page_indexed_y
    ∷ memory sta 2 6 inddply direct_page_indirect_long_indexed_y
    ∷ plain tya
    ∷ memory sta 3 5 absy absolute_indexed_y
    ∷ plain txs
    ∷ plain txy
    ∷ memory stz 3 4 abs absolute
    ∷ memory sta 3 5 absx absolute_indexed_x
    ∷ memory stz 3 5 absx absolute_indexed_x
    ∷ memory sta 4 5 abslx long_indexed_x
    ∷ memory ldy 2 2 immd immediate
    ∷ memory lda 2 6 dpindx direct_page_indexed_indirect_x
    ∷ memory ldx 2 2 immd immediate
    ∷ memory lda 2 4 sr stack_relative
    ∷ memory ldy 2 3 dp direct_page
    ∷ memory lda 2 3 dp direct_page
    ∷ memory ldx 2 3 dp direct_page
    ∷ memory lda 2 6 dpindl direct_page_indirect_long
    ∷ plain tay
    ∷ memory lda 2 2 immd immediate
    ∷ plain tax
    ∷ plain plb
    ∷ memory ldy 3 4 abs absolute
    ∷ memory lda 3 4 abs absolute
    ∷ memory ldx 3 4 abs absolute
    ∷ memory lda 4 5 absl long
    ∷ plain bcs
    ∷ memory lda 2 5 inddpy direct_page_indirect_indexed_y
    ∷ memory lda 2 5 dpind direct_page_indirect
    ∷ memory lda 2 7 srindy stack_relative_indirect_indexed_y
    ∷ memory ldy 2 4 dpx direct_page_indexed_x
    ∷ memory lda 2 4 dpx direct_page_indexed_x
    ∷ memory ldx 2 4 dpy direct_page_indexed_y
    ∷ memory lda 2 6 inddply direct_page_indirect_long_indexed_y
    ∷ plain clv
    ∷ memory lda 3 4 absy absolute_indexed_y
    ∷ plain tsx
    ∷ plain tyx
    ∷ memory ldy 3 4 absx absolute_indexed_x
    ∷ memory lda 3 4 absx absolute_indexed_x
    ∷ memory ldx 3 4 absy absolute_indexed_y
    ∷ memory lda 4 5 abslx long_indexed_x
    ∷ []
