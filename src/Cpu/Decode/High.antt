-- ===== src/Cpu/Decode/High.antt =====
-- src/cpu/65816.c: the cases 0xc0 to 0xff of the switch of stepCPU.
use ce.Base.{List, [], ◌∷◌}
use ce.Cpu.State.{
  abs, absindl, absl, abslx, absx, absy, dp, dpind, dpindl, dpindx, dpx, immd, inddply, inddpy, sr,
  srindy,
}
use ce.Cpu.Instr.{
  Instr, memory, plain, jmp, jsr, cpy, cmp, dec, cpx, sbc, inc, rep, iny, dex, wai, bne, pei, cld,
  phx, stp, sep, inx, nop, xba, beq, pea, sed, plx, xce, direct_page_indexed_indirect_x,
  stack_relative, direct_page, direct_page_indirect_long, immediate, absolute, long,
  direct_page_indirect_indexed_y, direct_page_indirect, stack_relative_indirect_indexed_y,
  direct_page_indexed_x, direct_page_indirect_long_indexed_y, absolute_indexed_y,
  absolute_indexed_x, long_indexed_x, absolute_indexed_indirect_x, absolute_indirect_long,
}

abbrev pub decode_c0 : List Instr
decode_c0 =
    memory cpy 2 2 immd immediate
    ∷ memory cmp 2 6 dpindx direct_page_indexed_indirect_x
    ∷ plain rep
    ∷ memory cmp 2 4 sr stack_relative
    ∷ memory cpy 2 3 dp direct_page
    ∷ memory cmp 2 3 dp direct_page
    ∷ memory dec 2 5 dp direct_page
    ∷ memory cmp 2 6 dpindl direct_page_indirect_long
    ∷ plain iny
    ∷ memory cmp 2 2 immd immediate
    ∷ plain dex
    ∷ plain wai
    ∷ memory cpy 3 4 abs absolute
    ∷ memory cmp 3 4 abs absolute
    ∷ memory dec 3 6 abs absolute
    ∷ memory cmp 4 5 absl long
    ∷ plain bne
    ∷ memory cmp 2 5 inddpy direct_page_indirect_indexed_y
    ∷ memory cmp 2 5 dpind direct_page_indirect
    ∷ memory cmp 2 7 srindy stack_relative_indirect_indexed_y
    ∷ plain pei
    ∷ memory cmp 2 4 dpx direct_page_indexed_x
    ∷ memory dec 2 6 dpx direct_page_indexed_x
    ∷ memory cmp 2 6 inddply direct_page_indirect_long_indexed_y
    ∷ plain cld
    ∷ memory cmp 3 4 absy absolute_indexed_y
    ∷ plain phx
    ∷ plain stp
    ∷ jmp 6 absindl absolute_indirect_long
    ∷ memory cmp 3 4 absx absolute_indexed_x
    ∷ memory dec 3 7 absx absolute_indexed_x
    ∷ memory cmp 4 5 abslx long_indexed_x
    ∷ memory cpx 2 2 immd immediate
    ∷ memory sbc 2 6 dpindx direct_page_indexed_indirect_x
    ∷ plain sep
    ∷ memory sbc 2 4 sr stack_relative
    ∷ memory cpx 2 3 dp direct_page
    ∷ memory sbc 2 3 dp direct_page
    ∷ memory inc 2 5 dp direct_page
    ∷ memory sbc 2 6 dpindl direct_page_indirect_long
    ∷ plain inx
    ∷ memory sbc 2 2 immd immediate
    ∷ plain nop
    ∷ plain xba
    ∷ memory cpx 3 4 abs absolute
    ∷ memory sbc 3 4 abs absolute
    ∷ memory inc 3 6 abs absolute
    ∷ memory sbc 4 5 absl long
    ∷ plain beq
    ∷ memory sbc 2 5 inddpy direct_page_indirect_indexed_y
    ∷ memory sbc 2 5 dpind direct_page_indirect
    ∷ memory sbc 2 7 srindy stack_relative_indirect_indexed_y
    ∷ plain pea
    ∷ memory sbc 2 4 dpx direct_page_indexed_x
    ∷ memory inc 2 6 dpx direct_page_indexed_x
    ∷ memory sbc 2 6 inddply direct_page_indirect_long_indexed_y
    ∷ plain sed
    ∷ memory sbc 3 4 absy absolute_indexed_y
    ∷ plain plx
    ∷ plain xce
    ∷ jsr 8 absolute_indexed_indirect_x
    ∷ memory sbc 3 4 absx absolute_indexed_x
    ∷ memory inc 3 7 absx absolute_indexed_x
    ∷ memory sbc 4 5 abslx long_indexed_x
    ∷ []
