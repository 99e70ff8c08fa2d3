-- ===== src/Cpu/Decode/Low.antt =====
-- src/cpu/65816.c: the cases 0x00 to 0x3f of the switch of stepCPU.
use ce.Base.{List, [], ◌∷◌}
use ce.Cpu.State.{
  abs, absl, abslx, absx, absy, dp, dpind, dpindl, dpindx, dpx, immd, impd, inddply, inddpy, sr,
  srindy,
}
use ce.Cpu.Instr.{
  Instr, memory, plain, jsr, jsl, ora, tsb, asl, trb, and, bit, rol, brk, cop, php, phd, bpl, clc,
  ina, tcs, plp, pld, bmi, sec, dea, tsc, direct_page_indexed_indirect_x, stack_relative,
  direct_page, direct_page_indirect_long, immediate, absolute, long, direct_page_indirect_indexed_y,
  direct_page_indirect, stack_relative_indirect_indexed_y, direct_page_indexed_x,
  direct_page_indirect_long_indexed_y, absolute_indexed_y, absolute_indexed_x, long_indexed_x,
  no_address,
}

abbrev pub decode_00 : List Instr
decode_00 =
    plain brk
    ∷ memory ora 2 6 dpindx direct_page_indexed_indirect_x
    ∷ plain cop
    ∷ memory ora 2 4 sr stack_relative
    ∷ memory tsb 2 5 dp direct_page
    ∷ memory ora 2 3 dp direct_page
    ∷ memory asl 2 5 dp direct_page
    ∷ memory ora 2 6 dpindl direct_page_indirect_long
    ∷ plain php
    ∷ memory ora 2 2 immd immediate
    ∷ memory asl 1 2 impd no_address
    ∷ plain phd
    ∷ memory tsb 3 6 abs absolute
    ∷ memory ora 3 4 abs absolute
    ∷ memory asl 3 6 abs absolute
    ∷ memory ora 4 5 absl long
    ∷ plain bpl
    ∷ memory ora 2 5 inddpy direct_page_indirect_indexed_y
    ∷ memory ora 2 5 dpind direct_page_indirect
    ∷ memory ora 2 7 srindy stack_relative_indirect_indexed_y
    ∷ memory trb 2 5 dp direct_page
    ∷ memory ora 2 4 dpx direct_page_indexed_x
    ∷ memory asl 2 6 dpx direct_page_indexed_x
    ∷ memory ora 2 6 inddply direct_page_indirect_long_indexed_y
    ∷ plain clc
    ∷ memory ora 3 4 absy absolute_indexed_y
    ∷ plain ina
    ∷ plain tcs
    ∷ memory trb 3 6 abs absolute
    ∷ memory ora 3 4 absx absolute_indexed_x
    ∷ memory asl 3 7 absx absolute_indexed_x
    ∷ memory ora 4 5 abslx long_indexed_x
    ∷ jsr 6 absolute
    ∷ memory and 2 6 dpindx direct_page_indexed_indirect_x
    ∷ jsl 8 long
    ∷ memory and 2 4 sr stack_relative
    ∷ memory bit 2 3 dp direct_page
    ∷ memory and 2 3 dp direct_page
    ∷ memory rol 2 5 dp direct_page
    ∷ memory and 2 6 dpindl direct_page_indirect_long
    ∷ plain plp
    ∷ memory and 2 2 immd immediate
    ∷ memory rol 1 2 impd no_address
    ∷ plain pld
    ∷ memory bit 3 4 abs absolute
    ∷ memory and 3 4 abs absolute
    ∷ memory rol 3 6 abs absolute
    ∷ memory and 4 5 absl long
    ∷ plain bmi
    ∷ memory and 2 5 inddpy direct_page_indirect_indexed_y
    ∷ memory and 2 5 dpind direct_page_indirect
    ∷ memory and 2 7 srindy stack_relative_indirect_indexed_y
    ∷ memory bit 2 4 dpx direct_page_indexed_x
    ∷ memory and 2 4 dpx direct_page_indexed_x
    ∷ memory rol 2 6 dpx direct_page_indexed_x
    ∷ memory and 2 6 inddply direct_page_indirect_long_indexed_y
    ∷ plain sec
    ∷ memory and 3 4 absy absolute_indexed_y
    ∷ plain dea
    ∷ plain tsc
    ∷ memory bit 3 4 absx absolute_indexed_x
    ∷ memory and 3 4 absx absolute_indexed_x
    ∷ memory rol 3 7 absx absolute_indexed_x
    ∷ memory and 4 5 abslx long_indexed_x
    ∷ []
