-- ===== src/Cpu/Valid/Step.antt =====
-- Every instruction, every interrupt and every call of stepCPU keeps the invariant.
use ce.Base.{ℕ, Option, none, some, false, arith}
use ce.Cpu.State.{AddrMode, Machine, ErrorCode}
use ce.Cpu.Instr.{Instr, MemoryOp, PlainOp}
use ce.Cpu.Execute.{memory_op, plain_op, execute}
use ce.Cpu.Step.{handle_interrupts, dispatch, run_instruction, step_cpu}
use ce.Cpu.Monad.{modify}
use ce.Cpu.Valid.{IsValid, Keeps, return-Keeps}
use ce.Cpu.Valid.Parts.{part_rules}
use ce.Cpu.Valid.Addresses.{address-Keeps}
use ce.Cpu.Valid.Logical.{
  i_ora-Keeps, i_tsb-Keeps, i_trb-Keeps, i_and-Keeps, i_bit-Keeps, i_eor-Keeps, i_cpy-Keeps,
  i_cmp-Keeps, i_cpx-Keeps,
}
use ce.Cpu.Valid.ShiftCount.{
  i_asl-Keeps, i_rol-Keeps, i_lsr-Keeps, i_ror-Keeps, i_dec-Keeps, i_inc-Keeps, i_ina-Keeps,
  i_dea-Keeps, i_dey-Keeps, i_iny-Keeps, i_dex-Keeps, i_inx-Keeps,
}
use ce.Cpu.Valid.LoadStore.{
  i_adc-Keeps, i_stz-Keeps, i_sta-Keeps, i_sty-Keeps, i_stx-Keeps, i_ldy-Keeps, i_lda-Keeps,
  i_ldx-Keeps, i_sbc-Keeps,
}
use ce.Cpu.Valid.Control.{
  i_brk-Keeps, i_cop-Keeps, i_clc-Keeps, i_sec-Keeps, i_tsc-Keeps, i_wdm-Keeps, i_mvp-Keeps,
  i_mvn-Keeps, i_cli-Keeps, i_tcd-Keeps, i_sei-Keeps, i_tdc-Keeps, i_txa-Keeps, i_tya-Keeps,
  i_txy-Keeps, i_tay-Keeps, i_tax-Keeps, i_clv-Keeps, i_tsx-Keeps, i_tyx-Keeps, i_wai-Keeps,
  i_cld-Keeps, i_nop-Keeps, i_xba-Keeps, i_sed-Keeps, enter_handler-Keeps,
}
use ce.Cpu.Valid.Flow.{
  i_php-Keeps, i_phd-Keeps, i_bpl-Keeps, i_pld-Keeps, i_bmi-Keeps, i_pha-Keeps, i_phk-Keeps,
  i_bvc-Keeps, i_phy-Keeps, i_rts-Keeps, i_per-Keeps, i_pla-Keeps, i_rtl-Keeps, i_bvs-Keeps,
  i_ply-Keeps, i_bra-Keeps, i_brl-Keeps, i_phb-Keeps, i_bcc-Keeps, i_plb-Keeps, i_bcs-Keeps,
  i_bne-Keeps, i_pei-Keeps, i_phx-Keeps, i_beq-Keeps, i_pea-Keeps, i_plx-Keeps, i_jmp-Keeps,
  i_jsr-Keeps, i_jsl-Keeps,
}
use ce.Cpu.Valid.Modes.{
  i_tcs-Keeps, i_plp-Keeps, i_rti-Keeps, i_txs-Keeps, i_rep-Keeps, i_stp-Keeps, i_sep-Keeps,
  i_xce-Keeps,
}

memory_op-Keeps :
    (op : MemoryOp) (size cycles : ℕ) (mode : AddrMode) (addr : ℕ)
    → Keeps (memory_op op size cycles mode addr)
unfolding memory_op
memory_op-Keeps MemoryOp.ora = i_ora-Keeps
memory_op-Keeps MemoryOp.tsb = i_tsb-Keeps
memory_op-Keeps MemoryOp.asl = i_asl-Keeps
memory_op-Keeps MemoryOp.trb = i_trb-Keeps
memory_op-Keeps MemoryOp.and = i_and-Keeps
memory_op-Keeps MemoryOp.bit = i_bit-Keeps
memory_op-Keeps MemoryOp.rol = i_rol-Keeps
memory_op-Keeps MemoryOp.eor = i_eor-Keeps
memory_op-Keeps MemoryOp.lsr = i_lsr-Keeps
memory_op-Keeps MemoryOp.adc = i_adc-Keeps
memory_op-Keeps MemoryOp.stz = i_stz-Keeps
memory_op-Keeps MemoryOp.ror = i_ror-Keeps
memory_op-Keeps MemoryOp.sta = i_sta-Keeps
memory_op-Keeps MemoryOp.sty = i_sty-Keeps
memory_op-Keeps MemoryOp.stx = i_stx-Keeps
memory_op-Keeps MemoryOp.ldy = i_ldy-Keeps
memory_op-Keeps MemoryOp.lda = i_lda-Keeps
memory_op-Keeps MemoryOp.ldx = i_ldx-Keeps
memory_op-Keeps MemoryOp.cpy = i_cpy-Keeps
memory_op-Keeps MemoryOp.cmp = i_cmp-Keeps
memory_op-Keeps MemoryOp.dec = i_dec-Keeps
memory_op-Keeps MemoryOp.cpx = i_cpx-Keeps
memory_op-Keeps MemoryOp.sbc = i_sbc-Keeps
memory_op-Keeps MemoryOp.inc = i_inc-Keeps

plain_op-Keeps : (op : PlainOp) → Keeps (plain_op op)
unfolding plain_op
plain_op-Keeps PlainOp.brk = i_brk-Keeps
plain_op-Keeps PlainOp.cop = i_cop-Keeps
plain_op-Keeps PlainOp.php = i_php-Keeps
plain_op-Keeps PlainOp.phd = i_phd-Keeps
plain_op-Keeps PlainOp.bpl = i_bpl-Keeps
plain_op-Keeps PlainOp.clc = i_clc-Keeps
plain_op-Keeps PlainOp.ina = i_ina-Keeps
plain_op-Keeps PlainOp.tcs = i_tcs-Keeps
plain_op-Keeps PlainOp.plp = i_plp-Keeps
plain_op-Keeps PlainOp.pld = i_pld-Keeps
plain_op-Keeps PlainOp.bmi = i_bmi-Keeps
plain_op-Keeps PlainOp.sec = i_sec-Keeps
plain_op-Keeps PlainOp.dea = i_dea-Keeps
plain_op-Keeps PlainOp.tsc = i_tsc-Keeps
plain_op-Keeps PlainOp.rti = i_rti-Keeps
plain_op-Keeps PlainOp.wdm = i_wdm-Keeps
plain_op-Keeps PlainOp.mvp = i_mvp-Keeps
plain_op-Keeps PlainOp.pha = i_pha-Keeps
plain_op-Keeps PlainOp.phk = i_phk-Keeps
plain_op-Keeps PlainOp.bvc = i_bvc-Keeps
plain_op-Keeps PlainOp.mvn = i_mvn-Keeps
plain_op-Keeps PlainOp.cli = i_cli-Keeps
plain_op-Keeps PlainOp.phy = i_phy-Keeps
plain_op-Keeps PlainOp.tcd = i_tcd-Keeps
plain_op-Keeps PlainOp.rts = i_rts-Keeps
plain_op-Keeps PlainOp.per = i_per-Keeps
plain_op-Keeps PlainOp.pla = i_pla-Keeps
plain_op-Keeps PlainOp.rtl = i_rtl-Keeps
plain_op-Keeps PlainOp.bvs = i_bvs-Keeps
plain_op-Keeps PlainOp.sei = i_sei-Keeps
plain_op-Keeps PlainOp.ply = i_ply-Keeps
plain_op-Keeps PlainOp.tdc = i_tdc-Keeps
plain_op-Keeps PlainOp.bra = i_bra-Keeps
plain_op-Keeps PlainOp.brl = i_brl-Keeps
plain_op-Keeps PlainOp.dey = i_dey-Keeps
plain_op-Keeps PlainOp.txa = i_txa-Keeps
plain_op-Keeps PlainOp.phb = i_phb-Keeps
plain_op-Keeps PlainOp.bcc = i_bcc-Keeps
plain_op-Keeps PlainOp.tya = i_tya-Keeps
plain_op-Keeps PlainOp.txs = i_txs-Keeps
plain_op-Keeps PlainOp.txy = i_txy-Keeps
plain_op-Keeps PlainOp.tay = i_tay-Keeps
plain_op-Keeps PlainOp.tax = i_tax-Keeps
plain_op-Keeps PlainOp.plb = i_plb-Keeps
plain_op-Keeps PlainOp.bcs = i_bcs-Keeps
plain_op-Keeps PlainOp.clv = i_clv-Keeps
plain_op-Keeps PlainOp.tsx = i_tsx-Keeps
plain_op-Keeps PlainOp.tyx = i_tyx-Keeps
plain_op-Keeps PlainOp.rep = i_rep-Keeps
plain_op-Keeps PlainOp.iny = i_iny-Keeps
plain_op-Keeps PlainOp.dex = i_dex-Keeps
plain_op-Keeps PlainOp.wai = i_wai-Keeps
plain_op-Keeps PlainOp.bne = i_bne-Keeps
plain_op-Keeps PlainOp.pei = i_pei-Keeps
plain_op-Keeps PlainOp.cld = i_cld-Keeps
plain_op-Keeps PlainOp.phx = i_phx-Keeps
plain_op-Keeps PlainOp.stp = i_stp-Keeps
plain_op-Keeps PlainOp.sep = i_sep-Keeps
plain_op-Keeps PlainOp.inx = i_inx-Keeps
plain_op-Keeps PlainOp.nop = i_nop-Keeps
plain_op-Keeps PlainOp.xba = i_xba-Keeps
plain_op-Keeps PlainOp.beq = i_beq-Keeps
plain_op-Keeps PlainOp.pea = i_pea-Keeps
plain_op-Keeps PlainOp.sed = i_sed-Keeps
plain_op-Keeps PlainOp.plx = i_plx-Keeps
plain_op-Keeps PlainOp.xce = i_xce-Keeps

-- Executing any instruction keeps the invariant.
pub execute-Keeps : (instr : Instr) → Keeps (execute instr)
unfolding execute
execute-Keeps (Instr.memory op size cycles mode operand) =
    search (part_rules, address-Keeps, memory_op-Keeps) depth 12
execute-Keeps (Instr.plain op) = plain_op-Keeps op
execute-Keeps (Instr.jmp cycles mode operand) =
    search (part_rules, address-Keeps, i_jmp-Keeps) depth 12
execute-Keeps (Instr.jsr cycles operand) = search (part_rules, address-Keeps, i_jsr-Keeps) depth 12
execute-Keeps (Instr.jsl cycles operand) = search (part_rules, address-Keeps, i_jsl-Keeps) depth 12

clear_nmi-Keeps : Keeps (modify (λ r. record r { p_nmi = false }))
clear_nmi-Keeps = record { keeps = λ s h. ground arith }

clear_irq-Keeps : Keeps (modify (λ r. record r { p_irq = false }))
clear_irq-Keeps = record { keeps = λ s h. ground arith }

clear_rst-Keeps : Keeps (modify (λ r. record r { p_rst = false }))
clear_rst-Keeps = record { keeps = λ s h. ground arith }

pub handle_interrupts-Keeps : Keeps handle_interrupts
unfolding handle_interrupts
handle_interrupts-Keeps =
    search (part_rules, clear_nmi-Keeps, clear_irq-Keeps, enter_handler-Keeps) depth 20

dispatch-Keeps : (o : Option Instr) → Keeps (dispatch o)
unfolding dispatch
dispatch-Keeps none = return-Keeps ErrorCode.unknown_opcode
dispatch-Keeps (some instr) = search (part_rules, execute-Keeps, handle_interrupts-Keeps) depth 20

run_instruction-Keeps : Keeps run_instruction
unfolding run_instruction
run_instruction-Keeps = search (part_rules, dispatch-Keeps) depth 20

step_cpu-Keeps : Keeps step_cpu
unfolding step_cpu
step_cpu-Keeps = search (part_rules, clear_rst-Keeps, run_instruction-Keeps) depth 20

-- A call of stepCPU keeps every register within its width, keeps the stack pointer in page 1
-- while the processor is in emulation mode, and keeps M set there. No hypothesis is made on the
-- memory.
pub step_cpu-IsValid : (s : Machine) → IsValid s.cpu → IsValid (step_cpu s).1.cpu
step_cpu-IsValid s h = step_cpu-Keeps.keeps s h
