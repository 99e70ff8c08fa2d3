-- ===== src/Cpu/Valid/Control.antt =====
-- The handlers of src/cpu/65816-ops.c in Ops/Status, Ops/Transfer, Ops/Interrupt keep the invariant.
use ce.Base.{ℕ}
use ce.Cpu.State.{Cpu}
use ce.Cpu.Valid.{Keeps}
use ce.Cpu.Valid.Addresses.{address_rules}
use ce.Cpu.Ops.Status.{i_clc, i_cld, i_cli, i_clv, i_sec, i_sed, i_sei}
use ce.Cpu.Ops.Transfer.{
  index_nz, i_tax, i_tay, i_tcd, i_tdc, i_tsc, i_tsx, index_to_acc, i_txa, i_tya, i_txy, i_tyx,
  i_nop, i_xba,
}
use ce.Cpu.Ops.Interrupt.{
  load_vector, enter_handler, i_brk, i_cop, i_wai, i_wdm, move_byte, i_mvn, i_mvp,
}

pub i_clc-Keeps : Keeps i_clc
unfolding i_clc
i_clc-Keeps = search address_rules depth 30

pub i_cld-Keeps : Keeps i_cld
unfolding i_cld
i_cld-Keeps = search address_rules depth 30

pub i_cli-Keeps : Keeps i_cli
unfolding i_cli
i_cli-Keeps = search address_rules depth 30

pub i_clv-Keeps : Keeps i_clv
unfolding i_clv
i_clv-Keeps = search address_rules depth 30

pub i_sec-Keeps : Keeps i_sec
unfolding i_sec
i_sec-Keeps = search address_rules depth 30

pub i_sed-Keeps : Keeps i_sed
unfolding i_sed
i_sed-Keeps = search address_rules depth 30

pub i_sei-Keeps : Keeps i_sei
unfolding i_sei
i_sei-Keeps = search address_rules depth 30

pub index_nz-Keeps : (s : Cpu) (v : ℕ) → Keeps (index_nz s v)
unfolding index_nz
index_nz-Keeps s v = search address_rules depth 30

pub i_tax-Keeps : Keeps i_tax
unfolding i_tax
i_tax-Keeps = search (address_rules, index_nz-Keeps) depth 30

pub i_tay-Keeps : Keeps i_tay
unfolding i_tay
i_tay-Keeps = search (address_rules, index_nz-Keeps) depth 30

pub i_tcd-Keeps : Keeps i_tcd
unfolding i_tcd
i_tcd-Keeps = search address_rules depth 30

pub i_tdc-Keeps : Keeps i_tdc
unfolding i_tdc
i_tdc-Keeps = search address_rules depth 30

pub i_tsc-Keeps : Keeps i_tsc
unfolding i_tsc
i_tsc-Keeps = search address_rules depth 30

pub i_tsx-Keeps : Keeps i_tsx
unfolding i_tsx
i_tsx-Keeps = search (address_rules, index_nz-Keeps) depth 30

pub index_to_acc-Keeps : (v : ℕ) → Keeps (index_to_acc v)
unfolding index_to_acc
index_to_acc-Keeps v = search address_rules depth 30

pub i_txa-Keeps : Keeps i_txa
unfolding i_txa
i_txa-Keeps = search (address_rules, index_to_acc-Keeps) depth 30

pub i_tya-Keeps : Keeps i_tya
unfolding i_tya
i_tya-Keeps = search (address_rules, index_to_acc-Keeps) depth 30

pub i_txy-Keeps : Keeps i_txy
unfolding i_txy
i_txy-Keeps = search (address_rules, index_nz-Keeps) depth 30

pub i_tyx-Keeps : Keeps i_tyx
unfolding i_tyx
i_tyx-Keeps = search (address_rules, index_nz-Keeps) depth 30

pub i_nop-Keeps : Keeps i_nop
unfolding i_nop
i_nop-Keeps = search address_rules depth 30

pub i_xba-Keeps : Keeps i_xba
unfolding i_xba
i_xba-Keeps = search address_rules depth 30

pub load_vector-Keeps : (vector : ℕ) → Keeps (load_vector vector)
unfolding load_vector
load_vector-Keeps vector = search address_rules depth 30

pub enter_handler-Keeps :
    (emu_sr : (ℕ → ℕ)) (emu_vector : ℕ) (native_vector : ℕ)
    → Keeps (enter_handler emu_sr emu_vector native_vector)
unfolding enter_handler
enter_handler-Keeps emu_sr emu_vector native_vector =
    search (address_rules, load_vector-Keeps) depth 30

pub i_brk-Keeps : Keeps i_brk
unfolding i_brk
i_brk-Keeps = search (address_rules, enter_handler-Keeps) depth 30

pub i_cop-Keeps : Keeps i_cop
unfolding i_cop
i_cop-Keeps = search (address_rules, enter_handler-Keeps) depth 30

pub i_wai-Keeps : Keeps i_wai
unfolding i_wai
i_wai-Keeps = search address_rules depth 30

pub i_wdm-Keeps : Keeps i_wdm
unfolding i_wdm
i_wdm-Keeps = search address_rules depth 30

pub move_byte-Keeps : (step : ℕ) → Keeps (move_byte step)
unfolding move_byte
move_byte-Keeps step = search address_rules depth 30

pub i_mvn-Keeps : Keeps i_mvn
unfolding i_mvn
i_mvn-Keeps = search (address_rules, move_byte-Keeps) depth 30

pub i_mvp-Keeps : Keeps i_mvp
unfolding i_mvp
i_mvp-Keeps = search (address_rules, move_byte-Keeps) depth 30
