-- ===== src/Cpu/Valid/Flow.antt =====
-- The handlers of src/cpu/65816-ops.c in Ops/Branch, Ops/Jump, Ops/Push, Ops/Pull keep the invariant.
use ce.Base.{ℕ, Bool}
use ce.Cpu.State.{AddrMode}
use ce.Cpu.Valid.{Keeps}
use ce.Cpu.Valid.Addresses.{address_rules}
use ce.Cpu.Ops.Branch.{
  branch_if, i_bcc, i_bcs, i_beq, i_bmi, i_bne, i_bpl, i_bvc, i_bvs, i_bra, i_brl,
}
use ce.Cpu.Ops.Jump.{i_jmp, i_jsr, i_jsl, narrow_index, rti_return, rti_return_long, i_rtl, i_rts}
use ce.Cpu.Ops.Push.{
  i_pea, i_pei, i_per, push_register, i_pha, i_phx, i_phy, push_byte_op, i_phb, i_phk, i_php, i_phd,
}
use ce.Cpu.Ops.Pull.{i_pla, i_plb, i_pld, i_plx, i_ply}

pub branch_if-Keeps : (taken : Bool) → Keeps (branch_if taken)
unfolding branch_if
branch_if-Keeps taken = search address_rules depth 30

pub i_bcc-Keeps : Keeps i_bcc
unfolding i_bcc
i_bcc-Keeps = search (address_rules, branch_if-Keeps) depth 30

pub i_bcs-Keeps : Keeps i_bcs
unfolding i_bcs
i_bcs-Keeps = search (address_rules, branch_if-Keeps) depth 30

pub i_beq-Keeps : Keeps i_beq
unfolding i_beq
i_beq-Keeps = search (address_rules, branch_if-Keeps) depth 30

pub i_bmi-Keeps : Keeps i_bmi
unfolding i_bmi
i_bmi-Keeps = search (address_rules, branch_if-Keeps) depth 30

pub i_bne-Keeps : Keeps i_bne
unfolding i_bne
i_bne-Keeps = search (address_rules, branch_if-Keeps) depth 30

pub i_bpl-Keeps : Keeps i_bpl
unfolding i_bpl
i_bpl-Keeps = search (address_rules, branch_if-Keeps) depth 30

pub i_bvc-Keeps : Keeps i_bvc
unfolding i_bvc
i_bvc-Keeps = search (address_rules, branch_if-Keeps) depth 30

pub i_bvs-Keeps : Keeps i_bvs
unfolding i_bvs
i_bvs-Keeps = search (address_rules, branch_if-Keeps) depth 30

pub i_bra-Keeps : Keeps i_bra
unfolding i_bra
i_bra-Keeps = search address_rules depth 30

pub i_brl-Keeps : Keeps i_brl
unfolding i_brl
i_brl-Keeps = search address_rules depth 30

pub i_jmp-Keeps : (cycles : ℕ) (mode : AddrMode) (addr : ℕ) → Keeps (i_jmp cycles mode addr)
unfolding i_jmp
i_jmp-Keeps cycles mode addr = search address_rules depth 30

pub i_jsr-Keeps : (cycles : ℕ) (addr : ℕ) → Keeps (i_jsr cycles addr)
unfolding i_jsr
i_jsr-Keeps cycles addr = search address_rules depth 30

pub i_jsl-Keeps : (cycles : ℕ) (addr : ℕ) → Keeps (i_jsl cycles addr)
unfolding i_jsl
i_jsl-Keeps cycles addr = search address_rules depth 30

pub narrow_index-Keeps : Keeps narrow_index
unfolding narrow_index
narrow_index-Keeps = search address_rules depth 30

pub rti_return-Keeps : Keeps rti_return
unfolding rti_return
rti_return-Keeps = search address_rules depth 30

pub rti_return_long-Keeps : Keeps rti_return_long
unfolding rti_return_long
rti_return_long-Keeps = search (address_rules, narrow_index-Keeps) depth 30

pub i_rtl-Keeps : Keeps i_rtl
unfolding i_rtl
i_rtl-Keeps = search address_rules depth 30

pub i_rts-Keeps : Keeps i_rts
unfolding i_rts
i_rts-Keeps = search address_rules depth 30

pub i_pea-Keeps : Keeps i_pea
unfolding i_pea
i_pea-Keeps = search address_rules depth 30

pub i_pei-Keeps : Keeps i_pei
unfolding i_pei
i_pei-Keeps = search address_rules depth 30

pub i_per-Keeps : Keeps i_per
unfolding i_per
i_per-Keeps = search address_rules depth 30

pub push_register-Keeps : (short : Bool) (v : ℕ) → Keeps (push_register short v)
unfolding push_register
push_register-Keeps short v = search address_rules depth 30

pub i_pha-Keeps : Keeps i_pha
unfolding i_pha
i_pha-Keeps = search (address_rules, push_register-Keeps) depth 30

pub i_phx-Keeps : Keeps i_phx
unfolding i_phx
i_phx-Keeps = search (address_rules, push_register-Keeps) depth 30

pub i_phy-Keeps : Keeps i_phy
unfolding i_phy
i_phy-Keeps = search (address_rules, push_register-Keeps) depth 30

pub push_byte_op-Keeps : (v : ℕ) → Keeps (push_byte_op v)
unfolding push_byte_op
push_byte_op-Keeps v = search address_rules depth 30

pub i_phb-Keeps : Keeps i_phb
unfolding i_phb
i_phb-Keeps = search (address_rules, push_byte_op-Keeps) depth 30

pub i_phk-Keeps : Keeps i_phk
unfolding i_phk
i_phk-Keeps = search (address_rules, push_byte_op-Keeps) depth 30

pub i_php-Keeps : Keeps i_php
unfolding i_php
i_php-Keeps = search (address_rules, push_byte_op-Keeps) depth 30

pub i_phd-Keeps : Keeps i_phd
unfolding i_phd
i_phd-Keeps = search address_rules depth 30

pub i_pla-Keeps : Keeps i_pla
unfolding i_pla
i_pla-Keeps = search address_rules depth 30

pub i_plb-Keeps : Keeps i_plb
unfolding i_plb
i_plb-Keeps = search address_rules depth 30

pub i_pld-Keeps : Keeps i_pld
unfolding i_pld
i_pld-Keeps = search address_rules depth 30

pub i_plx-Keeps : Keeps i_plx
unfolding i_plx
i_plx-Keeps = search address_rules depth 30

pub i_ply-Keeps : Keeps i_ply
unfolding i_ply
i_ply-Keeps = search address_rules depth 30
