-- ===== src/Cpu/Valid/LoadStore.antt =====
-- The handlers of src/cpu/65816-ops.c in Ops/Load, Ops/Store, Ops/Arith keep the invariant.
use ce.Base.{ℕ, Bool}
use ce.Cpu.State.{AddrMode}
use ce.Cpu.Ops.Common.{WordReader, WordWriter}
use ce.Cpu.Valid.{Keeps}
use ce.Cpu.Valid.Addresses.{address_rules}
use ce.Cpu.Ops.Load.{load_acc, i_lda, load_x, i_ldx, load_y, i_ldy}
use ce.Cpu.Ops.Store.{store_acc, i_sta, store_bytes, i_stx, i_sty, i_stz}
use ce.Cpu.Ops.Arith.{arith_cycles, arith_word, adc8, adc16, i_adc, sbc8, sbc16, i_sbc}

pub load_acc-Keeps :
    (read_word : WordReader) (read_word_keeps : (a : ℕ) (acc : Bool) → Keeps (read_word a acc))
    (addr : ℕ)
    → Keeps (load_acc read_word addr)
unfolding load_acc
load_acc-Keeps read_word read_word_keeps addr = search address_rules depth 30

pub i_lda-Keeps :
    (size : ℕ) (cycles : ℕ) (mode : AddrMode) (addr : ℕ) → Keeps (i_lda size cycles mode addr)
unfolding i_lda
i_lda-Keeps size cycles mode addr = search (address_rules, load_acc-Keeps) depth 30

pub load_x-Keeps :
    (read_word : WordReader) (read_word_keeps : (a : ℕ) (acc : Bool) → Keeps (read_word a acc))
    (addr : ℕ)
    → Keeps (load_x read_word addr)
unfolding load_x
load_x-Keeps read_word read_word_keeps addr = search address_rules depth 30

pub i_ldx-Keeps :
    (size : ℕ) (cycles : ℕ) (mode : AddrMode) (addr : ℕ) → Keeps (i_ldx size cycles mode addr)
unfolding i_ldx
i_ldx-Keeps size cycles mode addr = search (address_rules, load_x-Keeps) depth 30

pub load_y-Keeps :
    (read_word : WordReader) (read_word_keeps : (a : ℕ) (acc : Bool) → Keeps (read_word a acc))
    (addr : ℕ)
    → Keeps (load_y read_word addr)
unfolding load_y
load_y-Keeps read_word read_word_keeps addr = search address_rules depth 30

pub i_ldy-Keeps :
    (size : ℕ) (cycles : ℕ) (mode : AddrMode) (addr : ℕ) → Keeps (i_ldy size cycles mode addr)
unfolding i_ldy
i_ldy-Keeps size cycles mode addr = search (address_rules, load_y-Keeps) depth 30

pub store_acc-Keeps :
    (write_word : WordWriter)
    (write_word_keeps : (a v : ℕ) (acc : Bool) → Keeps (write_word a v acc)) (addr : ℕ)
    → Keeps (store_acc write_word addr)
unfolding store_acc
store_acc-Keeps write_word write_word_keeps addr = search address_rules depth 30

pub i_sta-Keeps :
    (size : ℕ) (cycles : ℕ) (mode : AddrMode) (addr : ℕ) → Keeps (i_sta size cycles mode addr)
unfolding i_sta
i_sta-Keeps size cycles mode addr = search (address_rules, store_acc-Keeps) depth 30

pub store_bytes-Keeps :
    (wide : Bool) (addr : ℕ) (addr_high : ℕ) (v : ℕ) → Keeps (store_bytes wide addr addr_high v)
unfolding store_bytes
store_bytes-Keeps wide addr addr_high v = search address_rules depth 30

pub i_stx-Keeps :
    (size : ℕ) (cycles : ℕ) (mode : AddrMode) (addr : ℕ) → Keeps (i_stx size cycles mode addr)
unfolding i_stx
i_stx-Keeps size cycles mode addr = search (address_rules, store_bytes-Keeps) depth 30

pub i_sty-Keeps :
    (size : ℕ) (cycles : ℕ) (mode : AddrMode) (addr : ℕ) → Keeps (i_sty size cycles mode addr)
unfolding i_sty
i_sty-Keeps size cycles mode addr = search (address_rules, store_bytes-Keeps) depth 30

pub i_stz-Keeps :
    (size : ℕ) (cycles : ℕ) (mode : AddrMode) (addr : ℕ) → Keeps (i_stz size cycles mode addr)
unfolding i_stz
i_stz-Keeps size cycles mode addr = search (address_rules, store_bytes-Keeps) depth 30

pub arith_cycles-Keeps : (mode : AddrMode) (addr : ℕ) → Keeps (arith_cycles mode addr)
unfolding arith_cycles
arith_cycles-Keeps mode addr = search address_rules depth 30

arith_word-Keeps : (mode : AddrMode) (addr : ℕ) (acc : Bool) → Keeps (arith_word mode addr acc)
unfolding arith_word
arith_word-Keeps mode addr acc = search address_rules

pub adc8-Keeps : (val : ℕ) → Keeps (adc8 val)
unfolding adc8
adc8-Keeps val = search address_rules depth 30

pub adc16-Keeps : (val : ℕ) → Keeps (adc16 val)
unfolding adc16
adc16-Keeps val = search address_rules depth 30

pub i_adc-Keeps :
    (size : ℕ) (cycles : ℕ) (mode : AddrMode) (addr : ℕ) → Keeps (i_adc size cycles mode addr)
unfolding i_adc
i_adc-Keeps size cycles mode addr =
    search (address_rules, arith_cycles-Keeps, arith_word-Keeps, adc8-Keeps, adc16-Keeps) depth 30

pub sbc8-Keeps : (val : ℕ) → Keeps (sbc8 val)
unfolding sbc8
sbc8-Keeps val = search address_rules depth 30

pub sbc16-Keeps : (val : ℕ) → Keeps (sbc16 val)
unfolding sbc16
sbc16-Keeps val = search address_rules depth 30

pub i_sbc-Keeps :
    (size : ℕ) (cycles : ℕ) (mode : AddrMode) (addr : ℕ) → Keeps (i_sbc size cycles mode addr)
unfolding i_sbc
i_sbc-Keeps size cycles mode addr =
    search (address_rules, arith_cycles-Keeps, arith_word-Keeps, sbc8-Keeps, sbc16-Keeps) depth 30
