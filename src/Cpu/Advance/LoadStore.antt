-- ===== src/Cpu/Advance/LoadStore.antt =====
-- How far the handlers of src/cpu/65816-ops.c move the program counter (LoadStore).
use ce.Base.{ℕ, Bool, if◌then◌else◌}
use ce.Cpu.State.{AddrMode}
use ce.Cpu.Ops.Common.{WordReader, WordWriter, acc8, immd_size}
use ce.Cpu.Advance.{Still, AdvancesBy, get-AdvancesBy, Advances-AdvancesBy}
use ce.Cpu.Advance.Parts.{part_still_rules, advance_rules}
use ce.Cpu.Ops.Load.{load_acc, i_lda, load_x, i_ldx, load_y, i_ldy}
use ce.Cpu.Ops.Store.{store_acc, i_sta, store_bytes, i_stx, i_sty, i_stz}
use ce.Cpu.Ops.Arith.{arith_cycles, arith_word, adc8, adc16, i_adc, sbc8, sbc16, i_sbc}

load_acc-Still :
    (read_word : WordReader) (read_word_still : (a : ℕ) (acc : Bool) → Still (read_word a acc))
    (addr : ℕ)
    → Still (load_acc read_word addr)
unfolding load_acc
load_acc-Still read_word read_word_still addr = search part_still_rules depth 30

pub i_lda-AdvancesBy :
    (size cycles : ℕ) (mode : AddrMode) (addr : ℕ)
    → AdvancesBy (λ r. immd_size (acc8 r) mode size) (i_lda size cycles mode addr)
unfolding i_lda
i_lda-AdvancesBy size cycles mode addr =
    search (advance_rules, load_acc-Still, get-AdvancesBy) depth 30

load_x-Still :
    (read_word : WordReader) (read_word_still : (a : ℕ) (acc : Bool) → Still (read_word a acc))
    (addr : ℕ)
    → Still (load_x read_word addr)
unfolding load_x
load_x-Still read_word read_word_still addr = search part_still_rules depth 30

pub i_ldx-AdvancesBy :
    (size cycles : ℕ) (mode : AddrMode) (addr : ℕ)
    → AdvancesBy
        (λ r. immd_size (if r.p_e then r.p_e else r.p_xb) mode size)
        (i_ldx size cycles mode addr)
unfolding i_ldx
i_ldx-AdvancesBy size cycles mode addr =
    search (advance_rules, load_x-Still, get-AdvancesBy) depth 30

load_y-Still :
    (read_word : WordReader) (read_word_still : (a : ℕ) (acc : Bool) → Still (read_word a acc))
    (addr : ℕ)
    → Still (load_y read_word addr)
unfolding load_y
load_y-Still read_word read_word_still addr = search part_still_rules depth 30

pub i_ldy-AdvancesBy :
    (size cycles : ℕ) (mode : AddrMode) (addr : ℕ)
    → AdvancesBy
        (λ r. immd_size (if r.p_e then r.p_e else r.p_xb) mode size)
        (i_ldy size cycles mode addr)
unfolding i_ldy
i_ldy-AdvancesBy size cycles mode addr =
    search (advance_rules, load_y-Still, get-AdvancesBy) depth 30

store_acc-Still :
    (write_word : WordWriter)
    (write_word_still : (a v : ℕ) (acc : Bool) → Still (write_word a v acc)) (addr : ℕ)
    → Still (store_acc write_word addr)
unfolding store_acc
store_acc-Still write_word write_word_still addr = search part_still_rules depth 30

pub i_sta-AdvancesBy :
    (size cycles : ℕ) (mode : AddrMode) (addr : ℕ)
    → AdvancesBy (λ r. size) (i_sta size cycles mode addr)
unfolding i_sta
i_sta-AdvancesBy size cycles mode addr =
    search (advance_rules, store_acc-Still, Advances-AdvancesBy) depth 30

store_bytes-Still :
    (wide : Bool) (addr : ℕ) (addr_high : ℕ) (v : ℕ) → Still (store_bytes wide addr addr_high v)
unfolding store_bytes
store_bytes-Still wide addr addr_high v = search part_still_rules depth 30

pub i_stx-AdvancesBy :
    (size cycles : ℕ) (mode : AddrMode) (addr : ℕ)
    → AdvancesBy (λ r. size) (i_stx size cycles mode addr)
unfolding i_stx
i_stx-AdvancesBy size cycles mode addr =
    search (advance_rules, store_bytes-Still, get-AdvancesBy) depth 30

pub i_sty-AdvancesBy :
    (size cycles : ℕ) (mode : AddrMode) (addr : ℕ)
    → AdvancesBy (λ r. size) (i_sty size cycles mode addr)
unfolding i_sty
i_sty-AdvancesBy size cycles mode addr =
    search (advance_rules, store_bytes-Still, get-AdvancesBy) depth 30

pub i_stz-AdvancesBy :
    (size cycles : ℕ) (mode : AddrMode) (addr : ℕ)
    → AdvancesBy (λ r. size) (i_stz size cycles mode addr)
unfolding i_stz
i_stz-AdvancesBy size cycles mode addr =
    search (advance_rules, store_bytes-Still, get-AdvancesBy) depth 30

arith_cycles-Still : (mode : AddrMode) (addr : ℕ) → Still (arith_cycles mode addr)
unfolding arith_cycles
arith_cycles-Still mode addr = search part_still_rules depth 30

arith_word-Still : (mode : AddrMode) (addr : ℕ) (acc : Bool) → Still (arith_word mode addr acc)
unfolding arith_word
arith_word-Still mode addr acc = search part_still_rules

adc8-Still : (val : ℕ) → Still (adc8 val)
unfolding adc8
adc8-Still val = search part_still_rules depth 30

adc16-Still : (val : ℕ) → Still (adc16 val)
unfolding adc16
adc16-Still val = search part_still_rules depth 30

pub i_adc-AdvancesBy :
    (size cycles : ℕ) (mode : AddrMode) (addr : ℕ)
    → AdvancesBy (λ r. immd_size (acc8 r) mode size) (i_adc size cycles mode addr)
unfolding i_adc
i_adc-AdvancesBy size cycles mode addr =
    search
      (advance_rules, arith_cycles-Still, arith_word-Still, adc8-Still, adc16-Still, get-AdvancesBy)
      depth 30

sbc8-Still : (val : ℕ) → Still (sbc8 val)
unfolding sbc8
sbc8-Still val = search part_still_rules depth 30

sbc16-Still : (val : ℕ) → Still (sbc16 val)
unfolding sbc16
sbc16-Still val = search part_still_rules depth 30

pub i_sbc-AdvancesBy :
    (size cycles : ℕ) (mode : AddrMode) (addr : ℕ)
    → AdvancesBy (λ r. immd_size (acc8 r) mode size) (i_sbc size cycles mode addr)
unfolding i_sbc
i_sbc-AdvancesBy size cycles mode addr =
    search
      (advance_rules, arith_cycles-Still, arith_word-Still, sbc8-Still, sbc16-Still, get-AdvancesBy)
      depth 30
