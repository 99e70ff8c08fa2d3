-- ===== src/Debugger/Disassembler/Agree.antt =====
-- The table of the disassembler (src/debugger/disassembler.c) against the switch of the processor
-- (src/cpu/65816.c).
use ce.Base.{
  ℕ, zero, suc, ◌+◌, ◌≡◌, refl, Bool, true, false, ◌&&◌, ◌||◌, not, ◌==◌, if◌then◌else◌, Option,
  none, some, List, [], ◌∷◌, ◌++◌, get_elem?, sym, ap, ◌∙◌, arith,
}
use ce.Cpu.State.{AddrMode, mode_index, immd}
use ce.Cpu.Instr.{Instr, memory, plain, jmp, jsr, jsl}
use ce.Cpu.Decode.{decode}
use ce.Cpu.Decode.Low.{decode_00}
use ce.Cpu.Decode.MidLow.{decode_40}
use ce.Cpu.Decode.MidHigh.{decode_80}
use ce.Cpu.Decode.High.{decode_c0}
use ce.Debugger.Disassembler.{
  inst_index, Register, no_register, reg_a, reg_x, Opcode, addr_fmt_size,
}
use ce.Debugger.Disassembler.Size.{opcode_at, opcode_table}
use ce.Cpu.Advance.Execute.{is_index_op, takes_immediate}
use ce.Debugger.Disassembler.Handlers.{handler_inst}

abbrev pub both : Bool → Bool → Bool
both true b = b
both false b = not b

-- Whether the mode that the processor passes to the handler is the one in the table, where it passes
-- one.
abbrev pub same_mode : Instr → Opcode → Bool
same_mode (memory op size cycles mode operand) o = mode_index mode == mode_index o.addr_mode
same_mode (plain op) o = true
same_mode (jmp size mode operand) o = mode_index mode == mode_index o.addr_mode
same_mode (jsr cycles operand) o = true
same_mode (jsl cycles operand) o = true

-- BIT, AND and ROL dp,X are in the table as (dp,X), and JMP (abs) as (abs,X); ADC dp,X is passed (dp,X)
-- by the processor.
abbrev pub mode_differs : ℕ → Bool
mode_differs code = code == 0x34 || code == 0x35 || code == 0x36 || code == 0x6c || code == 0x75

-- The register whose width an immediate operand has.
abbrev pub operand_register : Bool → Register
operand_register index = if index then reg_x else reg_a

abbrev pub register_index : Register → ℕ
register_index no_register = 0
register_index reg_x = 1
register_index reg_a = 2

abbrev pub is_immd : AddrMode → Bool
is_immd m = mode_index m == mode_index immd

abbrev pub same_size : Instr → Opcode → Bool
same_size (memory op size cycles mode operand) o =
    (size == addr_fmt_size o.addr_mode)
    && both (is_immd mode) (is_immd o.addr_mode)
    && (takes_immediate op || not (is_immd mode))
    && (not (is_immd mode)
        || register_index (operand_register (is_index_op op)) == register_index o.reg && size == 2)
same_size (plain op) o = true
same_size (jmp size mode operand) o = true
same_size (jsr cycles operand) o = true
same_size (jsl cycles operand) o = true

-- Whether the mnemonic in the table is that of the handler.
abbrev pub same_inst : Instr → Opcode → Bool
same_inst i o = inst_index (handler_inst i) == inst_index o.inst

-- JSL is in the table as JSR.
abbrev pub inst_differs : ℕ → Bool
inst_differs code = code == 0x22

abbrev check : ℕ → Instr → Opcode → Bool
check code i o =
    both (same_inst i o) (not (inst_differs code))
    && both (same_mode i o) (not (mode_differs code))
    && same_size i o

checks : ℕ → List Instr → List Opcode → Bool
checks n [] os = true
checks n (i ∷ is) [] = false
checks n (i ∷ is) (o ∷ os) = check n i o && checks (n + 1) is os

all_checks : checks 0 (decode_00 ++ decode_40 ++ decode_80 ++ decode_c0) opcode_table ≡ true
unfolding checks inst_index addr_fmt_size mode_index
all_checks = refl

pub both-true : (a b : Bool) → both a b ≡ true → a ≡ b
both-true true true e = refl
both-true true false e = sym e
both-true false true e = e
both-true false false e = refl

pub and_true : (a b : Bool) → a && b ≡ true → (a ≡ true) × (b ≡ true)
and_true true b e = (refl, e)
and_true false b e = absurd (false-true e)
  where
    false-true : ¬ (false ≡ true)
    false-true q = ground arith

checks-at :
    (is : List Instr) (os : List Opcode) (n k : ℕ) (i : Instr)
    → checks n is os ≡ true
    → get_elem? is k ≡ some i
    → (o : Opcode) × (get_elem? os k ≡ some o) × (check (n + k) i o ≡ true)
unfolding checks
checks-at [] os n k i h e = absurd (none-some e)
  where
    none-some : ¬ (none ≡ some i)
    none-some q = ground arith
checks-at (j ∷ is) [] n k i h e = absurd (false-true h)
  where
    false-true : ¬ (false ≡ true)
    false-true q = ground arith
checks-at (j ∷ is) (o ∷ os) n zero i h e =
    let p = and_true (check n j o) (checks (n + 1) is os) h in
    let z : n + 0 ≡ n = omega arith in
    let y : j ≡ i = ap (λ (x : Option Instr). elim x [ none ↦ j | some a ↦ a ]) e in
    (o, refl, ap (λ (m : ℕ). check m i o) z ∙ ap (λ (x : Instr). check n x o) (sym y) ∙ p.0)
checks-at (j ∷ is) (o ∷ os) n (suc k) i h e =
    let p = and_true (check n j o) (checks (n + 1) is os) h in
    let r = checks-at is os (n + 1) k i p.1 e in
    let z : n + suc k ≡ n + 1 + k = omega arith in (r.0, r.1, rw z r.2)

pub checked :
    (code : ℕ) (i : Instr)
    → decode code ≡ some i
    → (o : Opcode) × (opcode_at code ≡ some o)
      × (same_inst i o ≡ not (inst_differs code))
      × (same_mode i o ≡ not (mode_differs code))
      × (same_size i o ≡ true)
unfolding decode opcode_at
checked code i e =
    let r =
      checks-at (decode_00 ++ decode_40 ++ decode_80 ++ decode_c0) opcode_table 0 code i all_checks
        e in
    let o = r.0 in
    let z : 0 + code ≡ code = omega arith in
    let c : check code i o ≡ true = ap (λ (m : ℕ). check m i o) (sym z) ∙ r.2 in
    let p =
      and_true
        (both (same_inst i o) (not (inst_differs code))
          && both (same_mode i o) (not (mode_differs code)))
        (same_size i o) c in
    let q =
      and_true (both (same_inst i o) (not (inst_differs code)))
        (both (same_mode i o) (not (mode_differs code))) p.0 in
    (
      o,
      r.1,
      both-true (same_inst i o) (not (inst_differs code)) q.0,
      both-true (same_mode i o) (not (mode_differs code)) q.1,
      p.1,
    )

-- The table of the disassembler has the mnemonic of the handler that the switch calls for every
-- opcode but 0x22, where it has another; and for an opcode whose handler is passed a mode it has
-- the same mode, but for the five opcodes of mode_differs, where it has another.
pub opcode_table-decode :
    (code : ℕ) (i : Instr)
    → decode code ≡ some i
    → (o : Opcode) × (opcode_at code ≡ some o)
      × (same_inst i o ≡ not (inst_differs code))
      × (same_mode i o ≡ not (mode_differs code))
opcode_table-decode code i e = let r = checked code i e in (r.0, r.1, r.2, r.3)
