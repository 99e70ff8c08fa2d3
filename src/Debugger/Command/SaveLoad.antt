-- ===== src/Debugger/Command/SaveLoad.antt =====
-- src/debugger/debugger.c, command_execute: `load cpu` on the file of a `save cpu`.
use ce.Base.{
  ℕ, zero, suc, ◌-◌, ◌/◌, ◌%◌, ◌&&◌, Bool, ◌<◌, ◌≡◌, refl, sym, ap, ◌∙◌, arith, true, false, ltb,
  ◌==◌, if◌then◌else◌, Bool-cases, inl, inr, Option, none, some, List, [], ◌∷◌, length,
}
use ce.Cpu.State.{Cpu}
use ce.Cpu.Valid.{IsValid}
use ce.Cpu.Text.{tostr_cpu, fromstr_cpu, to_format, fields}
use ce.Cpu.Text.Format.{Directive, sprintf, number, digit_char}
use Directive.{blank, lit, word, byte, int, long}
use ce.Cpu.Text.RoundTrip.{fromstr_cpu-tostr_cpu}
use ce.Cpu.Text.Size.{tostr_cpu-overflows, length-tostr_cpu}
use ce.Debugger.Parse.{codes}
use ce.Debugger.Load.{CmdErr, File}
use ce.Debugger.Load.Processor.{load_file_cpu, buffer_string, parse_status}
use ce.Debugger.Command.{CmdStatus, Session, Saved, image, text, done, set_cpu, lower}
use ce.Debugger.Command.Named.{World, cmd_save, cmd_load, is_ok, load_cpu}

-- No character is a NUL.
abbrev Printable : List ℕ → Type 0
Printable [] = true ≡ true
Printable (c ∷ s) = (0 < c) × Printable s

buffer_string-whole : (s : List ℕ) → Printable s → buffer_string (length s) s ≡ s
buffer_string-whole [] p = refl
buffer_string-whole (c ∷ s) p =
    let e : (c == 0) ≡ false = ground (arith, p.0) in
    rw e (ap (λ t. c ∷ t) (buffer_string-whole s p.1))

digit_char-positive : (k : ℕ) → k < 16 → 0 < digit_char k
digit_char-positive k h = ground arith

number-Printable10 :
    (k least v : ℕ) (acc : List ℕ) → Printable acc → Printable (number 10 k least v acc)
unfolding number
number-Printable10 zero least v acc p = p
number-Printable10 (suc k) least v acc p =
    let d = digit_char-positive (v % 10) (omega arith) in
    let go = number-Printable10 k (least - 1) (v / 10) (digit_char (v % 10) ∷ acc) (d, p) in
    elim (Bool-cases (least == 0 && v == 0)) [ inl e ↦ simp e p | inr e ↦ simp e go ]

number-Printable16 :
    (k least v : ℕ) (acc : List ℕ) → Printable acc → Printable (number 16 k least v acc)
unfolding number
number-Printable16 zero least v acc p = p
number-Printable16 (suc k) least v acc p =
    let d = digit_char-positive (v % 16) (omega arith) in
    let go = number-Printable16 k (least - 1) (v / 16) (digit_char (v % 16) ∷ acc) (d, p) in
    elim (Bool-cases (least == 0 && v == 0)) [ inl e ↦ simp e p | inr e ↦ simp e go ]

-- The format holds no NUL.
abbrev inked : List Directive → Bool
inked [] = true
inked (lit c ∷ g) = ltb 0 c && inked g
inked (_ ∷ g) = inked g

sprintf-Printable : (g : List Directive) (vs : List ℕ) → inked g ≡ true → Printable (sprintf g vs)
unfolding sprintf
sprintf-Printable [] vs e = refl
sprintf-Printable (blank ∷ g) vs e = (omega arith, sprintf-Printable g vs e)
sprintf-Printable (lit c ∷ g) vs e = (ground (arith, e), sprintf-Printable g vs (ground (arith, e)))
sprintf-Printable (word ∷ g) (v ∷ vs) e =
    number-Printable16 20 4 v (sprintf g vs) (sprintf-Printable g vs e)
sprintf-Printable (byte ∷ g) (v ∷ vs) e =
    number-Printable16 20 2 v (sprintf g vs) (sprintf-Printable g vs e)
sprintf-Printable (int ∷ g) (v ∷ vs) e =
    number-Printable10 20 1 v (sprintf g vs) (sprintf-Printable g vs e)
sprintf-Printable (long ∷ g) (v ∷ vs) e =
    number-Printable10 20 1 v (sprintf g vs) (sprintf-Printable g vs e)
sprintf-Printable (word ∷ g) [] e = refl
sprintf-Printable (byte ∷ g) [] e = refl
sprintf-Printable (int ∷ g) [] e = refl
sprintf-Printable (long ∷ g) [] e = refl

tostr_cpu-Printable : (r : Cpu) → Printable (tostr_cpu r)
unfolding tostr_cpu
tostr_cpu-Printable r = sprintf-Printable to_format (fields r) refl

-- A file that holds `t` and can be read.
abbrev pub written : (ℕ → Bool) → List ℕ → File
written malloc t = record {
  stat_error = none;
  size = length t;
  opens = true;
  bytes = t;
  malloc = malloc;
}

load_file_cpu-tostr_cpu :
    (locals : ℕ → ℕ) (malloc : ℕ → Bool) (r old : Cpu)
    → IsValid r
    → r.cycles < 100000
    → load_file_cpu locals (written malloc (tostr_cpu r)) old
      ≡ (CmdErr.ok, record r { setacc = old.setacc; cop_vect_enable = old.cop_vect_enable })
unfolding load_file_cpu
load_file_cpu-tostr_cpu locals malloc r old v few =
    let long = length-tostr_cpu r v in
    let over = (tostr_cpu-overflows r v).0 in
    let small : ltb 1024 (length (tostr_cpu r)) ≡ false =
      elim (Bool-cases (ltb 1024 (length (tostr_cpu r)))) [
        | inl e ↦ absurd (ground (arith, e, over, few))
        | inr e ↦ e
      ] in
    let filled : (length (tostr_cpu r) == 0) ≡ false = ground (arith, long) in
    let whole = buffer_string-whole (tostr_cpu r) (tostr_cpu-Printable r) in
    rw small (
      rw filled (
        ap (λ p. (parse_status p.0, p.1))
          (ap (λ t. fromstr_cpu locals t old) whole ∙ fromstr_cpu-tostr_cpu locals r old v)))

saved_text : Option Saved → List ℕ
saved_text none = []
saved_text (some (image m)) = []
saved_text (some (text t)) = t

cmd_save-cpu :
    (w : World) (name t : List ℕ) (ts : List (List ℕ)) (s : Session)
    → (cmd_save w (codes "cpu" ∷ name ∷ ts) s).saved ≡ some (text t)
    → t ≡ tostr_cpu s.machine.cpu
unfolding cmd_save saved_text
cmd_save-cpu w name t ts s e = elim (Bool-cases (w.creates (lower name))) [
  | inl c ↦ sym (ap (λ o. saved_text o) (simp c at e))
  | inr c ↦ absurd (ground (arith, simp c at e))
]

-- Where `save cpu` has written a text for a valid processor that has counted fewer than 100000
-- cycles, `load cpu` on a file with that text succeeds in any session: the processor there gets the
-- registers, the flags and the cycles of the one that was saved, and nothing else changes.
pub cmd_load-cmd_save :
    (w w' : World) (name name' t : List ℕ) (ts us : List (List ℕ)) (s old : Session)
    (malloc : ℕ → Bool)
    → IsValid s.machine.cpu
    → s.machine.cpu.cycles < 100000
    → (cmd_save w (codes "cpu" ∷ name ∷ ts) s).saved ≡ some (text t)
    → w'.file (lower name') ≡ written malloc t
    → cmd_load w' (codes "cpu" ∷ name' ∷ us) old
      ≡ some (
          done (
            set_cpu
              (λ r. record s.machine.cpu { setacc = r.setacc; cop_vect_enable = r.cop_vect_enable })
              old))
unfolding cmd_load load_cpu
cmd_load-cmd_save w w' name name' t ts us s old malloc v few e f =
    let same = cmd_save-cpu w name t ts s e in
    let loaded =
      ap (λ g. load_file_cpu w'.locals g old.machine.cpu) (f ∙ ap (λ u. written malloc u) same)
      ∙ load_file_cpu-tostr_cpu w'.locals malloc s.machine.cpu old.machine.cpu v few in
    ap
      (λ p. some record {
        stat = if is_ok p.0 then CmdStatus.ok else CmdStatus.err;
        status = p.0;
        session = set_cpu (λ _. p.1) old;
        saved = none;
      })
      loaded
