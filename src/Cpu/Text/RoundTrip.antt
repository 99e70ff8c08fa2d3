-- ===== src/Cpu/Text/RoundTrip.antt =====
-- src/cpu/65816.c: what fromstrCPU reads from the text of tostrCPU.
use ce.Base.{
  ℕ, ◌^◌, ◌<◌, ◌≡◌, refl, ap, ◌∙◌, arith, Bool, true, false, not, ◌&&◌, ◌==◌, of_bool, bit, u8, u16,
  u32, u64, List, [], ◌∷◌, Option, some, length, suc, if◌then◌else◌,
}
use ce.Debugger.Parse.{isspace, isdigit}
use ce.Cpu.State.{Cpu, ErrorCode}
use ce.Cpu.Valid.{IsValid}
use ce.Cpu.Text.{to_format, from_format, fields, tostr_cpu, fromstr_cpu, scanned}
use ce.Cpu.Text.Format.{Directive, sprintf, sscanf, drop_while, stored}
use ce.Cpu.Text.Decimal.{Stops, skip-number, decimal-number}
use ce.Cpu.Text.Scan.{hexadecimal-number_word, hexadecimal-number_byte, skip-word, skip-byte}
use Directive.{blank, lit, word, byte, int, long}

-- What is printed starts with a character that is not a space.
abbrev visible : List Directive → Bool
visible [] = true
visible (blank ∷ f) = false
visible (lit c ∷ f) = not (isspace c)
visible (_ ∷ f) = true

-- What is printed does not go on with a digit.
abbrev ends : List Directive → Bool
ends [] = true
ends (lit c ∷ f) = not (isdigit c)
ends _ = false

-- The format of sscanf fits that of sprintf, up to spaces.
abbrev agrees : List Directive → List Directive → Bool
agrees [] g = true
agrees (blank ∷ f) g = visible g && agrees f g
agrees (lit c ∷ f) (lit d ∷ g) = c == d && agrees f g
agrees (word ∷ f) (word ∷ g) = agrees f g
agrees (byte ∷ f) (byte ∷ g) = agrees f g
agrees (int ∷ f) (int ∷ g) = ends g && agrees f g
agrees (long ∷ f) (long ∷ g) = ends g && agrees f g
agrees _ _ = false

abbrev conversions : List Directive → ℕ
conversions [] = 0
conversions (blank ∷ f) = conversions f
conversions (lit c ∷ f) = conversions f
conversions (_ ∷ f) = suc (conversions f)

-- The values lie in the ranges of the conversions, one for each.
abbrev pub Fits : List Directive → List ℕ → Type 0
Fits [] [] = true ≡ true
Fits [] (v ∷ vs) = true ≡ false
Fits (blank ∷ g) vs = Fits g vs
Fits (lit c ∷ g) vs = Fits g vs
Fits (word ∷ g) (v ∷ vs) = (v < 2 ^ 16) × Fits g vs
Fits (byte ∷ g) (v ∷ vs) = (v < 2 ^ 8) × Fits g vs
Fits (int ∷ g) (v ∷ vs) = (v < 2 ^ 31) × Fits g vs
Fits (long ∷ g) (v ∷ vs) = (v < 2 ^ 64) × Fits g vs
Fits (_ ∷ g) [] = true ≡ false

skip-sprintf :
    (g : List Directive) (vs : List ℕ)
    → visible g ≡ true
    → Fits g vs
    → drop_while isspace (sprintf g vs) ≡ sprintf g vs
unfolding sprintf drop_while
skip-sprintf [] vs e h = refl
skip-sprintf (blank ∷ g) vs e h = absurd (ground (arith, e))
skip-sprintf (lit c ∷ g) vs e h = let no : isspace c ≡ false = ground (arith, e) in rw no refl
skip-sprintf (word ∷ g) (v ∷ vs) e h = skip-word v (sprintf g vs) h.0
skip-sprintf (byte ∷ g) (v ∷ vs) e h = skip-byte v (sprintf g vs) h.0
skip-sprintf (int ∷ g) (v ∷ vs) e h = skip-number v (sprintf g vs)
skip-sprintf (long ∷ g) (v ∷ vs) e h = skip-number v (sprintf g vs)
skip-sprintf (word ∷ g) [] e h = refl
skip-sprintf (byte ∷ g) [] e h = refl
skip-sprintf (int ∷ g) [] e h = refl
skip-sprintf (long ∷ g) [] e h = refl

Stops-sprintf : (g : List Directive) (vs : List ℕ) → ends g ≡ true → Stops (sprintf g vs)
unfolding sprintf
Stops-sprintf [] vs e = refl
Stops-sprintf (blank ∷ g) vs e = absurd (ground (arith, e))
Stops-sprintf (lit c ∷ g) vs e = ground (arith, e)
Stops-sprintf (word ∷ g) vs e = absurd (ground (arith, e))
Stops-sprintf (byte ∷ g) vs e = absurd (ground (arith, e))
Stops-sprintf (int ∷ g) vs e = absurd (ground (arith, e))
Stops-sprintf (long ∷ g) vs e = absurd (ground (arith, e))

-- Behind a conversion that reads `v` and leaves the rest, what was printed behind is read.
stored-agrees :
    (f : List Directive) (cast : ℕ → ℕ) {s vs : List ℕ} {m : Option (ℕ × List ℕ)} (v : ℕ)
    → m ≡ some (v, s)
    → cast v ≡ v
    → sscanf f s ≡ vs
    → stored cast m (λ t. sscanf f t) ≡ v ∷ vs
stored-agrees f cast {s} {vs} v e fits go =
    ap (λ m. stored cast m (λ t. sscanf f t)) e
    ∙ ap (λ n. n ∷ sscanf f s) fits
    ∙ ap (λ us. v ∷ us) go

sscanf-sprintf :
    (f g : List Directive) (vs : List ℕ)
    → agrees f g ≡ true
    → Fits g vs
    → length vs ≡ conversions f
    → sscanf f (sprintf g vs) ≡ vs
unfolding sprintf sscanf
sscanf-sprintf [] g [] e h k = refl
sscanf-sprintf [] g (v ∷ vs) e h k = absurd (omega (arith, k))
sscanf-sprintf (blank ∷ f) g vs e h k =
    ap (λ s. sscanf f s) (skip-sprintf g vs (ground (arith, e)) h)
    ∙ sscanf-sprintf f g vs (ground (arith, e)) h k
sscanf-sprintf (lit c ∷ f) (lit d ∷ g) vs e h k =
    let same : (c == d) ≡ true = ground (arith, e) in
    rw same (sscanf-sprintf f g vs (ground (arith, e)) h k)
sscanf-sprintf (word ∷ f) (word ∷ g) (v ∷ vs) e h k =
    stored-agrees f (λ n. u16 n) v (hexadecimal-number_word v (sprintf g vs) h.0)
      (omega (arith, h.0)) (sscanf-sprintf f g vs e h.1 (omega (arith, k)))
sscanf-sprintf (byte ∷ f) (byte ∷ g) (v ∷ vs) e h k =
    stored-agrees f (λ n. u8 n) v (hexadecimal-number_byte v (sprintf g vs) h.0)
      (omega (arith, h.0)) (sscanf-sprintf f g vs e h.1 (omega (arith, k)))
sscanf-sprintf (int ∷ f) (int ∷ g) (v ∷ vs) e h k =
    stored-agrees f (λ n. u32 n) v
      (decimal-number v (sprintf g vs) (omega (arith, h.0))
        (Stops-sprintf g vs (ground (arith, e))))
      (omega (arith, h.0)) (sscanf-sprintf f g vs (ground (arith, e)) h.1 (omega (arith, k)))
sscanf-sprintf (long ∷ f) (long ∷ g) (v ∷ vs) e h k =
    stored-agrees f (λ n. u64 n) v
      (decimal-number v (sprintf g vs) h.0 (Stops-sprintf g vs (ground (arith, e))))
      (omega (arith, h.0)) (sscanf-sprintf f g vs (ground (arith, e)) h.1 (omega (arith, k)))
sscanf-sprintf _ _ _ e h k = absurd (ground (arith, e, h))

of_bool-fits : (b : Bool) → of_bool b < 2 ^ 31
of_bool-fits true = omega arith
of_bool-fits false = omega arith

bit-of_bool : (b : Bool) → bit (of_bool b) 0 ≡ b
bit-of_bool true = refl
bit-of_bool false = refl

-- A pair, without its brackets.
infixr 10 ◌⊗◌
abbrev ◌⊗◌ : {A B : Type 0} → A → B → A × B
a ⊗ b = (a, b)

pub fields-Fits : (r : Cpu) → IsValid r → Fits to_format (fields r)
fields-Fits r v =
    v.c_fits
    ⊗ v.x_fits
    ⊗ v.y_fits
    ⊗ v.sp_fits
    ⊗ v.d_fits
    ⊗ v.dbr_fits
    ⊗ v.pbr_fits
    ⊗ v.pc_fits
    ⊗ of_bool-fits r.p_rst
    ⊗ of_bool-fits r.p_irq
    ⊗ of_bool-fits r.p_nmi
    ⊗ of_bool-fits r.p_stp
    ⊗ of_bool-fits r.p_crash
    ⊗ of_bool-fits r.p_c
    ⊗ of_bool-fits r.p_z
    ⊗ of_bool-fits r.p_i
    ⊗ of_bool-fits r.p_d
    ⊗ of_bool-fits r.p_xb
    ⊗ of_bool-fits r.p_m
    ⊗ of_bool-fits r.p_v
    ⊗ of_bool-fits r.p_n
    ⊗ of_bool-fits r.p_e
    ⊗ v.cycles_fit
    ⊗ refl

scanned-fields :
    (locals : ℕ → ℕ) (r old : Cpu)
    → scanned (fields r) locals old
      ≡ record r { setacc = old.setacc; cop_vect_enable = old.cop_vect_enable }
unfolding scanned
scanned-fields locals r old = simp bit-of_bool refl

-- The text that tostrCPU writes for a valid processor is read by fromstrCPU without an error, and
-- gives its registers, flags and cycles to any other processor; the options of the simulator
-- (`setacc` and `cop_vect_enable`) stay as they are there.
pub fromstr_cpu-tostr_cpu :
    (locals : ℕ → ℕ) (r old : Cpu)
    → IsValid r
    → fromstr_cpu locals (tostr_cpu r) old
      ≡ (ErrorCode.ok, record r { setacc = old.setacc; cop_vect_enable = old.cop_vect_enable })
unfolding fromstr_cpu tostr_cpu
fromstr_cpu-tostr_cpu locals r old v =
    let read : sscanf from_format (sprintf to_format (fields r)) ≡ fields r =
      sscanf-sprintf from_format to_format (fields r) refl (fields-Fits r v) refl in
    ap
      (λ vs. (if length vs == 23 then ErrorCode.ok else ErrorCode.str_parse, scanned vs locals old))
      read
    ∙ ap (λ s. (ErrorCode.ok, s)) (scanned-fields locals r old)
