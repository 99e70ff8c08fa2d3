-- ===== src/Cpu/Text/Size.antt =====
-- src/cpu/65816.c: the length of the text of tostrCPU, for which debugger.c keeps 160 bytes.
use native.Mathlib.Nat.{one-le-pow, pow-suc}
use ce.Base.{
  ℕ, zero, suc, ltb, ◌+◌, ◌-◌, ◌/◌, ◌%◌, ◌^◌, ◌≤◌, ◌<◌, ◌≡◌, ◌↔◌, refl, ap, ◌∙◌, arith, Bool, true,
  false, ◌==◌, ◌&&◌, of_bool, List, [], ◌∷◌, length, Bool-cases, inl, inr,
}
use ce.Cpu.State.{Cpu}
use ce.Cpu.Valid.{IsValid}
use ce.Cpu.Text.{to_format, fields, tostr_cpu}
use ce.Cpu.Text.Format.{Directive, sprintf, number, digit_char}
use ce.Cpu.Text.Scan.{number-word, number-byte}
use ce.Cpu.Text.RoundTrip.{Fits, fields-Fits}
use Directive.{blank, lit, word, byte, int, long}

abbrev digits : ℕ → ℕ
digits v = length (number 10 20 1 v [])

length-number :
    (k least v : ℕ) (acc : List ℕ)
    → length (number 10 k least v acc) ≡ length (number 10 k least v []) + length acc
unfolding number
length-number zero least v acc = omega arith
length-number (suc k) least v acc =
    let d = digit_char (v % 10) in
    let go = length-number k (least - 1) (v / 10) (d ∷ acc) in
    let one = length-number k (least - 1) (v / 10) (d ∷ []) in
    elim (Bool-cases (least == 0 && v == 0)) [
      | inl e ↦ simp e (omega arith)
      | inr e ↦ simp e (omega (arith, go, one))
    ]

-- At most `j` digits below 10 ^ j.
length-number_most :
    (k least v j : ℕ) (acc : List ℕ)
    → v < 10 ^ j
    → least ≤ j
    → length (number 10 k least v acc) ≤ j + length acc
unfolding number
length-number_most zero least v j acc h l = omega arith
length-number_most (suc k) least v zero acc h l =
    let e : (least == 0 && v == 0) ≡ true = ground (arith, h, l) in rw e (omega arith)
length-number_most (suc k) least v (suc j) acc h l =
    let power = pow-suc 10 j in
    let go =
      length-number_most k (least - 1) (v / 10) j (digit_char (v % 10) ∷ acc)
        (omega (arith, h, power)) (omega (arith, l)) in
    elim (Bool-cases (least == 0 && v == 0)) [
      | inl e ↦ simp e (omega arith)
      | inr e ↦ simp e (omega (arith, go))
    ]

grows : (k least v : ℕ) (acc : List ℕ) → length acc ≤ length (number 10 k least v acc)
grows k least v acc = let e = length-number k least v acc in omega (arith, e)

-- More than `j` from 10 ^ j on.
length-number_least :
    (k least v j : ℕ) (acc : List ℕ)
    → 10 ^ j ≤ v
    → j < k
    → j + length acc < length (number 10 k least v acc)
unfolding number
length-number_least zero least v j acc h l = absurd (omega (arith, l))
length-number_least (suc k) least v zero acc h l =
    let e : (least == 0 && v == 0) ≡ false = ground (arith, h) in
    let go = grows k (least - 1) (v / 10) (digit_char (v % 10) ∷ acc) in rw e (omega (arith, go))
length-number_least (suc k) least v (suc j) acc h l =
    let power = pow-suc 10 j in
    let left : 0 < 10 ^ j = one-le-pow j 10 (omega arith) in
    let go =
      length-number_least k (least - 1) (v / 10) j (digit_char (v % 10) ∷ acc)
        (omega (arith, h, power)) (omega (arith, l)) in
    let e : (least == 0 && v == 0) ≡ false = ground (arith, h, power, left) in
    rw e (omega (arith, go))

abbrev size : List Directive → List ℕ → ℕ
size [] vs = 0
size (blank ∷ g) vs = 1 + size g vs
size (lit c ∷ g) vs = 1 + size g vs
size (word ∷ g) (v ∷ vs) = 4 + size g vs
size (byte ∷ g) (v ∷ vs) = 2 + size g vs
size (int ∷ g) (v ∷ vs) = digits v + size g vs
size (long ∷ g) (v ∷ vs) = digits v + size g vs
size (_ ∷ g) [] = 0

length-sprintf : (g : List Directive) (vs : List ℕ) → Fits g vs → length (sprintf g vs) ≡ size g vs
unfolding sprintf
length-sprintf [] vs h = refl
length-sprintf (blank ∷ g) vs h = omega (arith, length-sprintf g vs h)
length-sprintf (lit c ∷ g) vs h = omega (arith, length-sprintf g vs h)
length-sprintf (word ∷ g) (v ∷ vs) h =
    let e = ap (λ (s : List ℕ). length s) (number-word v (sprintf g vs) h.0) in
    omega (arith, e, length-sprintf g vs h.1)
length-sprintf (byte ∷ g) (v ∷ vs) h =
    let e = ap (λ (s : List ℕ). length s) (number-byte v (sprintf g vs) h.0) in
    omega (arith, e, length-sprintf g vs h.1)
length-sprintf (int ∷ g) (v ∷ vs) h =
    omega (arith, length-number 20 1 v (sprintf g vs), length-sprintf g vs h.1)
length-sprintf (long ∷ g) (v ∷ vs) h =
    omega (arith, length-number 20 1 v (sprintf g vs), length-sprintf g vs h.1)
length-sprintf (word ∷ g) [] h = refl
length-sprintf (byte ∷ g) [] h = refl
length-sprintf (int ∷ g) [] h = refl
length-sprintf (long ∷ g) [] h = refl

digits-of_bool : (b : Bool) → digits (of_bool b) ≡ 1
unfolding number
digits-of_bool true = refl
digits-of_bool false = refl

pub length-tostr_cpu : (r : Cpu) → IsValid r → length (tostr_cpu r) ≡ 154 + digits r.cycles
unfolding tostr_cpu
length-tostr_cpu r v =
    length-sprintf to_format (fields r) (fields-Fits r v) ∙ simp digits-of_bool (omega arith)

-- With its NUL, the text of a valid processor is longer than the 160 bytes that the command `save`
-- keeps for it, if and only if the processor has counted 100000 cycles or more.
pub tostr_cpu-overflows :
    (r : Cpu) → IsValid r → (160 < length (tostr_cpu r) + 1) ↔ (100000 ≤ r.cycles)
tostr_cpu-overflows r v =
    let size = length-tostr_cpu r v in
    (
      λ h. elim (Bool-cases (ltb r.cycles 100000)) [
        | inl e ↦
            let few = length-number_most 20 1 r.cycles 5 [] (ground (arith, e)) (omega arith) in
            absurd (omega (arith, h, size, few))
        | inr e ↦ ground (arith, e)
      ],
      λ h.
          let many = length-number_least 20 1 r.cycles 5 [] h (omega arith) in
          omega (arith, size, many),
    )
