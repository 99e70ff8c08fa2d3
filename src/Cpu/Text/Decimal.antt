-- ===== src/Cpu/Text/Decimal.antt =====
-- Decimal numbers: what sscanf reads where sprintf printed one.
use native.Mathlib.Nat.{pow-suc}
use ce.Base.{
  ℕ, zero, suc, ◌+◌, ◌-◌, ◌*◌, ◌/◌, ◌%◌, ◌^◌, ◌<◌, ◌≡◌, refl, ltb, sym, ap, ◌∙◌, arith, true, false,
  ◌==◌, ◌&&◌, some, List, [], ◌∷◌, Bool-cases, inl, inr,
}
use ce.Debugger.Parse.{isspace, isdigit, digit_value, strtoul}
use ce.Cpu.Text.Format.{digit_char, number, drop_while, sign, magnitude, decimal}

-- The text starts with a digit, or does not go on with one.
abbrev pub Starts : List ℕ → Type 0
Starts [] = true ≡ false
Starts (c ∷ s) = isdigit c ≡ true

abbrev pub Stops : List ℕ → Type 0
Stops [] = true ≡ true
Stops (c ∷ s) = isdigit c ≡ false

isdigit-digit_char : (k : ℕ) → k < 10 → isdigit (digit_char k) ≡ true
isdigit-digit_char k h = ground arith

drop-number :
    (k least v : ℕ) (acc : List ℕ)
    → drop_while isdigit (number 10 k least v acc) ≡ drop_while isdigit acc
unfolding number drop_while
drop-number zero least v acc = refl
drop-number (suc k) least v acc =
    let go = drop-number k (least - 1) (v / 10) (digit_char (v % 10) ∷ acc) in
    let step : drop_while isdigit (digit_char (v % 10) ∷ acc) ≡ drop_while isdigit acc =
      rw (isdigit-digit_char (v % 10) (omega arith)) refl in
    elim (Bool-cases (least == 0 && v == 0)) [ inl e ↦ simp e refl | inr e ↦ simp e (go ∙ step) ]

digit_value-digit_char : (k : ℕ) → k < 10 → digit_value (digit_char k) ≡ k
digit_value-digit_char k h = ground arith

strtoul-digit_char :
    (v k : ℕ) (s : List ℕ)
    → k < 10
    → v * 10 + k < 2 ^ 64
    → strtoul isdigit 10 v (digit_char k ∷ s) ≡ strtoul isdigit 10 (v * 10 + k) s
unfolding strtoul
strtoul-digit_char v k s h small =
    let fits : ltb (v * 10 + k) (2 ^ 64) ≡ true = ground (arith, small) in
    rw (isdigit-digit_char k h) (rw (digit_value-digit_char k h) (rw fits refl))

strtoul-number :
    (k least v : ℕ) (acc : List ℕ)
    → v < 10 ^ k
    → v < 2 ^ 64
    → strtoul isdigit 10 0 (number 10 k least v acc) ≡ strtoul isdigit 10 v acc
unfolding number strtoul
strtoul-number zero least v acc h small = ap (λ n. strtoul isdigit 10 n acc) (omega (arith, h))
strtoul-number (suc k) least v acc h small =
    let power : 10 ^ suc k ≡ 10 ^ k * 10 = pow-suc 10 k in
    let go =
      strtoul-number k (least - 1) (v / 10) (digit_char (v % 10) ∷ acc) (omega (arith, h, power))
        (omega (arith, small)) in
    let whole : v / 10 * 10 + v % 10 ≡ v = omega arith in
    let step =
      strtoul-digit_char (v / 10) (v % 10) acc (omega arith) (omega (arith, small, whole)) in
    elim (Bool-cases (least == 0 && v == 0)) [
      | inl e ↦
          let gone : v ≡ 0 = ground (arith, e) in
          simp e (ap (λ n. strtoul isdigit 10 n acc) (sym gone))
      | inr e ↦ simp e (go ∙ step ∙ ap (λ n. strtoul isdigit 10 n acc) whole)
    ]

Starts-number : (k least v : ℕ) (acc : List ℕ) → Starts acc → Starts (number 10 k least v acc)
unfolding number
Starts-number zero least v acc h = h
Starts-number (suc k) least v acc h =
    let go =
      Starts-number k (least - 1) (v / 10) (digit_char (v % 10) ∷ acc)
        (isdigit-digit_char (v % 10) (omega arith)) in
    elim (Bool-cases (least == 0 && v == 0)) [ inl e ↦ simp e h | inr e ↦ simp e go ]

Starts-some : (k v : ℕ) (acc : List ℕ) → Starts (number 10 (suc k) 1 v acc)
unfolding number
Starts-some k v acc =
    Starts-number k 0 (v / 10) (digit_char (v % 10) ∷ acc)
      (isdigit-digit_char (v % 10) (omega arith))

strtoul-Stops : (v : ℕ) (s : List ℕ) → Stops s → strtoul isdigit 10 v s ≡ v
unfolding strtoul
strtoul-Stops v [] h = refl
strtoul-Stops v (c ∷ s) h = simp h refl

drop-Stops : (s : List ℕ) → Stops s → drop_while isdigit s ≡ s
unfolding drop_while
drop-Stops [] h = refl
drop-Stops (c ∷ s) h = simp h refl

skip-Starts : (s : List ℕ) → Starts s → drop_while isspace s ≡ s
unfolding drop_while
skip-Starts [] h = refl
skip-Starts (c ∷ s) h = let no : isspace c ≡ false = ground (arith, h) in rw no refl

-- What the conversion makes of a text that starts with a digit.
decimal-Starts :
    (s : List ℕ) → Starts s → decimal s ≡ some (strtoul isdigit 10 0 s, drop_while isdigit s)
unfolding decimal sign magnitude drop_while
decimal-Starts [] h = absurd (ground (arith, h))
decimal-Starts (c ∷ s) h =
    let no : isspace c ≡ false = ground (arith, h) in
    let no_minus : (c == 0x2d) ≡ false = ground (arith, h) in
    let no_plus : (c == 0x2b) ≡ false = ground (arith, h) in
    rw no (rw no_minus (rw no_plus (rw h refl)))

-- Behind a decimal number that ends before `s`, the conversion gives the number and leaves `s`.
pub decimal-number :
    (v : ℕ) (s : List ℕ) → v < 2 ^ 64 → Stops s → decimal (number 10 20 1 v s) ≡ some (v, s)
decimal-number v s small h =
    decimal-Starts (number 10 20 1 v s) (Starts-some 19 v s)
    ∙ ap (λ n. some (n, drop_while isdigit (number 10 20 1 v s)))
        (strtoul-number 20 1 v s (omega (arith, small)) small ∙ strtoul-Stops v s h)
    ∙ ap (λ t. some (v, t)) (drop-number 20 1 v s ∙ drop-Stops s h)

pub skip-number :
    (v : ℕ) (s : List ℕ) → drop_while isspace (number 10 20 1 v s) ≡ number 10 20 1 v s
skip-number v s = skip-Starts (number 10 20 1 v s) (Starts-some 19 v s)
