-- ===== src/Cpu/Text/Scan.antt =====
-- Hexadecimal numbers of a fixed width: what sscanf reads where sprintf printed one.
use ce.Base.{
  ℕ, ◌+◌, ◌*◌, ◌/◌, ◌%◌, ◌^◌, ◌<◌, ◌≡◌, refl, ap, ◌∙◌, arith, true, false, ◌==◌, ltb, some, List,
  [], ◌∷◌, ◌++◌, Bool-cases, inl, inr,
}
use ce.Debugger.Parse.{isspace, isxdigit, digit_value, tolower, strtoul}
use ce.Cpu.Text.Format.{
  digit_char, number, split_at, drop_while, sign, hex_prefix, magnitude, unsigned, behind,
  hexadecimal,
}

isxdigit-digit_char : (k : ℕ) → k < 16 → isxdigit (digit_char k) ≡ true
isxdigit-digit_char k h = ground arith

isspace-digit_char : (k : ℕ) → k < 16 → isspace (digit_char k) ≡ false
isspace-digit_char k h = ground arith

-- No digit is a sign or the letter of the prefix.
digit_char-letter : (k : ℕ) → k < 16 → (tolower (digit_char k) == 0x78) ≡ false
digit_char-letter k h = ground arith

digit_char-plus : (k : ℕ) → k < 16 → (digit_char k == 0x2b) ≡ false
digit_char-plus k h = ground arith

digit_char-minus : (k : ℕ) → k < 16 → (digit_char k == 0x2d) ≡ false
digit_char-minus k h = ground arith

digit_value-xdigit : (k : ℕ) → k < 16 → digit_value (digit_char k) ≡ k
digit_value-xdigit k h = ground arith

strtoul-xdigit :
    (v k : ℕ) (s : List ℕ)
    → k < 16
    → v * 16 + k < 2 ^ 64
    → strtoul isxdigit 16 v (digit_char k ∷ s) ≡ strtoul isxdigit 16 (v * 16 + k) s
unfolding strtoul
strtoul-xdigit v k s h small =
    let fits : ltb (v * 16 + k) (2 ^ 64) ≡ true = ground (arith, small) in
    rw (isxdigit-digit_char k h) (rw (digit_value-xdigit k h) (rw fits refl))

drop-xdigit :
    (k : ℕ) (s : List ℕ) → k < 16 → drop_while isxdigit (digit_char k ∷ s) ≡ drop_while isxdigit s
unfolding drop_while
drop-xdigit k s h = rw (isxdigit-digit_char k h) refl

strtoul-nil : (v : ℕ) → strtoul isxdigit 16 v [] ≡ v
unfolding strtoul
strtoul-nil v = refl

drop-nil : drop_while isxdigit [] ≡ []
unfolding drop_while
drop-nil = refl

pub number-word :
    (v : ℕ) (s : List ℕ)
    → v < 2 ^ 16
    → number 16 20 4 v s
      ≡ digit_char (v / 16 / 16 / 16 % 16)
        ∷ digit_char (v / 16 / 16 % 16)
        ∷ digit_char (v / 16 % 16)
        ∷ digit_char (v % 16)
        ∷ s
unfolding number
number-word v s h =
    let none_left : (v / 16 / 16 / 16 / 16 == 0) ≡ true = ground (arith, h) in rw none_left refl

pub number-byte :
    (v : ℕ) (s : List ℕ)
    → v < 2 ^ 8
    → number 16 20 2 v s ≡ digit_char (v / 16 % 16) ∷ digit_char (v % 16) ∷ s
unfolding number
number-byte v s h =
    let none_left : (v / 16 / 16 == 0) ≡ true = ground (arith, h) in rw none_left refl

no-prefix :
    (a b : ℕ) (s : List ℕ) → (tolower b == 0x78) ≡ false → hex_prefix (a ∷ b ∷ s) ≡ a ∷ b ∷ s
unfolding hex_prefix
no-prefix a b s h = elim (Bool-cases (a == 0x30)) [ inl e ↦ simp (e, h) refl | inr e ↦ simp e refl ]

skip-digit_char :
    (a : ℕ) (s : List ℕ) → a < 16 → drop_while isspace (digit_char a ∷ s) ≡ digit_char a ∷ s
unfolding drop_while
skip-digit_char a s h = rw (isspace-digit_char a h) refl

sign-digit_char :
    (a : ℕ) (s : List ℕ) → a < 16 → sign (digit_char a ∷ s) ≡ (false, digit_char a ∷ s)
unfolding sign
sign-digit_char a s h = rw (digit_char-minus a h) (rw (digit_char-plus a h) refl)

magnitude-digit_char :
    (a : ℕ) (s : List ℕ)
    → a < 16
    → magnitude isxdigit 16 false (digit_char a ∷ s)
      ≡ some (strtoul isxdigit 16 0 (digit_char a ∷ s), drop_while isxdigit s)
unfolding magnitude drop_while
magnitude-digit_char a s h = rw (isxdigit-digit_char a h) refl

hexadecimal-digits :
    (width a : ℕ) (t s : List ℕ)
    → a < 16
    → split_at width (digit_char a ∷ t ++ s) ≡ (digit_char a ∷ t, s)
    → hex_prefix (digit_char a ∷ t) ≡ digit_char a ∷ t
    → drop_while isxdigit t ≡ []
    → hexadecimal width (digit_char a ∷ t ++ s) ≡ some (strtoul isxdigit 16 0 (digit_char a ∷ t), s)
unfolding hexadecimal
hexadecimal-digits width a t s h cut plain left =
    let n = strtoul isxdigit 16 0 (digit_char a ∷ t) in
    ap (λ q. behind (unsigned (sign q.0)) q.1)
      (ap (λ u. split_at width u) (skip-digit_char a (t ++ s) h) ∙ cut)
    ∙ ap (λ q. behind (unsigned q) s) (sign-digit_char a t h)
    ∙ ap (λ u. behind (magnitude isxdigit 16 false u) s) plain
    ∙ ap (λ m. behind m s) (magnitude-digit_char a t h)
    ∙ ap (λ u. some (n, u ++ s)) left

hexadecimal-word :
    (a b c d : ℕ) (s : List ℕ)
    → a < 16
    → b < 16
    → c < 16
    → d < 16
    → hexadecimal 4 (digit_char a ∷ digit_char b ∷ digit_char c ∷ digit_char d ∷ s)
      ≡ some (((a * 16 + b) * 16 + c) * 16 + d, s)
hexadecimal-word a b c d s ha hb hc hd =
    let t = digit_char b ∷ digit_char c ∷ digit_char d ∷ [] in
    let read : strtoul isxdigit 16 0 (digit_char a ∷ t)
        ≡ (((0 * 16 + a) * 16 + b) * 16 + c) * 16 + d =
      strtoul-xdigit 0 a t ha (omega (arith, ha))
      ∙ strtoul-xdigit (0 * 16 + a) b (digit_char c ∷ digit_char d ∷ []) hb (omega (arith, ha, hb))
      ∙ strtoul-xdigit ((0 * 16 + a) * 16 + b) c (digit_char d ∷ []) hc (omega (arith, ha, hb, hc))
      ∙ strtoul-xdigit (((0 * 16 + a) * 16 + b) * 16 + c) d [] hd (omega (arith, ha, hb, hc, hd))
      ∙ strtoul-nil _ in
    let left : drop_while isxdigit t ≡ [] =
      drop-xdigit b (digit_char c ∷ digit_char d ∷ []) hb
      ∙ drop-xdigit c (digit_char d ∷ []) hc
      ∙ drop-xdigit d [] hd
      ∙ drop-nil in
    let plain : hex_prefix (digit_char a ∷ t) ≡ digit_char a ∷ t =
      no-prefix (digit_char a) (digit_char b) (digit_char c ∷ digit_char d ∷ [])
        (digit_char-letter b hb) in
    hexadecimal-digits 4 a t s ha refl plain left ∙ ap (λ n. some (n, s)) (read ∙ omega arith)

hexadecimal-byte :
    (a b : ℕ) (s : List ℕ)
    → a < 16
    → b < 16
    → hexadecimal 2 (digit_char a ∷ digit_char b ∷ s) ≡ some (a * 16 + b, s)
hexadecimal-byte a b s ha hb =
    let t = digit_char b ∷ [] in
    let read : strtoul isxdigit 16 0 (digit_char a ∷ t) ≡ (0 * 16 + a) * 16 + b =
      strtoul-xdigit 0 a t ha (omega (arith, ha))
      ∙ strtoul-xdigit (0 * 16 + a) b [] hb (omega (arith, ha, hb))
      ∙ strtoul-nil _ in
    let plain : hex_prefix (digit_char a ∷ t) ≡ digit_char a ∷ t =
      no-prefix (digit_char a) (digit_char b) [] (digit_char-letter b hb) in
    hexadecimal-digits 2 a t s ha refl plain (drop-xdigit b [] hb ∙ drop-nil)
    ∙ ap (λ n. some (n, s)) (read ∙ omega arith)

-- A number of 16 bits is read as it was printed, and nothing behind it is.
pub hexadecimal-number_word :
    (v : ℕ) (s : List ℕ) → v < 2 ^ 16 → hexadecimal 4 (number 16 20 4 v s) ≡ some (v, s)
hexadecimal-number_word v s h =
    ap (λ t. hexadecimal 4 t) (number-word v s h)
    ∙ hexadecimal-word (v / 16 / 16 / 16 % 16) (v / 16 / 16 % 16) (v / 16 % 16) (v % 16) s
        (omega arith) (omega arith) (omega arith) (omega arith)
    ∙ ap (λ n. some (n, s)) (omega (arith, h))

-- A number of 16 bits starts without a space.
pub skip-word :
    (v : ℕ) (s : List ℕ) → v < 2 ^ 16 → drop_while isspace (number 16 20 4 v s) ≡ number 16 20 4 v s
skip-word v s h = rw (number-word v s h) (skip-digit_char (v / 16 / 16 / 16 % 16) _ (omega arith))

pub skip-byte :
    (v : ℕ) (s : List ℕ) → v < 2 ^ 8 → drop_while isspace (number 16 20 2 v s) ≡ number 16 20 2 v s
skip-byte v s h = rw (number-byte v s h) (skip-digit_char (v / 16 % 16) _ (omega arith))

-- So is a number of 8 bits.
pub hexadecimal-number_byte :
    (v : ℕ) (s : List ℕ) → v < 2 ^ 8 → hexadecimal 2 (number 16 20 2 v s) ≡ some (v, s)
hexadecimal-number_byte v s h =
    ap (λ t. hexadecimal 2 t) (number-byte v s h)
    ∙ hexadecimal-byte (v / 16 % 16) (v % 16) s (omega arith) (omega arith)
    ∙ ap (λ n. some (n, s)) (omega (arith, h))
