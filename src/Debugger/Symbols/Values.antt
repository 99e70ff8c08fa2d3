-- ===== src/Debugger/Symbols/Values.antt =====
-- How src/debugger/symbols.c reads the value of a symbol.
use ce.Base.{
  ℕ, ◌+◌, ◌*◌, ◌^◌, ◌≡◌, ◌≤◌, u32, bit_and, true, false, ◌==◌, Option, none, some, List, [], ◌∷◌,
  ◌++◌, refl, ap, sym, ◌∙◌, arith,
}
use ce.Base.Bits.{bit_and_nibble}
use ce.Util.Hashtable.{LoadTests}
use ce.Debugger.Symbols.{
  Ctype, Loader, Phase, hex_value, dec_value, before_value, newline, hex_digit, end_line, load_char,
  st_load_file,
}

-- What the development relies on of ctype.h.
pub record CtypeOk (ct : Ctype) : Type 0 where
  pub digit_range : (c : ℕ) → ct.isdigit c ≡ true → (0x30 ≤ c) × (c ≤ 0x39)
  pub digit_xdigit : (c : ℕ) → ct.isdigit c ≡ true → ct.isxdigit c ≡ true
  pub digit_space : (c : ℕ) → ct.isdigit c ≡ true → ct.isspace c ≡ false
  pub dollar_space : ct.isspace 0x24 ≡ false
  pub newline_digit : ct.isdigit newline ≡ false
  pub newline_xdigit : ct.isxdigit newline ≡ false

abbrev pub AllDigits : Ctype → List ℕ → Type 0
AllDigits ct [] = Unit
AllDigits ct (c ∷ s) = (ct.isdigit c ≡ true) × AllDigits ct s

-- In a value, with the address read so far.
abbrev valued : Phase → ℕ → Loader → Loader
valued p v l = record l { phase = p; addr = v; done = false }

abbrev shifted : ℕ → ℕ → ℕ
shifted v d = u32 (u32 (v * 2 ^ 4) + d)

-- One character of the loop.
load_step :
    (ct : Ctype) (t : LoadTests) (c : ℕ) (file : List ℕ) (p : Phase) (v : ℕ) (l l' : Loader)
    → load_char ct t c p (valued p v l) ≡ some l'
    → st_load_file ct t (c ∷ file) (valued p v l) ≡ st_load_file ct t file l'
unfolding st_load_file
load_step ct t c file p v l l' e =
    ap (λ (o : Option Loader). elim o [ none ↦ none | some x ↦ st_load_file ct t file x ]) e

hex-digit :
    (ct : Ctype) (t : LoadTests) (c v : ℕ) (l : Loader)
    → ct.isxdigit c ≡ true
    → load_char ct t c hex_value (valued hex_value v l)
      ≡ some (valued hex_value (shifted v (hex_digit c)) l)
unfolding load_char
hex-digit ct t c v l e = rw (load_char, e) refl

dec-digit :
    (ct : Ctype) (t : LoadTests) (c v : ℕ) (l : Loader)
    → ct.isdigit c ≡ true
    → load_char ct t c dec_value (valued dec_value v l)
      ≡ some (valued dec_value (shifted v (bit_and c 0xf)) l)
unfolding load_char
dec-digit ct t c v l e = rw (load_char, e) refl

dollar :
    (ct : Ctype) (t : LoadTests) (v : ℕ) (l : Loader)
    → ct.isspace 0x24 ≡ false
    → load_char ct t 0x24 before_value (valued before_value v l) ≡ some (valued hex_value 0 l)
unfolding load_char
dollar ct t v l e = rw (load_char, e) refl

first_digit :
    (ct : Ctype) (t : LoadTests) (c v : ℕ) (l : Loader)
    → ct.isspace c ≡ false
    → ct.isdigit c ≡ true
    → (c == 0x24) ≡ false
    → load_char ct t c before_value (valued before_value v l)
      ≡ some (valued dec_value (bit_and c 0xf) l)
unfolding load_char
first_digit ct t c v l e f g = rw (load_char, e, f, g) refl

last_line :
    (ct : Ctype) (t : LoadTests) (v : ℕ) (l : Loader)
    → ct.isdigit newline ≡ false
    → ct.isxdigit newline ≡ false
    → load_char ct t newline hex_value (valued hex_value v l)
      ≡ load_char ct t newline dec_value (valued dec_value v l)
unfolding load_char end_line
last_line ct t v l e f = rw (load_char, e, f) refl

-- The digits to the end of the line, read in either state.
same_digits :
    (ct : Ctype) (t : LoadTests) (digits file : List ℕ) (v : ℕ) (l : Loader)
    → CtypeOk ct
    → AllDigits ct digits
    → st_load_file ct t (digits ++ newline ∷ file) (valued hex_value v l)
      ≡ st_load_file ct t (digits ++ newline ∷ file) (valued dec_value v l)
unfolding st_load_file
same_digits ct t [] file v l ok h =
    ap (λ (o : Option Loader). elim o [ none ↦ none | some x ↦ st_load_file ct t file x ])
      (last_line ct t v l ok.newline_digit ok.newline_xdigit)
same_digits ct t (c ∷ digits) file v l ok h =
    let rest = digits ++ newline ∷ file in
    let d : hex_digit c ≡ bit_and c 0xf = digit_value (ok.digit_range c h.0).1 in
    load_step ct t c rest hex_value v l _ (hex-digit ct t c v l (ok.digit_xdigit c h.0))
    ∙ ap (λ (x : ℕ). st_load_file ct t rest (valued hex_value (shifted v x) l)) d
    ∙ same_digits ct t digits file (shifted v (bit_and c 0xf)) l ok h.1
    ∙ sym (load_step ct t c rest dec_value v l _ (dec-digit ct t c v l h.0))
  where
    digit_value : c ≤ 0x39 → hex_digit c ≡ bit_and c 0xf
    digit_value r = ground arith

-- A decimal value is read as the same digits after a `$`: from the place of the value on, the loader
-- does with both lines the same, so that it enters the symbol with the hexadecimal value.
pub decimal-as_hex :
    (ct : Ctype) (t : LoadTests) (d : ℕ) (digits file : List ℕ) (v : ℕ) (l : Loader)
    → CtypeOk ct
    → AllDigits ct (d ∷ digits)
    → let start = record l { phase = before_value; addr = v; done = false } in
      st_load_file ct t (d ∷ digits ++ newline ∷ file) start
      ≡ st_load_file ct t (0x24 ∷ d ∷ digits ++ newline ∷ file) start
decimal-as_hex ct t d digits file v l ok h =
    let rest = digits ++ newline ∷ file in
    let r = ok.digit_range d h.0 in
    let n : (d == 0x24) ≡ false = ground arith in
    let e : shifted 0 (hex_digit d) ≡ bit_and d 0xf = ground (arith, bit_and_nibble d) in
    load_step ct t d rest before_value v l _ (first_digit ct t d v l (ok.digit_space d h.0) h.0 n)
    ∙ sym (same_digits ct t digits file (bit_and d 0xf) l ok h.1)
    ∙ sym (ap (λ (x : ℕ). st_load_file ct t rest (valued hex_value x l)) e)
    ∙ sym (load_step ct t d rest hex_value 0 l _ (hex-digit ct t d 0 l (ok.digit_xdigit d h.0)))
    ∙ sym (load_step ct t 0x24 (d ∷ rest) before_value v l _ (dollar ct t v l ok.dollar_space))
