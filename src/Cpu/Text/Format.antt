-- ===== src/Cpu/Text/Format.antt =====
-- What src/cpu/65816.c uses of sprintf and sscanf, in the C locale. A string is the list of its
-- characters, without the NUL at its end.
use Prim.Native.Char.{code}
use Prim.Native.String.{String}
use ce.Base.{
  ℕ, zero, suc, ◌+◌, ◌-◌, ◌/◌, ◌%◌, ◌^◌, u8, u16, u32, u64, Bool, true, false, ◌&&◌, ltb, ◌==◌,
  if◌then◌else◌, Option, none, some, List, [], ◌∷◌, ◌++◌,
}
use ce.Debugger.Parse.{isspace, isdigit, isxdigit, tolower, strtoul}

-- A space, another character, and the conversions: `%04x` and `%04hx`, `%02x` and `%02hhx`, `%d`,
-- and that of PRIu64.
pub data Directive : Type 0 where
  blank : Directive
  lit : ℕ → Directive
  word byte int long : Directive

-- The directives of a part of a format that has no conversion.
abbrev pub chars : String → List Directive → List Directive
chars String.[] f = f
chars (String.◌∷◌ c s) f = (if code c == 0x20 then blank else lit (code c)) ∷ chars s f

abbrev pub digit_char : ℕ → ℕ
digit_char k = if ltb k 10 then 0x30 + k else 0x57 + k

-- The digits of `v` in front of `acc`, at least `least` of them.
unfoldable pub number : ℕ → ℕ → ℕ → ℕ → List ℕ → List ℕ
number base zero least v acc = acc
number base (suc k) least v acc =
    let rest = number base k (least - 1) (v / base) (digit_char (v % base) ∷ acc) in
    if least == 0 && v == 0 then acc else rest

-- A number of 64 bits has at most twenty digits. An argument that is missing is undefined behaviour.
unfoldable pub sprintf : List Directive → List ℕ → List ℕ
sprintf [] vs = []
sprintf (blank ∷ f) vs = 0x20 ∷ sprintf f vs
sprintf (lit c ∷ f) vs = c ∷ sprintf f vs
sprintf (word ∷ f) (v ∷ vs) = number 16 20 4 v (sprintf f vs)
sprintf (byte ∷ f) (v ∷ vs) = number 16 20 2 v (sprintf f vs)
sprintf (int ∷ f) (v ∷ vs) = number 10 20 1 v (sprintf f vs)
sprintf (long ∷ f) (v ∷ vs) = number 10 20 1 v (sprintf f vs)
sprintf (_ ∷ f) [] = []

unfoldable pub drop_while : (ℕ → Bool) → List ℕ → List ℕ
drop_while test [] = []
drop_while test (c ∷ s) = let rest = drop_while test s in if test c then rest else c ∷ s

-- The first `n` characters, and those behind them.
abbrev pub split_at : ℕ → List ℕ → List ℕ × List ℕ
split_at zero s = ([], s)
split_at (suc n) [] = ([], [])
split_at (suc n) (c ∷ s) = let (t, u) = split_at n s in (c ∷ t, u)

-- An optional sign, and whether it is a minus.
unfoldable pub sign : List ℕ → Bool × List ℕ
sign [] = (false, [])
sign (c ∷ s) = if c == 0x2d then (true, s) else if c == 0x2b then (false, s) else (false, c ∷ s)

unfoldable pub hex_prefix : List ℕ → List ℕ
hex_prefix (a ∷ b ∷ s) = if a == 0x30 && tolower b == 0x78 then s else a ∷ b ∷ s
hex_prefix s = s

-- An integer and what follows it. A minus gives the number that stands for the negative one.
unfoldable pub magnitude : (ℕ → Bool) → ℕ → Bool → List ℕ → Option (ℕ × List ℕ)
unfolding drop_while
magnitude test base minus [] = none
magnitude test base minus (c ∷ s) =
    let n = strtoul test base 0 (c ∷ s) in
    if test c then some (if minus then u64 (2 ^ 64 - n) else n, drop_while test (c ∷ s)) else none

abbrev pub unsigned : Bool × List ℕ → Option (ℕ × List ℕ)
unsigned (minus, t) = magnitude isxdigit 16 minus (hex_prefix t)

abbrev pub behind : Option (ℕ × List ℕ) → List ℕ → Option (ℕ × List ℕ)
behind none after = none
behind (some (n, rest)) after = some (n, rest ++ after)

unfoldable pub hexadecimal : ℕ → List ℕ → Option (ℕ × List ℕ)
hexadecimal width s =
    let (item, after) = split_at width (drop_while isspace s) in behind (unsigned (sign item)) after

unfoldable pub decimal : List ℕ → Option (ℕ × List ℕ)
unfolding drop_while sign magnitude
decimal s = let (minus, t) = sign (drop_while isspace s) in magnitude isdigit 10 minus t

-- The value that a conversion stores, in front of those of the directives behind it.
abbrev pub stored : (ℕ → ℕ) → Option (ℕ × List ℕ) → (List ℕ → List ℕ) → List ℕ
stored cast none go = []
stored cast (some (n, s)) go = cast n ∷ go s

-- The values that are stored before the text ends or does not match. Overflow is undefined behaviour.
unfoldable pub sscanf : List Directive → List ℕ → List ℕ
unfolding drop_while hexadecimal decimal
sscanf [] s = []
sscanf (blank ∷ f) s = sscanf f (drop_while isspace s)
sscanf (lit c ∷ f) [] = []
sscanf (lit c ∷ f) (d ∷ s) = let rest = sscanf f s in if c == d then rest else []
sscanf (word ∷ f) s = stored u16 (hexadecimal 4 s) (λ t. sscanf f t)
sscanf (byte ∷ f) s = stored u8 (hexadecimal 2 s) (λ t. sscanf f t)
sscanf (int ∷ f) s = stored u32 (decimal s) (λ t. sscanf f t)
sscanf (long ∷ f) s = stored u64 (decimal s) (λ t. sscanf f t)
