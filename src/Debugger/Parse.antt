-- ===== src/Debugger/Parse.antt =====
-- src/debugger/debugger.c: is_dec_do_parse, is_hex_do_parse and is_addr_do_parse, and what the
-- debugger uses of the C library on strings, in the C locale. A string is the list of its
-- characters, without the NUL at its end.
use Prim.Native.Char.{code}
use Prim.Native.String.{String}
use ce.Base.{
  ℕ, ◌+◌, ◌-◌, ◌*◌, ◌^◌, u32, Bool, true, false, ◌&&◌, ◌||◌, leb, ltb, ◌==◌, if◌then◌else◌, Option,
  none, some, List, [], ◌∷◌,
}
use ce.Debugger.Symbols.{SymbolTable, st_resolve_by_ident}

-- The characters of a string literal.
abbrev pub codes : String → List ℕ
codes String.[] = []
codes (String.◌∷◌ c s) = code c ∷ codes s

-- `strcmp(a, b) == 0`
abbrev pub str_eq : List ℕ → List ℕ → Bool
str_eq [] [] = true
str_eq (a ∷ s) (b ∷ t) = a == b && str_eq s t
str_eq _ _ = false

abbrev pub within : ℕ → ℕ → ℕ → Bool
within lo hi c = leb lo c && leb c hi

abbrev pub isspace : ℕ → Bool
isspace c = c == 0x20 || within 0x09 0x0d c

abbrev pub isdigit : ℕ → Bool
isdigit c = within 0x30 0x39 c

abbrev pub isxdigit : ℕ → Bool
isxdigit c = within 0x30 0x39 c || within 0x41 0x46 c || within 0x61 0x66 c

abbrev pub tolower : ℕ → ℕ
tolower c = if within 0x41 0x5a c then c + 32 else c

-- The value of a digit, and what strtoul makes of the digits at the start of a string, from the
-- value `v` of those before; it stops at ULONG_MAX.
abbrev pub digit_value : ℕ → ℕ
digit_value c = if leb c 0x39 then c - 0x30 else if leb c 0x46 then c - 0x37 else c - 0x57

unfoldable pub strtoul : (ℕ → Bool) → ℕ → ℕ → List ℕ → ℕ
strtoul digit base v [] = v
strtoul digit base v (c ∷ s) =
    let w = v * base + digit_value c in
    let rest = strtoul digit base (if ltb w (2 ^ 64) then w else 2 ^ 64 - 1) s in
    if digit c then rest else v

-- Whether the characters for which `digit` holds go on to the end of the string or to a newline.
unfoldable pub scan : (ℕ → Bool) → List ℕ → Bool
scan digit [] = true
scan digit (c ∷ s) = let rest = scan digit s in if digit c then rest else c == 0x0a

-- The option is what is written to `*val`.
unfoldable pub is_dec_do_parse : List ℕ → Option ℕ
is_dec_do_parse str = if scan isdigit str then some (u32 (strtoul isdigit 10 0 str)) else none

unfoldable pub is_hex_do_parse : List ℕ → Option ℕ
is_hex_do_parse str = if scan isxdigit str then some (u32 (strtoul isxdigit 16 0 str)) else none

unfoldable pub is_addr_do_parse : List ℕ → SymbolTable → Option ℕ
unfolding is_hex_do_parse
is_addr_do_parse str st = elim (st_resolve_by_ident st str) [
  | some sym ↦ some sym.addr
  | none ↦ is_hex_do_parse str
]
