-- ===== src/Debugger/Symbols.antt =====
-- src/debugger/symbols.c: symbols read from a file into two hash tables, by name and by address.
-- `malloc` gives memory, and the file has no NUL. A `none` stands for a write outside of the array
-- `ident`, or for a call of the hash table that gives none.
pub mod Enter
pub mod Values
use ce.Base.{
  ℕ, ◌+◌, ◌*◌, ◌^◌, ◌%◌, ◌≡◌, u32, bit_and, Bool, true, false, ◌||◌, ◌&&◌, not, ltb, leb, ◌==◌,
  if◌then◌else◌, Option, none, some, List, [], ◌∷◌, ◌++◌, length,
}
use ce.Util.Hashtable.{Table, LoadTests}
use ce.Util.Hashtable.Calls.{ht_put, ht_get, ht_contains_key}
use ce.Util.Hashtable.Hash.{ht_sput, ht_sget, ht_contains_skey}

-- `symbol_t`
pub record Symbol : Type 0 where
  pub ident : List ℕ
  pub addr : ℕ

-- `symbol_table_t`
pub record SymbolTable : Type 0 where
  pub by_ident : Table Symbol
  pub by_addr : Table Symbol

-- `st_status_t`, the statuses of a load.
pub data Status : Type 0 where
  ok : Status
  missing_delim : Status
  missing_value : Status
  unexpected_char : Status

-- The states 0 to 10 of st_load_file.
pub data Phase : Type 0 where
  line_start : Phase
  leading_space : Phase
  comment : Phase
  identifier : Phase
  after_identifier : Phase
  expect_e : Phase
  expect_q : Phase
  expect_u : Phase
  before_value : Phase
  hex_value : Phase
  dec_value : Phase

-- The functions of ctype.h on a character.
pub record Ctype : Type 0 where
  pub isspace : ℕ → Bool
  pub isdigit : ℕ → Bool
  pub isxdigit : ℕ → Bool
  pub isalnum : ℕ → Bool

-- The locals of st_load_file; `ident` is what lies in the array up to `index`.
pub record Loader : Type 0 where
  pub st : SymbolTable
  pub phase : Phase
  pub ident : List ℕ
  pub addr : ℕ
  pub linenum : ℕ
  pub done : Bool
  pub err : Status

-- IS_VALID_IDENT
abbrev pub is_valid_ident : Ctype → ℕ → Bool
is_valid_ident ct c = ct.isalnum c || c == 0x5f || c == 0x2e

abbrev pub newline : ℕ
newline = 0x0a

abbrev pub fail : Status → Loader → Option Loader
fail e l = some (record l { done = true; err = e })

abbrev pub go_to : Phase → Loader → Option Loader
go_to p l = some (record l { phase = p })

-- `ident[index++] = c`, in an array of 20.
abbrev pub add_char : ℕ → Loader → Option Loader
add_char c l =
    if ltb (length l.ident) 20 then some (record l { ident = l.ident ++ c ∷ [] }) else none

-- The symbol is entered in each table that has none with its key.
unfoldable pub enter : LoadTests → Symbol → SymbolTable → Option SymbolTable
enter t sym st =
    let new_addr = not (ht_contains_key st.by_addr sym.addr) in
    let new_ident = not (ht_contains_skey st.by_ident sym.ident) in
    elim (if new_addr then ht_put t true st.by_addr sym.addr sym else some (false, st.by_addr)) [
      | none ↦ none
      | some a ↦
          elim (if new_ident
            then ht_sput t true st.by_ident sym.ident sym
            else some (false, st.by_ident)) [
              | none ↦ none
              | some i ↦ some (record { by_ident = i.1; by_addr = a.1 })
            ]
    ]

-- The end of a line with a value.
unfoldable pub end_line : LoadTests → Loader → Option Loader
unfolding enter
end_line t l = elim (enter t (record { ident = l.ident; addr = l.addr }) l.st) [
  | none ↦ none
  | some st ↦ some (record l { st = st; linenum = l.linenum + 1; ident = []; phase = line_start })
]

-- `addr <<= 4`, and a digit added.
abbrev pub add_digit : ℕ → Loader → Option Loader
add_digit d l = some (record l { addr = u32 (u32 (l.addr * 2 ^ 4) + d) })

abbrev pub hex_digit : ℕ → ℕ
hex_digit c = if leb c 0x39 then bit_and c 0xf else bit_and c 0xf + 9

-- The switch, for a character that is not EOF.
unfoldable pub load_char : Ctype → LoadTests → ℕ → Phase → Loader → Option Loader
unfolding end_line
load_char ct t c line_start l =
    if ct.isspace c
    then some (record l {
      phase = leading_space;
      linenum = if c == newline then l.linenum + 1 else l.linenum;
    })
    else if c == 0x3b
    then go_to comment l
    else if is_valid_ident ct c && ltb (length l.ident) 20
    then add_char c (record l { phase = identifier; ident = [] })
    else some (record l { err = unexpected_char })
load_char ct t c leading_space l =
    if not (ct.isspace c) then add_char c (record l { phase = identifier; ident = [] }) else some l
load_char ct t c comment l =
    if c == newline
    then some (record l { ident = []; phase = line_start; linenum = l.linenum + 1 })
    else some l
load_char ct t c identifier l =
    if is_valid_ident ct c
    then add_char c l
    else if ct.isspace c && not (c == newline)
    then go_to after_identifier l
    else fail unexpected_char l
load_char ct t c after_identifier l =
    if not (ct.isspace c) then go_to (if c == 0x2e then expect_e else expect_q) l else some l
load_char ct t c expect_e l = if c == 0x65 then go_to expect_q l else fail missing_delim l
load_char ct t c expect_q l = if c == 0x71 then go_to expect_u l else fail missing_delim l
load_char ct t c expect_u l = if c == 0x75 then go_to before_value l else fail missing_delim l
load_char ct t c before_value l =
    if ct.isspace c
    then some l
    else if c == 0x24
    then some (record l { phase = hex_value; addr = 0 })
    else if ct.isdigit c
    then some (record l { phase = dec_value; addr = bit_and c 0xf })
    else fail missing_value l
load_char ct t c hex_value l =
    if ct.isxdigit c
    then add_digit (hex_digit c) l
    else if c == newline
    then end_line t l
    else if ct.isspace c
    then some l
    else fail unexpected_char l
load_char ct t c dec_value l =
    if ct.isdigit c
    then add_digit (bit_and c 0xf) l
    else if c == newline
    then end_line t l
    else if ct.isspace c
    then some l
    else fail unexpected_char l

-- The status at EOF: none of the tests of a character holds of it.
abbrev pub eof_status : Phase → Status → Status
eof_status identifier e = unexpected_char
eof_status expect_e e = missing_delim
eof_status expect_q e = missing_delim
eof_status expect_u e = missing_delim
eof_status before_value e = missing_value
eof_status hex_value e = unexpected_char
eof_status dec_value e = unexpected_char
eof_status line_start e = e
eof_status leading_space e = e
eof_status comment e = e
eof_status after_identifier e = e

-- The loop, on the characters of the file.
unfoldable pub st_load_file : Ctype → LoadTests → List ℕ → Loader → Option Loader
unfolding load_char
st_load_file ct t [] l =
    if l.done then some l else some (record l { done = true; err = eof_status l.phase l.err })
st_load_file ct t (c ∷ file) l = elim l.done [
  | true ↦ some l
  | false ↦ elim (load_char ct t c l.phase l) [ none ↦ none | some l' ↦ st_load_file ct t file l' ]
]

unfoldable pub st_resolve_by_ident : SymbolTable → List ℕ → Option Symbol
st_resolve_by_ident st ident = ht_sget st.by_ident ident

unfoldable pub st_resolve_by_addr : SymbolTable → ℕ → Option Symbol
st_resolve_by_addr st addr = ht_get st.by_addr addr
