-- ===== src/Debugger/Load/Sections.antt =====
-- Files of the LLVM-MOS simulator (src/debugger/debugger.c, load_file_mem): what is written as
-- sections is loaded as such.
use ce.Base.{
  ℕ, zero, suc, ◌+◌, ◌*◌, ◌/◌, ◌%◌, ◌^◌, ◌<◌, ◌≡◌, u8, refl, Bool, true, false, some, none, List,
  [], ◌∷◌, ◌++◌, length, arith, ◌==◌, ltb, ◌∙◌, Bool-cases, inl, inr,
}
use ce.Cpu.State.{Memory}
use ce.Cpu.Memory.Arrays.{init_mem_arr}
use ce.Debugger.Load.{CmdErr, File, llvm_mos_sim, buffer, read_bytes, load_sections, load_file_mem}

-- A section: where its bytes go.
pub record Section : Type 0 where
  pub base : ℕ
  pub content : List ℕ

-- The base and the length as two bytes each, low byte first, and the bytes.
abbrev pub encode : Section → List ℕ
encode s =
    s.base % 2 ^ 8
    ∷ s.base / 2 ^ 8
    ∷ length s.content % 2 ^ 8
    ∷ length s.content / 2 ^ 8
    ∷ s.content

abbrev pub encode_all : List Section → List ℕ
encode_all [] = []
encode_all (s ∷ ss) = encode s ++ encode_all ss

abbrev pub Encodable : List Section → Type 0
Encodable [] = Unit
Encodable (s ∷ ss) = (s.base < 2 ^ 16) × (length s.content < 2 ^ 16) × Encodable ss

-- The sections in memory, later ones over earlier ones.
abbrev pub place_all : List Section → Memory → Memory
place_all [] mem = mem
place_all (s ∷ ss) mem =
    place_all ss (init_mem_arr (buffer s.content) s.base (length s.content) mem)

pub read_bytes-append : (bs rest : List ℕ) → read_bytes (length bs) (bs ++ rest) ≡ some (bs, rest)
unfolding read_bytes
read_bytes-append [] rest = refl
read_bytes-append (b ∷ bs) rest = rw (read_bytes-append bs rest)

joined : (n : ℕ) → n < 2 ^ 16 → u8 (n / 2 ^ 8) * 2 ^ 8 + u8 (n % 2 ^ 8) ≡ n
joined n h = omega arith

load_section :
    (malloc : ℕ → Bool) (fuel max_len base : ℕ) (bs rest : List ℕ) (mem : Memory)
    → ((n : ℕ) → malloc n ≡ true)
    → base < 2 ^ 16
    → length bs < 2 ^ 16
    → (m : ℕ) × (load_sections malloc
          (suc fuel)
          max_len
          (encode (record { base = base; content = bs }) ++ rest)
          mem
        ≡ load_sections malloc fuel m rest (init_mem_arr (buffer bs) base (length bs) mem))
unfolding load_sections init_mem_arr
load_section malloc fuel max_len base [] rest mem ok b l = (max_len, refl)
load_section malloc fuel max_len base (c ∷ cs) rest mem ok b l =
    let n = length (c ∷ cs) in
    let full : (n == 0) ≡ false = ground arith in
    let fits : ltb 0x1000000 (base + n) ≡ false = ground arith in
    elim (Bool-cases (ltb max_len n)) [
      | inl e ↦ (
        n,
        rw (joined base b, joined n l)
            (rw (full, fits, e, ok n, read_bytes-append (c ∷ cs) rest)
              (rw (joined base b, joined n l, e))),
      )
      | inr e ↦ (
        max_len,
        rw (joined base b, joined n l)
            (rw (full, fits, e, read_bytes-append (c ∷ cs) rest)
              (rw (joined base b, joined n l, e))),
      )
    ]

length-append : (xs ys : List ℕ) → length (xs ++ ys) ≡ length xs + length ys
length-append [] ys = omega arith
length-append (x ∷ xs) ys = omega (arith, length-append xs ys)

load_all :
    (malloc : ℕ → Bool) (fuel max_len : ℕ) (ss : List Section) (mem : Memory)
    → ((n : ℕ) → malloc n ≡ true)
    → Encodable ss
    → length (encode_all ss) < fuel
    → load_sections malloc fuel max_len (encode_all ss) mem ≡ some (CmdErr.ok, place_all ss mem)
load_all malloc zero max_len ss mem ok h l = absurd (omega arith)
load_all malloc (suc fuel) max_len [] mem ok h l = unfold load_sections in refl
load_all malloc (suc fuel) max_len (s ∷ ss) mem ok h l =
    let (m, e) = load_section malloc fuel max_len s.base s.content (encode_all ss) mem ok h.0 h.1 in
    e
    ∙ load_all malloc fuel m ss (init_mem_arr (buffer s.content) s.base (length s.content) mem) ok
        h.2 (omega (arith, length-append (encode s) (encode_all ss)))

-- A file of sections loads, at whatever base address: the result is CMD_OK, and the memory holds
-- the bytes of each section from its own base on, those of a later section over an earlier one's.
pub load_file_mem-encode :
    (f : File) (base_addr : ℕ) (ss : List Section) (mem : Memory)
    → f.stat_error ≡ none
    → f.opens ≡ true
    → f.bytes ≡ encode_all ss
    → ((n : ℕ) → f.malloc n ≡ true)
    → Encodable ss
    → load_file_mem f base_addr llvm_mos_sim mem ≡ some (CmdErr.ok, place_all ss mem)
unfolding load_file_mem
load_file_mem-encode f base_addr ss mem e o b m h =
    rw (e, o, b) (load_all f.malloc (length (encode_all ss) + 1) 0 ss mem m h (omega arith))
