-- ===== src/Debugger/Load/Bounds.antt =====
-- How far a load can write (src/debugger/debugger.c, load_file_mem).
use mathlib.Core.List.{append-nil}
use ce.Base.{
  ℕ, zero, suc, ◌+◌, ◌-◌, ◌*◌, ◌/◌, ◌^◌, ◌<◌, ◌≤◌, ◌≡◌, u8, refl, Bool, true, false, Option, some,
  none, List, [], ◌∷◌, length, arith, ◌==◌, ltb, if◌then◌else◌, Bool-cases, ◌&&◌, not, inl, inr,
  ◌⊎◌, ◌∙◌, ap, sym,
}
use ce.Cpu.State.{Memory}
use ce.Cpu.Memory.Arrays.{init_mem_arr}
use ce.Cpu.Memory.Arrays.Copies.{init_mem_arr-outside, init_mem_arr-inside}
use ce.Debugger.Load.Sections.{read_bytes-append}
use ce.Debugger.Load.{
  CmdErr, File, basic_bin_block, llvm_mos_sim, buffer, read_bytes, load_basic, load_sections,
  load_file_mem,
}

-- The result of a load of sections: what it reports, and that it wrote below 0x1fffe only.
abbrev Loaded : Memory → Option (CmdErr × Memory) → Type 0
Loaded mem none = ⊥
Loaded mem (some (e, mem')) =
    ((e ≡ CmdErr.ok) ⊎ ((e ≡ CmdErr.file_corrupt) ⊎ (e ≡ CmdErr.out_of_mem)))
    × ((a : ℕ) → 0x1fffe ≤ a → mem'.val a ≡ mem.val a)

Loaded-after :
    (m m' : Memory) (r : Option (CmdErr × Memory))
    → ((a : ℕ) → 0x1fffe ≤ a → m'.val a ≡ m.val a)
    → Loaded m' r
    → Loaded m r
Loaded-after m m' none k h = h
Loaded-after m m' (some (e, n)) k h = (h.0, λ a l. h.1 a l ∙ k a l)

read_bytes-shorter :
    (n : ℕ) (bs got rest : List ℕ) → read_bytes n bs ≡ some (got, rest) → length rest ≤ length bs
unfolding read_bytes
read_bytes-shorter zero bs got rest e = ground arith
read_bytes-shorter (suc n) [] got rest e = cc
read_bytes-shorter (suc n) (b ∷ bs) got rest e = go (read_bytes n bs) refl (read_bytes-shorter n bs)
  where
    go :
        (o : Option (List ℕ × List ℕ))
        → read_bytes n bs ≡ o
        → ((g r : List ℕ) → read_bytes n bs ≡ some (g, r) → length r ≤ length bs)
        → length rest ≤ suc (length bs)
    go none p ih = cc
    go (some (g, r)) p ih = ground (arith, p, ih g r p)

module _ (mem : Memory) (base len : ℕ) (bs : List ℕ) where
  -- A section that is read is within bounds, and the rest of the file is not longer.
  read_section :
      (cont : List ℕ → Memory → Option (CmdErr × Memory))
      → base + len ≤ 0x1fffe
      → ((rest : List ℕ) (m : Memory) → length rest ≤ length bs → Loaded m (cont rest m))
      → Loaded mem (elim (read_bytes len bs) [
        | none ↦ some (CmdErr.file_corrupt, mem)
        | some (tmp, rest) ↦ cont rest (init_mem_arr (buffer tmp) base len mem)
      ])
  read_section cont h k = go (read_bytes len bs) refl
    where
      go :
          (o : Option (List ℕ × List ℕ))
          → read_bytes len bs ≡ o
          → Loaded mem (elim o [
            | none ↦ some (CmdErr.file_corrupt, mem)
            | some (tmp, rest) ↦ cont rest (init_mem_arr (buffer tmp) base len mem)
          ])
      go none p = (inr (inl refl), λ a l. refl)
      go (some (tmp, rest)) p =
          let m = init_mem_arr (buffer tmp) base len mem in
          Loaded-after mem m (cont rest m)
            (λ a l.
              init_mem_arr-outside (buffer tmp) base len a mem (omega arith) (inr (omega arith)))
            (k rest m (read_bytes-shorter len bs tmp rest p))

-- With fuel for every byte the loop ends.
load_sections-Loaded :
    (malloc : ℕ → Bool) (fuel max_len : ℕ) (bs : List ℕ) (mem : Memory)
    → length bs < fuel
    → Loaded mem (load_sections malloc fuel max_len bs mem)
unfolding load_sections
load_sections-Loaded malloc zero max_len bs mem l = absurd (omega arith)
load_sections-Loaded malloc (suc fuel) max_len [] mem l = (inl refl, λ a h. refl)
load_sections-Loaded malloc (suc fuel) max_len (_ ∷ []) mem l = (inr (inl refl), λ a h. refl)
load_sections-Loaded malloc (suc fuel) max_len (_ ∷ _ ∷ []) mem l = (inr (inl refl), λ a h. refl)
load_sections-Loaded malloc (suc fuel) max_len (_ ∷ _ ∷ _ ∷ []) mem l =
    (inr (inl refl), λ a h. refl)
load_sections-Loaded malloc (suc fuel) max_len (bl ∷ bh ∷ ll ∷ lh ∷ bs) mem l =
    let base_addr = u8 bh * 2 ^ 8 + u8 bl in
    let len = u8 lh * 2 ^ 8 + u8 ll in
    let fits : ltb 0x1000000 (base_addr + len) ≡ false = ground arith in
    let empty = load_sections-Loaded malloc fuel max_len bs mem (omega arith) in
    elim (Bool-cases (len == 0)) [
      | inl e ↦ rw e empty
      | inr e ↦
          rw (e, fits)
            (elim (Bool-cases (ltb max_len len && not (malloc len))) [
              | inl c ↦ rw c (inr (inr refl), λ a h. refl)
              | inr c ↦ rw c (
                  read_section mem base_addr len bs
                    (load_sections malloc fuel (if ltb max_len len then len else max_len))
                    (omega arith)
                    (λ rest m s.
                      load_sections-Loaded malloc fuel (if ltb max_len len then len else max_len)
                        rest m (omega arith)))
            ])
    ]

-- A file in the format of the LLVM-MOS simulator that can be opened is loaded to its end or refused
-- as corrupt or for want of memory: the load ends, never reports CMD_FILE_WILL_WRAP, and, whatever
-- the file holds, changes no byte at or above 0x1fffe.
pub load_sections-bounds :
    (f : File) (base_addr : ℕ) (mem : Memory)
    → f.stat_error ≡ none
    → f.opens ≡ true
    → (e : CmdErr) × (m : Memory) × (load_file_mem f base_addr llvm_mos_sim mem ≡ some (e, m))
      × ((e ≡ CmdErr.ok) ⊎ ((e ≡ CmdErr.file_corrupt) ⊎ (e ≡ CmdErr.out_of_mem)))
      × ((a : ℕ) → 0x1fffe ≤ a → m.val a ≡ mem.val a)
unfolding load_file_mem
load_sections-bounds f base_addr mem s o =
    rw (s, o)
      (returned (load_sections f.malloc (length f.bytes + 1) 0 f.bytes mem)
        (load_sections-Loaded f.malloc (length f.bytes + 1) 0 f.bytes mem (omega arith)))
  where
    returned :
        (r : Option (CmdErr × Memory))
        → Loaded mem r
        → (e : CmdErr) × (m : Memory) × (r ≡ some (e, m))
          × ((e ≡ CmdErr.ok) ⊎ ((e ≡ CmdErr.file_corrupt) ⊎ (e ≡ CmdErr.out_of_mem)))
          × ((a : ℕ) → 0x1fffe ≤ a → m.val a ≡ mem.val a)
    returned none h = absurd h
    returned (some (e, m)) h = (e, m, refl, h.0, h.1)

all_bytes : (bs : List ℕ) → read_bytes (length bs) bs ≡ some (bs, [])
all_bytes bs = let e = read_bytes-append bs [] in rw append-nil at e

-- A block that ends behind the 2 ^ 24 bytes of the memory is accepted as long as half its size
-- would fit: the load reports CMD_OK, and the first byte behind the memory is written, with the
-- byte of the block that falls there.
pub load_basic-overflows :
    (f : File) (base_addr : ℕ) (mem : Memory)
    → f.stat_error ≡ none
    → f.opens ≡ true
    → ((n : ℕ) → f.malloc n ≡ true)
    → f.size ≡ length f.bytes
    → base_addr ≤ 0xffffff
    → f.size / 2 + base_addr ≤ 0x1000000
    → 0x1000000 < base_addr + f.size
    → (m : Memory) × (load_file_mem f base_addr basic_bin_block mem ≡ some (CmdErr.ok, m))
      × (m.val 0x1000000 ≡ u8 (buffer f.bytes (0x1000000 - base_addr)))
unfolding load_file_mem load_basic
load_basic-overflows f base_addr mem s o m z b h g =
    let all : read_bytes f.size f.bytes ≡ some (f.bytes, []) = rw z (all_bytes f.bytes) in
    let top : base_addr + (0x1000000 - base_addr) ≡ 0x1000000 = omega arith in
    let small : ltb 0x1000000 (f.size / 2) ≡ false = ground arith in
    let fits : ltb 0x1000000 (f.size / 2 + base_addr) ≡ false = ground arith in
    let i =
      init_mem_arr-inside (buffer f.bytes) base_addr f.size (0x1000000 - base_addr) mem
        (omega arith) (omega arith) in
    (
      init_mem_arr (buffer f.bytes) base_addr f.size mem,
      rw (s, o, small, fits, m f.size) (rw all),
      ap (init_mem_arr (buffer f.bytes) base_addr f.size mem).val (sym top) ∙ i,
    )
