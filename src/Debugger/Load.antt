-- ===== src/Debugger/Load.antt =====
-- src/debugger/debugger.c: load_file_mem. What stat, fopen and malloc give for a
-- path is a value of `File`, and a uint8_t array is a list of bytes.
pub mod Processor
pub mod Sections
pub mod Bounds
use ce.Base.{
  ℕ, zero, suc, ◌+◌, ◌*◌, ◌/◌, ◌^◌, u8, Bool, true, false, not, ◌&&◌, ltb, ◌==◌, if◌then◌else◌,
  Option, none, some, List, [], ◌∷◌, length,
}
use ce.Cpu.State.{Memory}
use ce.Cpu.Memory.Arrays.{init_mem_arr}

-- `cmd_err_t`.
pub data CmdErr : Type 0 where
  exit ok special expected_arg expected_reg expected_value unknown_sym_or_value : CmdErr
  unknown_arg unknown_cmd help_main help_not invalid_char val_overflow expected_filename : CmdErr
  file_io_error file_too_large file_will_wrap file_perm_denied file_loop file_name_too_long : CmdErr
  file_not_exist file_unknown_error file_corrupt cpu_corrupt_file cop_vec_enabled : CmdErr
  cop_vec_disabled out_of_mem unsupported_device port_num_invalid uart_disabled : CmdErr

-- `memory_fmt_t`.
pub data MemoryFmt : Type 0 where
  basic_bin_block : MemoryFmt
  llvm_mos_sim : MemoryFmt

-- The values of `errno` that the switch names, and any other.
pub data Errno : Type 0 where
  eacces eloop enametoolong enotdir enoent other : Errno

-- What stat gives, whether fopen succeeds, the bytes that can be read, and which sizes malloc gives.
pub record File : Type 0 where
  pub stat_error : Option Errno
  pub size : ℕ
  pub opens : Bool
  pub bytes : List ℕ
  pub malloc : ℕ → Bool

unfoldable pub stat_err : Errno → CmdErr
stat_err Errno.eacces = CmdErr.file_perm_denied
stat_err Errno.eloop = CmdErr.file_loop
stat_err Errno.enametoolong = CmdErr.file_name_too_long
stat_err Errno.enotdir = CmdErr.file_not_exist
stat_err Errno.enoent = CmdErr.file_not_exist
stat_err Errno.other = CmdErr.file_unknown_error

-- `tmp[j]`; a place that was not written holds what malloc left, here 0.
abbrev pub buffer : List ℕ → ℕ → ℕ
buffer [] j = 0
buffer (b ∷ bs) zero = b
buffer (b ∷ bs) (suc j) = buffer bs j

-- The first `n` bytes and what is left of the file, if it has so many.
unfoldable pub read_bytes : ℕ → List ℕ → Option (List ℕ × List ℕ)
read_bytes zero bs = some ([], bs)
read_bytes (suc n) [] = none
read_bytes (suc n) (b ∷ bs) = elim (read_bytes n bs) [
  | none ↦ none
  | some (got, rest) ↦ some (b ∷ got, rest)
]

-- `sizeof(memory_t)`: the byte and its bit-field of flags.
abbrev pub sizeof_cell : ℕ
sizeof_cell = 2

unfoldable pub load_basic : File → ℕ → Memory → CmdErr × Memory
load_basic f base_addr mem =
    if ltb 0x1000000 (f.size / sizeof_cell)
    then (CmdErr.file_too_large, mem)
    else if ltb 0x1000000 (f.size / sizeof_cell + base_addr)
    then (CmdErr.file_will_wrap, mem)
    else if not (f.malloc f.size)
    then (CmdErr.out_of_mem, mem)
    else elim (read_bytes f.size f.bytes) [
      | none ↦ (CmdErr.file_io_error, mem)
      | some (tmp, rest) ↦ (CmdErr.ok, init_mem_arr (buffer tmp) base_addr f.size mem)
    ]

-- The loop over the sections of a file of the LLVM-MOS simulator. `max_len` is the size of the
-- buffer, with 0 for none. The fuel bounds the number of sections; `none` means that it ran out.
unfoldable pub load_sections : (ℕ → Bool) → ℕ → ℕ → List ℕ → Memory → Option (CmdErr × Memory)
load_sections malloc zero max_len bs mem = none
load_sections malloc (suc fuel) max_len [] mem = some (CmdErr.ok, mem)
load_sections malloc (suc fuel) max_len (bl ∷ bh ∷ ll ∷ lh ∷ bs) mem =
    let base_addr = u8 bh * 2 ^ 8 + u8 bl in
    let len = u8 lh * 2 ^ 8 + u8 ll in
    let empty = load_sections malloc fuel max_len bs mem in
    if len == 0
    then empty
    else if ltb 0x1000000 (base_addr + len)
    then some (CmdErr.file_will_wrap, mem)
    else if ltb max_len len && not (malloc len)
    then some (CmdErr.out_of_mem, mem)
    else elim (read_bytes len bs) [
      | none ↦ some (CmdErr.file_corrupt, mem)
      | some (tmp, rest) ↦
          load_sections malloc fuel (if ltb max_len len then len else max_len) rest
            (init_mem_arr (buffer tmp) base_addr len mem)
    ]
load_sections malloc (suc fuel) max_len (_ ∷ bs) mem = some (CmdErr.file_corrupt, mem)

unfoldable pub load_file_mem : File → ℕ → MemoryFmt → Memory → Option (CmdErr × Memory)
load_file_mem f base_addr fmt mem = elim f.stat_error [
  | some e ↦ some (stat_err e, mem)
  | none ↦ if not f.opens then some (CmdErr.file_io_error, mem) else elim fmt [
    | basic_bin_block ↦ some (load_basic f base_addr mem)
    | llvm_mos_sim ↦ load_sections f.malloc (length f.bytes + 1) 0 f.bytes mem
  ]
]
