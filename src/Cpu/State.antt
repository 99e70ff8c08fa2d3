-- ===== src/Cpu/State.antt =====
-- src/cpu/65816.h: the processor's registers and flags, the system memory, and the enumerations.
use ce.Base.{ℕ, Bool, ◌==◌, List, [], ◌∷◌, ◌||◌, false}

-- `struct CPU_t`. The fields of the bit-field struct `P` are spelled p_…; a one-bit field is a
-- Boolean.
pub record Cpu : Type 0 where
  pub c : ℕ
  pub dbr : ℕ
  pub x : ℕ
  pub y : ℕ
  pub d : ℕ
  pub sp : ℕ
  pub pbr : ℕ
  pub pc : ℕ
  pub p_c : Bool
  pub p_z : Bool
  pub p_i : Bool
  pub p_d : Bool
  pub p_xb : Bool
  pub p_m : Bool
  pub p_v : Bool
  pub p_n : Bool
  pub p_e : Bool
  pub p_rst : Bool
  pub p_irq : Bool
  pub p_nmi : Bool
  pub p_stp : Bool
  pub p_crash : Bool
  pub cycles : ℕ
  pub setacc : Bool
  pub cop_vect_enable : Bool

-- `memory_t *`: an array of structs, as a struct of arrays. `val` holds the bytes; `acc_r`,
-- `acc_w` and `acc_b` hold the access flags of `mem_flag_t`.
pub record Memory : Type 0 where
  pub val : ℕ → ℕ
  pub acc_r : ℕ → Bool
  pub acc_w : ℕ → Bool
  pub acc_b : ℕ → Bool

-- What every handler works on: the processor and the memory connected to it.
pub record Machine : Type 0 where
  pub cpu : Cpu
  pub mem : Memory

-- `CPU_Error_Code_t`.
pub data ErrorCode : Type 0 where
  ok unknown_opcode stp null_cpu crash str_parse : ErrorCode

-- `Emul_Stack_Mod_t`.
pub data EmulStack : Type 0 where
  disable enable : EmulStack

-- `CPU_Addr_Mode_t`.
pub data AddrMode : Type 0 where
  dp dpx dpindx dpy inddpy inddply dpind dpindl : AddrMode
  abs absx absy indabs absl abslx absindl absindx : AddrMode
  immd sr srindy impd bmv pcr pcrl : AddrMode

-- The value of the enumerator.
unfoldable pub mode_index : AddrMode → ℕ
mode_index dp = 0
mode_index dpx = 1
mode_index dpindx = 2
mode_index dpy = 3
mode_index inddpy = 4
mode_index inddply = 5
mode_index dpind = 6
mode_index dpindl = 7
mode_index abs = 8
mode_index absx = 9
mode_index absy = 10
mode_index indabs = 11
mode_index absl = 12
mode_index abslx = 13
mode_index absindl = 14
mode_index absindx = 15
mode_index immd = 16
mode_index sr = 17
mode_index srindy = 18
mode_index impd = 19
mode_index bmv = 20
mode_index pcr = 21
mode_index pcrl = 22

-- `mode == m` and, for the labels of a `switch` or a chain of `||`, membership.
unfoldable pub is_mode : AddrMode → AddrMode → Bool
unfolding mode_index
is_mode mode m = mode_index mode == mode_index m

unfoldable pub one_of : AddrMode → List AddrMode → Bool
unfolding is_mode
one_of mode [] = false
one_of mode (m ∷ ms) = is_mode mode m || one_of mode ms
