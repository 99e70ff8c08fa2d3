-- ===== src/Tests/Machines.antt =====
-- Concrete machines for the tests.
use ce.Base.{ℕ, ◌-◌, true, false, List, [], ◌∷◌, zero, suc, arith}
use ce.Cpu.State.{Cpu, Memory, Machine}
use ce.Cpu.Valid.{IsValid}
use ce.Cpu.Stack.RoundTrip.{StackOk}

-- After a reset, with the program counter at 0x1000.
abbrev pub boot_cpu : Cpu
boot_cpu = record {
  c = 0x1234;
  dbr = 0;
  x = 0x20;
  y = 0x40;
  d = 0;
  sp = 0x1ff;
  pbr = 0;
  pc = 0x1000;
  p_c = true;
  p_z = false;
  p_i = true;
  p_d = false;
  p_xb = true;
  p_m = true;
  p_v = false;
  p_n = false;
  p_e = true;
  p_rst = false;
  p_irq = false;
  p_nmi = false;
  p_stp = false;
  p_crash = false;
  cycles = 0;
  setacc = false;
  cop_vect_enable = false;
}

abbrev nth : List ℕ → ℕ → ℕ
nth [] n = 0
nth (x ∷ xs) zero = x
nth (x ∷ xs) (suc n) = nth xs n

-- A processor with a program at 0x1000, and zeros elsewhere.
abbrev pub loaded : Cpu → List ℕ → Machine
loaded r code = record {
  cpu = r;
  mem = record {
    val = λ a. nth code (a - 0x1000);
    acc_r = λ _. false;
    acc_w = λ _. false;
    acc_b = λ _. false;
  };
}

-- ADC #$50, then BRA back to it.
abbrev pub boot : Machine
boot = loaded boot_cpu (0x69 ∷ 0x50 ∷ 0x80 ∷ 0xfc ∷ [])

-- In native mode, with 16-bit registers, at an MVN of three bytes from 0x001003.
abbrev pub native : Machine
native =
    loaded (record boot_cpu { p_e = false; p_m = false; p_xb = false; c = 2; x = 0x1003 })
      (0x54 ∷ 0 ∷ 0 ∷ 11 ∷ 22 ∷ 33 ∷ [])

abbrev pub decimal : Machine
decimal = loaded (record boot_cpu { p_d = true }) []

abbrev pub stopped : Machine
stopped = loaded (record boot_cpu { p_stp = true }) []

abbrev pub at_zero : Machine
at_zero = loaded (record boot_cpu { p_e = false; p_m = false; p_xb = false; sp = 0 }) []

pub boot-IsValid : IsValid boot.cpu
boot-IsValid = ground arith

pub native-IsValid : IsValid native.cpu
native-IsValid = ground arith

pub boot-StackOk : StackOk boot.cpu
boot-StackOk = ground arith

abbrev pub negative : Machine
negative = loaded (record boot_cpu { c = 0x80 }) []

abbrev pub boot_mem : Memory
boot_mem = boot.mem

-- In native mode, with an NMI and an IRQ.
abbrev pub pending : Machine
pending = loaded (record boot_cpu { p_e = false; p_nmi = true; p_irq = true; p_i = false }) []

pub pending-IsValid : IsValid pending.cpu
pending-IsValid = ground arith

-- A buffer to copy from, and one to copy into.
abbrev pub counting : ℕ → ℕ
counting n = n

abbrev pub cleared : ℕ → ℕ
cleared n = 0
