-- ===== src/Cpu/Valid.antt =====
-- The invariant of the processor: the widths of the registers, and what emulation mode fixes.
pub mod Parts
pub mod Addresses
pub mod Modes
pub mod LoadStore
pub mod Logical
pub mod ShiftCount
pub mod Flow
pub mod Control
pub mod Step
use ce.Base.{ℕ, ◌^◌, ◌≤◌, ◌<◌, ◌≡◌, Bool, true, false, if◌then◌else◌, arith}
use ce.Cpu.State.{Cpu, Machine}
use ce.Cpu.Monad.{M, Act, ◌>>=◌, when, get, return, skip, add_cycles}
use ce.Cpu.Set

pub record IsValid (r : Cpu) : Type 0 where
  pub c_fits : r.c < 2 ^ 16
  pub x_fits : r.x < 2 ^ 16
  pub y_fits : r.y < 2 ^ 16
  pub d_fits : r.d < 2 ^ 16
  pub sp_fits : r.sp < 2 ^ 16
  pub pc_fits : r.pc < 2 ^ 16
  pub dbr_fits : r.dbr < 2 ^ 8
  pub pbr_fits : r.pbr < 2 ^ 8
  pub cycles_fit : r.cycles < 2 ^ 64
  -- In emulation mode the stack pointer lies in page 1 and M is set.
  pub paged : r.p_e ≡ true → (0x100 ≤ r.sp) × (r.sp < 0x200)
  pub short : r.p_e ≡ true → r.p_m ≡ true

-- An action that keeps the invariant, whatever it returns.
pub record Keeps {A : Type 0} (act : M A) : Type 0 where
  pub keeps : (s : Machine) → IsValid s.cpu → IsValid (act s).1.cpu

pub bind-Keeps :
    {A B : Type 0} {m : M A} {f : A → M B} → Keeps m → ((a : A) → Keeps (f a)) → Keeps (m >>= f)
bind-Keeps k h = record { keeps = λ s v. (h _).keeps _ (k.keeps s v) }

pub if-Keeps : {A : Type 0} (b : Bool) {m n : M A} → Keeps m → Keeps n → Keeps (if b then m else n)
if-Keeps true k h = k
if-Keeps false k h = h

pub when-Keeps : (b : Bool) {m : Act} → Keeps m → Keeps (when b m)
when-Keeps true k = record { keeps = λ s v. k.keeps s v }
when-Keeps false k = record { keeps = λ s v. v }

pub get-Keeps : Keeps get
get-Keeps = record { keeps = λ s v. v }

pub return-Keeps : {A : Type 0} (a : A) → Keeps (return a)
return-Keeps a = record { keeps = λ s v. v }

pub skip-Keeps : Keeps skip
skip-Keeps = record { keeps = λ s v. v }

pub add_cycles-Keeps : (n : ℕ) → Keeps (add_cycles n)
add_cycles-Keeps n = record { keeps = λ s v. ground arith }

pub c-Keeps : (n : ℕ) → Keeps (Set.c n)
c-Keeps n = record { keeps = λ s v. ground arith }

pub x-Keeps : (n : ℕ) → Keeps (Set.x n)
x-Keeps n = record { keeps = λ s v. ground arith }

pub y-Keeps : (n : ℕ) → Keeps (Set.y n)
y-Keeps n = record { keeps = λ s v. ground arith }

pub d-Keeps : (n : ℕ) → Keeps (Set.d n)
d-Keeps n = record { keeps = λ s v. ground arith }

pub pc-Keeps : (n : ℕ) → Keeps (Set.pc n)
pc-Keeps n = record { keeps = λ s v. ground arith }

pub dbr-Keeps : (n : ℕ) → Keeps (Set.dbr n)
dbr-Keeps n = record { keeps = λ s v. ground arith }

pub pbr-Keeps : (n : ℕ) → Keeps (Set.pbr n)
pbr-Keeps n = record { keeps = λ s v. ground arith }

pub p_c-Keeps : (b : Bool) → Keeps (Set.p_c b)
p_c-Keeps b = record { keeps = λ s v. ground arith }

pub p_z-Keeps : (b : Bool) → Keeps (Set.p_z b)
p_z-Keeps b = record { keeps = λ s v. ground arith }

pub p_i-Keeps : (b : Bool) → Keeps (Set.p_i b)
p_i-Keeps b = record { keeps = λ s v. ground arith }

pub p_d-Keeps : (b : Bool) → Keeps (Set.p_d b)
p_d-Keeps b = record { keeps = λ s v. ground arith }

pub p_v-Keeps : (b : Bool) → Keeps (Set.p_v b)
p_v-Keeps b = record { keeps = λ s v. ground arith }

pub p_n-Keeps : (b : Bool) → Keeps (Set.p_n b)
p_n-Keeps b = record { keeps = λ s v. ground arith }

pub ruleset keep_rules = (
  bind-Keeps, if-Keeps, when-Keeps, get-Keeps, return-Keeps, skip-Keeps, add_cycles-Keeps, c-Keeps,
  x-Keeps, y-Keeps, d-Keeps, pc-Keeps, dbr-Keeps, pbr-Keeps, p_c-Keeps, p_z-Keeps, p_i-Keeps,
  p_d-Keeps, p_v-Keeps, p_n-Keeps,
)
