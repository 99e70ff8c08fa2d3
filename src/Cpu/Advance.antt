-- ===== src/Cpu/Advance.antt =====
-- Where an action leaves the program counter.
pub mod Parts
pub mod LoadStore
pub mod Logical
pub mod ShiftCount
pub mod Execute
use ce.Base.{ℕ, ◌+◌, ◌%◌, ◌^◌, ◌≡◌, ◌∙◌, ap, Bool, true, false, refl, if◌then◌else◌}
use ce.Cpu.State.{Cpu, Machine}
use ce.Cpu.Monad.{M, Act, ◌>>=◌, when, get, return, skip, add_cycles}
use ce.Cpu.Registers.{cpu_update_pc}
use ce.Cpu.Set

-- The action leaves the program counter as it is.
pub record Still {A : Type 0} (act : M A) : Type 0 where
  pub still : (s : Machine) → (act s).1.cpu.pc ≡ s.cpu.pc

-- It moves it on by `n`.
pub record Advances (n : ℕ) {A : Type 0} (act : M A) : Type 0 where
  pub moved : (s : Machine) → (act s).1.cpu.pc ≡ (s.cpu.pc + n) % 2 ^ 16

pub bind-Still :
    {A B : Type 0} {m : M A} {f : A → M B} → Still m → ((a : A) → Still (f a)) → Still (m >>= f)
bind-Still k h = record { still = λ s. (h _).still _ ∙ k.still s }

pub if-Still : {A : Type 0} (b : Bool) {m n : M A} → Still m → Still n → Still (if b then m else n)
if-Still true k h = k
if-Still false k h = h

pub when-Still : (b : Bool) {m : Act} → Still m → Still (when b m)
when-Still true k = record { still = λ s. k.still s }
when-Still false k = record { still = λ s. refl }

pub get-Still : Still get
get-Still = record { still = λ s. refl }

pub return-Still : {A : Type 0} (a : A) → Still (return a)
return-Still a = record { still = λ s. refl }

pub skip-Still : Still skip
skip-Still = record { still = λ s. refl }

pub add_cycles-Still : (n : ℕ) → Still (add_cycles n)
add_cycles-Still n = record { still = λ s. refl }

pub c-Still : (n : ℕ) → Still (Set.c n)
c-Still n = record { still = λ s. refl }

pub x-Still : (n : ℕ) → Still (Set.x n)
x-Still n = record { still = λ s. refl }

pub y-Still : (n : ℕ) → Still (Set.y n)
y-Still n = record { still = λ s. refl }

pub p_c-Still : (b : Bool) → Still (Set.p_c b)
p_c-Still b = record { still = λ s. refl }

pub p_z-Still : (b : Bool) → Still (Set.p_z b)
p_z-Still b = record { still = λ s. refl }

pub p_v-Still : (b : Bool) → Still (Set.p_v b)
p_v-Still b = record { still = λ s. refl }

pub p_n-Still : (b : Bool) → Still (Set.p_n b)
p_n-Still b = record { still = λ s. refl }

-- First what leaves the program counter, or last.
pub Still-Advances :
    {A B : Type 0} {n : ℕ} {m : M A} {f : A → M B}
    → Still m
    → ((a : A) → Advances n (f a))
    → Advances n (m >>= f)
Still-Advances {n = n} k h = record {
  moved = λ s. (h _).moved _ ∙ ap (λ p. (p + n) % 2 ^ 16) (k.still s);
}

pub Advances-Still :
    {A B : Type 0} {n : ℕ} {m : M A} {f : A → M B}
    → Advances n m
    → ((a : A) → Still (f a))
    → Advances n (m >>= f)
Advances-Still k h = record { moved = λ s. (h _).still _ ∙ k.moved s }

pub cpu_update_pc-Advances : (n : ℕ) → Advances n (cpu_update_pc n)
unfolding cpu_update_pc
cpu_update_pc-Advances n = record { moved = λ s. refl }

-- An action that moves on by what it finds in the registers.
pub record AdvancesBy (n : Cpu → ℕ) {A : Type 0} (act : M A) : Type 0 where
  pub moved_by : (s : Machine) → (act s).1.cpu.pc ≡ (s.cpu.pc + n s.cpu) % 2 ^ 16

pub get-AdvancesBy :
    {B : Type 0} {n : Cpu → ℕ} {f : Cpu → M B}
    → ((r : Cpu) → Advances (n r) (f r))
    → AdvancesBy n (get >>= f)
get-AdvancesBy h = record { moved_by = λ s. (h s.cpu).moved s }

pub Advances-AdvancesBy : {A : Type 0} {n : ℕ} {m : M A} → Advances n m → AdvancesBy (λ _. n) m
Advances-AdvancesBy h = record { moved_by = λ s. h.moved s }

pub ruleset still_rules = (
  bind-Still, if-Still, when-Still, get-Still, return-Still, skip-Still, add_cycles-Still, c-Still,
  x-Still, y-Still, p_c-Still, p_z-Still, p_v-Still, p_n-Still,
)
