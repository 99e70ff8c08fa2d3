-- ===== src/Cpu/Monad.antt =====
-- State passing over the machine. A C function that reads or writes `*cpu` or `mem[]` is an
-- action; an assignment to a field converts to the width of that field.
use ce.Base.{ℕ, ◌+◌, u64, Bool, true}
use ce.Cpu.State.{Cpu, Machine}

abbrev pub M : Type 0 → Type 0
M A = Machine → A × Machine

abbrev pub Act : Type 0
Act = M (Unit {0})

infixl 5 ◌>>=◌ ◌>>◌
abbrev pub ◌>>=◌ : {A B : Type 0} → M A → (A → M B) → M B
◌>>=◌ m f s = let (a, s') = m s in f a s'

abbrev pub ◌>>◌ : {B : Type 0} → Act → M B → M B
m >> k = m >>= λ _. k

abbrev pub return : {A : Type 0} → A → M A
return a s = (a, s)

abbrev pub skip : Act
skip s = (tt, s)

-- The registers as they are now.
abbrev pub get : M Cpu
get s = (s.cpu, s)

abbrev pub modify : (Cpu → Cpu) → Act
modify f s = (tt, record s { cpu = f s.cpu })

-- `if (b) act;`
abbrev pub when : Bool → Act → Act
when b act s = elim b [ true ↦ act s | _ ↦ (tt, s) ]

-- `cpu->cycles += n;`
abbrev pub add_cycles : ℕ → Act
add_cycles n = modify (λ r. record r { cycles = u64 (r.cycles + n) })
