-- ===== src/Cpu/Set.antt =====
-- Assignments to a field of `*cpu`: `Set.c v` is `cpu->C = v;`, with the conversion to the width of
-- the field.
use ce.Base.{ℕ, u8, u16, Bool}
use ce.Cpu.Monad.{Act, modify}

abbrev pub c : ℕ → Act
c v = modify (λ r. record r { c = u16 v })

abbrev pub x : ℕ → Act
x v = modify (λ r. record r { x = u16 v })

abbrev pub y : ℕ → Act
y v = modify (λ r. record r { y = u16 v })

abbrev pub d : ℕ → Act
d v = modify (λ r. record r { d = u16 v })

abbrev pub sp : ℕ → Act
sp v = modify (λ r. record r { sp = u16 v })

abbrev pub pc : ℕ → Act
pc v = modify (λ r. record r { pc = u16 v })

abbrev pub dbr : ℕ → Act
dbr v = modify (λ r. record r { dbr = u8 v })

abbrev pub pbr : ℕ → Act
pbr v = modify (λ r. record r { pbr = u8 v })

-- `cpu->P.C = b;` and so on.
abbrev pub p_c : Bool → Act
p_c b = modify (λ r. record r { p_c = b })

abbrev pub p_z : Bool → Act
p_z b = modify (λ r. record r { p_z = b })

abbrev pub p_i : Bool → Act
p_i b = modify (λ r. record r { p_i = b })

abbrev pub p_d : Bool → Act
p_d b = modify (λ r. record r { p_d = b })

abbrev pub p_xb : Bool → Act
p_xb b = modify (λ r. record r { p_xb = b })

abbrev pub p_m : Bool → Act
p_m b = modify (λ r. record r { p_m = b })

abbrev pub p_v : Bool → Act
p_v b = modify (λ r. record r { p_v = b })

abbrev pub p_n : Bool → Act
p_n b = modify (λ r. record r { p_n = b })

abbrev pub p_e : Bool → Act
p_e b = modify (λ r. record r { p_e = b })
