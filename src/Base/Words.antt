-- ===== src/Base/Words.antt =====
-- Machine words as native numbers: the conversions of C to a fixed width, and the masks and
-- shifts of the sources in the arithmetic form that `omega` reads. `Base.Bits` proves that these
-- forms are the bit operations.
use Prim.Native.Nat.{ℕ, ◌-◌, ◌*◌, ◌/◌, ◌%◌, ◌^◌, compare, Ordering}
use mathlib.Core.Bool.{Bool, true, false}

-- Conversion to uint8_t, uint16_t, uint32_t, uint64_t.
abbrev pub u8 : ℕ → ℕ
u8 n = n % 2 ^ 8

abbrev pub u16 : ℕ → ℕ
u16 n = n % 2 ^ 16

abbrev pub u32 : ℕ → ℕ
u32 n = n % 2 ^ 32

abbrev pub u64 : ℕ → ℕ
u64 n = n % 2 ^ 64

-- The uint32_t that stands for -n.
abbrev pub neg32 : ℕ → ℕ
neg32 n = 2 ^ 32 - n

-- `x & 0xff` and `x & 0xff00`.
abbrev pub low_byte : ℕ → ℕ
low_byte x = x % 2 ^ 8

abbrev pub high_byte : ℕ → ℕ
high_byte x = x / 2 ^ 8 % 2 ^ 8 * 2 ^ 8

abbrev pub odd : ℕ → Bool
odd x = elim (compare (x % 2) 0) [ Ordering.eq ↦ false | _ ↦ true ]

-- `(x & (1 << k)) != 0`.
abbrev pub bit : ℕ → ℕ → Bool
bit x k = odd (x / 2 ^ k)
