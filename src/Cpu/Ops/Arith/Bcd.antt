-- ===== src/Cpu/Ops/Arith/Bcd.antt =====
-- Binary-coded decimal: the number that the digits of a byte or a word stand for.
use ce.Base.{ℕ, ◌+◌, ◌*◌, ◌/◌, ◌%◌, ◌<◌}

abbrev pub IsBcd8 : ℕ → Type 0
IsBcd8 x = (x % 16 < 10) × (x / 16 % 16 < 10)

abbrev pub bcd8 : ℕ → ℕ
bcd8 x = x % 16 + x / 16 % 16 * 10

abbrev pub IsBcd16 : ℕ → Type 0
IsBcd16 x = (x % 16 < 10) × (x / 16 % 16 < 10) × (x / 256 % 16 < 10) × (x / 4096 % 16 < 10)

abbrev pub bcd16 : ℕ → ℕ
bcd16 x = x % 16 + x / 16 % 16 * 10 + x / 256 % 16 * 100 + x / 4096 % 16 * 1000
