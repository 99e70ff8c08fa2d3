-- ===== src/Base/Bits.antt =====
-- Facts about `bit_and`, `bit_or` and `bit_xor` at variables, and the masks of the sources as
-- arithmetic.
use Prim.Native.Nat.{
  ℕ, zero, suc, ◌+◌, ◌*◌, ◌/◌, ◌%◌, ◌^◌, ◌≤◌, ◌<◌, min, max, differ, bit_and, bit_or, bit_xor,
  digits, bitwise, bit_and-bitwise, bit_or-bitwise, bit_xor-bitwise,
}
use mathlib.Core.Path.{◌≡◌, refl, sym, ap, ◌∙◌}
use mathlib.Core.Bool.{◌&&◌, ◌||◌}
use native.Mathlib.Nat.{div-div-eq-div-mul, pow-succ', le_refl}
use native.Mathlib.Omega.{arith}
use ce.Base.Words.{odd, bit, low_byte, high_byte}

module _ (edge : ℕ → ℕ) (digit_op : ℕ → ℕ → ℕ) where
  -- More rounds than digits change nothing.
  rounds-irrelevant :
      {k l : ℕ} (x y : ℕ) → x ≤ k → x ≤ l → digits edge digit_op k x y ≡ digits edge digit_op l x y
  rounds-irrelevant {k = k} {l = l} zero y _ _ = at_end k ∙ sym (at_end l)
    where
      at_end : (r : ℕ) → digits edge digit_op r zero y ≡ edge y
      at_end zero = refl
      at_end (suc r) = refl
  rounds-irrelevant {k = zero} (suc x) y p _ = absurd (omega arith)
  rounds-irrelevant {k = suc k} {l = zero} (suc x) y _ q = absurd (omega arith)
  rounds-irrelevant {k = suc k} {l = suc l} (suc x) y p q =
      ap (λ (r : ℕ). r * 2 + digit_op (suc x % 2) (y % 2))
        (rounds-irrelevant {k = k} {l = l} (suc x / 2) (y / 2) (omega arith) (omega arith))

  lowest_first :
      (x y : ℕ)
      → let rest = bitwise edge digit_op (suc x / 2) (y / 2) in
        bitwise edge digit_op (suc x) y ≡ digit_op (suc x % 2) (y % 2) + 2 * rest
  lowest_first x y =
      let e = rounds-irrelevant {k = x} (suc x / 2) (y / 2) (omega arith) (le_refl _) in
      omega (arith, e)

-- One equation for the lowest digit of each operation.
pub bit_and_step : (x y : ℕ) → bit_and x y ≡ min (x % 2) (y % 2) + 2 * bit_and (x / 2) (y / 2)
bit_and_step (suc x) y = simp bit_and-bitwise (lowest_first (λ _. zero) min x y)
bit_and_step zero y = omega (arith, bit_and-bitwise 0 y, bit_and-bitwise 0 (y / 2))

pub bit_xor_step : (x y : ℕ) → bit_xor x y ≡ differ (x % 2) (y % 2) + 2 * bit_xor (x / 2) (y / 2)
bit_xor_step (suc x) y = simp bit_xor-bitwise (lowest_first (λ n. n) differ x y)
bit_xor_step zero y = omega (arith, bit_xor-bitwise 0 y, bit_xor-bitwise 0 (y / 2))

pub bit_or_step : (x y : ℕ) → bit_or x y ≡ max (x % 2) (y % 2) + 2 * bit_or (x / 2) (y / 2)
bit_or_step (suc x) y = simp bit_or-bitwise (lowest_first (λ n. n) max x y)
bit_or_step zero y = omega (arith, bit_or-bitwise 0 y, bit_or-bitwise 0 (y / 2))

pub bit-suc : (x k : ℕ) → bit x (suc k) ≡ bit (x / 2) k
bit-suc x k = ap odd (ap (λ (t : ℕ). x / t) (pow-succ' 2 k) ∙ sym (div-div-eq-div-mul x 2 (2 ^ k)))

-- The k-th bit of each operation.
pub bit-bit_and : (k a b : ℕ) → bit (bit_and a b) k ≡ bit a k && bit b k
bit-bit_and zero a b = ground (arith, bit_and_step a b)
bit-bit_and (suc k) a b =
    rw (bit-suc (bit_and a b) k, bit-suc a k, bit-suc b k, halved) (bit-bit_and k (a / 2) (b / 2))
  where
    halved : bit_and a b / 2 ≡ bit_and (a / 2) (b / 2)
    halved = omega (arith, bit_and_step a b)

pub bit-bit_or : (k a b : ℕ) → bit (bit_or a b) k ≡ bit a k || bit b k
bit-bit_or zero a b = ground (arith, bit_or_step a b)
bit-bit_or (suc k) a b =
    rw (bit-suc (bit_or a b) k, bit-suc a k, bit-suc b k, halved) (bit-bit_or k (a / 2) (b / 2))
  where
    halved : bit_or a b / 2 ≡ bit_or (a / 2) (b / 2)
    halved = omega (arith, bit_or_step a b)

-- Bounds: no operation needs more digits than its operands.
pub bit_and-lt : (k a b : ℕ) → a < 2 ^ k → bit_and a b < 2 ^ k
bit_and-lt zero a b h = ground (arith, bit_and_step a b, bit_and-bitwise 0 (b / 2))
bit_and-lt (suc k) a b h = omega (
  arith,
  bit_and_step a b,
  pow-succ' 2 k,
  bit_and-lt k (a / 2) (b / 2) (omega (arith, pow-succ' 2 k)),
)

pub bit_or-lt : (k a b : ℕ) → a < 2 ^ k → b < 2 ^ k → bit_or a b < 2 ^ k
bit_or-lt zero a b h g = ground (arith, bit_or_step a b, bit_or-bitwise 0 (b / 2))
bit_or-lt (suc k) a b h g = omega (
  arith,
  bit_or_step a b,
  pow-succ' 2 k,
  bit_or-lt k (a / 2) (b / 2) (omega (arith, pow-succ' 2 k)) (omega (arith, pow-succ' 2 k)),
)

differ-lt : (a b : ℕ) → differ (a % 2) (b % 2) < 2
differ-lt a b = go (a % 2) (b % 2) (omega arith) (omega arith)
  where
    go : (p q : ℕ) → p < 2 → q < 2 → differ p q < 2
    go zero q h g = g
    go (suc p) zero h g = h
    go (suc zero) (suc q) h g = omega arith
    go (suc (suc p)) (suc q) h g = absurd (omega arith)

pub bit_xor-lt : (k a b : ℕ) → a < 2 ^ k → b < 2 ^ k → bit_xor a b < 2 ^ k
bit_xor-lt zero a b h g = ground (arith, bit_xor_step a b, bit_xor-bitwise 0 (b / 2))
bit_xor-lt (suc k) a b h g = omega (
  arith,
  bit_xor_step a b,
  differ-lt a b,
  pow-succ' 2 k,
  bit_xor-lt k (a / 2) (b / 2) (omega (arith, pow-succ' 2 k)) (omega (arith, pow-succ' 2 k)),
)

-- A mask with a zero as its lowest digit is a mask of the half.
bit_and-double : (x m : ℕ) → bit_and x (m * 2) ≡ bit_and (x / 2) m * 2
bit_and-double x m =
    let e : m * 2 / 2 ≡ m = omega arith in
    omega (arith, bit_and_step x (m * 2), ap (λ (t : ℕ). bit_and (x / 2) t) e)

bit_and-zero : (x : ℕ) → bit_and x 0 ≡ 0
bit_and-zero x = go x x (omega arith)
  where
    go : (n x : ℕ) → x ≤ n → bit_and x 0 ≡ 0
    go n zero h = bit_and-bitwise 0 0
    go zero (suc x) h = absurd (omega arith)
    go (suc n) (suc x) h = omega (arith, bit_and_step (suc x) 0, go n (suc x / 2) (omega arith))

bit_and_odd : (x m : ℕ) → bit_and x (m * 2 + 1) ≡ bit_and (x / 2) m * 2 + x % 2
bit_and_odd x m =
    let e : (m * 2 + 1) / 2 ≡ m = omega arith in
    omega (arith, bit_and_step x (m * 2 + 1), ap (λ (t : ℕ). bit_and (x / 2) t) e)

pub bit_and_nibble : (x : ℕ) → bit_and x 0xf ≡ x % 2 ^ 4
bit_and_nibble x = omega (
  arith,
  bit_and_odd x 7,
  bit_and_odd (x / 2) 3,
  bit_and_odd (x / 2 / 2) 1,
  bit_and_odd (x / 2 / 2 / 2) 0,
  bit_and-zero (x / 2 / 2 / 2 / 2),
)

-- The masks of the sources: `x & 0xff` and `x & 0xff00` are `low_byte x` and `high_byte x`.
pub bit_and-low_byte : (x : ℕ) → bit_and x 0xff ≡ low_byte x
bit_and-low_byte x = omega (
  arith,
  bit_and_odd x 127,
  bit_and_odd (x / 2) 63,
  bit_and_odd (x / 2 / 2) 31,
  bit_and_odd (x / 2 / 2 / 2) 15,
  bit_and_nibble (x / 2 / 2 / 2 / 2),
)

quarter : (x m : ℕ) → bit_and x (m * 16) ≡ bit_and (x / 16) m * 16
quarter x m = omega (
  arith,
  bit_and-double x (m * 8),
  bit_and-double (x / 2) (m * 4),
  bit_and-double (x / 2 / 2) (m * 2),
  bit_and-double (x / 2 / 2 / 2) m,
  ap (λ (t : ℕ). bit_and x t) (let e : m * 16 ≡ m * 8 * 2 = omega arith in e),
  ap (λ (t : ℕ). bit_and (x / 2) t) (let e : m * 8 ≡ m * 4 * 2 = omega arith in e),
  ap (λ (t : ℕ). bit_and (x / 2 / 2) t) (let e : m * 4 ≡ m * 2 * 2 = omega arith in e),
  ap (λ (t : ℕ). bit_and t m) (let e : x / 2 / 2 / 2 / 2 ≡ x / 16 = omega arith in e),
)

pub bit_and-high_byte : (x : ℕ) → bit_and x 0xff00 ≡ high_byte x
bit_and-high_byte x =
    omega (arith, quarter x 0xff0, quarter (x / 16) 0xff, bit_and-low_byte (x / 16 / 16))

-- `high | low` of a high byte and a low byte is their sum.
bit_or-double : (p q : ℕ) → bit_or (p * 2) q ≡ bit_or p (q / 2) * 2 + q % 2
bit_or-double p q =
    let e : p * 2 / 2 ≡ p = omega arith in
    omega (arith, bit_or_step (p * 2) q, ap (λ (t : ℕ). bit_or t (q / 2)) e)

bit_or-zero : (p : ℕ) → bit_or p 0 ≡ p
bit_or-zero p = go p p (omega arith)
  where
    go : (n p : ℕ) → p ≤ n → bit_or p 0 ≡ p
    go n zero h = bit_or-bitwise 0 0
    go zero (suc p) h = absurd (omega arith)
    go (suc n) (suc p) h = omega (arith, bit_or_step (suc p) 0, go n (suc p / 2) (omega arith))

pub bit_or_fields : (k p q : ℕ) → q < 2 ^ k → bit_or (p * 2 ^ k) q ≡ p * 2 ^ k + q
bit_or_fields zero p q h = let e : q ≡ 0 = omega arith in rw e (rw bit_or-zero (omega arith))
bit_or_fields (suc k) p q h = omega (
  arith,
  bit_or-double (p * 2 ^ k) q,
  bit_or_fields k p (q / 2) (omega (arith, pow-succ' 2 k)),
  ap (λ (t : ℕ). bit_or t q) whole,
  whole,
)
  where
    whole : p * 2 ^ suc k ≡ p * 2 ^ k * 2
    whole = omega (arith, ap (λ (t : ℕ). p * t) (pow-succ' 2 k))
