-- ===== src/Prelude/Bits.antt =====
-- Masks, shifts and disjoint `|` on words, as arithmetic. Each law goes down one binary digit at a
-- time, from the recursion that the native operations stand for.
use Prim.Native.Nat.{
  ℕ, zero, suc, ◌+◌, ◌*◌, ◌/◌, ◌%◌, ◌^◌, ◌≤◌, ◌<◌, min, max, bit_and, bit_or, digits,
  bit_and-bitwise, bit_or-bitwise,
}
use mathlib.Core.Path.{◌≡◌, refl, ap, ◌∙◌}
use native.Mathlib.Nat.{pow-suc, div-div-eq-div-mul}
use native.Mathlib.Omega.{arith}

-- Counts that are large enough give the same digits.
module _ (rest : ℕ → ℕ) (join : ℕ → ℕ → ℕ) where
  digits_agree : (n m a b : ℕ) → a ≤ n → a ≤ m → digits rest join n a b ≡ digits rest join m a b
  digits_agree zero zero a b p q = refl
  digits_agree zero (suc m) (suc a) b p q = absurd (omega arith)
  digits_agree (suc n) zero (suc a) b p q = absurd (omega arith)
  digits_agree (suc n) (suc m) (suc a) b p q =
      ap (λ (d : ℕ). d * 2 + join (suc a % 2) (b % 2))
        (digits_agree n m (suc a / 2) (b / 2) (omega arith) (omega arith))
  digits_agree zero (suc m) zero b p q = refl
  digits_agree (suc n) zero zero b p q = refl
  digits_agree (suc n) (suc m) zero b p q = refl

bit_and-zero_left : (b : ℕ) → bit_and 0 b ≡ 0
bit_and-zero_left b = bit_and-bitwise 0 b

bit_or-zero_left : (b : ℕ) → bit_or 0 b ≡ b
bit_or-zero_left b = bit_or-bitwise 0 b

-- The lowest digit of `a & b` and of `a | b`, and the digits above it.
bit_and-digit : (a b : ℕ) → bit_and a b ≡ 2 * bit_and (a / 2) (b / 2) + min (a % 2) (b % 2)
bit_and-digit zero b = omega (arith, bit_and-zero_left b, bit_and-zero_left (b / 2))
bit_and-digit (suc a) b = omega (
  arith,
  bit_and-bitwise (suc a) b,
  bit_and-bitwise (suc a / 2) (b / 2),
  digits_agree (λ b. 0) min a (suc a / 2) (suc a / 2) (b / 2) (omega arith) (omega arith),
)

bit_or-digit : (a b : ℕ) → bit_or a b ≡ 2 * bit_or (a / 2) (b / 2) + max (a % 2) (b % 2)
bit_or-digit zero b = omega (arith, bit_or-zero_left b, bit_or-zero_left (b / 2))
bit_or-digit (suc a) b = omega (
  arith,
  bit_or-bitwise (suc a) b,
  bit_or-bitwise (suc a / 2) (b / 2),
  digits_agree (λ b. b) max a (suc a / 2) (suc a / 2) (b / 2) (omega arith) (omega arith),
)

bit_and-zero_below : (n a : ℕ) → a ≤ n → bit_and a 0 ≡ 0
bit_and-zero_below zero zero h = refl
bit_and-zero_below (suc n) zero h = refl
bit_and-zero_below zero (suc a) h = absurd (omega arith)
bit_and-zero_below (suc n) (suc a) h =
    omega (arith, bit_and-digit (suc a) 0, bit_and-zero_below n (suc a / 2) (omega arith))

bit_and-zero : (a : ℕ) → bit_and a 0 ≡ 0
bit_and-zero a = bit_and-zero_below a a (omega arith)

bit_and_odd : (a m : ℕ) → bit_and a (2 * m + 1) ≡ 2 * bit_and (a / 2) m + a % 2
bit_and_odd a m = omega (arith, bit_and-digit a (2 * m + 1), ap (λ (t : ℕ). bit_and (a / 2) t) half)
  where
    half : (2 * m + 1) / 2 ≡ m
    half = omega arith

-- `a & 0xFF` is the lowest byte.
pub bit_and_byte : (a : ℕ) → bit_and a 0xFF ≡ a % 256
bit_and_byte a = omega (
  arith,
  bit_and_odd (a) 127,
  bit_and_odd (a / 2) 63,
  bit_and_odd (a / 2 / 2) 31,
  bit_and_odd (a / 2 / 2 / 2) 15,
  bit_and_odd (a / 2 / 2 / 2 / 2) 7,
  bit_and_odd (a / 2 / 2 / 2 / 2 / 2) 3,
  bit_and_odd (a / 2 / 2 / 2 / 2 / 2 / 2) 1,
  bit_and_odd (a / 2 / 2 / 2 / 2 / 2 / 2 / 2) 0,
  bit_and-zero (a / 2 / 2 / 2 / 2 / 2 / 2 / 2 / 2),
)

double_power : (q k : ℕ) → q * 2 ^ suc k ≡ 2 * (q * 2 ^ k)
double_power q k = omega (arith, ap (λ (t : ℕ). q * t) (pow-suc 2 k))

div_power : (a k : ℕ) → a / 2 / 2 ^ k ≡ a / 2 ^ suc k
div_power a k = div-div-eq-div-mul a 2 (2 ^ k) ∙ ap (λ (t : ℕ). a / t) (omega (arith, pow-suc 2 k))

-- A mask that is shifted up by `k` digits takes the field above them.
pub bit_and_shifted : (k a m : ℕ) → bit_and a (m * 2 ^ k) ≡ bit_and (a / 2 ^ k) m * 2 ^ k
bit_and_shifted zero a m =
    let e : m * 1 ≡ m = omega arith in let d : a / 1 ≡ a = omega arith in rw (e, d) (omega arith)
bit_and_shifted (suc k) a m = omega (
  arith,
  bit_and-digit a (m * 2 ^ suc k),
  double_power m k,
  ap (λ (t : ℕ). bit_and (a / 2) t) half,
  bit_and_shifted k (a / 2) m,
  double_power (bit_and (a / 2 ^ suc k) m) k,
  ap (λ (t : ℕ). bit_and t m * 2 ^ k) (div_power a k),
)
  where
    half : m * 2 ^ suc k / 2 ≡ m * 2 ^ k
    half = omega (arith, double_power m k)

-- `low | high` is a sum where the low part fits below the digits of the high one.
pub bit_or_fields : (k low high : ℕ) → low < 2 ^ k → bit_or low (high * 2 ^ k) ≡ low + high * 2 ^ k
bit_or_fields zero low high h =
    let e : low ≡ 0 = omega arith in rw (e, bit_or-zero_left) (omega arith)
bit_or_fields (suc k) low high h = omega (
  arith,
  bit_or-digit low (high * 2 ^ suc k),
  double_power high k,
  ap (λ (t : ℕ). bit_or (low / 2) t) half,
  bit_or_fields k (low / 2) high (omega (arith, pow-suc 2 k)),
)
  where
    half : high * 2 ^ suc k / 2 ≡ high * 2 ^ k
    half = omega (arith, double_power high k)
