-- ===== src/Prelude/Bits.antt =====
-- Laws of `bit_and` and `bit_or` at variables, from the digit recursion that defines them.
use Prim.Native.Nat.{
  ℕ, zero, suc, ◌+◌, ◌*◌, ◌/◌, ◌%◌, ◌^◌, ◌≤◌, ◌<◌, min, max, bit_and, bit_or, digits,
  bit_and-bitwise, bit_or-bitwise,
}
use mathlib.Core.Path.{◌≡◌, refl, ◌∙◌, ap}
use native.Mathlib.Omega.{arith}
use native.Mathlib.Nat.{pow-suc}

module _ (f : ℕ → ℕ) (g : ℕ → ℕ → ℕ) where
  -- Two amounts of fuel that reach the first number give the same digits.
  refuel : (b a fuel more : ℕ) → (a ≤ fuel) × (a ≤ more) → digits f g fuel a b ≡ digits f g more a b
  refuel b zero zero zero h = refl
  refuel b zero zero (suc more) h = refl
  refuel b zero (suc fuel) zero h = refl
  refuel b zero (suc fuel) (suc more) h = refl
  refuel b (suc a) zero more (h, k) = absurd (omega arith)
  refuel b (suc a) (suc fuel) zero (h, k) = absurd (omega arith)
  refuel b (suc a) (suc fuel) (suc more) (h, k) =
      let halves = refuel (b / 2) (suc a / 2) fuel more (omega arith, omega arith) in
      omega (arith, halves)

  lowest_digit :
      (a b : ℕ)
      → digits f g (suc a) (suc a) b
        ≡ digits f g (suc a / 2) (suc a / 2) (b / 2) * 2 + g (suc a % 2) (b % 2)
  lowest_digit a b =
      let halves = refuel (b / 2) (suc a / 2) a (suc a / 2) (omega arith, omega arith) in
      omega (arith, halves)

pub zero-bit_or : (b : ℕ) → bit_or 0 b ≡ b
zero-bit_or b = bit_or-bitwise 0 b

none-bit_and : (b : ℕ) → bit_and 0 b ≡ 0
none-bit_and b = bit_and-bitwise 0 b

bit_or_step : (a b : ℕ) → bit_or a b ≡ bit_or (a / 2) (b / 2) * 2 + max (a % 2) (b % 2)
bit_or_step zero b = omega (arith, zero-bit_or b, zero-bit_or (b / 2))
bit_or_step (suc a) b =
    let whole = bit_or-bitwise (suc a) b in
    let half = bit_or-bitwise (suc a / 2) (b / 2) in
    omega (arith, lowest_digit (λ d. d) max a b, whole, half)

bit_and_step : (a b : ℕ) → bit_and a b ≡ bit_and (a / 2) (b / 2) * 2 + min (a % 2) (b % 2)
bit_and_step zero b = omega (arith, none-bit_and b, none-bit_and (b / 2))
bit_and_step (suc a) b =
    let whole = bit_and-bitwise (suc a) b in
    let half = bit_and-bitwise (suc a / 2) (b / 2) in
    omega (arith, lowest_digit (λ d. zero) min a b, whole, half)

by_halves :
    (P : ℕ → Type 0) → P 0 → ((a : ℕ) → P (suc a / 2) → P (suc a)) → (bound a : ℕ) → a ≤ bound → P a
by_halves P base step bound zero h = base
by_halves P base step zero (suc a) h = absurd (omega arith)
by_halves P base step (suc bound) (suc a) h =
    step a (by_halves P base step bound (suc a / 2) (omega arith))

bit_and-none : (a : ℕ) → bit_and a 0 ≡ 0
bit_and-none a =
    by_halves (λ (n : ℕ). bit_and n 0 ≡ 0) refl
      (λ n half. omega (arith, half, bit_and_step (suc n) 0)) a a (omega arith)

pub bit_or-zero : (a : ℕ) → bit_or a 0 ≡ a
bit_or-zero a =
    by_halves (λ (n : ℕ). bit_or n 0 ≡ n) refl
      (λ n half. omega (arith, half, bit_or_step (suc n) 0)) a a (omega arith)

double_pow : (b k : ℕ) → b * 2 ^ suc k ≡ 2 * (b * 2 ^ k)
double_pow b k = ap (λ (t : ℕ). b * t) (pow-suc 2 k) ∙ omega arith

bit_or-double : (a x : ℕ) → bit_or a (2 * x) ≡ bit_or (a / 2) x * 2 + a % 2
bit_or-double a x =
    let e : 2 * x / 2 ≡ x = omega arith in
    omega (arith, bit_or_step a (2 * x), ap (bit_or (a / 2)) e)

double-bit_or : (a x : ℕ) → bit_or (2 * x) a ≡ bit_or x (a / 2) * 2 + a % 2
double-bit_or a x =
    let e : 2 * x / 2 ≡ x = omega arith in
    omega (arith, bit_or_step (2 * x) a, ap (λ (t : ℕ). bit_or t (a / 2)) e)

-- Fields that do not overlap: `or` is a sum, on either side.
pub bit_or-low : (k a b : ℕ) → a < 2 ^ k → bit_or a (b * 2 ^ k) ≡ a + b * 2 ^ k
bit_or-low zero zero b h = omega (arith, zero-bit_or (b * 2 ^ 0))
bit_or-low zero (suc a) b h = absurd (omega arith)
bit_or-low (suc k) a b h =
    let fits : a / 2 < 2 ^ k = omega (arith, pow-suc 2 k) in
    rw (double_pow b k) (omega (arith, bit_or-double a (b * 2 ^ k), bit_or-low k (a / 2) b fits))

pub bit_or-high : (k a b : ℕ) → a < 2 ^ k → bit_or (b * 2 ^ k) a ≡ b * 2 ^ k + a
bit_or-high zero zero b h = omega (arith, bit_or-zero (b * 2 ^ 0))
bit_or-high zero (suc a) b h = absurd (omega arith)
bit_or-high (suc k) a b h =
    let fits : a / 2 < 2 ^ k = omega (arith, pow-suc 2 k) in
    rw (double_pow b k) (omega (arith, double-bit_or a (b * 2 ^ k), bit_or-high k (a / 2) b fits))

-- A mask of low bits, one more bit at a time.
pub bit_and-one : (a : ℕ) → bit_and a 1 ≡ a % 2
bit_and-one a = let none = bit_and-none (a / 2) in omega (arith, none, bit_and_step a 1)

bit_and-3 : (a : ℕ) → bit_and a 3 ≡ a % 4
bit_and-3 a = omega (arith, bit_and_step a 3, bit_and-one (a / 2))

bit_and-7 : (a : ℕ) → bit_and a 7 ≡ a % 8
bit_and-7 a = omega (arith, bit_and_step a 7, bit_and-3 (a / 2))

bit_and-15 : (a : ℕ) → bit_and a 15 ≡ a % 16
bit_and-15 a = omega (arith, bit_and_step a 15, bit_and-7 (a / 2))

bit_and-31 : (a : ℕ) → bit_and a 31 ≡ a % 32
bit_and-31 a = omega (arith, bit_and_step a 31, bit_and-15 (a / 2))

bit_and-63 : (a : ℕ) → bit_and a 63 ≡ a % 64
bit_and-63 a = omega (arith, bit_and_step a 63, bit_and-31 (a / 2))

pub bit_and-127 : (a : ℕ) → bit_and a 127 ≡ a % 128
bit_and-127 a = omega (arith, bit_and_step a 127, bit_and-63 (a / 2))

bit_and-255 : (a : ℕ) → bit_and a 255 ≡ a % 256
bit_and-255 a = omega (arith, bit_and_step a 255, bit_and-127 (a / 2))

bit_and-511 : (a : ℕ) → bit_and a 511 ≡ a % 512
bit_and-511 a = omega (arith, bit_and_step a 511, bit_and-255 (a / 2))

bit_and-1023 : (a : ℕ) → bit_and a 1023 ≡ a % 1024
bit_and-1023 a = omega (arith, bit_and_step a 1023, bit_and-511 (a / 2))

bit_and-2047 : (a : ℕ) → bit_and a 2047 ≡ a % 2048
bit_and-2047 a = omega (arith, bit_and_step a 2047, bit_and-1023 (a / 2))

bit_and-4095 : (a : ℕ) → bit_and a 4095 ≡ a % 4096
bit_and-4095 a = omega (arith, bit_and_step a 4095, bit_and-2047 (a / 2))

bit_and-8191 : (a : ℕ) → bit_and a 8191 ≡ a % 8192
bit_and-8191 a = omega (arith, bit_and_step a 8191, bit_and-4095 (a / 2))

bit_and-16383 : (a : ℕ) → bit_and a 16383 ≡ a % 16384
bit_and-16383 a = omega (arith, bit_and_step a 16383, bit_and-8191 (a / 2))

bit_and-32767 : (a : ℕ) → bit_and a 32767 ≡ a % 32768
bit_and-32767 a = omega (arith, bit_and_step a 32767, bit_and-16383 (a / 2))

pub bit_and-65535 : (a : ℕ) → bit_and a 65535 ≡ a % 65536
bit_and-65535 a = omega (arith, bit_and_step a 65535, bit_and-32767 (a / 2))

-- The mask of one bit.
bit_and-2 : (a : ℕ) → bit_and a 2 ≡ a / 2 % 2 * 2
bit_and-2 a = omega (arith, bit_and_step a 2, bit_and-one (a / 2))

bit_and-4 : (a : ℕ) → bit_and a 4 ≡ a / 4 % 2 * 4
bit_and-4 a = omega (arith, bit_and_step a 4, bit_and-2 (a / 2))

bit_and-8 : (a : ℕ) → bit_and a 8 ≡ a / 8 % 2 * 8
bit_and-8 a = omega (arith, bit_and_step a 8, bit_and-4 (a / 2))

bit_and-16 : (a : ℕ) → bit_and a 16 ≡ a / 16 % 2 * 16
bit_and-16 a = omega (arith, bit_and_step a 16, bit_and-8 (a / 2))

bit_and-32 : (a : ℕ) → bit_and a 32 ≡ a / 32 % 2 * 32
bit_and-32 a = omega (arith, bit_and_step a 32, bit_and-16 (a / 2))

bit_and-64 : (a : ℕ) → bit_and a 64 ≡ a / 64 % 2 * 64
bit_and-64 a = omega (arith, bit_and_step a 64, bit_and-32 (a / 2))

pub bit_and-128 : (a : ℕ) → bit_and a 128 ≡ a / 128 % 2 * 128
bit_and-128 a = omega (arith, bit_and_step a 128, bit_and-64 (a / 2))
