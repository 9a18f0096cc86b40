-- ===== src/Common/Masks.antt =====
-- `&` with a mask of ones or of zeros on the left, and with the complement of a flag.
use Prim.Native.Nat.{
  ℕ, zero, suc, ◌+◌, ◌-◌, ◌*◌, ◌/◌, ◌%◌, ◌^◌, ◌<◌, ◌≤◌, min, bit_and, bit_or, bit_or-bitwise, max,
  digits, bit_and-bitwise,
}
use native.Mathlib.Nat.{pow-suc, pow-zero}
use mathlib.Core.Path.{◌≡◌, refl, ap}
use native.Mathlib.Omega.{arith}
use bee.Common.BitLaws.{bit_and_flag}

abbrev and_digits : ℕ → ℕ → ℕ → ℕ
and_digits n a b = digits (λ rest. zero) min n a b

and_digits_ones : (j n m a : ℕ) → m ≤ n → m + 1 ≡ 2 ^ j → a < 2 ^ j → and_digits n m a ≡ a
and_digits_ones zero zero m a h e k = omega (arith, e, k, pow-zero 2)
and_digits_ones zero (suc n) zero a h e k = omega (arith, e, k, pow-zero 2)
and_digits_ones zero (suc n) (suc m) a h e k = absurd (omega (arith, e, pow-zero 2))
and_digits_ones (suc j) zero m a h e k = omega (arith, e, k, pow-suc 2 j)
and_digits_ones (suc j) (suc n) zero a h e k = omega (arith, e, k, pow-suc 2 j)
and_digits_ones (suc j) (suc n) (suc m) a h e k =
    let double = pow-suc 2 j in
    let rest =
      and_digits_ones j n (suc m / 2) (a / 2) (omega arith) (omega (arith, e, double))
        (omega (arith, k, double)) in
    let odd : suc m % 2 ≡ 1 = omega (arith, e, double) in
    let digit : min (suc m % 2) (a % 2) ≡ a % 2 = omega arith in omega (arith, rest, digit)

-- Ones on the left keep the word, zeros clear it.
pub ones-bit_and : (j m a : ℕ) → m + 1 ≡ 2 ^ j → a < 2 ^ j → bit_and m a ≡ a
ones-bit_and j m a e h = rw bit_and-bitwise (and_digits_ones j m m a (omega arith) e h)

pub zero-bit_and : (a : ℕ) → bit_and 0 a ≡ 0
zero-bit_and a = rw bit_and-bitwise refl

-- `~g & f` on flags, in a word of an even modulus.
pub complement-bit_and :
    (b g f : ℕ) → b % 2 ≡ 0 → 0 < b → g ≤ 1 → f ≤ 1 → bit_and (b - 1 - g) f ≡ (1 - g) * f
complement-bit_and b zero f even pos hg hf =
    let low : (b - 1 - 0) % 2 ≡ 1 = omega arith in rw (bit_and_flag (b - 1 - 0) f hf, low) refl
complement-bit_and b (suc zero) f even pos hg hf =
    let low : (b - 1 - 1) % 2 ≡ 0 = omega arith in rw (bit_and_flag (b - 1 - 1) f hf, low) refl
complement-bit_and b (suc (suc g)) f even pos hg hf = absurd (omega arith)

abbrev or_digits : ℕ → ℕ → ℕ → ℕ
or_digits n a b = digits (λ rest. rest) max n a b

or_digits_high : (j n v u : ℕ) → v ≤ n → v < 2 ^ j → or_digits n v (2 ^ j * u) ≡ v + 2 ^ j * u
or_digits_high zero zero v u h k = let z : v ≡ 0 = omega arith in rw z (omega arith)
or_digits_high zero (suc n) zero u h k = omega arith
or_digits_high zero (suc n) (suc v) u h k = absurd (omega (arith, k, pow-zero 2))
or_digits_high (suc j) zero v u h k = let z : v ≡ 0 = omega arith in rw z (omega arith)
or_digits_high (suc j) (suc n) zero u h k = omega arith
or_digits_high (suc j) (suc n) (suc v) u h k =
    let double = ap (λ (t : ℕ). t * u) (pow-suc 2 j) in
    let half : 2 ^ suc j * u / 2 ≡ 2 ^ j * u = omega (arith, double) in
    let even : 2 ^ suc j * u % 2 ≡ 0 = omega (arith, double) in
    let rest = or_digits_high j n (suc v / 2) u (omega arith) (omega (arith, k, pow-suc 2 j)) in
    let digit : max (suc v % 2) 0 ≡ suc v % 2 = omega arith in
    rw (half, even) (omega (arith, rest, digit, double))

-- `v | a` where `v` fits below the lowest bit that `a` has.
pub bit_or_high : (j v u : ℕ) → v < 2 ^ j → bit_or v (2 ^ j * u) ≡ v + 2 ^ j * u
bit_or_high j v u h = rw bit_or-bitwise (or_digits_high j v v u (omega arith) h)
