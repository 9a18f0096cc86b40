-- ===== src/Common/Powers.antt =====
-- Powers of a base.
use Prim.Native.Nat.{ℕ, zero, suc, ◌+◌, ◌*◌, ◌%◌, ◌^◌, ◌<◌, ◌≤◌}
use mathlib.Core.Path.{◌≡◌, ap}
use native.Mathlib.Nat.{pow-suc, pow-zero, mul-le-mul_right}
use native.Mathlib.Omega.{arith}

pub pow_add : (b n m : ℕ) → b ^ (n + m) ≡ b ^ n * b ^ m
pow_add b zero m =
    let e : zero + m ≡ m = omega arith in
    rw e (omega (arith, ap (λ (t : ℕ). t * b ^ m) (pow-zero b)))
pow_add b (suc n) m =
    let e : suc n + m ≡ suc (n + m) = omega arith in
    rw e (
      omega (
        arith,
        pow-suc b (n + m),
        ap (λ (t : ℕ). t * b ^ m) (pow-suc b n),
        ap (λ (t : ℕ). t * b) (pow_add b n m),
      ))

-- A word of at least one bit has an even modulus above 1.
pub pow_two : (j : ℕ) → (2 ^ suc j % 2 ≡ 0) × (1 < 2 ^ suc j)
pow_two zero =
    (omega (arith, pow-suc 2 zero, pow-zero 2), omega (arith, pow-suc 2 zero, pow-zero 2))
pow_two (suc j) =
    let rest = pow_two j in
    (omega (arith, pow-suc 2 (suc j)), omega (arith, pow-suc 2 (suc j), rest))

pub pow_pos : (b i : ℕ) → 0 < b → 0 < b ^ i
pow_pos b zero h = omega (arith, pow-zero b)
pow_pos b (suc i) h =
    let one : 1 ≤ b ^ i = pow_pos b i h in
    let scaled : 1 * b ≤ b ^ i * b = mul-le-mul_right b one in omega (arith, pow-suc b i, scaled)
