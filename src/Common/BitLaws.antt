-- ===== src/Common/BitLaws.antt =====
-- `|` and `^` on words of any width: when their result is zero, and `|` on flags.
use Prim.Native.Nat.{
  ℕ, zero, suc, ◌/◌, ◌%◌, ◌<◌, ◌≤◌, max, digits, differ, bit_or, bit_xor, bit_or-bitwise,
  bit_xor-bitwise, bit_and-bitwise, bit_and, min, ◌^◌, ◌*◌, ◌+◌,
}
use native.Mathlib.Nat.{pow-suc, pow-zero, mod-add-div, div-div-eq-div-mul, mod-one, zero-mod}
use mathlib.Core.Path.{◌≡◌, refl, ap, sym, ◌∙◌}
use mathlib.Core.Logic.{◌↔◌}
use native.Mathlib.Omega.{arith}

abbrev or_digits : ℕ → ℕ → ℕ → ℕ
or_digits n a b = digits (λ rest. rest) max n a b

abbrev xor_digits : ℕ → ℕ → ℕ → ℕ
xor_digits n a b = digits (λ rest. rest) differ n a b

or_digits-eq-zero : (n a b : ℕ) → a ≤ n → or_digits n a b ≡ 0 → (a ≡ 0) × (b ≡ 0)
or_digits-eq-zero zero a b h e = omega arith
or_digits-eq-zero (suc n) zero b h e = omega arith
or_digits-eq-zero (suc n) (suc a) b h e =
    omega (arith, or_digits-eq-zero n (suc a / 2) (b / 2) (omega arith) (omega arith))

-- `a | b` is zero exactly if both words are.
pub bit_or-eq-zero : (a b : ℕ) → (bit_or a b ≡ 0) ↔ ((a ≡ 0) × (b ≡ 0))
bit_or-eq-zero a b =
    (λ e. or_digits-eq-zero a a b (omega arith) (rw bit_or-bitwise at e), λ z. rw (z.0, z.1))

differ-zero : (x y : ℕ) → x < 2 → y < 2 → (differ x y ≡ 0) ↔ (x ≡ y)
differ-zero zero zero h k = omega arith
differ-zero zero (suc zero) h k = omega arith
differ-zero (suc zero) zero h k = omega arith
differ-zero (suc zero) (suc zero) h k = omega arith
differ-zero (suc (suc x)) y h k = absurd (omega arith)
differ-zero x (suc (suc y)) h k = absurd (omega arith)

xor_digits-eq-zero : (n a b : ℕ) → a ≤ n → (xor_digits n a b ≡ 0) ↔ (a ≡ b)
xor_digits-eq-zero zero a b h = omega arith
xor_digits-eq-zero (suc n) zero b h = omega arith
xor_digits-eq-zero (suc n) (suc a) b h = ground (
  arith,
  xor_digits-eq-zero n (suc a / 2) (b / 2) (omega arith),
  differ-zero (suc a % 2) (b % 2) (omega arith) (omega arith),
)

-- `a ^ b` is zero exactly if the words are equal.
pub bit_xor-eq-zero : (a b : ℕ) → (bit_xor a b ≡ 0) ↔ (a ≡ b)
bit_xor-eq-zero a b = rw bit_xor-bitwise (xor_digits-eq-zero a a b (omega arith))

-- `|` of two flags.
pub bit_or_flags : (a b : ℕ) → a ≤ 1 → b ≤ 1 → bit_or a b ≡ max a b
bit_or_flags zero zero h k = refl
bit_or_flags zero (suc zero) h k = refl
bit_or_flags (suc zero) zero h k = refl
bit_or_flags (suc zero) (suc zero) h k = refl
bit_or_flags (suc (suc a)) b h k = absurd (omega arith)
bit_or_flags a (suc (suc b)) h k = absurd (omega arith)

or_digits_zero : (n a : ℕ) → a ≤ n → or_digits n a 0 ≡ a
or_digits_zero zero a h = omega arith
or_digits_zero (suc n) zero h = refl
or_digits_zero (suc n) (suc a) h =
    let rest = or_digits_zero n (suc a / 2) (omega arith) in
    let digit : max (suc a % 2) 0 ≡ suc a % 2 = omega arith in omega (arith, rest, digit)

or_digits_low : (j n a u v : ℕ) → a ≤ n → a ≡ 2 ^ j * u → v < 2 ^ j → or_digits n a v ≡ a + v
or_digits_low zero n a u v h e k =
    let none : v ≡ 0 = omega (arith, k, pow-zero 2) in rw none (omega (arith, or_digits_zero n a h))
or_digits_low (suc j) zero a u v h e k = omega arith
or_digits_low (suc j) (suc n) zero u v h e k = omega arith
or_digits_low (suc j) (suc n) (suc a) u v h e k =
    let double = ap (λ (t : ℕ). t * u) (pow-suc 2 j) in
    let half : suc a / 2 ≡ 2 ^ j * u = omega (arith, e, double) in
    let even : suc a % 2 ≡ 0 = omega (arith, e, double) in
    let rest =
      or_digits_low j n (suc a / 2) u (v / 2) (omega arith) half (omega (arith, k, pow-suc 2 j)) in
    omega (arith, rest, even)

-- `a | v` where `v` fits below the lowest bit that `a` has.
pub bit_or_low : (j u v : ℕ) → v < 2 ^ j → bit_or (2 ^ j * u) v ≡ 2 ^ j * u + v
bit_or_low j u v h =
    rw bit_or-bitwise (or_digits_low j (2 ^ j * u) (2 ^ j * u) u v (omega arith) refl h)

abbrev and_digits : ℕ → ℕ → ℕ → ℕ
and_digits n a b = digits (λ rest. zero) min n a b

and_digits_zero : (n a : ℕ) → and_digits n a 0 ≡ 0
and_digits_zero zero a = refl
and_digits_zero (suc n) zero = refl
and_digits_zero (suc n) (suc a) =
    let digit : min (suc a % 2) 0 ≡ 0 = omega arith in
    omega (arith, and_digits_zero n (suc a / 2), digit)

and_digits_one : (n a : ℕ) → a ≤ n → and_digits n a 1 ≡ a % 2
and_digits_one zero a h = let e : a ≡ 0 = omega arith in rw e refl
and_digits_one (suc n) zero h = refl
and_digits_one (suc n) (suc a) h = omega (arith, and_digits_zero n (suc a / 2))

-- `&` with a flag.
pub bit_and_flag : (a f : ℕ) → f ≤ 1 → bit_and a f ≡ a % 2 * f
bit_and_flag a zero h = rw bit_and-bitwise (omega (arith, and_digits_zero a a))
bit_and_flag a (suc zero) h = rw bit_and-bitwise (omega (arith, and_digits_one a a (omega arith)))
bit_and_flag a (suc (suc f)) h = absurd (omega arith)

mod_split : (p a : ℕ) → a % (p * 2) ≡ 2 * (a / 2 % p) + a % 2
mod_split p a =
    let e : p * 2 ≡ 2 * p = omega arith in
    rw e (
      omega (
        arith,
        mod-add-div a (2 * p),
        mod-add-div (a / 2) p,
        ap (λ (t : ℕ). 2 * p * t) (div-div-eq-div-mul a 2 p),
      ))

and_digits_mask : (j n a m : ℕ) → a ≤ n → m + 1 ≡ 2 ^ j → and_digits n a m ≡ a % 2 ^ j
and_digits_mask zero n a m h e =
    let none : m ≡ 0 = omega (arith, e, pow-zero 2) in
    rw (none, pow-zero) (and_digits_zero n a ∙ sym (mod-one a))
and_digits_mask (suc j) zero a m h e =
    let z : a ≡ 0 = omega arith in rw z (sym (zero-mod (2 ^ suc j)))
and_digits_mask (suc j) (suc n) zero m h e = sym (zero-mod (2 ^ suc j))
and_digits_mask (suc j) (suc n) (suc a) m h e =
    let double = pow-suc 2 j in
    let rest = and_digits_mask j n (suc a / 2) (m / 2) (omega arith) (omega (arith, e, double)) in
    let odd : m % 2 ≡ 1 = omega (arith, e, double) in
    omega (arith, rest, odd, mod_split (2 ^ j) (suc a), ap (λ t. suc a % t) double)

-- `&` with a mask of the lowest bits.
pub bit_and_mask : (j a m : ℕ) → m + 1 ≡ 2 ^ j → bit_and a m ≡ a % 2 ^ j
bit_and_mask j a m e = rw bit_and-bitwise (and_digits_mask j a a m (omega arith) e)
