-- ===== src/Ww/Zero.antt =====
-- `wwEq`, `wwIsZero`, `wwIsW` and `wwWordSize`: equality and the number zero.
use bee.Common.{
  ℕ, suc, ◌*◌, ◌^◌, ◌<◌, ◌≤◌, ◌≡◌, ◌↔◌, ◌⊎◌, inl, inr, refl, ap, List, [], ◌∷◌, length, drop, true,
  false, Bool-cases, bit_xor, arith, ◌==◌,
}
use bee.Common.BitLaws.{bit_or-eq-zero, bit_xor-eq-zero}
use bee.Zz.Value.{value}
use bee.Ww.{eq_diff, eq, eq_fast, zero_diff, is_zero, is_zero_fast, any_word, word_size}
use native.Mathlib.Nat.{pow-suc, pow-zero, mul-le-mul_right}

eq_diff_iff : (xs ys : List ℕ) → length xs ≡ length ys → (eq_diff xs ys ≡ 0) ↔ (xs ≡ ys)
unfolding eq_diff
eq_diff_iff [] [] e = (λ h. refl, λ h. refl)
eq_diff_iff [] (y ∷ ys) e = absurd (omega arith)
eq_diff_iff (x ∷ xs) [] e = absurd (omega arith)
eq_diff_iff (x ∷ xs) (y ∷ ys) e = ground (
  arith,
  eq_diff_iff xs ys (omega arith),
  bit_or-eq-zero (eq_diff xs ys) (bit_xor x y),
  bit_xor-eq-zero x y,
)

eq_fast_iff : (xs ys : List ℕ) → length xs ≡ length ys → (eq_fast xs ys ≡ true) ↔ (xs ≡ ys)
unfolding eq_fast
eq_fast_iff [] [] e = (λ h. refl, λ h. refl)
eq_fast_iff [] (y ∷ ys) e = absurd (omega arith)
eq_fast_iff (x ∷ xs) [] e = absurd (omega arith)
eq_fast_iff (x ∷ xs) (y ∷ ys) e = ground (arith, eq_fast_iff xs ys (omega arith))

-- On arrays of one length both variants of `wwEq` decide equality.
pub ww_eq_iff :
    (xs ys : List ℕ)
    → length xs ≡ length ys
    → ((eq xs ys ≡ true) ↔ (xs ≡ ys)) × ((eq_fast xs ys ≡ true) ↔ (xs ≡ ys))
unfolding eq
ww_eq_iff xs ys e = (ground (arith, eq_diff_iff xs ys e), eq_fast_iff xs ys e)

module _ (b : ℕ) where
  value-cons-zero :
      (x : ℕ) (xs : List ℕ) → 0 < b → (value b (x ∷ xs) ≡ 0) ↔ ((x ≡ 0) × (value b xs ≡ 0))
  value-cons-zero x xs h = (there, back)
    where
      there : value b (x ∷ xs) ≡ 0 → (x ≡ 0) × (value b xs ≡ 0)
      there e = elim (pos (value b xs)) [
        | inl z ↦ (omega arith, z)
        | inr p ↦ absurd (omega (arith, mul-le-mul_right b p))
      ]
        where
          pos : (n : ℕ) → (n ≡ 0) ⊎ (1 ≤ n)
          pos n = omega arith

      back : (x ≡ 0) × (value b xs ≡ 0) → value b (x ∷ xs) ≡ 0
      back p = omega (arith, p.0, ap (λ (t : ℕ). b * t) p.1)

  zero_diff_iff : (xs : List ℕ) → 0 < b → (zero_diff xs ≡ 0) ↔ (value b xs ≡ 0)
  unfolding zero_diff
  zero_diff_iff [] h = (λ e. refl, λ e. refl)
  zero_diff_iff (x ∷ xs) h =
      ground (arith, zero_diff_iff xs h, bit_or-eq-zero (zero_diff xs) x, value-cons-zero x xs h)

  is_zero_fast_iff : (xs : List ℕ) → 0 < b → (is_zero_fast xs ≡ true) ↔ (value b xs ≡ 0)
  unfolding is_zero_fast
  is_zero_fast_iff [] h = (λ e. refl, λ e. refl)
  is_zero_fast_iff (x ∷ xs) h = ground (arith, is_zero_fast_iff xs h, value-cons-zero x xs h)

  -- Both variants of `wwIsZero` say whether the number is zero.
  pub ww_is_zero_iff :
      (xs : List ℕ)
      → 0 < b
      → ((is_zero xs ≡ true) ↔ (value b xs ≡ 0)) × ((is_zero_fast xs ≡ true) ↔ (value b xs ≡ 0))
  unfolding is_zero
  ww_is_zero_iff xs h = (ground (arith, zero_diff_iff xs h), is_zero_fast_iff xs h)

  pub any_word_iff : (xs : List ℕ) → 0 < b → (any_word xs ≡ false) ↔ (value b xs ≡ 0)
  unfolding any_word
  any_word_iff [] h = (λ e. refl, λ e. refl)
  any_word_iff (x ∷ xs) h = ground (arith, any_word_iff xs h, value-cons-zero x xs h)

  -- `wwWordSize`: the words from the returned number on stand for zero, and the one below it is not zero.
  pub word_size_bounds :
      (xs : List ℕ)
      → 0 < b
      → (word_size xs ≤ length xs)
        × (value b (drop (word_size xs) xs) ≡ 0)
        × ((0 < word_size xs) → b ^ word_size xs ≤ b * value b xs)
  unfolding word_size
  word_size_bounds [] h = (omega arith, refl, λ p. absurd (omega arith))
  word_size_bounds (x ∷ xs) h =
      let ih = word_size_bounds xs h in
      elim (Bool-cases (word_size xs == 0)) [
        | inl none ↦
            let e : word_size xs ≡ 0 = ground arith in
            let rest : value b xs ≡ 0 = rw e at ih.1 in
            elim (Bool-cases (x == 0)) [
              | inl z ↦
                  rw (none, z)
                    (
                      omega arith,
                      (value-cons-zero x xs h).1 (ground arith, rest),
                      λ p. absurd (omega arith),
                    )
              | inr nz ↦ rw (none, nz) (omega arith, rest, λ p. first_word x xs (ground arith))
            ]
        | inr some ↦
            rw some (
              omega (arith, ih.0),
              ih.1,
              λ p. higher_word x xs (word_size xs) (ih.2 (ground arith)),
            )
      ]
    where
      first_word : (x : ℕ) (xs : List ℕ) → 0 < x → b ^ 1 ≤ b * value b (x ∷ xs)
      first_word x xs p =
          let one : 1 ≤ value b (x ∷ xs) = omega arith in
          omega (arith, pow-suc b 0, ap (λ (t : ℕ). t * b) (pow-zero b), mul-le-mul_right b one)

      higher_word :
          (x : ℕ) (xs : List ℕ) (n : ℕ) → b ^ n ≤ b * value b xs → b ^ suc n ≤ b * value b (x ∷ xs)
      higher_word x xs n p =
          let le : b ^ n ≤ value b (x ∷ xs) = omega (arith, p) in
          omega (arith, pow-suc b n, mul-le-mul_right b le)
