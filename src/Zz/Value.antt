-- ===== src/Zz/Value.antt =====
-- The number that an array of words stands for, and the words themselves.
use bee.Common.{
  ℕ, zero, suc, ◌+◌, ◌*◌, ◌^◌, ◌<◌, ◌≤◌, ◌≡◌, ◌⊎◌, inl, inr, refl, ap, ap₂, List, [], ◌∷◌, ◌++◌,
  replicate, take, drop, length, All, arith, ltb, if◌then◌else◌,
}
use native.Mathlib.Nat.{pow-suc, pow-zero, mul-le-mul_right}

-- `wordLess01(a, b)`: a flag.
abbrev pub less01 : ℕ → ℕ → ℕ
less01 a c = if ltb a c then 1 else 0

lt_trichotomy : (u v : ℕ) → (u < v) ⊎ ((u ≡ v) ⊎ (v < u))
lt_trichotomy u v = omega arith

module _ (b : ℕ) where
  abbrev pub AreWords : List ℕ → Type 0
  AreWords = All (λ x. x < b)

  abbrev pub value : List ℕ → ℕ
  value [] = 0
  value (x ∷ xs) = x + b * value xs

  -- An array of n words is below b^n.
  pub value-lt : (xs : List ℕ) → AreWords xs → value xs < b ^ length xs
  value-lt [] o = rw pow-zero (omega arith)
  value-lt (x ∷ xs) o =
      let room : suc (value xs) * b ≤ b ^ length xs * b = mul-le-mul_right b (value-lt xs o.1) in
      let small : x < b = o.0 in omega (arith, room, small, pow-suc b (length xs))

  -- The lowest word and the rest of a number are determined.
  pub digits_unique : (x y u v : ℕ) → x < b → y < b → x + b * u ≡ y + b * v → (x ≡ y) × (u ≡ v)
  digits_unique x y u v h k e = elim (lt_trichotomy u v) [
    | inl lt ↦ absurd (omega (arith, mul-le-mul_right b lt))
    | inr (inl eq) ↦ (omega (arith, ap (λ (t : ℕ). b * t) eq), eq)
    | inr (inr gt) ↦ absurd (omega (arith, mul-le-mul_right b gt))
  ]

  -- The same number is not written in two ways.
  pub value-injective :
      (xs ys : List ℕ)
      → AreWords xs
      → AreWords ys
      → length xs ≡ length ys
      → value xs ≡ value ys
      → xs ≡ ys
  value-injective [] [] o p h e = refl
  value-injective [] (y ∷ ys) o p h e = absurd (omega arith)
  value-injective (x ∷ xs) [] o p h e = absurd (omega arith)
  value-injective (x ∷ xs) (y ∷ ys) o p h e =
      let small : x < b = o.0 in
      let small' : y < b = p.0 in
      let (low, high) = digits_unique x y (value xs) (value ys) small small' e in
      ap₂ ◌∷◌ low (value-injective xs ys o.1 p.1 (omega arith) high)

  pub value-append : (xs ys : List ℕ) → value (xs ++ ys) ≡ value xs + b ^ length xs * value ys
  value-append [] ys = omega (arith, ap (λ (t : ℕ). t * value ys) (pow-zero b))
  value-append (x ∷ xs) ys = omega (
    arith,
    ap (λ (t : ℕ). b * t) (value-append xs ys),
    ap (λ (t : ℕ). t * value ys) (pow-suc b (length xs)),
  )

  pub append-AreWords : (xs ys : List ℕ) → AreWords xs → AreWords ys → AreWords (xs ++ ys)
  append-AreWords [] ys o p = p
  append-AreWords (x ∷ xs) ys o p = (o.0, append-AreWords xs ys o.1 p)

  pub take-AreWords : (n : ℕ) (xs : List ℕ) → AreWords xs → AreWords (take n xs)
  take-AreWords zero xs o = tt
  take-AreWords (suc n) [] o = o
  take-AreWords (suc n) (x ∷ xs) o = (o.0, take-AreWords n xs o.1)

  pub replicate-zero :
      (n : ℕ)
      → 0 < b
      → AreWords (replicate n 0)
        × (length {A = ℕ} (replicate n 0) ≡ n)
        × (value (replicate n 0) ≡ 0)
  replicate-zero zero h = (tt, refl, refl)
  replicate-zero (suc n) h =
      let rest = replicate-zero n h in
      ((h, rest.0), ap suc rest.1, omega (arith, ap (λ (t : ℕ). b * t) rest.2))

  pub drop-AreWords : (n : ℕ) (xs : List ℕ) → AreWords xs → AreWords (drop n xs)
  drop-AreWords zero xs o = o
  drop-AreWords (suc n) [] o = o
  drop-AreWords (suc n) (x ∷ xs) o = drop-AreWords n xs o.1
