-- ===== src/Mem/Buffers/Order.antt =====
-- `memCmp`, regular and fast: the order of the numbers that the buffers stand for, the first octet being
-- the highest.
use bee.Common.{
  ℕ, ◌+◌, ◌*◌, ◌^◌, ◌<◌, ◌≡◌, ◌⊎◌, inl, inr, refl, sym, ap, ◌∙◌, true, false, List, [], ◌∷◌, length,
  AreOctets, arith, ltb, if◌then◌else◌,
}
use bee.Common.BigEndian.{be_value, be_value-lt}
use bee.Mem.Buffers.{Outcome, cmp_fast}
use native.Mathlib.Nat.{pow-suc, pow-zero, mul-le-mul_right}

-- The order of two numbers as the result of a comparison.
unfoldable pub order : ℕ → ℕ → Outcome
order u v = if ltb u v then Outcome.below else if ltb v u then Outcome.above else Outcome.same

be_value-split : (xs : List ℕ) (n : ℕ) → be_value n xs ≡ n * 256 ^ length xs + be_value 0 xs
unfolding be_value
be_value-split [] n = omega (arith, pow-zero 256, ap (λ (t : ℕ). n * t) (pow-zero 256))
be_value-split (x ∷ xs) n = omega (
  arith,
  be_value-split xs (n * 256 + x),
  be_value-split xs (0 * 256 + x),
  ap (λ (t : ℕ). n * t) (pow-suc 256 (length xs)),
)

pub be_value-cons : (x : ℕ) (xs : List ℕ) → be_value 0 (x ∷ xs) ≡ be_value x xs
unfolding be_value
be_value-cons x xs = let e : 0 + x ≡ x = omega arith in ap (λ t. be_value t xs) e

-- The first octets that differ decide.
pub be_value-below :
    (xs ys : List ℕ) (m n : ℕ)
    → AreOctets xs
    → length xs ≡ length ys
    → m < n
    → be_value m xs < be_value n ys
be_value-below xs ys m n o e h = omega (
  arith,
  be_value-lt xs m o,
  be_value-split ys n,
  mul-le-mul_right (256 ^ length xs) h,
  ap (λ k. n * 256 ^ k) e,
)

pub three_ways : (u v : ℕ) → (u < v) ⊎ ((u ≡ v) ⊎ (v < u))
three_ways u v = omega arith

pub order_below : (u v : ℕ) → u < v → order u v ≡ Outcome.below
unfolding order
order_below u v h = ground arith

pub order_above : (u v : ℕ) → v < u → order u v ≡ Outcome.above
unfolding order
order_above u v h = ground arith

pub order_add : (c u v : ℕ) → order (c + u) (c + v) ≡ order u v
unfolding order
order_add c u v = elim (three_ways u v) [
  | inl lt ↦ ground arith
  | inr (inl eq) ↦ ground arith
  | inr (inr gt) ↦ ground arith
]

-- The same digits in front do not matter.
pub order_same :
    (xs ys : List ℕ) (m : ℕ)
    → length xs ≡ length ys
    → order (be_value m xs) (be_value m ys) ≡ order (be_value 0 xs) (be_value 0 ys)
order_same xs ys m e =
    let shifted : be_value m ys ≡ m * 256 ^ length xs + be_value 0 ys =
      be_value-split ys m ∙ ap (λ k. m * 256 ^ k + be_value 0 ys) (sym e) in
    rw (be_value-split xs m, shifted)
      (order_add (m * 256 ^ length xs) (be_value 0 xs) (be_value 0 ys))

-- The fast `memCmp` on buffers of one length gives the order of their numbers.
pub cmp_fast_lem :
    (xs ys : List ℕ)
    → AreOctets xs
    → AreOctets ys
    → length xs ≡ length ys
    → cmp_fast xs ys ≡ order (be_value 0 xs) (be_value 0 ys)
unfolding cmp_fast
cmp_fast_lem [] [] ox oy e = unfold order be_value in refl
cmp_fast_lem [] (y ∷ ys) ox oy e = absurd (omega arith)
cmp_fast_lem (x ∷ xs) [] ox oy e = absurd (omega arith)
cmp_fast_lem (x ∷ xs) (y ∷ ys) ox oy e =
    let tails : length xs ≡ length ys = omega arith in
    elim (three_ways x y) [
      | inl lt ↦
          let a : ltb y x ≡ false = ground arith in
          let b : ltb x y ≡ true = ground arith in
          rw (a, b) (sym (order_below _ _ (front xs ys x y ox.1 tails lt)))
      | inr (inl eq) ↦
          let a : ltb y x ≡ false = ground arith in
          let b : ltb x y ≡ false = ground arith in
          rw (a, b)
            (cmp_fast_lem xs ys ox.1 oy.1 tails
              ∙ sym (order_same xs ys x tails)
              ∙ (rw (be_value-cons x xs, be_value-cons y ys)
                  (ap (λ t. order (be_value x xs) (be_value t ys)) eq)))
      | inr (inr gt) ↦
          let a : ltb y x ≡ true = ground arith in
          rw a (sym (order_above _ _ (front ys xs y x oy.1 (sym tails) gt)))
    ]
  where
    front :
        (xs ys : List ℕ) (x y : ℕ)
        → AreOctets xs
        → length xs ≡ length ys
        → x < y
        → be_value 0 (x ∷ xs) < be_value 0 (y ∷ ys)
    front xs ys x y o e h =
        rw (be_value-cons x xs, be_value-cons y ys) (be_value-below xs ys x y o e h)
