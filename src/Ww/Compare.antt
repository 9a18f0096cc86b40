-- ===== src/Ww/Compare.antt =====
-- `wwCmp`, regular and fast: the order of the numbers that two arrays of one length stand for.
use bee.Common.{
  ℕ, ◌+◌, ◌-◌, ◌*◌, ◌%◌, ◌<◌, ◌≤◌, ◌≡◌, ◌⊎◌, inl, inr, refl, sym, ap, ◌∙◌, List, [], ◌∷◌, length,
  max, bit_or, bit_and, arith,
}
use bee.Common.BitLaws.{bit_or_flags}
use bee.Common.Masks.{complement-bit_and}
use bee.Mem.Buffers.{Outcome, outcome}
use bee.Mem.Buffers.Order.{order, three_ways}
use bee.Zz.Value.{less01, AreWords, value}
use bee.Zz.Sub.{complement}
use bee.Ww.{Flags, cmp_step, cmp_flags, cmp, cmp_fast, compare_words}
use native.Mathlib.Nat.{mul-le-mul_right}

-- What the flags say of two numbers.
abbrev Verdict : ℕ → ℕ → Flags → Type 0
Verdict u v f =
    ((f.less ≡ 0) × (f.greater ≡ 0) × (u ≡ v))
    ⊎ (((f.less ≡ 1) × (f.greater ≡ 0) × (u < v)) ⊎ ((f.less ≡ 0) × (f.greater ≡ 1) × (v < u)))

pub order_same_number : (u : ℕ) → order u u ≡ Outcome.same
unfolding order
order_same_number u = ground arith

outcome-Verdict : (u v : ℕ) (f : Flags) → Verdict u v f → outcome f.less f.greater ≡ order u v
unfolding outcome order
outcome-Verdict u v f (inl h) = ground (arith, h)
outcome-Verdict u v f (inr (inl h)) = ground (arith, h)
outcome-Verdict u v f (inr (inr h)) = ground (arith, h)

module _ (b : ℕ) where
  -- One word below the compared ones.
  flag_step :
      (x y l g : ℕ)
      → b % 2 ≡ 0
      → 0 < b
      → l ≤ 1
      → g ≤ 1
      → let less = bit_or l (bit_and (complement b g) (less01 x y)) in
        (less ≡ max l ((1 - g) * less01 x y))
        × (bit_or g (bit_and (complement b less) (less01 y x)) ≡ max g ((1 - less) * less01 y x))
        × (less ≤ 1)
  flag_step x y l g even pos hl hg =
      let f : less01 x y ≤ 1 = ground arith in
      let f' : less01 y x ≤ 1 = ground arith in
      let prod : (1 - g) * less01 x y ≤ 1 = ground arith in
      let first = complement-bit_and b g (less01 x y) even pos hg f in
      let less = bit_or l (bit_and (complement b g) (less01 x y)) in
      let e : less ≡ max l ((1 - g) * less01 x y) =
        ap (bit_or l) first ∙ bit_or_flags l ((1 - g) * less01 x y) hl prod in
      let small : less ≤ 1 = omega (arith, e, prod) in
      let prod' : (1 - less) * less01 y x ≤ 1 = ground arith in
      let second = complement-bit_and b less (less01 y x) even pos small f' in
      (e, ap (bit_or g) second ∙ bit_or_flags g ((1 - less) * less01 y x) hg prod', small)

  pub high_less : (x y u v : ℕ) → x < b → u < v → x + b * u < y + b * v
  high_less x y u v h lt = omega (arith, mul-le-mul_right b lt)

  cmp_step-Verdict :
      (x y u v : ℕ) (f : Flags)
      → b % 2 ≡ 0
      → x < b
      → y < b
      → Verdict u v f
      → Verdict (x + b * u) (y + b * v) (cmp_step b x y f)
  unfolding cmp_step
  cmp_step-Verdict x y u v f even hx hy (inl (l, g, same)) =
      let s = flag_step x y f.less f.greater even (omega arith) (omega arith) (omega arith) in
      let scaled = ap (λ (t : ℕ). b * t) same in
      elim (three_ways x y) [
        | inl lt ↦
            inr (inl (ground (arith, s, l, g), ground (arith, s, l, g), omega (arith, scaled)))
        | inr (inl eq) ↦
            inl (ground (arith, s, l, g), ground (arith, s, l, g), omega (arith, scaled))
        | inr (inr gt) ↦
            inr (inr (ground (arith, s, l, g), ground (arith, s, l, g), omega (arith, scaled)))
      ]
  cmp_step-Verdict x y u v f even hx hy (inr (inl (l, g, lt))) =
      let s = flag_step x y f.less f.greater even (omega arith) (omega arith) (omega arith) in
      inr (inl (ground (arith, s, l, g), ground (arith, s, l, g), high_less x y u v hx lt))
  cmp_step-Verdict x y u v f even hx hy (inr (inr (l, g, gt))) =
      let s = flag_step x y f.less f.greater even (omega arith) (omega arith) (omega arith) in
      inr (inr (ground (arith, s, l, g), ground (arith, s, l, g), high_less y x v u hy gt))

  cmp_flags-Verdict :
      (xs ys : List ℕ)
      → b % 2 ≡ 0
      → AreWords b xs
      → AreWords b ys
      → length xs ≡ length ys
      → Verdict (value b xs) (value b ys) (cmp_flags b xs ys)
  unfolding cmp_flags
  cmp_flags-Verdict [] [] even ox oy e = inl (refl, refl, refl)
  cmp_flags-Verdict [] (y ∷ ys) even ox oy e = absurd (omega arith)
  cmp_flags-Verdict (x ∷ xs) [] even ox oy e = absurd (omega arith)
  cmp_flags-Verdict (x ∷ xs) (y ∷ ys) even ox oy e =
      cmp_step-Verdict x y (value b xs) (value b ys) (cmp_flags b xs ys) even ox.0 oy.0
        (cmp_flags-Verdict xs ys even ox.1 oy.1 (omega arith))

  -- The higher words decide, and the lowest ones when those agree.
  order_high :
      (x y u v : ℕ)
      → x < b
      → y < b
      → (order u v ≡ Outcome.below → order (x + b * u) (y + b * v) ≡ Outcome.below)
        × (order u v ≡ Outcome.above → order (x + b * u) (y + b * v) ≡ Outcome.above)
        × (order u v ≡ Outcome.same → order (x + b * u) (y + b * v) ≡ compare_words x y)
  unfolding order compare_words
  order_high x y u v hx hy = elim (three_ways u v) [
    | inl lt ↦ let h = high_less x y u v hx lt in ground arith
    | inr (inl eq) ↦
        let scaled = ap (λ (t : ℕ). b * t) eq in
        elim (three_ways x y) [
          | inl lt ↦ ground arith
          | inr (inl same) ↦ ground arith
          | inr (inr gt) ↦ ground arith
        ]
    | inr (inr gt) ↦ let h = high_less y x v u hy gt in ground arith
  ]

  -- The fast `wwCmp`, at the order that the higher words have.
  cmp_fast-order :
      (xs ys : List ℕ)
      → AreWords b xs
      → AreWords b ys
      → length xs ≡ length ys
      → cmp_fast xs ys ≡ order (value b xs) (value b ys)
  unfolding cmp_fast
  cmp_fast-order [] [] ox oy e = sym (order_same_number 0)
  cmp_fast-order [] (y ∷ ys) ox oy e = absurd (omega arith)
  cmp_fast-order (x ∷ xs) [] ox oy e = absurd (omega arith)
  cmp_fast-order (x ∷ xs) (y ∷ ys) ox oy e =
      let ih = cmp_fast-order xs ys ox.1 oy.1 (omega arith) in
      rw ih (pick (order (value b xs) (value b ys)) refl)
    where
      pick :
          (o : Outcome)
          → order (value b xs) (value b ys) ≡ o
          → (elim o [
            | Outcome.same ↦ compare_words x y
            | Outcome.below ↦ Outcome.below
            | Outcome.above ↦ Outcome.above
          ])
            ≡ order (value b (x ∷ xs)) (value b (y ∷ ys))
      pick Outcome.below h = sym ((order_high x y (value b xs) (value b ys) ox.0 oy.0).0 h)
      pick Outcome.above h = sym ((order_high x y (value b xs) (value b ys) ox.0 oy.0).1 h)
      pick Outcome.same h = sym ((order_high x y (value b xs) (value b ys) ox.0 oy.0).2 h)

  -- On two arrays of words of the same length, for a word of an even modulus, `wwCmp` in both variants
  -- gives the order of the numbers that they stand for.
  pub ww_cmp_lem :
      (xs ys : List ℕ)
      → b % 2 ≡ 0
      → AreWords b xs
      → AreWords b ys
      → length xs ≡ length ys
      → (cmp b xs ys ≡ order (value b xs) (value b ys))
        × (cmp_fast xs ys ≡ order (value b xs) (value b ys))
  unfolding cmp
  ww_cmp_lem xs ys even ox oy e = (
    outcome-Verdict (value b xs) (value b ys) (cmp_flags b xs ys)
        (cmp_flags-Verdict xs ys even ox oy e),
    cmp_fast-order xs ys ox oy e,
  )
