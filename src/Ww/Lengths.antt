-- ===== src/Ww/Lengths.antt =====
-- `wwCmp2` and `wwCmpW`: arrays of different lengths, and an array and a word.
use bee.Common.{
  ℕ, ◌*◌, ◌%◌, ◌^◌, ◌<◌, ◌≤◌, ◌≡◌, ◌↔◌, inl, inr, refl, sym, ap, ◌∙◌, List, [], ◌∷◌, length, take,
  drop, length-take, true, false, Bool, Bool-cases, arith, ltb, if◌then◌else◌,
}
use bee.Mem.Buffers.{Outcome, outcome}
use bee.Mem.Buffers.Order.{order, order_below, order_above}
use bee.Zz.Value.{less01, AreWords, value, value-lt, take-AreWords}
use bee.Zz.Add.Carry.{value_split}
use bee.Ww.{is_zero, any_word, cmp2, cmp2_fast, cmp_w, cmp_w_fast, select}
use bee.Ww.Compare.{ww_cmp_lem}
use bee.Ww.Zero.{ww_is_zero_iff, any_word_iff}
use native.Mathlib.Nat.{mul-le-mul_right}

low_order : (x w : ℕ) → outcome (less01 x w) (less01 w x) ≡ order x w
unfolding outcome order
low_order x w = ground arith

fast_order :
    (x w : ℕ)
    → (if ltb x w then Outcome.below else if ltb w x then Outcome.above else Outcome.same)
      ≡ order x w
unfolding order
fast_order x w = refl

module _ (b : ℕ) where
  -- The words behind the lower n of the longer number decide when they are not zero.
  order_longer :
      (n u : ℕ) (xs : List ℕ)
      → n ≤ length xs
      → u < b ^ n
      → (value b (drop n xs) ≡ 0
          → (order (value b xs) u ≡ order (value b (take n xs)) u)
            × (order u (value b xs) ≡ order u (value b (take n xs))))
        × ((0 < value b (drop n xs))
            → (order (value b xs) u ≡ Outcome.above) × (order u (value b xs) ≡ Outcome.below))
  order_longer n u xs h small =
      let split = value_split b n xs h in
      (
        λ z.
            let same : value b xs ≡ value b (take n xs) =
              omega (arith, split, ap (λ (t : ℕ). b ^ n * t) z) in
            (ap (λ t. order t u) same, ap (order u) same),
        λ p.
            let big : u < value b xs = omega (arith, split, mul-le-mul_right (b ^ n) p) in
            (order_above _ _ big, order_below _ _ big),
      )

  -- A test of the high words that answers whether they are zero.
  DecidesZero : Bool → ℕ → Type 0
  DecidesZero t v = (t ≡ true) ↔ (v ≡ 0)

  -- The longer number on the left, and on the right.
  left_longer :
      (t : Bool) (xs ys : List ℕ) (low : Outcome)
      → DecidesZero t (value b (drop (length ys) xs))
      → length ys ≤ length xs
      → AreWords b ys
      → low ≡ order (value b (take (length ys) xs)) (value b ys)
      → (if t then low else Outcome.above) ≡ order (value b xs) (value b ys)
  unfolding DecidesZero
  left_longer true xs ys low w h oy e =
      let cases = order_longer (length ys) (value b ys) xs h (value-lt b ys oy) in
      e ∙ sym ((cases.0 (w.0 refl)).0)
  left_longer false xs ys low w h oy e =
      let cases = order_longer (length ys) (value b ys) xs h (value-lt b ys oy) in
      sym ((cases.1 (ground (arith, w))).0)

  right_longer :
      (t : Bool) (xs ys : List ℕ) (low : Outcome)
      → DecidesZero t (value b (drop (length xs) ys))
      → length xs ≤ length ys
      → AreWords b xs
      → low ≡ order (value b xs) (value b (take (length xs) ys))
      → (if t then low else Outcome.below) ≡ order (value b xs) (value b ys)
  unfolding DecidesZero
  right_longer true xs ys low w h ox e =
      let cases = order_longer (length xs) (value b xs) ys h (value-lt b xs ox) in
      e ∙ sym ((cases.0 (w.0 refl)).1)
  right_longer false xs ys low w h ox e =
      let cases = order_longer (length xs) (value b xs) ys h (value-lt b xs ox) in
      sym ((cases.1 (ground (arith, w))).1)

  -- On two arrays of words of any lengths, for a word of an even modulus, `wwCmp2` in both variants gives
  -- the order of the numbers that they stand for.
  pub cmp2_lem :
      (xs ys : List ℕ)
      → b % 2 ≡ 0
      → 0 < b
      → AreWords b xs
      → AreWords b ys
      → (cmp2 b xs ys ≡ order (value b xs) (value b ys))
        × (cmp2_fast xs ys ≡ order (value b xs) (value b ys))
  unfolding cmp2 cmp2_fast select DecidesZero
  cmp2_lem xs ys even pos ox oy = elim (Bool-cases (ltb (length ys) (length xs))) [
    | inl longer ↦
        let m = length ys in
        let le : m ≤ length xs = ground arith in
        let size : length (take m xs) ≡ m = omega (arith, length-take m xs) in
        let low = ww_cmp_lem b (take m xs) ys even (take-AreWords b m xs ox) oy size in
        let z = ww_is_zero_iff b (drop m xs) pos in
        rw longer (left_longer _ xs ys _ z.0 le oy low.0, left_longer _ xs ys _ z.1 le oy low.1)
    | inr not_longer ↦ rw not_longer (elim (Bool-cases (ltb (length xs) (length ys))) [
      | inl shorter ↦
          let n = length xs in
          let le : n ≤ length ys = ground arith in
          let size : n ≡ length (take n ys) = omega (arith, length-take n ys) in
          let low = ww_cmp_lem b xs (take n ys) even ox (take-AreWords b n ys oy) size in
          let z = ww_is_zero_iff b (drop n ys) pos in
          rw shorter
            (right_longer _ xs ys _ z.0 le ox low.0, right_longer _ xs ys _ z.1 le ox low.1)
      | inr equal ↦ rw equal (ww_cmp_lem b xs ys even ox oy (ground arith))
    ])
  ]

  -- An array of words and a word.
  word_order :
      (x w : ℕ) (xs : List ℕ)
      → w < b
      → (value b xs ≡ 0 → order (value b (x ∷ xs)) w ≡ order x w)
        × ((0 < value b xs) → order (value b (x ∷ xs)) w ≡ Outcome.above)
  word_order x w xs h = (
    λ z.
        let same : value b (x ∷ xs) ≡ x = omega (arith, ap (λ (t : ℕ). b * t) z) in
        ap (λ t. order t w) same,
    λ p.
        let big : w < value b (x ∷ xs) = omega (arith, mul-le-mul_right b p) in order_above _ _ big,
  )

  -- On an array of words and a word both variants of `wwCmpW` give the order of the number and the word.
  pub cmp_w_lem :
      (xs : List ℕ) (w : ℕ)
      → 0 < b
      → AreWords b xs
      → w < b
      → (cmp_w xs w ≡ order (value b xs) w) × (cmp_w_fast xs w ≡ order (value b xs) w)
  unfolding cmp_w cmp_w_fast select
  cmp_w_lem [] w pos ox h = unfold order in ground arith
  cmp_w_lem (x ∷ xs) w pos ox h = let cases = word_order x w xs h in (regular cases, fast cases)
    where
      Cases : Type 0
      Cases =
          (value b xs ≡ 0 → order (value b (x ∷ xs)) w ≡ order x w)
          × ((0 < value b xs) → order (value b (x ∷ xs)) w ≡ Outcome.above)

      regular :
          Cases
          → (if is_zero xs then outcome (less01 x w) (less01 w x) else Outcome.above)
            ≡ order (value b (x ∷ xs)) w
      regular c = elim (Bool-cases (is_zero xs)) [
        | inl z ↦ rw z (low_order x w ∙ sym (c.0 ((ww_is_zero_iff b xs pos).0.0 z)))
        | inr nz ↦ let iff = (ww_is_zero_iff b xs pos).0 in rw nz (sym (c.1 (ground (arith, iff))))
      ]

      fast : Cases → cmp_w_fast (x ∷ xs) w ≡ order (value b (x ∷ xs)) w
      fast c = elim (Bool-cases (any_word xs)) [
        | inl nz ↦ let iff = any_word_iff b xs pos in rw nz (sym (c.1 (ground (arith, iff))))
        | inr z ↦ rw z (fast_order x w ∙ sym (c.0 ((any_word_iff b xs pos).0 z)))
      ]
