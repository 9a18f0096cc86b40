-- ===== src/Zz/Sub/Short.antt =====
-- `zzSubW`, `zzSubW2` and `zzNeg`: a word is subtracted, a number is negated.
use bee.Common.{
  ℕ, suc, ◌+◌, ◌*◌, ◌^◌, ◌<◌, ◌≤◌, ◌≡◌, ◌⊎◌, inl, inr, refl, sym, ap, ◌∙◌, map, List, [], ◌∷◌,
  length, arith, ◌==◌, Bool-cases,
}
use bee.Zz.Value.{less01, AreWords, value, value-lt}
use bee.Zz.Add.{before, add_w2}
use bee.Zz.Add.Carry.{add_w2-StandsFor}
use bee.Zz.Sub.{complement, minus, sub_w, sub_w2, sub_w2_fast, neg}
use bee.Zz.Sub.Words.{minus_cases, sub_w_word}
use bee.Zz.Sub.Laws.{Differs, empty-Differs, before-Differs}
use native.Mathlib.Nat.{pow-suc, pow-zero}

flag_cases : (c : ℕ) → c ≤ 1 → (c ≡ 0) ⊎ (c ≡ 1)
flag_cases c h = omega arith

module _ (b : ℕ) where
  sub_w-Differs_flag :
      (xs : List ℕ) (w : ℕ)
      → w ≤ 1
      → 1 < b
      → AreWords b xs
      → Differs b (length xs) (value b xs) w (sub_w b xs w)
  unfolding sub_w
  sub_w-Differs_flag [] w hw hb o = empty-Differs b w hw
  sub_w-Differs_flag (x ∷ xs) w hw hb o =
      let step = sub_w_word b x w o.0 (omega arith) in
      let rest = sub_w-Differs_flag xs _ step.1 hb o.1 in
      before-Differs b (length xs) _ _ _ _ _ _ step.0 rest (omega (arith, step.2))

  -- `zzSubW` on at least one word: n words and a borrow of 0 or 1 that stand for the difference.
  pub sub_w-Differs :
      (xs : List ℕ) (w : ℕ)
      → 0 < length xs
      → w < b
      → 1 < b
      → AreWords b xs
      → Differs b (length xs) (value b xs) w (sub_w b xs w)
  unfolding sub_w
  sub_w-Differs [] w n hw hb o = absurd (omega arith)
  sub_w-Differs (x ∷ xs) w n hw hb o =
      let step = sub_w_word b x w o.0 hw in
      let rest = sub_w-Differs_flag xs _ step.1 hb o.1 in
      before-Differs b (length xs) _ _ _ _ _ _ step.0 rest (omega (arith, step.2))

  sub_w2-eq : (xs : List ℕ) (w : ℕ) → sub_w2 b xs w ≡ sub_w b xs w
  unfolding sub_w2 sub_w
  sub_w2-eq [] w = refl
  sub_w2-eq (x ∷ xs) w = ap (before (minus b x w)) (sub_w2-eq xs _)

  sub_w2-zero : (xs : List ℕ) → AreWords b xs → sub_w2 b xs 0 ≡ record { words = xs; carry = 0 }
  unfolding sub_w2
  sub_w2-zero [] o = refl
  sub_w2-zero (x ∷ xs) o =
      let cases = minus_cases b x 0 o.0 (omega (arith, o.0)) in
      let same : minus b x 0 ≡ x = omega (arith, cases) in
      let none_left : less01 (complement b 0) x ≡ 0 = ground (arith, o.0) in
      rw (same, none_left) (ap (before x) (sub_w2-zero xs o.1))

  sub_w2-cons :
      (x : ℕ) (xs : List ℕ) (w : ℕ)
      → sub_w2 b (x ∷ xs) w
        ≡ before (minus b x w) (sub_w2 b xs (less01 (complement b w) (minus b x w)))
  unfolding sub_w2
  sub_w2-cons x xs w = refl

  sub_w2_fast-eq : (xs : List ℕ) (w : ℕ) → AreWords b xs → sub_w2_fast b xs w ≡ sub_w2 b xs w
  unfolding sub_w2_fast
  sub_w2_fast-eq [] w o = unfold sub_w2 in refl
  sub_w2_fast-eq (x ∷ xs) w o = elim (Bool-cases (w == 0)) [
    | inl done ↦ let e : w ≡ 0 = ground arith in rw done (rw e (sym (sub_w2-zero (x ∷ xs) o)))
    | inr more ↦ rw (more, sub_w2-cons x xs w) (ap (before (minus b x w)) (sub_w2_fast-eq xs _ o.1))
  ]

  -- `zzSubW2` gives the words and the borrow of `zzSubW`, and so does its fast variant, which stops at
  -- the first borrow of zero.
  pub sub_w_variants :
      (xs : List ℕ) (w : ℕ)
      → AreWords b xs
      → (sub_w2 b xs w ≡ sub_w b xs w) × (sub_w2_fast b xs w ≡ sub_w b xs w)
  sub_w_variants xs w o = (sub_w2-eq xs w, sub_w2_fast-eq xs w o ∙ sub_w2-eq xs w)

  value-complement :
      (xs : List ℕ)
      → AreWords b xs
      → (length (map (complement b) xs) ≡ length xs)
        × AreWords b (map (complement b) xs)
        × (value b (map (complement b) xs) + value b xs + 1 ≡ b ^ length xs)
  value-complement [] o = (refl, tt, omega (arith, pow-zero b))
  value-complement (x ∷ xs) o =
      let rest = value-complement xs o.1 in
      let room : x < b = o.0 in
      (
        ap suc rest.0,
        (omega arith, rest.1),
        omega (arith, pow-suc b (length xs), ap (λ (k : ℕ). b * k) rest.2),
      )

  -- `zzNeg` on n words of at least one bit: n words that stand for the negative modulo b^n, which is zero
  -- for zero and else b^n less the number.
  pub value-neg :
      (xs : List ℕ)
      → 1 < b
      → AreWords b xs
      → (length (neg b xs) ≡ length xs)
        × AreWords b (neg b xs)
        × (((value b xs ≡ 0) × (value b (neg b xs) ≡ 0))
            ⊎ ((0 < value b xs) × (value b (neg b xs) + value b xs ≡ b ^ length xs)))
  unfolding neg
  value-neg xs hb o =
      let (size, are, sum) = value-complement xs o in
      let ys = map (complement b) xs in
      let v = rw size at (add_w2-StandsFor b ys 1 (omega arith) hb are) in
      let bound = rw v.size at (value-lt b _ v.are_words) in
      let n = length xs in
      let ws = (add_w2 b ys 1).words in
      elim (flag_cases _ v.flag) [
        | inl zero_flag ↦
            let none = ap (λ (k : ℕ). b ^ n * k) zero_flag in
            (
              v.size,
              v.are_words,
              inr (omega (arith, none, v.total, sum, bound), omega (arith, none, v.total, sum)),
            )
        | inr one_flag ↦
            let full = ap (λ (k : ℕ). b ^ n * k) one_flag in
            (
              v.size,
              v.are_words,
              inl (omega (arith, full, v.total, sum), omega (arith, full, v.total, sum)),
            )
      ]
