-- ===== src/Zz/Add/Carry.antt =====
-- `zzAddW`, `zzAddW2` and `zzAdd3`: a word, or a shorter array, is added.
use bee.Common.{
  ℕ, ◌+◌, ◌*◌, ◌%◌, ◌^◌, ◌<◌, ◌≤◌, ◌≡◌, inl, inr, refl, ap, sym, ◌∙◌, max, List, [], ◌∷◌, length,
  take, drop, arith, ltb, Bool-cases, length-append, length-take, length-drop, take-append-drop,
  ◌==◌,
}
use bee.Common.Powers.{pow_add}
use bee.Zz.Value.{
  less01, AreWords, value, value-append, append-AreWords, take-AreWords, drop-AreWords,
}
use bee.Zz.Add.{Result, before, add_w, add_w2, add_w2_fast, add_tail, add3}
use bee.Zz.Add.Words.{wrap}
use bee.Zz.Add.Laws.{StandsFor, add-StandsFor, before-StandsFor}
use native.Mathlib.Nat.{pow-zero, add-zero, mod-eq_of_lt}

module _ (b : ℕ) where
  -- One word, and the flag that it leaves.
  pub add_w_word :
      (x w : ℕ)
      → x < b
      → w < b
      → ((x + w) % b < b)
        × (less01 ((x + w) % b) w ≤ 1)
        × ((x + w) % b + b * less01 ((x + w) % b) w ≡ x + w)
  add_w_word x w hx hw = elim (wrap b (x + w) (omega arith)) [
    | inl (low, e) ↦ ground arith
    | inr (high, e) ↦ ground arith
  ]

  add_w-StandsFor_flag :
      (xs : List ℕ) (w : ℕ)
      → w ≤ 1
      → 1 < b
      → AreWords b xs
      → StandsFor b (length xs) (value b xs + w) (add_w b xs w)
  unfolding add_w
  add_w-StandsFor_flag [] w hw hb o = record {
    are_words = tt;
    size = refl;
    flag = hw;
    total = omega (arith, ap (λ (t : ℕ). t * w) (pow-zero b));
  }
  add_w-StandsFor_flag (x ∷ xs) w hw hb o =
      let step = add_w_word x w o.0 (omega arith) in
      let rest = add_w-StandsFor_flag xs _ step.1 hb o.1 in
      before-StandsFor b (length xs) _ _ _ _ step.0 rest (omega (arith, step.2))

  -- `zzAddW` on at least one word: n words and a carry of 0 or 1 that stand for the sum.
  pub add_w-StandsFor :
      (xs : List ℕ) (w : ℕ)
      → 0 < length xs
      → w < b
      → 1 < b
      → AreWords b xs
      → StandsFor b (length xs) (value b xs + w) (add_w b xs w)
  unfolding add_w
  add_w-StandsFor [] w n hw hb o = absurd (omega arith)
  add_w-StandsFor (x ∷ xs) w n hw hb o =
      let step = add_w_word x w o.0 hw in
      let rest = add_w-StandsFor_flag xs _ step.1 hb o.1 in
      before-StandsFor b (length xs) _ _ _ _ step.0 rest (omega (arith, step.2))

  add_w2-eq : (xs : List ℕ) (w : ℕ) → add_w2 b xs w ≡ add_w b xs w
  unfolding add_w2 add_w
  add_w2-eq [] w = refl
  add_w2-eq (x ∷ xs) w = ap (before ((x + w) % b)) (add_w2-eq xs _)

  add_w2-zero : (xs : List ℕ) → AreWords b xs → add_w2 b xs 0 ≡ record { words = xs; carry = 0 }
  unfolding add_w2
  add_w2-zero [] o = refl
  add_w2-zero (x ∷ xs) o =
      let same : (x + 0) % b ≡ x = rw (add-zero x) (mod-eq_of_lt o.0) in
      let none_left : less01 x 0 ≡ 0 = ground arith in
      rw (same, none_left) (ap (before x) (add_w2-zero xs o.1))

  add_w2-cons :
      (x : ℕ) (xs : List ℕ) (w : ℕ)
      → add_w2 b (x ∷ xs) w ≡ before ((x + w) % b) (add_w2 b xs (less01 ((x + w) % b) w))
  unfolding add_w2
  add_w2-cons x xs w = refl

  add_w2_fast-eq : (xs : List ℕ) (w : ℕ) → AreWords b xs → add_w2_fast b xs w ≡ add_w2 b xs w
  unfolding add_w2_fast
  add_w2_fast-eq [] w o = unfold add_w2 in refl
  add_w2_fast-eq (x ∷ xs) w o = elim (Bool-cases (w == 0)) [
    | inl done ↦ let e : w ≡ 0 = ground arith in rw done (rw e (sym (add_w2-zero (x ∷ xs) o)))
    | inr more ↦ rw (more, add_w2-cons x xs w) (ap (before ((x + w) % b)) (add_w2_fast-eq xs _ o.1))
  ]

  -- `zzAddW2` gives the words and the carry of `zzAddW`, and so does its fast variant, which stops at
  -- the first carry of zero.
  pub add_w_variants :
      (xs : List ℕ) (w : ℕ)
      → AreWords b xs
      → (add_w2 b xs w ≡ add_w b xs w) × (add_w2_fast b xs w ≡ add_w b xs w)
  add_w_variants xs w o = (add_w2-eq xs w, add_w2_fast-eq xs w o ∙ add_w2-eq xs w)

  -- `zzAddW2` with a carry of 0 or 1.
  pub add_w2-StandsFor :
      (xs : List ℕ) (w : ℕ)
      → w ≤ 1
      → 1 < b
      → AreWords b xs
      → StandsFor b (length xs) (value b xs + w) (add_w2 b xs w)
  add_w2-StandsFor xs w hw hb o = rw (add_w2-eq xs w) (add_w-StandsFor_flag xs w hw hb o)

  add_tail-StandsFor :
      (n s : ℕ) (low : Result) (tail : List ℕ)
      → 1 < b
      → StandsFor b n s low
      → AreWords b tail
      → StandsFor b (n + length tail) (s + b ^ n * value b tail) (add_tail b low tail)
  unfolding add_tail
  add_tail-StandsFor n s low tail hb v o =
      let high : StandsFor b (length tail) (value b tail + low.carry) (add_w2 b tail low.carry) =
        add_w2-StandsFor tail low.carry v.flag hb o in
      let r = add_w2 b tail low.carry in
      record {
        are_words = append-AreWords b low.words r.words v.are_words high.are_words;
        size = omega (arith, length-append low.words r.words, v.size, high.size);
        flag = high.flag;
        total = omega (
          arith,
          value-append b low.words r.words,
          ap (λ k. b ^ k * value b r.words) v.size,
          ap (λ (t : ℕ). t * r.carry) (pow_add b n (length tail)),
          ap (λ (t : ℕ). b ^ n * t) high.total,
          v.total,
        );
      }

  recast : (n n' s s' : ℕ) (r : Result) → n ≡ n' → s ≡ s' → StandsFor b n s r → StandsFor b n' s' r
  recast n n' s s' r e e' v = rw (← e, ← e') v

  pub value_split :
      (n : ℕ) (xs : List ℕ)
      → n ≤ length xs
      → value b xs ≡ value b (take n xs) + b ^ n * value b (drop n xs)
  value_split n xs h =
      let size : length (take n xs) ≡ n = omega (arith, length-take n xs) in
      ap (value b) (sym (take-append-drop n xs))
      ∙ value-append b (take n xs) (drop n xs)
      ∙ ap (λ k. value b (take n xs) + b ^ k * value b (drop n xs)) size

  -- The lower n words of the longer array are added to the shorter one.
  add_cut :
      (n s : ℕ) (long : List ℕ) (low : Result)
      → 1 < b
      → AreWords b long
      → n ≤ length long
      → StandsFor b n (value b (take n long) + s) low
      → StandsFor b (length long) (value b long + s) (add_tail b low (drop n long))
  add_cut n s long low hb o h v =
      recast _ _ _ _ _ (omega (arith, length-drop n long)) (omega (arith, value_split n long h))
        (add_tail-StandsFor n _ low (drop n long) hb v (drop-AreWords b n long o))

  -- `zzAdd3` on arrays of words of any lengths, for a word of at least one bit: as many words as the longer
  -- one has and a carry of 0 or 1, which stand for the sum.
  pub add3-StandsFor :
      (xs ys : List ℕ)
      → 1 < b
      → AreWords b xs
      → AreWords b ys
      → StandsFor b (max (length xs) (length ys)) (value b xs + value b ys) (add3 b xs ys)
  unfolding add3
  add3-StandsFor xs ys hb ox oy = elim (Bool-cases (ltb (length ys) (length xs))) [
    | inl longer ↦
        let m = length ys in
        let le : m ≤ length xs = ground arith in
        let size : length (take m xs) ≡ m = omega (arith, length-take m xs) in
        let low =
          recast _ m _ _ _ size refl
            (add-StandsFor b (take m xs) ys (take-AreWords b m xs ox) oy size) in
        rw longer (recast _ _ _ _ _ (ground arith) refl (add_cut m (value b ys) xs _ hb ox le low))
    | inr not_longer ↦ rw not_longer (elim (Bool-cases (ltb (length xs) (length ys))) [
      | inl shorter ↦
          let n = length xs in
          let le : n ≤ length ys = ground arith in
          let size : n ≡ length (take n ys) = omega (arith, length-take n ys) in
          let low =
            recast _ n _ (value b (take n ys) + value b xs) _ refl (omega arith)
              (add-StandsFor b xs (take n ys) ox (take-AreWords b n ys oy) size) in
          rw shorter (
            recast _ _ _ _ _ (ground arith) (omega arith)
              (add_cut n (value b xs) ys _ hb oy le low))
      | inr equal ↦
          rw equal
            (recast _ _ _ _ _ (ground arith) refl (add-StandsFor b xs ys ox oy (ground arith)))
    ])
  ]
