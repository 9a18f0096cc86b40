-- ===== src/Zz/Sub/Laws.antt =====
-- Differences as numbers: what `zzSub` and `zzSub2` compute, and that their variants agree.
use bee.Common.{
  ℕ, suc, ◌+◌, ◌*◌, ◌%◌, ◌^◌, ◌<◌, ◌≤◌, ◌≡◌, refl, ap, ◌∙◌, List, [], ◌∷◌, length, arith,
}
use bee.Zz.Value.{AreWords, value}
use bee.Zz.Add.{Result, before}
use bee.Zz.Sub.{
  minus, sub_from, sub, sub_fast_from, sub_fast, sub2_from, sub2, sub2_fast_from, sub2_fast,
}
use bee.Zz.Sub.Words.{sub_word, sub_word_fast}
use native.Mathlib.Nat.{pow-suc, pow-zero, add-zero}

-- `n` words and a borrow of 0 or 1 that stand for the difference of `s` and `t`.
pub record Differs (b n s t : ℕ) (r : Result) : Type 0 where
  pub are_words : AreWords b r.words
  pub size : length r.words ≡ n
  pub flag : r.carry ≤ 1
  pub total : value b r.words + t ≡ s + b ^ n * r.carry

module _ (b : ℕ) where
  pub empty-Differs : (w : ℕ) → w ≤ 1 → Differs b 0 0 w (record { words = []; carry = w })
  empty-Differs w h = record {
    are_words = tt;
    size = refl;
    flag = h;
    total = omega (arith, ap (λ (k : ℕ). k * w) (pow-zero b));
  }

  -- A word in front of a difference.
  pub before-Differs :
      (n s t s' t' c : ℕ) (r : Result)
      → c < b
      → Differs b n s t r
      → c + b * s + t' ≡ s' + b * t
      → Differs b (suc n) s' t' (before c r)
  before-Differs n s t s' t' c r h v e = record {
    are_words = (h, v.are_words);
    size = ap suc v.size;
    flag = v.flag;
    total =
        omega (arith, ap (λ (k : ℕ). b * k) v.total, ap (λ (k : ℕ). k * r.carry) (pow-suc b n), e);
  }

  sub_from-Differs :
      (xs ys : List ℕ) (borrow : ℕ)
      → borrow ≤ 1
      → AreWords b xs
      → AreWords b ys
      → length xs ≡ length ys
      → Differs b (length xs) (value b xs) (value b ys + borrow) (sub_from b borrow xs ys)
  unfolding sub_from
  sub_from-Differs [] [] borrow hc ox oy e =
      let none : 0 + borrow ≡ borrow = omega arith in rw none (empty-Differs borrow hc)
  sub_from-Differs [] (y ∷ ys) borrow hc ox oy e = absurd (omega arith)
  sub_from-Differs (x ∷ xs) [] borrow hc ox oy e = absurd (omega arith)
  sub_from-Differs (x ∷ xs) (y ∷ ys) borrow hc ox oy e =
      let step = sub_word b x y borrow ox.0 oy.0 hc in
      let rest = sub_from-Differs xs ys _ step.1 ox.1 oy.1 (omega arith) in
      before-Differs (length xs) _ _ _ _ _ _ step.0 rest (omega (arith, step.2))

  -- `zzSub` on n words each: n words and a borrow of 0 or 1, with the words plus the subtrahend equal to
  -- the minuend plus b^n times the borrow.
  pub sub-Differs :
      (xs ys : List ℕ)
      → AreWords b xs
      → AreWords b ys
      → length xs ≡ length ys
      → Differs b (length xs) (value b xs) (value b ys) (sub b xs ys)
  unfolding sub
  sub-Differs xs ys ox oy e =
      rw (add-zero (value b ys)) at (sub_from-Differs xs ys 0 (omega arith) ox oy e)

  sub_fast_from-eq :
      (xs ys : List ℕ) (borrow : ℕ)
      → 1 < b
      → borrow ≤ 1
      → AreWords b xs
      → AreWords b ys
      → sub_fast_from b borrow xs ys ≡ sub_from b borrow xs ys
  unfolding sub_fast_from sub_from
  sub_fast_from-eq [] [] borrow hb hc ox oy = refl
  sub_fast_from-eq [] (y ∷ ys) borrow hb hc ox oy = refl
  sub_fast_from-eq (x ∷ xs) [] borrow hb hc ox oy = refl
  sub_fast_from-eq (x ∷ xs) (y ∷ ys) borrow hb hc ox oy =
      let (same_word, same_borrow) = sub_word_fast b x y borrow ox.0 oy.0 hb hc in
      rw (same_word, same_borrow)
        (ap (before (minus b x ((y + borrow) % b)))
          (sub_fast_from-eq xs ys _ hb (sub_word b x y borrow ox.0 oy.0 hc).1 ox.1 oy.1))

  sub2_from-eq : (ys xs : List ℕ) (borrow : ℕ) → sub2_from b borrow ys xs ≡ sub_from b borrow ys xs
  unfolding sub2_from sub_from
  sub2_from-eq [] [] borrow = refl
  sub2_from-eq [] (x ∷ xs) borrow = refl
  sub2_from-eq (y ∷ ys) [] borrow = refl
  sub2_from-eq (y ∷ ys) (x ∷ xs) borrow = ap (before _) (sub2_from-eq ys xs _)

  sub2_fast_from-eq :
      (ys xs : List ℕ) (borrow : ℕ) → sub2_fast_from b borrow ys xs ≡ sub_fast_from b borrow ys xs
  unfolding sub2_fast_from sub_fast_from
  sub2_fast_from-eq [] [] borrow = refl
  sub2_fast_from-eq [] (x ∷ xs) borrow = refl
  sub2_fast_from-eq (y ∷ ys) [] borrow = refl
  sub2_fast_from-eq (y ∷ ys) (x ∷ xs) borrow = ap (before _) (sub2_fast_from-eq ys xs _)

  -- The fast variants of `zzSub` and `zzSub2`, and the regular `zzSub2`, give the words and the borrow
  -- of the regular `zzSub`, for a word of at least one bit.
  pub sub_variants :
      (xs ys : List ℕ)
      → 1 < b
      → AreWords b xs
      → AreWords b ys
      → (sub_fast b xs ys ≡ sub b xs ys)
        × (sub2 b xs ys ≡ sub b xs ys)
        × (sub2_fast b xs ys ≡ sub b xs ys)
  unfolding sub_fast sub sub2 sub2_fast
  sub_variants xs ys hb ox oy =
      let fast = sub_fast_from-eq xs ys 0 hb (omega arith) ox oy in
      (fast, sub2_from-eq xs ys 0, sub2_fast_from-eq xs ys 0 ∙ fast)
