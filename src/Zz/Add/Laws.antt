-- ===== src/Zz/Add/Laws.antt =====
-- Sums as numbers: what the loops of src/math/zz/zz_add.c compute.
use bee.Common.{
  true, false, Bool-cases, leb, ℕ, suc, ◌+◌, ◌*◌, ◌%◌, ◌^◌, ◌<◌, ◌≤◌, ◌≡◌, inl, inr, refl, ap, ◌∙◌,
  List, [], ◌∷◌, length, arith, ltb,
}
use bee.Zz.Value.{AreWords, value}
use bee.Zz.Add.{
  Result, before, add_from, add, add_fast_from, add_fast, add2_from, add2, add2_fast_from,
  add2_fast,
}
use bee.Zz.Add.Words.{add_word, add_word_fast}
use native.Mathlib.Nat.{pow-suc, pow-zero, add-zero, add_comm}

-- `n` words and a carry that stand for the number `s`.
pub record StandsFor (b n s : ℕ) (r : Result) : Type 0 where
  pub are_words : AreWords b r.words
  pub size : length r.words ≡ n
  pub flag : r.carry ≤ 1
  pub total : value b r.words + b ^ n * r.carry ≡ s

module _ (b : ℕ) where
  -- A word in front of a result.
  pub before-StandsFor :
      (n s s' c : ℕ) (r : Result)
      → c < b
      → StandsFor b n s r
      → s' ≡ c + b * s
      → StandsFor b (suc n) s' (before c r)
  before-StandsFor n s s' c r h v e = record {
    are_words = (h, v.are_words);
    size = ap suc v.size;
    flag = v.flag;
    total =
        omega (arith, ap (λ (t : ℕ). b * t) v.total, ap (λ (t : ℕ). t * r.carry) (pow-suc b n), e);
  }

  add_from-StandsFor :
      (xs ys : List ℕ) (carry : ℕ)
      → carry ≤ 1
      → AreWords b xs
      → AreWords b ys
      → length xs ≡ length ys
      → StandsFor b (length xs) (value b xs + value b ys + carry) (add_from b carry xs ys)
  unfolding add_from
  add_from-StandsFor [] [] carry hc ox oy e = record {
    are_words = tt;
    size = refl;
    flag = hc;
    total = omega (arith, ap (λ (t : ℕ). t * carry) (pow-zero b));
  }
  add_from-StandsFor [] (y ∷ ys) carry hc ox oy e = absurd (omega arith)
  add_from-StandsFor (x ∷ xs) [] carry hc ox oy e = absurd (omega arith)
  add_from-StandsFor (x ∷ xs) (y ∷ ys) carry hc ox oy e =
      let step = add_word b x y carry ox.0 oy.0 hc in
      let rest = add_from-StandsFor xs ys _ step.1 ox.1 oy.1 (omega arith) in
      before-StandsFor (length xs) _ _ _ _ step.0 rest (omega (arith, step.2))

  -- `zzAdd` on n words each: n words and a carry of 0 or 1 that stand for the sum, b^n the weight of the
  -- carry.
  pub add-StandsFor :
      (xs ys : List ℕ)
      → AreWords b xs
      → AreWords b ys
      → length xs ≡ length ys
      → StandsFor b (length xs) (value b xs + value b ys) (add b xs ys)
  unfolding add
  add-StandsFor xs ys ox oy e =
      rw (add-zero (value b xs + value b ys)) at (add_from-StandsFor xs ys 0 (omega arith) ox oy e)

  add_fast_from-eq :
      (xs ys : List ℕ) (carry : ℕ)
      → carry ≤ 1
      → AreWords b xs
      → AreWords b ys
      → add_fast_from b carry xs ys ≡ add_from b carry xs ys
  unfolding add_fast_from add_from
  add_fast_from-eq [] [] carry hc ox oy = refl
  add_fast_from-eq [] (y ∷ ys) carry hc ox oy = refl
  add_fast_from-eq (x ∷ xs) [] carry hc ox oy = refl
  add_fast_from-eq (x ∷ xs) (y ∷ ys) carry hc ox oy =
      let (same_word, same_carry) = add_word_fast b x y carry ox.0 oy.0 hc in
      rw (same_word, same_carry)
        (ap (before ((((x + carry) % b) + y) % b))
          (add_fast_from-eq xs ys _ (add_word b x y carry ox.0 oy.0 hc).1 ox.1 oy.1))

  add2_from-eq : (xs ys : List ℕ) (carry : ℕ) → add2_from b carry ys xs ≡ add_from b carry xs ys
  unfolding add2_from add_from
  add2_from-eq [] [] carry = refl
  add2_from-eq [] (y ∷ ys) carry = refl
  add2_from-eq (x ∷ xs) [] carry = refl
  add2_from-eq (x ∷ xs) (y ∷ ys) carry =
      rw (add_comm y ((x + carry) % b)) (ap (before _) (add2_from-eq xs ys _))

  add2_fast_from-eq :
      (xs ys : List ℕ) (carry : ℕ) → add2_fast_from b carry ys xs ≡ add_fast_from b carry xs ys
  unfolding add2_fast_from add_fast_from
  add2_fast_from-eq [] [] carry = refl
  add2_fast_from-eq [] (y ∷ ys) carry = refl
  add2_fast_from-eq (x ∷ xs) [] carry = refl
  add2_fast_from-eq (x ∷ xs) (y ∷ ys) carry = elim (Bool-cases (ltb ((x + carry) % b) carry)) [
    | inl wrapped ↦
        let kept : leb carry ((x + carry) % b) ≡ false = ground arith in
        rw (wrapped, kept) (ap (before _) (add2_fast_from-eq xs ys carry))
    | inr fits ↦
        let kept : leb carry ((x + carry) % b) ≡ true = ground arith in
        rw (fits, kept) (ap (before _) (add2_fast_from-eq xs ys _))
  ]

  -- On arrays of words the fast variants of `zzAdd` and `zzAdd2`, and the regular `zzAdd2`, give the words and the carry of
  -- the regular `zzAdd`.
  pub add_variants :
      (xs ys : List ℕ)
      → AreWords b xs
      → AreWords b ys
      → (add_fast b xs ys ≡ add b xs ys)
        × (add2 b ys xs ≡ add b xs ys)
        × (add2_fast b ys xs ≡ add b xs ys)
  unfolding add_fast add add2 add2_fast
  add_variants xs ys ox oy =
      let fast = add_fast_from-eq xs ys 0 (omega arith) ox oy in
      (fast, add2_from-eq xs ys 0, add2_fast_from-eq xs ys 0 ∙ fast)
