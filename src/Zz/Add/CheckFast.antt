-- ===== src/Zz/Add/CheckFast.antt =====
-- The fast `zzIsSumEq`.
use bee.Common.{
  ℕ, ◌+◌, ◌%◌, ◌<◌, ◌≤◌, ◌≡◌, ◌↔◌, inl, inr, refl, ap, sym, ◌∙◌, bit_or, List, [], ◌∷◌, length,
  arith, ltb, ◌==◌, ◌!=◌, if◌then◌else◌, Bool-cases, true, false,
}
use bee.Zz.Value.{less01, AreWords, value}
use bee.Zz.Add.{is_sum_eq, is_sum_eq_fast_from, is_sum_eq_fast}
use bee.Zz.Add.Words.{wrap, add_word, add_word_fast}
use bee.Zz.Add.Check.{sum_cons, is_sum_eq_iff}

pub dec_nat_eq : (m n : ℕ) → Dec (m ≡ n)
dec_nat_eq m n = elim (Bool-cases (m == n)) [
  | inl same ↦ yes (ground arith)
  | inr other ↦ no (ground arith)
]

module _ (b : ℕ) where
  -- The word that the fast loop compares with, and its carry where they agree.
  fast_round :
      (x y carry : ℕ)
      → x < b
      → y < b
      → carry ≤ 1
      → let w = (x + carry) % b in
        let c = (w + y) % b in
        ((if ltb w carry then y else c) ≡ c)
        × ((if ltb w carry then carry else less01 c w) ≡ bit_or (less01 w carry) (less01 c w))
  fast_round x y carry hx hy hc =
      let w = (x + carry) % b in
      elim (wrap b (x + carry) (omega arith)) [
        | inl (low, e) ↦ ground (arith, (add_word_fast b x y carry hx hy hc).0)
        | inr (high, e) ↦ ground (arith, (add_word_fast b x y carry hx hy hc).0)
      ]

  fast_iff :
      (cs xs ys : List ℕ) (carry : ℕ)
      → AreWords b cs
      → AreWords b xs
      → AreWords b ys
      → length cs ≡ length xs
      → length cs ≡ length ys
      → carry ≤ 1
      → (is_sum_eq_fast_from b carry cs xs ys ≡ true)
        ↔ (value b cs ≡ value b xs + value b ys + carry)
  unfolding is_sum_eq_fast_from
  fast_iff [] [] [] carry oc ox oy e e' h = ground arith
  fast_iff [] [] (y ∷ ys) carry oc ox oy e e' h = absurd (omega arith)
  fast_iff [] (x ∷ xs) ys carry oc ox oy e e' h = absurd (omega arith)
  fast_iff (c ∷ cs) [] ys carry oc ox oy e e' h = absurd (omega arith)
  fast_iff (c ∷ cs) (x ∷ xs) [] carry oc ox oy e e' h = absurd (omega arith)
  fast_iff (c ∷ cs) (x ∷ xs) (y ∷ ys) carry oc ox oy e e' h =
      let w = (x + carry) % b in
      let c' = (w + y) % b in
      let step = add_word b x y carry ox.0 oy.0 h in
      let round = fast_round x y carry ox.0 oy.0 h in
      let next = if ltb w carry then carry else less01 c w in
      let rest = fast_iff cs xs ys next oc.1 ox.1 oy.1 (omega arith) (omega arith) (ground arith) in
      let split =
        sum_cons b x y carry c (value b xs) (value b ys) (value b cs)
          (bit_or (less01 w carry) (less01 c' w)) c' oc.0 step.0 step.2 in
      let same : c ≡ c' → next ≡ bit_or (less01 w carry) (less01 c' w) =
        λ k. ap (λ t. if ltb w carry then carry else less01 t w) k ∙ round.1 in
      elim (Bool-cases (ltb w carry)) [
        | inl wrapped ↦
            let word : y ≡ c' = rw wrapped at round.0 in
            let later : next ≡ carry = rw wrapped refl in
            elim (dec_nat_eq c y) [
              | yes e ↦
                  let k : c ≡ c' = e ∙ word in
                  let e1 : (c != y) ≡ false = ground arith in
                  let agreed : carry ≡ bit_or (less01 w carry) (less01 c' w) = sym later ∙ same k in
                  let rest' = rw later at rest in
                  rw (wrapped, e1)
                    (
                      λ t. split.1 (k, omega (arith, rest'.0 t, agreed)),
                      λ t. rest'.1 (omega (arith, (split.0 t).1, agreed)),
                    )
              | no n ↦
                  let e1 : (c != y) ≡ true = ground arith in
                  rw (wrapped, e1)
                    (λ t. absurd (ground (arith, t)), λ t. absurd (n ((split.0 t).0 ∙ sym word)))
            ]
        | inr fits ↦
            let later : next ≡ less01 c w = rw fits refl in
            elim (dec_nat_eq c c') [
              | yes k ↦
                  let e1 : (c != c') ≡ false = ground arith in
                  let agreed : less01 c w ≡ bit_or (less01 w carry) (less01 c' w) =
                    sym later ∙ same k in
                  let rest' = rw later at rest in
                  rw (fits, e1)
                    (
                      λ t. split.1 (k, omega (arith, rest'.0 t, agreed)),
                      λ t. rest'.1 (omega (arith, (split.0 t).1, agreed)),
                    )
              | no n ↦
                  let e1 : (c != c') ≡ true = ground arith in
                  rw (fits, e1) (λ t. absurd (ground (arith, t)), λ t. absurd (n (split.0 t).0))
            ]
      ]

  -- The fast `zzIsSumEq` answers as the regular one.
  pub is_sum_eq_fast_iff :
      (cs xs ys : List ℕ)
      → AreWords b cs
      → AreWords b xs
      → AreWords b ys
      → length cs ≡ length xs
      → length cs ≡ length ys
      → (is_sum_eq_fast b cs xs ys ≡ true) ↔ (is_sum_eq b cs xs ys ≡ true)
  unfolding is_sum_eq_fast
  is_sum_eq_fast_iff cs xs ys oc ox oy e e' =
      let fast = fast_iff cs xs ys 0 oc ox oy e e' (omega arith) in
      let regular = is_sum_eq_iff b cs xs ys oc ox oy e e' in
      (λ t. regular.1 (omega (arith, fast.0 t)), λ t. fast.1 (omega (arith, regular.0 t)))
