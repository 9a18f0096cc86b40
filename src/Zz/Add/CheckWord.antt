-- ===== src/Zz/Add/CheckWord.antt =====
-- Both variants of `zzIsSumWEq`.
use bee.Common.{
  ℕ, ◌+◌, ◌*◌, ◌%◌, ◌<◌, ◌≤◌, ◌≡◌, ◌↔◌, ap, inl, inr, bit_or, bit_xor, List, [], ◌∷◌, length, arith,
  ◌!=◌, true, false, ==_iff,
}
use bee.Common.BitLaws.{bit_or-eq-zero, bit_xor-eq-zero}
use bee.Zz.Value.{less01, AreWords, value}
use bee.Zz.Add.{sum_w_diff, is_sum_w_eq, is_sum_w_eq_fast}
use bee.Zz.Add.Words.{wrap}
use bee.Zz.Add.Check.{sum_cons}
use bee.Zz.Add.CheckFast.{dec_nat_eq}

module _ (b : ℕ) where
  -- The expected word, and the flag by which the sum has gone below the first operand.
  below_operand :
      (x w : ℕ)
      → x < b
      → w < b
      → let c = (x + w) % b in (c < b) × (less01 c x ≤ 1) × (c + b * less01 c x ≡ x + w)
  below_operand x w hx hw = elim (wrap b (x + w) (omega arith)) [
    | inl (low, e) ↦ ground arith
    | inr (high, e) ↦ ground arith
  ]

  flag_le : (c x : ℕ) → less01 c x ≤ 1
  flag_le c x = ground arith

  -- The number of a longer array is the sum when the lowest word and the others are.
  word_cons :
      (c x w u s : ℕ)
      → c < b
      → x < b
      → w < b
      → (c + b * s ≡ x + b * u + w) ↔ ((c ≡ (x + w) % b) × (s ≡ u + less01 ((x + w) % b) x))
  word_cons c x w u s hc hx hw =
      let step = below_operand x w hx hw in
      let flag = less01 ((x + w) % b) x in
      let split = sum_cons b x 0 w c u 0 s flag ((x + w) % b) hc step.0 (omega (arith, step.2)) in
      (
        λ t. let parts = split.0 (omega (arith, t)) in (parts.0, omega (arith, parts.1)),
        λ parts. omega (arith, split.1 (parts.0, omega (arith, parts.1))),
      )

  sum_w_diff-eq-zero :
      (cs xs : List ℕ) (diff w : ℕ)
      → 1 < b
      → w < b
      → AreWords b cs
      → AreWords b xs
      → length cs ≡ length xs
      → (sum_w_diff b diff cs xs w ≡ 0) ↔ ((diff ≡ 0) × (value b cs ≡ value b xs + w))
  unfolding sum_w_diff
  sum_w_diff-eq-zero [] [] diff w hb hw oc ox e = ground (arith, bit_or-eq-zero diff w)
  sum_w_diff-eq-zero [] (x ∷ xs) diff w hb hw oc ox e = absurd (omega arith)
  sum_w_diff-eq-zero (c ∷ cs) [] diff w hb hw oc ox e = absurd (omega arith)
  sum_w_diff-eq-zero (c ∷ cs) (x ∷ xs) diff w hb hw oc ox e =
      let c' = (x + w) % b in
      let split = word_cons c x w (value b xs) (value b cs) oc.0 ox.0 hw in
      let rest =
        sum_w_diff-eq-zero cs xs (bit_or diff (bit_xor c c')) (less01 c x) hb
          (omega (arith, flag_le c x)) oc.1 ox.1 (omega arith) in
      let same : c ≡ c' → less01 c x ≡ less01 c' x = λ k. ap (λ t. less01 t x) k in
      (
        λ none.
            let r = rest.0 none in
            let z = (bit_or-eq-zero diff (bit_xor c c')).0 r.0 in
            let k = (bit_xor-eq-zero c c').0 z.1 in (z.0, split.1 (k, omega (arith, r.1, same k))),
        λ total.
            let parts = split.0 total.1 in
            rest.1 (
              (bit_or-eq-zero diff (bit_xor c c')).1 (total.0, (bit_xor-eq-zero c c').1 parts.0),
              omega (arith, parts.1, same parts.0),
            ),
      )

  is_sum_w_eq_fast_lem :
      (cs xs : List ℕ) (w : ℕ)
      → 1 < b
      → w < b
      → AreWords b cs
      → AreWords b xs
      → length cs ≡ length xs
      → (is_sum_w_eq_fast b cs xs w ≡ true) ↔ (value b cs ≡ value b xs + w)
  unfolding is_sum_w_eq_fast
  is_sum_w_eq_fast_lem [] [] w hb hw oc ox e = ground arith
  is_sum_w_eq_fast_lem [] (x ∷ xs) w hb hw oc ox e = absurd (omega arith)
  is_sum_w_eq_fast_lem (c ∷ cs) [] w hb hw oc ox e = absurd (omega arith)
  is_sum_w_eq_fast_lem (c ∷ cs) (x ∷ xs) w hb hw oc ox e =
      let c' = (x + w) % b in
      let split = word_cons c x w (value b xs) (value b cs) oc.0 ox.0 hw in
      let rest =
        is_sum_w_eq_fast_lem cs xs (less01 c x) hb (omega (arith, flag_le c x)) oc.1 ox.1
          (omega arith) in
      let same : c ≡ c' → less01 c x ≡ less01 c' x = λ k. ap (λ t. less01 t x) k in
      elim (dec_nat_eq c c') [
        | yes k ↦
            let e1 : (c != c') ≡ false = ground arith in
            rw e1 (
              λ t. split.1 (k, omega (arith, rest.0 t, same k)),
              λ t. rest.1 (omega (arith, (split.0 t).1, same k)),
            )
        | no n ↦
            let e1 : (c != c') ≡ true = ground arith in
            rw e1 (λ t. absurd (ground (arith, t)), λ t. absurd (n (split.0 t).0))
      ]

  -- For a word `w` of at least one bit and arrays of words of the same length, `zzIsSumWEq`, regular and fast, answers whether the
  -- number of the first array is the number of the second one plus `w`.
  pub is_sum_w_eq_iff :
      (cs xs : List ℕ) (w : ℕ)
      → 1 < b
      → w < b
      → AreWords b cs
      → AreWords b xs
      → length cs ≡ length xs
      → ((is_sum_w_eq b cs xs w ≡ true) ↔ (value b cs ≡ value b xs + w))
        × ((is_sum_w_eq_fast b cs xs w ≡ true) ↔ (value b cs ≡ value b xs + w))
  unfolding is_sum_w_eq
  is_sum_w_eq_iff cs xs w hb hw oc ox e = (
    ground (arith, sum_w_diff-eq-zero cs xs 0 w hb hw oc ox e, ==_iff (sum_w_diff b 0 cs xs w) 0),
    is_sum_w_eq_fast_lem cs xs w hb hw oc ox e,
  )
