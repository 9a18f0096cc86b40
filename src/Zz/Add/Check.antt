-- ===== src/Zz/Add/Check.antt =====
-- The regular `zzIsSumEq`: the differences of the words are collected.
use bee.Common.{
  ℕ, ◌+◌, ◌*◌, ◌%◌, ◌<◌, ◌≤◌, ◌≡◌, ◌↔◌, ap, bit_or, bit_xor, List, [], ◌∷◌, length, arith, ltb,
  if◌then◌else◌, Bool, true, false, ==_iff,
}
use bee.Common.BitLaws.{bit_or-eq-zero, bit_xor-eq-zero}
use bee.Zz.Value.{less01, AreWords, value, digits_unique}
use bee.Zz.Add.{sum_diff, is_sum_eq}
use bee.Zz.Add.Words.{add_word}

flags-le : (p q : Bool) → bit_or (if p then 1 else 0) (if q then 1 else 0) ≤ 1
flags-le true true = omega arith
flags-le true false = omega arith
flags-le false true = omega arith
flags-le false false = omega arith

module _ (b : ℕ) where
  -- The first word of a sum, and the carry into the others.
  pub sum_cons :
      (x y carry c u v s carry' c' : ℕ)
      → c < b
      → c' < b
      → c' + b * carry' ≡ x + y + carry
      → (c + b * s ≡ (x + b * u) + (y + b * v) + carry) ↔ ((c ≡ c') × (s ≡ u + v + carry'))
  sum_cons x y carry c u v s carry' c' h h' e = (
    λ total. digits_unique b c c' s (u + v + carry') h h' (omega (arith, total, e)),
    λ parts. omega (arith, parts.0, ap (λ (t : ℕ). b * t) parts.1, e),
  )

  sum_diff-eq-zero :
      (cs xs ys : List ℕ) (diff carry : ℕ)
      → AreWords b cs
      → AreWords b xs
      → AreWords b ys
      → length cs ≡ length xs
      → length cs ≡ length ys
      → carry ≤ 1
      → (sum_diff b diff carry cs xs ys ≡ 0)
        ↔ ((diff ≡ 0) × (value b cs ≡ value b xs + value b ys + carry))
  unfolding sum_diff
  sum_diff-eq-zero [] [] [] diff carry oc ox oy e e' h = ground (arith, bit_or-eq-zero diff carry)
  sum_diff-eq-zero [] [] (y ∷ ys) diff carry oc ox oy e e' h = absurd (omega arith)
  sum_diff-eq-zero [] (x ∷ xs) ys diff carry oc ox oy e e' h = absurd (omega arith)
  sum_diff-eq-zero (c ∷ cs) [] ys diff carry oc ox oy e e' h = absurd (omega arith)
  sum_diff-eq-zero (c ∷ cs) (x ∷ xs) [] diff carry oc ox oy e e' h = absurd (omega arith)
  sum_diff-eq-zero (c ∷ cs) (x ∷ xs) (y ∷ ys) diff carry oc ox oy e e' h =
      let w = (x + carry) % b in
      let c' = (w + y) % b in
      let step = add_word b x y carry ox.0 oy.0 h in
      let next = bit_or (less01 w carry) (less01 c w) in
      let rest =
        sum_diff-eq-zero cs xs ys (bit_or diff (bit_xor c c')) next oc.1 ox.1 oy.1 (omega arith)
          (omega arith) (flags-le (ltb w carry) (ltb c w)) in
      let split =
        sum_cons x y carry c (value b xs) (value b ys) (value b cs)
          (bit_or (less01 w carry) (less01 c' w)) c' oc.0 step.0 step.2 in
      let same : c ≡ c' → next ≡ bit_or (less01 w carry) (less01 c' w) =
        λ k. ap (λ t. bit_or (less01 w carry) (less01 t w)) k in
      (
        λ none.
            let r = rest.0 none in
            let z = (bit_or-eq-zero diff (bit_xor c c')).0 r.0 in
            let k = (bit_xor-eq-zero c c').0 z.1 in (z.0, split.1 (k, omega (arith, r.1, same k))),
        λ total.
            let parts = split.0 total.1 in
            rest.1 (
              (bit_or-eq-zero diff (bit_xor c c')).1 (total.0, (bit_xor-eq-zero c c').1 parts.0),
              omega (arith, parts.1, same parts.0),
            ),
      )

  -- On arrays of words of one length the regular `zzIsSumEq` answers whether the number of the first array
  -- is the sum of the numbers of the two others.
  pub is_sum_eq_iff :
      (cs xs ys : List ℕ)
      → AreWords b cs
      → AreWords b xs
      → AreWords b ys
      → length cs ≡ length xs
      → length cs ≡ length ys
      → (is_sum_eq b cs xs ys ≡ true) ↔ (value b cs ≡ value b xs + value b ys)
  unfolding is_sum_eq
  is_sum_eq_iff cs xs ys oc ox oy e e' = ground (
    arith,
    sum_diff-eq-zero cs xs ys 0 0 oc ox oy e e' (omega arith),
    ==_iff (sum_diff b 0 0 cs xs ys) 0,
  )
