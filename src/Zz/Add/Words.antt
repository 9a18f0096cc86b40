-- ===== src/Zz/Add/Words.antt =====
-- One round of the loops, on one word of each operand.
use bee.Common.{
  ℕ, ◌+◌, ◌-◌, ◌*◌, ◌%◌, ◌<◌, ◌≤◌, ◌≡◌, ◌⊎◌, inl, inr, bit_or, arith, ltb, if◌then◌else◌,
}
use bee.Zz.Value.{less01}
use native.Mathlib.Nat.{mod-eq_of_lt, mod-eq-sub-mod}
use native.Mathlib.Decide.{dec_lt}

module _ (b : ℕ) where
  -- A sum of two words either fits or wraps once.
  pub wrap : (s : ℕ) → s < b + b → ((s < b) × (s % b ≡ s)) ⊎ ((b ≤ s) × (s % b + b ≡ s))
  wrap s h = elim (dec_lt s b) [
    | yes fits ↦ inl (fits, mod-eq_of_lt fits)
    | no over ↦
        let le : b ≤ s = omega arith in
        inr (le, omega (arith, mod-eq-sub-mod le, mod-eq_of_lt {n = s - b} {m = b} (omega arith)))
  ]

  -- The word and the carry of `zzAdd` stand for the sum.
  pub add_word :
      (x y carry : ℕ)
      → x < b
      → y < b
      → carry ≤ 1
      → let w = (x + carry) % b in
        let c = (w + y) % b in
        let carry' = bit_or (less01 w carry) (less01 c w) in
        (c < b) × (carry' ≤ 1) × (c + b * carry' ≡ x + y + carry)
  add_word x y carry hx hy hc =
      let w = (x + carry) % b in
      elim (wrap (x + carry) (omega arith)) [
        | inl (low, e) ↦ elim (wrap (w + y) (omega arith)) [
          | inl (low', e') ↦ ground arith
          | inr (high', e') ↦ ground arith
        ]
        | inr (high, e) ↦ elim (wrap (w + y) (omega arith)) [
          | inl (low', e') ↦ ground arith
          | inr (high', e') ↦ ground arith
        ]
      ]

  -- The fast loop has the same word and the same carry.
  pub add_word_fast :
      (x y carry : ℕ)
      → x < b
      → y < b
      → carry ≤ 1
      → let w = (x + carry) % b in
        let c = (w + y) % b in
        ((if ltb w carry then y else c) ≡ c)
        × ((if ltb w carry then carry else less01 c y) ≡ bit_or (less01 w carry) (less01 c w))
  add_word_fast x y carry hx hy hc =
      let w = (x + carry) % b in
      elim (wrap (x + carry) (omega arith)) [
        | inl (low, e) ↦ elim (wrap (w + y) (omega arith)) [
          | inl (low', e') ↦ ground arith
          | inr (high', e') ↦ ground arith
        ]
        | inr (high, e) ↦ elim (wrap (w + y) (omega arith)) [
          | inl (low', e') ↦ ground arith
          | inr (high', e') ↦ ground arith
        ]
      ]
