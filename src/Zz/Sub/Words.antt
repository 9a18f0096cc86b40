-- ===== src/Zz/Sub/Words.antt =====
-- One round of the loops of `zzSub`, on one word of each operand.
use bee.Common.{
  ℕ, ◌+◌, ◌-◌, ◌*◌, ◌%◌, ◌<◌, ◌≤◌, ◌≡◌, ◌⊎◌, inl, inr, bit_or, arith, ltb, if◌then◌else◌,
}
use bee.Zz.Value.{less01}
use bee.Zz.Add.Words.{wrap}
use bee.Zz.Sub.{complement, minus}

module _ (b : ℕ) where
  -- A difference of words either fits or wraps once.
  pub minus_cases :
      (x w : ℕ)
      → x < b
      → w < b
      → ((w ≤ x) × (minus b x w + w ≡ x)) ⊎ ((x < w) × (minus b x w + w ≡ x + b))
  minus_cases x w hx hw = elim (wrap b (x + (b - w)) (omega arith)) [
    | inl (low, e) ↦ inr (omega arith, omega arith)
    | inr (high, e) ↦ elim (wrap b (x + (b - w)) (omega arith)) [
      | inl (low, e') ↦ absurd (omega arith)
      | inr (high', e') ↦ inl (omega arith, omega arith)
    ]
  ]

  pub sub_word :
      (x y borrow : ℕ)
      → x < b
      → y < b
      → borrow ≤ 1
      → let w = (y + borrow) % b in
        let c = minus b x w in
        let borrow' = bit_or (less01 w borrow) (less01 x w) in
        (c < b) × (borrow' ≤ 1) × (c + y + borrow ≡ x + b * borrow')
  sub_word x y borrow hx hy hc =
      let w = (y + borrow) % b in
      elim (wrap b (y + borrow) (omega arith)) [
        | inl (low, e) ↦ elim (minus_cases x w hx (omega arith)) [
          | inl (le, e') ↦ ground arith
          | inr (lt, e') ↦ ground arith
        ]
        | inr (high, e) ↦ elim (minus_cases x w hx (omega arith)) [
          | inl (le, e') ↦ ground arith
          | inr (lt, e') ↦ ground arith
        ]
      ]

  -- The fast loop has the same word and the same borrow.
  pub sub_word_fast :
      (x y borrow : ℕ)
      → x < b
      → y < b
      → 1 < b
      → borrow ≤ 1
      → let w = (y + borrow) % b in
        let v = minus b x borrow in
        let v' = minus b v y in
        let wrapped = ltb (complement b borrow) v in
        ((if wrapped then complement b y else v') ≡ minus b x w)
        × ((if wrapped then borrow else less01 (complement b y) v')
            ≡ bit_or (less01 w borrow) (less01 x w))
  sub_word_fast x y borrow hx hy hb hc =
      let w = (y + borrow) % b in
      let v = minus b x borrow in
      let step = sub_word x y borrow hx hy hc in
      elim (wrap b (y + borrow) (omega arith)) [
        | inl (low, e) ↦ elim (minus_cases x borrow hx (omega arith)) [
          | inl (le, e') ↦ elim (minus_cases v y (omega arith) hy) [
            | inl (le', e'') ↦ ground arith
            | inr (lt', e'') ↦ ground arith
          ]
          | inr (lt, e') ↦ ground arith
        ]
        | inr (high, e) ↦ elim (minus_cases x borrow hx (omega arith)) [
          | inl (le, e') ↦ elim (minus_cases v y (omega arith) hy) [
            | inl (le', e'') ↦ ground arith
            | inr (lt', e'') ↦ ground arith
          ]
          | inr (lt, e') ↦ ground arith
        ]
      ]

  pub sub_w_word :
      (x w : ℕ)
      → x < b
      → w < b
      → let c = minus b x w in
        let w' = less01 (complement b w) c in (c < b) × (w' ≤ 1) × (c + w ≡ x + b * w')
  sub_w_word x w hx hw = elim (minus_cases x w hx hw) [
    | inl (le, e) ↦ ground arith
    | inr (lt, e) ↦ ground arith
  ]
