-- ===== src/Decimal/Zeros.antt =====
-- `decCLZ`: the zeros in front.
use bee.Common.{
  ℕ, zero, suc, ◌≡◌, ◌≢◌, ◌⊎◌, inl, inr, refl, ap, sym, ◌∙◌, List, [], ◌∷◌, ◌++◌, replicate, drop,
  get_or, arith, ◌==◌, Bool-cases,
}
use bee.Decimal.{clz}
use bee.Decimal.Convert.{dec_value}

-- A string is `decCLZ` zeros and a rest that is empty or begins with another character.
pub clz_lem :
    (dec : List ℕ)
    → (dec ≡ replicate (clz dec) 48 ++ drop (clz dec) dec)
      × ((drop (clz dec) dec ≡ []) ⊎ (get_or (drop (clz dec) dec) 0 48 ≢ 48))
unfolding clz
clz_lem [] = (refl, inl refl)
clz_lem (c ∷ dec) = elim (Bool-cases (c == 48)) [
  | inl zero_digit ↦
      let e : c ≡ 48 = ground arith in
      let rest = clz_lem dec in rw zero_digit (rw e (ap (λ t. 48 ∷ t) rest.0, rest.1))
  | inr other ↦ rw other (refl, inr (ground arith))
]

dec_value_zeros : (n : ℕ) (dec : List ℕ) → dec_value (replicate n 48 ++ dec) ≡ dec_value dec
dec_value_zeros zero dec = refl
dec_value_zeros (suc n) dec = dec_value_zeros n dec

-- The zeros that `decCLZ` counts do not change the number.
pub dec_value-drop-clz : (dec : List ℕ) → dec_value (drop (clz dec) dec) ≡ dec_value dec
dec_value-drop-clz dec =
    sym (ap dec_value (clz_lem dec).0 ∙ dec_value_zeros (clz dec) (drop (clz dec) dec))
