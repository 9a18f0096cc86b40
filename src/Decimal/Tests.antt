-- ===== src/Decimal/Tests.antt =====
-- Concrete runs: the strings "572", "5724" and "18".
use bee.Common.{ℕ, ◌%◌, ◌^◌, ◌≡◌, refl, true, false, List, [], ◌∷◌, length, arith}
use bee.Decimal.{
  is_valid, from_num, to_num, u32_modulus, luhn_verify, verify_loop, luhn_table, damm_calc,
  damm_verify, damm_loop, damm_table,
}
use bee.Decimal.Convert.{to_num-from_num}
use bee.Decimal.Damm.{AreDigits, damm_verify_transposed}

abbrev three_digits : List ℕ
three_digits = 53 ∷ 55 ∷ 50 ∷ []

abbrev zeros : List ℕ
zeros = 48 ∷ 48 ∷ 55 ∷ []

three_digits-AreDigits : AreDigits three_digits
three_digits-AreDigits =
    ((omega arith, omega arith), ((omega arith, omega arith), ((omega arith, omega arith), tt)))

three_digits-is_valid : is_valid three_digits ≡ true
unfolding is_valid
three_digits-is_valid = refl

to_num-from_num_example :
    (length (from_num 3 70572) ≡ 3)
    × (is_valid (from_num 3 70572) ≡ true)
    × (to_num u32_modulus (from_num 3 70572) ≡ 70572 % 10 ^ 3)
to_num-from_num_example = to_num-from_num u32_modulus 3 70572 (omega arith)

-- "5724" is accepted.
accepted : damm_verify (53 ∷ 55 ∷ 50 ∷ 52 ∷ []) ≡ true
unfolding damm_verify damm_calc damm_loop damm_table
accepted = refl

damm_verify_transposed_example : damm_verify (53 ∷ 50 ∷ 55 ∷ 52 ∷ []) ≡ false
damm_verify_transposed_example =
    damm_verify_transposed (53 ∷ []) (52 ∷ []) 55 50 ((omega arith, omega arith), tt)
      ((omega arith, omega arith), tt) (omega arith, omega arith) (omega arith, omega arith)
      (λ e. omega (arith, e)) accepted

-- "18" is accepted.
luhn_accepted : luhn_verify (2 ^ 16) (49 ∷ 56 ∷ []) ≡ true
unfolding luhn_verify verify_loop luhn_table
luhn_accepted = refl
