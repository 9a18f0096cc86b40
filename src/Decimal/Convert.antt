-- ===== src/Decimal/Convert.antt =====
-- `decFromU32`, `decToU32` and the 64-bit ones, for a number of any modulus: the numbers come back.
use bee.Common.{
  ℕ, zero, suc, ◌+◌, ◌*◌, ◌/◌, ◌%◌, ◌^◌, ◌<◌, ◌≤◌, ◌≡◌, refl, sym, ap, ◌∙◌, true, List, [], ◌∷◌,
  ◌++◌, append_assoc, append-nil, length, arith,
}
use native.Mathlib.Nat.{
  pow-suc, pow-zero, mod-eq_of_lt, mod-add-div, div-div-eq-div-mul, mod-one, mod-le,
}
use bee.Decimal.{digit, is_valid, from_onto, from_num, to_from, to_num}
use bee.Decimal.Damm.{AreDigits}

-- The number that the digits stand for, behind the digits of `num`.
abbrev pub dec_value_from : ℕ → List ℕ → ℕ
dec_value_from num [] = num
dec_value_from num (c ∷ dec) = dec_value_from (10 * num + digit c) dec

abbrev pub dec_value : List ℕ → ℕ
dec_value = dec_value_from 0

pub is_valid-AreDigits : (dec : List ℕ) → is_valid dec ≡ true → AreDigits dec
unfolding is_valid
is_valid-AreDigits [] v = tt
is_valid-AreDigits (c ∷ dec) v =
    ((ground arith, ground arith), is_valid-AreDigits dec (ground arith))

AreDigits-is_valid : (dec : List ℕ) → AreDigits dec → is_valid dec ≡ true
unfolding is_valid
AreDigits-is_valid [] o = refl
AreDigits-is_valid (c ∷ dec) o = ground (arith, o.0, AreDigits-is_valid dec o.1)

dec_value_from-append :
    (xs ys : List ℕ) (num : ℕ)
    → dec_value_from num (xs ++ ys) ≡ dec_value_from (dec_value_from num xs) ys
dec_value_from-append [] ys num = refl
dec_value_from-append (x ∷ xs) ys num = dec_value_from-append xs ys (10 * num + digit x)

-- A number grows with each digit, so a value below the modulus has no prefix that wraps.
dec_value_from-ge : (dec : List ℕ) (num : ℕ) → num ≤ dec_value_from num dec
dec_value_from-ge [] num = omega arith
dec_value_from-ge (c ∷ dec) num = omega (arith, dec_value_from-ge dec (10 * num + digit c))

to_from-eq :
    (m : ℕ) (dec : List ℕ) (num : ℕ)
    → dec_value_from num dec < m
    → to_from m num dec ≡ dec_value_from num dec
unfolding to_from
to_from-eq m [] num h = refl
to_from-eq m (c ∷ dec) num h =
    let grow = dec_value_from-ge dec (10 * num + digit c) in
    let a : num * 10 % m ≡ num * 10 = mod-eq_of_lt (omega (arith, grow, h)) in
    let b : (num * 10 + digit c) % m ≡ num * 10 + digit c = mod-eq_of_lt (omega (arith, grow, h)) in
    let e : num * 10 + digit c ≡ 10 * num + digit c = omega arith in
    rw (a, b, e) (to_from-eq m dec (10 * num + digit c) h)

-- The low digits of a number in front of others.
from_onto-append :
    (count num : ℕ) (written : List ℕ) → from_onto written count num ≡ from_num count num ++ written
unfolding from_num from_onto
from_onto-append zero num written = refl
from_onto-append (suc count) num written =
    let c = num % 10 + 48 in
    from_onto-append count (num / 10) (c ∷ written)
    ∙ sym (append_assoc (from_num count (num / 10)) (c ∷ []) written)
    ∙ ap (λ t. t ++ written) (sym (from_onto-append count (num / 10) (c ∷ [])))

from_num-suc :
    (count num : ℕ) → from_num (suc count) num ≡ from_num count (num / 10) ++ ((num % 10 + 48) ∷ [])
unfolding from_num from_onto
from_num-suc count num = from_onto-append count (num / 10) ((num % 10 + 48) ∷ [])

append-AreDigits : (xs ys : List ℕ) → AreDigits xs → AreDigits ys → AreDigits (xs ++ ys)
append-AreDigits [] ys o p = p
append-AreDigits (x ∷ xs) ys o p = (o.0, append-AreDigits xs ys o.1 p)

length_snoc : (xs : List ℕ) (y : ℕ) → length (xs ++ (y ∷ [])) ≡ suc (length xs)
length_snoc [] y = refl
length_snoc (x ∷ xs) y = ap suc (length_snoc xs y)

mod_split : (num p : ℕ) → num % (p * 10) ≡ 10 * (num / 10 % p) + num % 10
mod_split num p =
    let e : p * 10 ≡ 10 * p = omega arith in
    rw e (
      omega (
        arith,
        mod-add-div num (10 * p),
        mod-add-div (num / 10) p,
        ap (λ (t : ℕ). 10 * p * t) (div-div-eq-div-mul num 10 p),
      ))

from_num_lem :
    (count num : ℕ)
    → (length (from_num count num) ≡ count)
      × AreDigits (from_num count num)
      × (dec_value (from_num count num) ≡ num % 10 ^ count)
from_num_lem zero num = unfold from_num from_onto in (refl, tt, rw pow-zero (sym (mod-one num)))
from_num_lem (suc count) num =
    let rest = from_num_lem count (num / 10) in
    let c = num % 10 + 48 in
    let prefix = from_num count (num / 10) in
    rw (from_num-suc count num) (
      length_snoc prefix c ∙ ap suc rest.0,
      append-AreDigits prefix (c ∷ []) rest.1 ((omega arith, omega arith), tt),
      omega (
        arith,
        dec_value_from-append prefix (c ∷ []) 0,
        rest.2,
        mod_split num (10 ^ count),
        ap (λ k. num % k) (pow-suc 10 count),
      ),
    )

-- Of a number below the modulus `decFromU32` writes as many digits as it is asked for, and `decToU32`
-- reads the number back from them, without the higher digits that they leave out.
pub to_num-from_num :
    (m count num : ℕ)
    → num < m
    → (length (from_num count num) ≡ count)
      × (is_valid (from_num count num) ≡ true)
      × (to_num m (from_num count num) ≡ num % 10 ^ count)
unfolding to_num
to_num-from_num m count num h =
    let (size, are, total) = from_num_lem count num in
    let below : num % 10 ^ count ≤ num = mod-le num (10 ^ count) in
    (
      size,
      AreDigits-is_valid _ are,
      to_from-eq m (from_num count num) 0 (omega (arith, total)) ∙ total,
    )

-- The digits behind `num` are split off one by one.
from_onto-value :
    (dec : List ℕ) (num k count : ℕ) (written : List ℕ)
    → AreDigits dec
    → count ≡ k + length dec
    → from_onto written count (dec_value_from num dec) ≡ from_onto (dec ++ written) k num
from_onto-value [] num k count written o e = let e' : count ≡ k = omega arith in rw e' refl
from_onto-value (c ∷ dec) num k count written o e =
    let rest = from_onto-value dec (10 * num + digit c) (suc k) count written o.1 (omega arith) in
    let low : (10 * num + digit c) % 10 + 48 ≡ c = omega (arith, o.0) in
    let high : (10 * num + digit c) / 10 ≡ num = omega (arith, o.0) in
    rest ∙ (unfold from_onto in rw (low, high) refl)

-- A string of digits with a value below the modulus is read without wrapping, and `decFromU32` writes
-- it again.
pub from_num-to_num :
    (m : ℕ) (dec : List ℕ)
    → is_valid dec ≡ true
    → dec_value dec < m
    → (to_num m dec ≡ dec_value dec) × (from_num (length dec) (to_num m dec) ≡ dec)
unfolding to_num from_num
from_num-to_num m dec v h =
    let e = to_from-eq m dec 0 h in
    let back = from_onto-value dec 0 0 (length dec) [] (is_valid-AreDigits dec v) (omega arith) in
    (e, ap (from_onto [] (length dec)) e ∙ back ∙ (unfold from_onto in append-nil dec))
