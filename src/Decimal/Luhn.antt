-- ===== src/Decimal/Luhn.antt =====
-- The check digit of Luhn: `decLuhnVerify` accepts what `decLuhnCalc` completes, and finds every wrong digit.
use bee.Common.{
  false_of_not, ◌≢◌, ℕ, zero, suc, ◌+◌, ◌*◌, ◌/◌, ◌%◌, ◌<◌, ◌≤◌, ◌≡◌, refl, sym, ap, ◌∙◌, ◌⊎◌, inl,
  inr, Bool, true, false, ◌&&◌, ◌||◌, not, List, [], ◌∷◌, ◌++◌, length, length-append, get_or,
  get_or-append, get_or-append_left, arith, ltb, ◌==◌, ==_iff,
}
use native.Mathlib.Nat.{mod-eq_of_lt}
use bee.Common.Bits.{passes, by_table}
use bee.Decimal.{
  digit, luhn_table, doubled_digit, plain_digit, calc_loop, luhn_calc, verify_loop, luhn_verify,
}
use bee.Decimal.Damm.{IsDigit, AreDigits}

-- The alternating sums of the first `i` digits, from the last one: `doubled` begins with the table.
mutual
  pub doubled : List ℕ → ℕ → ℕ
  doubled dec zero = 0
  doubled dec (suc i) = doubled_digit dec i + plain dec i

  pub plain : List ℕ → ℕ → ℕ
  plain dec zero = 0
  plain dec (suc i) = plain_digit dec i + doubled dec i

luhn_test : ℕ → Bool
luhn_test n =
    let x = get_or luhn_table (n / 10) 0 in
    let y = get_or luhn_table (n % 10) 0 in ltb x 10 && (not (x == y) || n / 10 == n % 10)

luhn_test_all : passes luhn_test 100 ≡ true
unfolding passes luhn_test luhn_table
luhn_test_all = refl

-- The table permutes the digits.
luhn_lem :
    (x y : ℕ)
    → x < 10
    → y < 10
    → (get_or luhn_table x 0 < 10) × (get_or luhn_table x 0 ≡ get_or luhn_table y 0 → x ≡ y)
unfolding luhn_test
luhn_lem x y hx hy =
    let n = 10 * x + y in
    let a : n / 10 ≡ x = omega arith in
    let b : n % 10 ≡ y = omega arith in
    let test = rw (a, b) at (by_table luhn_test 100 n (omega arith) luhn_test_all) in
    ground (arith, test)

plain_digit-lt : (dec : List ℕ) (i : ℕ) → AreDigits dec → plain_digit dec i < 10
plain_digit-lt [] i o = omega arith
plain_digit-lt (c ∷ dec) zero o = omega (arith, o.0)
plain_digit-lt (c ∷ dec) (suc i) o = plain_digit-lt dec i o.1

doubled_digit-lt : (dec : List ℕ) (i : ℕ) → AreDigits dec → doubled_digit dec i < 10
doubled_digit-lt dec i o = (luhn_lem (plain_digit dec i) 0 (plain_digit-lt dec i o) (omega arith)).0

module _ (b : ℕ) where
  -- Below the modulus nothing wraps, and the loops give the alternating sums.
  calc_loop-eq :
      (dec : List ℕ) (i cd : ℕ)
      → AreDigits dec
      → cd + 9 * i < b
      → calc_loop b dec cd i ≡ cd + doubled dec i
  unfolding calc_loop doubled plain
  calc_loop-eq dec zero cd o h = omega arith
  calc_loop-eq dec (suc zero) cd o h =
      let x = doubled_digit-lt dec 0 o in mod-eq_of_lt (omega (arith, x, h)) ∙ omega arith
  calc_loop-eq dec (suc (suc i)) cd o h =
      let x = doubled_digit-lt dec (suc i) o in
      let y = plain_digit-lt dec i o in
      let e1 : (cd + doubled_digit dec (suc i)) % b ≡ cd + doubled_digit dec (suc i) =
        mod-eq_of_lt (omega (arith, x, h)) in
      let s = cd + doubled_digit dec (suc i) + plain_digit dec i in
      let e2 : s % b ≡ s = mod-eq_of_lt (omega (arith, x, y, h)) in
      rw (e1, e2) (calc_loop-eq dec i s o (omega (arith, x, y, h)) ∙ omega arith)

  verify_loop-eq :
      (dec : List ℕ) (i cd : ℕ)
      → AreDigits dec
      → cd + 9 * i < b
      → verify_loop b dec cd i ≡ cd + plain dec i
  unfolding verify_loop doubled plain
  verify_loop-eq dec zero cd o h = omega arith
  verify_loop-eq dec (suc zero) cd o h =
      let x = plain_digit-lt dec 0 o in mod-eq_of_lt (omega (arith, x, h)) ∙ omega arith
  verify_loop-eq dec (suc (suc i)) cd o h =
      let x = plain_digit-lt dec (suc i) o in
      let y = doubled_digit-lt dec i o in
      let e1 : (cd + plain_digit dec (suc i)) % b ≡ cd + plain_digit dec (suc i) =
        mod-eq_of_lt (omega (arith, x, h)) in
      let s = cd + plain_digit dec (suc i) + doubled_digit dec i in
      let e2 : s % b ≡ s = mod-eq_of_lt (omega (arith, x, y, h)) in
      rw (e1, e2) (verify_loop-eq dec i s o (omega (arith, x, y, h)) ∙ omega arith)

-- The sums read the digits in front only.
sums-append :
    (dec ys : List ℕ) (i : ℕ)
    → i ≤ length dec
    → (doubled (dec ++ ys) i ≡ doubled dec i) × (plain (dec ++ ys) i ≡ plain dec i)
unfolding doubled plain
sums-append dec ys zero h = (refl, refl)
sums-append dec ys (suc i) h =
    let rest = sums-append dec ys i (omega arith) in
    let same = get_or-append_left dec ys i 0 (omega arith) in
    let one = ap (λ t. get_or luhn_table (digit t) 0) same in
    (omega (arith, one, rest.1), omega (arith, ap digit same, rest.0))

append-AreDigits : (xs ys : List ℕ) → AreDigits xs → AreDigits ys → AreDigits (xs ++ ys)
append-AreDigits [] ys o p = p
append-AreDigits (x ∷ xs) ys o p = (o.0, append-AreDigits xs ys o.1 p)

-- The string of digits with the digit that `decLuhnCalc` computes behind it is accepted, when nine times
-- the number of digits is below the modulus of the word.
pub luhn_verify-luhn_calc :
    (b : ℕ) (dec : List ℕ)
    → AreDigits dec
    → 9 * suc (length dec) < b
    → luhn_verify b (dec ++ (luhn_calc b dec ∷ [])) ≡ true
unfolding luhn_verify luhn_calc
luhn_verify-luhn_calc b dec o h =
    let n = length dec in
    let cd = calc_loop b dec 0 n % 10 in
    let c = (cd * 8 + cd) % 10 + 48 in
    let all = dec ++ (c ∷ []) in
    let size : length all ≡ suc n = omega (arith, length-append dec (c ∷ [])) in
    let are = append-AreDigits dec (c ∷ []) o ((omega arith, omega arith), tt) in
    let last : get_or all n 0 ≡ c = get_or-append dec (c ∷ []) n 0 0 (omega arith) in
    let calculated = calc_loop-eq b dec n 0 o (omega arith) in
    let verified = verify_loop-eq b all (suc n) 0 are (omega arith) in
    let parts : plain all (suc n) ≡ digit (get_or all n 0) + doubled all n = unfold plain in refl in
    let sums = sums-append dec (c ∷ []) n (omega arith) in
    let total : verify_loop b all 0 (length all) % 10 ≡ 0 =
      rw size (omega (arith, calculated, verified, parts, ap digit last, sums.0)) in
    rw total refl

-- Two strings that differ at one place only.
get_or_other :
    (xs ys : List ℕ) (c d i : ℕ)
    → (i ≡ length xs → ⊥)
    → get_or (xs ++ (c ∷ ys)) i 0 ≡ get_or (xs ++ (d ∷ ys)) i 0
get_or_other [] ys c d zero h = absurd (h refl)
get_or_other [] ys c d (suc i) h = refl
get_or_other (x ∷ xs) ys c d zero h = refl
get_or_other (x ∷ xs) ys c d (suc i) h = get_or_other xs ys c d i (λ e. h (ap suc e))

module _ (dec dec' : List ℕ) (p : ℕ) (o : AreDigits dec) (o' : AreDigits dec')
    (other : (i : ℕ) → (i ≡ p → ⊥) → get_or dec i 0 ≡ get_or dec' i 0) where
  sums-below : (i : ℕ) → i ≤ p → (doubled dec i ≡ doubled dec' i) × (plain dec i ≡ plain dec' i)
  unfolding doubled plain
  sums-below zero h = (refl, refl)
  sums-below (suc i) h =
      let rest = sums-below i (omega arith) in
      let same = other i (λ e. omega arith) in
      (
        omega (arith, ap (λ t. get_or luhn_table (digit t) 0) same, rest.1),
        omega (arith, ap digit same, rest.0),
      )

  sums-above :
      (i : ℕ)
      → p < i
      → (doubled dec i % 10 ≡ doubled dec' i % 10 → plain_digit dec p ≡ plain_digit dec' p)
        × (plain dec i % 10 ≡ plain dec' i % 10 → plain_digit dec p ≡ plain_digit dec' p)
  unfolding doubled plain
  sums-above zero h = absurd (omega arith)
  sums-above (suc i) h = elim (at_place i (omega arith)) [
    | inl e ↦
        let below = sums-below p (omega arith) in
        let x = plain_digit-lt dec p o in
        let y = plain_digit-lt dec' p o' in
        let u = doubled_digit-lt dec p o in
        let v = doubled_digit-lt dec' p o' in
        rw e (
          λ k. (luhn_lem _ _ x y).1 (omega (arith, k, below.1, u, v)),
          λ k. omega (arith, k, below.0, x, y),
        )
    | inr later ↦
        let rest = sums-above i later in
        let same = other i (λ e. omega (arith, e)) in
        (
          λ k. rest.1 (omega (arith, k, ap (λ t. get_or luhn_table (digit t) 0) same)),
          λ k. rest.0 (omega (arith, k, ap digit same)),
        )
  ]
    where
      at_place : (i : ℕ) → p ≤ i → (i ≡ p) ⊎ (p < i)
      at_place i h = omega arith

luhn_sum :
    (b : ℕ) (dec : List ℕ)
    → AreDigits dec
    → 9 * length dec < b
    → luhn_verify b dec ≡ true
    → plain dec (length dec) % 10 ≡ 0
unfolding luhn_verify
luhn_sum b dec o h v =
    let e = verify_loop-eq b dec (length dec) 0 o (omega arith) in
    let z = (==_iff (verify_loop b dec 0 (length dec) % 10) 0).0 v in omega (arith, e, z)

luhn_verify_single_eq :
    (b : ℕ) (before after : List ℕ) (c d : ℕ)
    → AreDigits (before ++ (c ∷ after))
    → AreDigits (before ++ (d ∷ after))
    → 9 * length (before ++ (c ∷ after)) < b
    → luhn_verify b (before ++ (c ∷ after)) ≡ true
    → luhn_verify b (before ++ (d ∷ after)) ≡ true
    → c ≡ d
luhn_verify_single_eq b before after c d o o' h v w =
    let p = length before in
    let x = before ++ (c ∷ after) in
    let y = before ++ (d ∷ after) in
    let size : length y ≡ length x =
      omega (arith, length-append before (c ∷ after), length-append before (d ∷ after)) in
    let e = luhn_sum b x o h v in
    let e' = rw size at (luhn_sum b y o' (omega (arith, size)) w) in
    let inside : p < length x = omega (arith, length-append before (c ∷ after)) in
    let same =
      (sums-above x y p o o' (λ i n. get_or_other before after c d i n) (length x) inside).1
        (e ∙ sym e') in
    let at_c : get_or x p 0 ≡ c = get_or-append before (c ∷ after) p 0 0 (omega arith) in
    let at_d : get_or y p 0 ≡ d = get_or-append before (d ∷ after) p 0 0 (omega arith) in
    let hc = digit_of before after c o in
    let hd = digit_of before after d o' in omega (arith, same, at_c, at_d, hc, hd)
  where
    digit_of : (xs ys : List ℕ) (c : ℕ) → AreDigits (xs ++ (c ∷ ys)) → IsDigit c
    digit_of [] ys c o = o.0
    digit_of (x ∷ xs) ys c o = digit_of xs ys c o.1

-- A wrong digit is found: when a string of digits is accepted, none that differs from it in one digit is,
-- provided that nine times the length is below the modulus of the word.
pub luhn_verify_single :
    (b : ℕ) (before after : List ℕ) (c d : ℕ)
    → AreDigits (before ++ (c ∷ after))
    → AreDigits (before ++ (d ∷ after))
    → 9 * length (before ++ (c ∷ after)) < b
    → c ≢ d
    → luhn_verify b (before ++ (c ∷ after)) ≡ true
    → luhn_verify b (before ++ (d ∷ after)) ≡ false
luhn_verify_single b before after c d o o' h n v =
    false_of_not _ (λ w. n (luhn_verify_single_eq b before after c d o o' h v w))
