-- ===== src/Decimal/Damm.antt =====
-- The check digit of Damm: `decDammVerify` accepts what `decDammCalc` completes, and finds every wrong
-- digit and every two neighbours in the wrong order.
use bee.Common.{
  false_of_not, ◌≢◌, ℕ, ◌+◌, ◌*◌, ◌/◌, ◌%◌, ◌<◌, ◌≤◌, ◌≡◌, refl, sym, ◌∙◌, Bool, true, false, ◌&&◌,
  ◌||◌, not, List, [], ◌∷◌, ◌++◌, All, arith, ltb, ◌==◌,
}
use bee.Common.Bits.{passes, by_table}
use bee.Decimal.{digit, damm, damm_table, damm_loop, damm_calc, damm_verify}

abbrev pub IsDigit : ℕ → Type 0
IsDigit c = (48 ≤ c) × (c ≤ 57)

abbrev pub AreDigits : List ℕ → Type 0
AreDigits = All IsDigit

-- Three digits of a number below 1000, and what the table says of them.
damm_test : ℕ → Bool
damm_test n =
    let u = n / 100 in
    let x = n / 10 % 10 in
    let y = n % 10 in
    ltb (damm u x) 10
    && ((not (damm x y == damm u y) || x == u)
        && ((not (damm u x == damm u y) || x == y)
            && ((not (damm (damm u x) y == damm (damm u y) x) || x == y) && damm u u == 0)))

damm_test_all : passes damm_test 1000 ≡ true
unfolding passes damm_test damm_table
damm_test_all = refl

-- The table is a Latin square with zeros on its diagonal, and it does not commute.
damm_lem :
    (u x y : ℕ)
    → u < 10
    → x < 10
    → y < 10
    → (damm u x < 10)
      × (damm x y ≡ damm u y → x ≡ u)
      × (damm u x ≡ damm u y → x ≡ y)
      × (damm (damm u x) y ≡ damm (damm u y) x → x ≡ y)
      × (damm u u ≡ 0)
unfolding damm_test
damm_lem u x y hu hx hy =
    let n = 100 * u + 10 * x + y in
    let a : n / 100 ≡ u = omega arith in
    let b : n / 10 % 10 ≡ x = omega arith in
    let c : n % 10 ≡ y = omega arith in
    let test = rw (a, b, c) at (by_table damm_test 1000 n (omega arith) damm_test_all) in
    ground (arith, test)

damm_loop-lt : (dec : List ℕ) (cd : ℕ) → cd < 10 → AreDigits dec → damm_loop cd dec < 10
unfolding damm_loop
damm_loop-lt [] cd h o = h
damm_loop-lt (c ∷ dec) cd h o =
    damm_loop-lt dec _ (damm_lem cd (digit c) 0 h (omega (arith, o.0)) (omega arith)).0 o.1

damm_loop-append :
    (xs ys : List ℕ) (cd : ℕ) → damm_loop cd (xs ++ ys) ≡ damm_loop (damm_loop cd xs) ys
unfolding damm_loop
damm_loop-append [] ys cd = refl
damm_loop-append (x ∷ xs) ys cd = damm_loop-append xs ys _

-- Different states stay different.
damm_loop-injective :
    (dec : List ℕ) (s t : ℕ)
    → s < 10
    → t < 10
    → AreDigits dec
    → damm_loop s dec ≡ damm_loop t dec
    → s ≡ t
unfolding damm_loop
damm_loop-injective [] s t hs ht o e = e
damm_loop-injective (c ∷ dec) s t hs ht o e =
    let d = digit c in
    let hd : d < 10 = omega (arith, o.0) in
    let hs' = (damm_lem s d 0 hs hd (omega arith)).0 in
    let ht' = (damm_lem t d 0 ht hd (omega arith)).0 in
    (damm_lem t s d ht hs hd).1 (damm_loop-injective dec _ _ hs' ht' o.1 e)

-- The string of digits with the digit that `decDammCalc` computes behind it is accepted.
pub damm_verify-damm_calc :
    (dec : List ℕ) → AreDigits dec → damm_verify (dec ++ (damm_calc dec ∷ [])) ≡ true
unfolding damm_verify damm_calc
damm_verify-damm_calc dec o =
    let cd = damm_loop 0 dec in
    let same : digit (cd + 48) ≡ cd = omega arith in
    let below = damm_loop-lt dec 0 (omega arith) o in
    let last : damm_loop cd ((cd + 48) ∷ []) ≡ 0 =
      unfold damm_loop in rw same ((damm_lem cd 0 0 below (omega arith) (omega arith)).4) in
    let all = damm_loop-append dec ((cd + 48) ∷ []) 0 ∙ last in ground (arith, all)

accepted : (dec : List ℕ) → damm_verify dec ≡ true → damm_loop 0 dec ≡ 0
unfolding damm_verify damm_calc
accepted dec v = ground arith

digit-injective : (c d : ℕ) → IsDigit c → IsDigit d → digit c ≡ digit d → c ≡ d
digit-injective c d hc hd e = omega (arith, hc, hd)

damm_verify_single_eq :
    (before after : List ℕ) (c d : ℕ)
    → AreDigits before
    → AreDigits after
    → IsDigit c
    → IsDigit d
    → damm_verify (before ++ (c ∷ after)) ≡ true
    → damm_verify (before ++ (d ∷ after)) ≡ true
    → c ≡ d
damm_verify_single_eq before after c d ob oa hc hd v w =
    let s = damm_loop 0 before in
    let hs = damm_loop-lt before 0 (omega arith) ob in
    let x = digit c in
    let y = digit d in
    let table = damm_lem s x y hs (omega (arith, hc)) (omega (arith, hd)) in
    let table' = damm_lem s y x hs (omega (arith, hd)) (omega (arith, hc)) in
    let e : damm_loop (damm s x) after ≡ damm_loop (damm s y) after =
      unfold damm_loop in
      sym (damm_loop-append before (c ∷ after) 0)
      ∙ accepted _ v
      ∙ sym (accepted _ w)
      ∙ damm_loop-append before (d ∷ after) 0 in
    digit-injective c d hc hd (table.2 (damm_loop-injective after _ _ table.0 table'.0 oa e))

-- A wrong digit is found: when a string of digits is accepted, none that differs from it in one digit is.
pub damm_verify_single :
    (before after : List ℕ) (c d : ℕ)
    → AreDigits before
    → AreDigits after
    → IsDigit c
    → IsDigit d
    → c ≢ d
    → damm_verify (before ++ (c ∷ after)) ≡ true
    → damm_verify (before ++ (d ∷ after)) ≡ false
damm_verify_single before after c d ob oa hc hd n v =
    false_of_not _ (λ w. n (damm_verify_single_eq before after c d ob oa hc hd v w))

damm_verify_transposed_eq :
    (before after : List ℕ) (c d : ℕ)
    → AreDigits before
    → AreDigits after
    → IsDigit c
    → IsDigit d
    → damm_verify (before ++ (c ∷ d ∷ after)) ≡ true
    → damm_verify (before ++ (d ∷ c ∷ after)) ≡ true
    → c ≡ d
damm_verify_transposed_eq before after c d ob oa hc hd v w =
    let s = damm_loop 0 before in
    let hs = damm_loop-lt before 0 (omega arith) ob in
    let x = digit c in
    let y = digit d in
    let hx : x < 10 = omega (arith, hc) in
    let hy : y < 10 = omega (arith, hd) in
    let table = damm_lem s x y hs hx hy in
    let table' = damm_lem s y x hs hy hx in
    let first = (damm_lem (damm s x) y 0 table.0 hy (omega arith)).0 in
    let second = (damm_lem (damm s y) x 0 table'.0 hx (omega arith)).0 in
    let e : damm_loop (damm (damm s x) y) after ≡ damm_loop (damm (damm s y) x) after =
      unfold damm_loop in
      sym (damm_loop-append before (c ∷ d ∷ after) 0)
      ∙ accepted _ v
      ∙ sym (accepted _ w)
      ∙ damm_loop-append before (d ∷ c ∷ after) 0 in
    digit-injective c d hc hd (table.3 (damm_loop-injective after _ _ first second oa e))

-- Two different neighbours in the wrong order are found: when a string of digits is accepted, it is not
-- accepted with them swapped.
pub damm_verify_transposed :
    (before after : List ℕ) (c d : ℕ)
    → AreDigits before
    → AreDigits after
    → IsDigit c
    → IsDigit d
    → c ≢ d
    → damm_verify (before ++ (c ∷ d ∷ after)) ≡ true
    → damm_verify (before ++ (d ∷ c ∷ after)) ≡ false
damm_verify_transposed before after c d ob oa hc hd n v =
    false_of_not _ (λ w. n (damm_verify_transposed_eq before after c d ob oa hc hd v w))
