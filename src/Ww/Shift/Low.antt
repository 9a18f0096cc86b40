-- ===== src/Ww/Shift/Low.antt =====
-- `wwShLo`: the quotient by a power of two.
use bee.Common.{
  ℕ, zero, suc, ◌+◌, ◌-◌, ◌*◌, ◌/◌, ◌%◌, ◌^◌, ◌<◌, ◌≤◌, ◌≡◌, ◌⊎◌, inl, inr, refl, sym, ap, ◌∙◌,
  List, [], ◌∷◌, ◌++◌, length, take, drop, replicate, bit_or, ltb, ◌==◌, Bool-cases, arith,
  if◌then◌else◌, length-append, length-take, length-drop,
}
use bee.Common.Masks.{bit_or_high}
use bee.Common.Powers.{pow_add, pow_pos}
use bee.Zz.Value.{
  replicate-zero, AreWords, value, value-lt, value-append, append-AreWords, drop-AreWords,
  take-AreWords,
}
use bee.Zz.Add.Carry.{value_split}
use bee.Ww.Shift.{left, low_words, sh_lo}
use native.Mathlib.Nat.{
  pow-zero, pow-suc, mod-lt, mod-eq_of_lt, mod-add-div, add-mul-mod_self_right, mul-le-mul_right,
  div-eq_of_lt, add-mul-div_left, div-one, div-div-eq-div-mul,
}

-- The bits that a shift to the left by log p leaves in a word of modulus p * q.
pub left_bits : (p q y : ℕ) → 0 < p → 0 < q → y * p % (p * q) ≡ p * (y % q)
left_bits p q y hp hq =
    let low = mod-lt y hq in
    let fits : suc (y % q) * p ≤ q * p = mul-le-mul_right p low in
    let small : p * (y % q) < p * q = omega (arith, fits, hp) in
    let parts : y * p ≡ p * (y % q) + y / q * (p * q) =
      omega (arith, ap (λ (t : ℕ). p * t) (mod-add-div y q)) in
    ap (λ (t : ℕ). t % (p * q)) parts
    ∙ add-mul-mod_self_right (p * (y % q)) (y / q) (p * q)
    ∙ mod-eq_of_lt small

-- A remainder does not count in a quotient.
quotient_by : (p r q : ℕ) → r < p → (r + p * q) / p ≡ q
quotient_by p r q h =
    let e : r / p ≡ 0 = div-eq_of_lt h in
    add-mul-div_left r q (omega arith) ∙ ap (λ (t : ℕ). t + q) e ∙ omega arith

module _ (bits s : ℕ) (hs : s < bits) where
  pub word_split : 2 ^ bits ≡ 2 ^ (bits - s) * 2 ^ s
  word_split =
      let e : bits ≡ bits - s + s = omega arith in ap (λ (k : ℕ). 2 ^ k) e ∙ pow_add 2 (bits - s) s

  pub left-eq : (y : ℕ) → left bits y (bits - s) ≡ 2 ^ (bits - s) * (y % 2 ^ s)
  unfolding left
  left-eq y = rw word_split (
      left_bits (2 ^ (bits - s)) (2 ^ s) y (pow_pos 2 (bits - s) (omega arith))
        (pow_pos 2 s (omega arith)))

  -- A word shifted to the right.
  pub right_small : (x : ℕ) → x < 2 ^ bits → x / 2 ^ s < 2 ^ (bits - s)
  right_small x hx =
      let e = mod-add-div x (2 ^ s) in
      elim (above (x / 2 ^ s) (2 ^ (bits - s))) [
        | inl lt ↦ lt
        | inr ge ↦ absurd (omega (arith, e, hx, word_split, mul-le-mul_right (2 ^ s) ge))
      ]
    where
      above : (q p : ℕ) → (q < p) ⊎ (p ≤ q)
      above q p = omega arith

  low_word :
      (x y : ℕ)
      → x < 2 ^ bits
      → bit_or (x / 2 ^ s) (left bits y (bits - s)) ≡ x / 2 ^ s + 2 ^ (bits - s) * (y % 2 ^ s)
  low_word x y hx =
      ap (bit_or (x / 2 ^ s)) (left-eq y)
      ∙ bit_or_high (bits - s) (x / 2 ^ s) (y % 2 ^ s) (right_small x hx)

  first_word : List ℕ → ℕ
  first_word [] = 0
  first_word (x ∷ xs) = x

  -- What the words lose is the low bits of the first one.
  low_words-value :
      (xs : List ℕ)
      → AreWords (2 ^ bits) xs
      → AreWords (2 ^ bits) (low_words bits s xs)
        × (length (low_words bits s xs) ≡ length xs)
        × (value (2 ^ bits) xs
            ≡ 2 ^ s * value (2 ^ bits) (low_words bits s xs) + first_word xs % 2 ^ s)
  unfolding low_words first_word
  low_words-value [] o = (tt, refl, omega (arith, mod-lt 0 (pow_pos 2 s (omega arith))))
  low_words-value (x ∷ []) o =
      let b = 2 ^ bits in
      let small = right_small x o.0 in
      let e = mod-add-div x (2 ^ s) in
      let wide : 1 * 2 ^ (bits - s) ≤ 2 ^ s * 2 ^ (bits - s) =
        mul-le-mul_right (2 ^ (bits - s)) (pow_pos 2 s (omega arith)) in
      ((omega (arith, small, word_split, wide), tt), refl, omega (arith, e))
  low_words-value (x ∷ y ∷ xs) o =
      let rest = low_words-value (y ∷ xs) o.1 in
      let word = low_word x y o.0 in
      let small = right_small x o.0 in
      let r = y % 2 ^ s in
      let room : suc r * 2 ^ (bits - s) ≤ 2 ^ s * 2 ^ (bits - s) =
        mul-le-mul_right (2 ^ (bits - s)) (mod-lt y (pow_pos 2 s (omega arith))) in
      let e1 = ap (λ (t : ℕ). t * r) word_split in
      let e2 = ap (λ (t : ℕ). 2 ^ bits * t) rest.2 in
      rw word (
        (omega (arith, room, small, word_split), rest.0),
        ap suc rest.1,
        omega (arith, mod-add-div x (2 ^ s), e1, e2),
      )

  -- The quotient by the power below the word.
  low_words-quotient :
      (xs : List ℕ)
      → AreWords (2 ^ bits) xs
      → value (2 ^ bits) (low_words bits s xs) ≡ value (2 ^ bits) xs / 2 ^ s
  low_words-quotient xs o =
      let v = low_words-value xs o in
      let pos = pow_pos 2 s (omega arith) in
      let r = first_word xs % 2 ^ s in
      let e : value (2 ^ bits) xs ≡ r + 2 ^ s * value (2 ^ bits) (low_words bits s xs) =
        omega (arith, v.2) in
      sym (
        ap (λ (t : ℕ). t / 2 ^ s) e
        ∙ quotient_by (2 ^ s) r (value (2 ^ bits) (low_words bits s xs))
            (mod-lt (first_word xs) pos))

-- Dropped words are a quotient.
drop-quotient :
    (b w : ℕ) (xs : List ℕ)
    → 0 < b
    → w ≤ length xs
    → AreWords b xs
    → value b (drop w xs) ≡ value b xs / b ^ w
drop-quotient b w xs pos h o =
    let low = value b (take w xs) in
    let size : length (take w xs) ≡ w = omega (arith, length-take w xs) in
    let small : low < b ^ w = rw size at (value-lt b (take w xs) (take-AreWords b w xs o)) in
    sym (
      ap (λ (t : ℕ). t / b ^ w) (value_split b w xs h)
      ∙ quotient_by (b ^ w) low (value b (drop w xs)) small)

pow_twice : (j w : ℕ) → (2 ^ j) ^ w ≡ 2 ^ (j * w)
pow_twice j zero =
    let e : j * zero ≡ 0 = omega arith in
    pow-zero (2 ^ j) ∙ sym (pow-zero 2) ∙ ap (λ (k : ℕ). 2 ^ k) (sym e)
pow_twice j (suc w) =
    let e : j * suc w ≡ j * w + j = omega arith in
    pow-suc (2 ^ j) w
    ∙ ap (λ (t : ℕ). t * 2 ^ j) (pow_twice j w)
    ∙ sym (pow_add 2 (j * w) j)
    ∙ ap (λ (k : ℕ). 2 ^ k) (sym e)

-- Words of zero above a number do not change it.
pub append-zeros :
    (b n : ℕ) (xs : List ℕ)
    → 0 < b
    → AreWords b xs
    → AreWords b (xs ++ replicate n 0) × (value b (xs ++ replicate n 0) ≡ value b xs)
append-zeros b n xs pos o =
    let zeros = replicate-zero b n pos in
    (
      append-AreWords b xs (replicate n 0) o zeros.0,
      omega (arith, value-append b xs (replicate n 0), ap (λ (t : ℕ). b ^ length xs * t) zeros.2),
    )

module _ (bits : ℕ) (hb : 0 < bits) where
  -- The power of the whole shift.
  pub shift_power : (shift : ℕ) → 2 ^ shift ≡ (2 ^ bits) ^ (shift / bits) * 2 ^ (shift % bits)
  shift_power shift =
      let e : shift ≡ bits * (shift / bits) + shift % bits =
        omega (arith, mod-add-div shift bits) in
      ap (λ (k : ℕ). 2 ^ k) e
      ∙ pow_add 2 (bits * (shift / bits)) (shift % bits)
      ∙ ap (λ (t : ℕ). t * 2 ^ (shift % bits)) (sym (pow_twice bits (shift / bits)))

  -- The words that stay, shifted inside the words.
  kept_words :
      (s : ℕ) (ws : List ℕ)
      → s < bits
      → AreWords (2 ^ bits) ws
      → let ys = if s == 0 then ws else low_words bits s ws in
        AreWords (2 ^ bits) ys
        × (length ys ≡ length ws)
        × (value (2 ^ bits) ys ≡ value (2 ^ bits) ws / 2 ^ s)
  kept_words s ws h o = elim (Bool-cases (s == 0)) [
    | inl none ↦
        let z : s ≡ 0 = ground arith in
        let one : 2 ^ s ≡ 1 = ap (λ (k : ℕ). 2 ^ k) z ∙ pow-zero 2 in
        rw (none, one) (o, refl, sym (div-one (value (2 ^ bits) ws)))
    | inr some ↦
        let v = low_words-value bits s h ws o in
        rw some (v.0, v.1, low_words-quotient bits s h ws o)
  ]

  -- A shift inside the array is one of fewer words than the array has.
  pub words_below : (n shift : ℕ) → shift < bits * n → shift / bits ≤ n
  words_below n shift h = elim (above (shift / bits) n) [
    | inl le ↦ le
    | inr gt ↦ absurd (omega (arith, mod-add-div shift bits, mul-le-mul_right bits gt, h))
  ]
    where
      above : (q m : ℕ) → (q ≤ m) ⊎ (suc m ≤ q)
      above q m = omega arith

  -- A shift of the whole array is by a multiple of the power that bounds its numbers.
  pub power_split :
      (n shift : ℕ) → bits * n ≤ shift → 2 ^ shift ≡ 2 ^ (shift - bits * n) * (2 ^ bits) ^ n
  power_split n shift h =
      let k = shift - bits * n in
      let e : shift ≡ k + bits * n = omega (arith, h) in
      ap (λ (t : ℕ). 2 ^ t) e
      ∙ pow_add 2 k (bits * n)
      ∙ ap (λ (t : ℕ). 2 ^ k * t) (sym (pow_twice bits n))

  pub power_le : (n shift : ℕ) → bits * n ≤ shift → (2 ^ bits) ^ n ≤ 2 ^ shift
  power_le n shift h =
      let one : 1 ≤ 2 ^ (shift - bits * n) = pow_pos 2 (shift - bits * n) (omega arith) in
      omega (arith, power_split n shift h, mul-le-mul_right ((2 ^ bits) ^ n) one)

  -- On an array of words `wwShLo` gives as many words, which stand for the number divided by 2 to the power
  -- of the shift, whatever the shift.
  pub sh_lo-value :
      (xs : List ℕ) (shift : ℕ)
      → AreWords (2 ^ bits) xs
      → AreWords (2 ^ bits) (sh_lo bits xs shift)
        × (length (sh_lo bits xs shift) ≡ length xs)
        × (value (2 ^ bits) (sh_lo bits xs shift) ≡ value (2 ^ bits) xs / 2 ^ shift)
  unfolding sh_lo
  sh_lo-value xs shift o =
      let b = 2 ^ bits in
      let w = shift / bits in
      let s = shift % bits in
      let pos = pow_pos 2 bits (omega arith) in
      elim (Bool-cases (ltb shift (bits * length xs))) [
        | inl inside ↦
            let lt : shift < bits * length xs = ground arith in
            let fits : w ≤ length xs = words_below (length xs) shift lt in
            let ws = drop w xs in
            let kept = kept_words s ws (mod-lt shift hb) (drop-AreWords b w xs o) in
            let ys = if s == 0 then ws else low_words bits s ws in
            let shifted = append-zeros b w ys pos kept.0 in
            let zeros = replicate-zero b w pos in
            let size : length (ys ++ replicate w 0) ≡ length xs =
              omega (
                arith,
                length-append ys (replicate w 0),
                zeros.1,
                kept.1,
                length-drop w xs,
                fits,
              ) in
            let quotient : value b ws / 2 ^ s ≡ value b xs / 2 ^ shift =
              ap (λ (t : ℕ). t / 2 ^ s) (drop-quotient b w xs pos fits o)
              ∙ div-div-eq-div-mul (value b xs) (b ^ w) (2 ^ s)
              ∙ ap (λ (t : ℕ). value b xs / t) (sym (shift_power shift)) in
            rw inside (shifted.0, size, shifted.1 ∙ kept.2 ∙ quotient)
        | inr outside ↦
            let ge : bits * length xs ≤ shift = ground arith in
            let zeros = replicate-zero b (length xs) pos in
            let small = value-lt b xs o in
            let low : value b xs < 2 ^ shift =
              omega (arith, small, power_le (length xs) shift ge) in
            rw outside (zeros.0, zeros.1, zeros.2 ∙ sym (div-eq_of_lt low))
      ]
