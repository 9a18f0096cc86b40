-- ===== src/Ww/Shift/High.antt =====
-- `wwShHi`: the product with a power of two.
use bee.Common.{
  ℕ, suc, ◌+◌, ◌-◌, ◌*◌, ◌/◌, ◌%◌, ◌^◌, ◌<◌, ◌≤◌, ◌≡◌, inl, inr, refl, sym, ap, ap₂, ◌∙◌, List, [],
  ◌∷◌, ◌++◌, length, take, drop, replicate, bit_or, ltb, ◌==◌, Bool-cases, arith, if◌then◌else◌,
  length-append, length-take,
}
use bee.Common.BitLaws.{bit_or_low}
use bee.Common.Powers.{pow_add, pow_pos}
use bee.Zz.Value.{
  replicate-zero, AreWords, value, value-lt, value-append, append-AreWords, take-AreWords,
}
use bee.Zz.Add.Carry.{value_split}
use bee.Ww.Shift.{left, high_words, high_first, sh_hi}
use bee.Ww.Shift.Low.{left_bits, right_small, word_split, shift_power, words_below, power_split}
use native.Mathlib.Nat.{
  pow-zero, pow-suc, mod-lt, mod-eq_of_lt, mod-add-div, add-mul-mod_self_left, mul-le-mul_right,
  div-eq_of_lt,
}

-- Multiples of the modulus do not count in a remainder.
pub remainder_by : (m r q : ℕ) → r < m → (r + m * q) % m ≡ r
remainder_by m r q h = add-mul-mod_self_left r m q ∙ mod-eq_of_lt h

module _ (bits s : ℕ) (hp : 0 < s) (hs : s < bits) where
  -- A word shifted to the left and the bits that it loses.
  left_parts :
      (x : ℕ)
      → (left bits x s ≡ 2 ^ s * (x % 2 ^ (bits - s)))
        × (2 ^ s * x ≡ left bits x s + 2 ^ bits * (x / 2 ^ (bits - s)))
  unfolding left
  left_parts x =
      let q = 2 ^ (bits - s) in
      let whole : 2 ^ bits ≡ 2 ^ s * q = omega (arith, word_split bits s hs) in
      let low : x * 2 ^ s % 2 ^ bits ≡ 2 ^ s * (x % q) =
        rw whole (
          left_bits (2 ^ s) q x (pow_pos 2 s (omega arith)) (pow_pos 2 (bits - s) (omega arith))) in
      let scaled = ap (λ (t : ℕ). 2 ^ s * t) (mod-add-div x q) in
      let high = ap (λ (t : ℕ). t * (x / q)) whole in (low, omega (arith, low, scaled, high))

  left-lt : (x : ℕ) → left bits x s < 2 ^ bits
  unfolding left
  left-lt x = mod-lt (x * 2 ^ s) (pow_pos 2 bits (omega arith))

  -- The bits of the word below come in place of the zeros.
  high_word :
      (x y : ℕ)
      → y < 2 ^ bits
      → (bit_or (left bits x s) (y / 2 ^ (bits - s)) ≡ left bits x s + y / 2 ^ (bits - s))
        × (left bits x s + y / 2 ^ (bits - s) < 2 ^ bits)
  high_word x y hy =
      let q = 2 ^ (bits - s) in
      let r = x % q in
      let parts = left_parts x in
      let back : 2 ^ (bits - (bits - s)) ≡ 2 ^ s =
        let e : bits - (bits - s) ≡ s = omega arith in ap (λ (k : ℕ). 2 ^ k) e in
      let small : y / q < 2 ^ s = rw back at (right_small bits (bits - s) (omega arith) y hy) in
      let room : suc r * 2 ^ s ≤ q * 2 ^ s =
        mul-le-mul_right (2 ^ s) (mod-lt x (pow_pos 2 (bits - s) (omega arith))) in
      (
        rw parts.0 (bit_or_low s r (y / q) small),
        omega (arith, parts.0, small, room, word_split bits s hs),
      )

  -- The bits that leave the last word.
  lost : ℕ → List ℕ → ℕ
  lost prev [] = prev / 2 ^ (bits - s)
  lost prev (x ∷ xs) = lost x xs

  high_words-value :
      (prev : ℕ) (xs : List ℕ)
      → prev < 2 ^ bits
      → AreWords (2 ^ bits) xs
      → AreWords (2 ^ bits) (high_words bits s prev xs)
        × (length (high_words bits s prev xs) ≡ length xs)
        × (2 ^ s * value (2 ^ bits) xs + prev / 2 ^ (bits - s)
            ≡ value (2 ^ bits) (high_words bits s prev xs) + (2 ^ bits) ^ length xs * lost prev xs)
  unfolding high_words lost
  high_words-value prev [] h o =
      let b = 2 ^ bits in
      (tt, refl, omega (arith, ap (λ (t : ℕ). t * (prev / 2 ^ (bits - s))) (pow-zero b)))
  high_words-value prev (x ∷ xs) h o =
      let b = 2 ^ bits in
      let rest = high_words-value x xs o.0 o.1 in
      let word = high_word x prev h in
      let e1 = ap (λ (t : ℕ). b * t) rest.2 in
      let e2 = ap (λ (t : ℕ). t * lost x xs) (pow-suc b (length xs)) in
      rw word.0 ((word.1, rest.0), ap suc rest.1, omega (arith, (left_parts x).1, e1, e2))

  -- The first word takes zeros.
  high_first-value :
      (xs : List ℕ)
      → AreWords (2 ^ bits) xs
      → AreWords (2 ^ bits) (high_first bits s xs)
        × (length (high_first bits s xs) ≡ length xs)
        × (2 ^ s * value (2 ^ bits) xs
            ≡ value (2 ^ bits) (high_first bits s xs) + (2 ^ bits) ^ length xs * lost 0 xs)
  unfolding high_first lost
  high_first-value [] o =
      let none : 0 / 2 ^ (bits - s) ≡ 0 = div-eq_of_lt (pow_pos 2 (bits - s) (omega arith)) in
      rw none (tt, refl, omega arith)
  high_first-value (x ∷ xs) o =
      let b = 2 ^ bits in
      let rest = high_words-value x xs o.0 o.1 in
      let e1 = ap (λ (t : ℕ). b * t) rest.2 in
      let e2 = ap (λ (t : ℕ). t * lost x xs) (pow-suc b (length xs)) in
      ((left-lt x, rest.0), ap suc rest.1, omega (arith, (left_parts x).1, e1, e2))

  -- The remainder of the product by the power of the word's base.
  high_first-remainder :
      (xs : List ℕ)
      → AreWords (2 ^ bits) xs
      → value (2 ^ bits) (high_first bits s xs)
        ≡ 2 ^ s * value (2 ^ bits) xs % (2 ^ bits) ^ length xs
  high_first-remainder xs o =
      let b = 2 ^ bits in
      let v = high_first-value xs o in
      let small = value-lt b (high_first bits s xs) v.0 in
      sym (
        ap (λ (t : ℕ). t % b ^ length xs) v.2
        ∙ remainder_by (b ^ length xs) (value b (high_first bits s xs)) (lost 0 xs)
            (rw v.1 at small))

-- A product that is cut at `b ^ w * m` with its lowest `w` words zero.
cut_product :
    (pw m r u q hi : ℕ)
    → r < m
    → u ≡ r + m * q
    → 0 < pw
    → (hi * (pw * m) + pw * u) % (pw * m) ≡ pw * r
cut_product pw m r u q hi h e pos =
    let room : suc r * pw ≤ m * pw = mul-le-mul_right pw h in
    let small : pw * r < pw * m = omega (arith, room, pos) in
    let parts : hi * (pw * m) + pw * u ≡ pw * r + pw * m * (q + hi) =
      omega (arith, ap (λ (t : ℕ). pw * t) e) in
    ap (λ (t : ℕ). t % (pw * m)) parts ∙ remainder_by (pw * m) (pw * r) (q + hi) small

distribute : (pw p v m hi : ℕ) → pw * p * (v + m * hi) ≡ p * hi * (pw * m) + pw * (p * v)
distribute pw p v m hi = omega arith

-- The product with `b ^ w * p`, modulo the power of the base, has `w` words of zero and the product of the
-- lower words with `p`.
cut_words :
    (b p power w : ℕ) (xs : List ℕ)
    → 0 < b
    → w ≤ length xs
    → power ≡ b ^ w * p
    → power * value b xs % b ^ length xs
      ≡ b ^ w * (p * value b (take (length xs - w) xs) % b ^ (length xs - w))
cut_words b p power w xs pos fits whole =
    let n = length xs in
    let v = value b (take (n - w) xs) in
    let hi = value b (drop (n - w) xs) in
    let m = b ^ (n - w) in
    let u = p * v in
    let full : b ^ n ≡ b ^ w * m =
      let e : n ≡ w + (n - w) = omega (arith, fits) in
      ap (λ (t : ℕ). b ^ t) e ∙ pow_add b w (n - w) in
    let below : n - w ≤ n = omega arith in
    let product : power * value b xs ≡ p * hi * (b ^ w * m) + b ^ w * u =
      ap₂ (λ (t x : ℕ). t * x) whole (value_split b (n - w) xs below)
      ∙ distribute (b ^ w) p v m hi in
    ap₂ (λ (t x : ℕ). t % x) product full
    ∙ cut_product (b ^ w) m (u % m) u (u / m) (p * hi) (mod-lt u (pow_pos b (n - w) pos))
        (sym (mod-add-div u m)) (pow_pos b w pos)

module _ (bits : ℕ) (hb : 0 < bits) where
  -- The words that stay, shifted inside the words.
  kept_words :
      (s : ℕ) (ws : List ℕ)
      → s < bits
      → AreWords (2 ^ bits) ws
      → let ys = if s == 0 then ws else high_first bits s ws in
        AreWords (2 ^ bits) ys
        × (length ys ≡ length ws)
        × (value (2 ^ bits) ys ≡ 2 ^ s * value (2 ^ bits) ws % (2 ^ bits) ^ length ws)
  kept_words s ws h o = elim (Bool-cases (s == 0)) [
    | inl none ↦
        let b = 2 ^ bits in
        let z : s ≡ 0 = ground arith in
        let one : 2 ^ s ≡ 1 = ap (λ (k : ℕ). 2 ^ k) z ∙ pow-zero 2 in
        let same : 1 * value b ws ≡ value b ws = omega arith in
        rw (none, one, same) (o, refl, sym (mod-eq_of_lt (value-lt b ws o)))
    | inr some ↦
        let pos : 0 < s = ground arith in
        let v = high_first-value bits s pos h ws o in
        rw some (v.0, v.1, high_first-remainder bits s pos h ws o)
  ]

  -- On an array of words `wwShHi` gives as many words, which stand for the product with 2 to the power of
  -- the shift modulo the power of the word's base to the number of words, whatever the shift.
  pub sh_hi-value :
      (xs : List ℕ) (shift : ℕ)
      → AreWords (2 ^ bits) xs
      → AreWords (2 ^ bits) (sh_hi bits xs shift)
        × (length (sh_hi bits xs shift) ≡ length xs)
        × (value (2 ^ bits) (sh_hi bits xs shift)
            ≡ 2 ^ shift * value (2 ^ bits) xs % (2 ^ bits) ^ length xs)
  unfolding sh_hi
  sh_hi-value xs shift o =
      let b = 2 ^ bits in
      let n = length xs in
      let w = shift / bits in
      let s = shift % bits in
      let pos = pow_pos 2 bits (omega arith) in
      elim (Bool-cases (ltb shift (bits * length xs))) [
        | inl inside ↦
            let lt : shift < bits * length xs = ground arith in
            let fits : w ≤ n = words_below bits hb n shift lt in
            let ws = take (n - w) xs in
            let size_kept : length ws ≡ n - w = omega (arith, length-take (n - w) xs) in
            let kept = kept_words s ws (mod-lt shift hb) (take-AreWords b (n - w) xs o) in
            let ys = if s == 0 then ws else high_first bits s ws in
            let zeros = replicate-zero b w pos in
            let size : length (replicate w 0 ++ ys) ≡ n =
              omega (arith, length-append (replicate w 0) ys, zeros.1, kept.1, size_kept, fits) in
            let total : value b (replicate w 0 ++ ys) ≡ b ^ w * value b ys =
              let e = value-append b (replicate w 0) ys in
              rw (zeros.1, zeros.2) at e ∙ omega arith in
            let e = ap (λ (t : ℕ). 2 ^ s * value b ws % b ^ t) size_kept in
            let result =
              cut_words b (2 ^ s) (2 ^ shift) w xs pos fits (shift_power bits hb shift) in
            let same : value b ys ≡ 2 ^ s * value b ws % b ^ (n - w) = kept.2 ∙ e in
            rw inside (
              append-AreWords b (replicate w 0) ys zeros.0 kept.0,
              size,
              total ∙ ap (λ (t : ℕ). b ^ w * t) same ∙ sym result,
            )
        | inr outside ↦
            let ge : bits * length xs ≤ shift = ground arith in
            let zeros = replicate-zero b n pos in
            let k = 2 ^ (shift - bits * n) in
            let product : 2 ^ shift * value b xs ≡ 0 + b ^ n * (k * value b xs) =
              omega (arith, ap (λ (t : ℕ). t * value b xs) (power_split bits hb n shift ge)) in
            let none : 2 ^ shift * value b xs % b ^ n ≡ 0 =
              ap (λ (t : ℕ). t % b ^ n) product
              ∙ remainder_by (b ^ n) 0 (k * value b xs) (pow_pos b n pos) in
            rw outside (zeros.0, zeros.1, zeros.2 ∙ sym none)
      ]
