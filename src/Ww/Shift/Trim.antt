-- ===== src/Ww/Shift/Trim.antt =====
-- `wwTrimHi` and `wwTrimLo`: the bits below a place and those from it on.
use bee.Common.{
  ℕ, suc, ◌+◌, ◌-◌, ◌*◌, ◌/◌, ◌%◌, ◌^◌, ◌<◌, ◌≤◌, ◌≡◌, inl, inr, refl, sym, ap, ◌∙◌, List, [], ◌∷◌,
  ◌++◌, length, take, drop, replicate, ltb, ◌==◌, Bool-cases, arith, if◌then◌else◌, length-append,
  length-take, length-drop,
}
use bee.Common.Powers.{pow_pos}
use bee.Zz.Value.{
  replicate-zero, AreWords, value, value-lt, value-append, append-AreWords, take-AreWords,
  drop-AreWords,
}
use bee.Zz.Add.Carry.{value_split}
use bee.Ww.Shift.{left, trim_lo_from, trim_lo, trim_hi_from, trim_hi}
use bee.Ww.Shift.Low.{left-eq, word_split, shift_power, power_le}
use bee.Ww.Shift.High.{remainder_by}
use native.Mathlib.Nat.{
  pow-zero, mod-lt, mod-eq_of_lt, mod-add-div, mod-one, add-mul-mod_self_left, mul-le-mul_right,
  mul-le-mul_left, mul-div_cancel_left,
}

-- The remainder of a number in two parts, the upper one cut inside.
cut_inside : (low pw p v : ℕ) → low < pw → 0 < p → (low + pw * v) % (pw * p) ≡ low + pw * (v % p)
cut_inside low pw p v h pos =
    let room : suc (v % p) * pw ≤ p * pw = mul-le-mul_right pw (mod-lt v pos) in
    let small : low + pw * (v % p) < pw * p = omega (arith, h, room) in
    let parts : low + pw * v ≡ low + pw * (v % p) + pw * p * (v / p) =
      omega (arith, ap (λ (t : ℕ). pw * t) (mod-add-div v p)) in
    ap (λ (t : ℕ). t % (pw * p)) parts ∙ remainder_by (pw * p) (low + pw * (v % p)) (v / p) small

module _ (bits s : ℕ) (hs : s < bits) where
  -- Only the first word counts below its width.
  first_bits : (x rest : ℕ) → (x + 2 ^ bits * rest) % 2 ^ s ≡ x % 2 ^ s
  first_bits x rest =
      let e : x + 2 ^ bits * rest ≡ x + 2 ^ s * (2 ^ (bits - s) * rest) =
        omega (arith, ap (λ (t : ℕ). t * rest) (word_split bits s hs)) in
      ap (λ (t : ℕ). t % 2 ^ s) e ∙ add-mul-mod_self_left x (2 ^ s) (2 ^ (bits - s) * rest)

  -- A word without its bits from the place `s` on.
  low_bits :
      (x : ℕ)
      → (if bits - s == bits then 0 else left bits x (bits - s) / 2 ^ (bits - s)) ≡ x % 2 ^ s
  low_bits x = elim (Bool-cases (bits - s == bits)) [
    | inl whole ↦
        let z : s ≡ 0 = ground arith in
        let one : 2 ^ s ≡ 1 = ap (λ (k : ℕ). 2 ^ k) z ∙ pow-zero 2 in
        rw (whole, one) (sym (mod-one x))
    | inr part ↦
        rw (part, left-eq bits s hs x)
          (mul-div_cancel_left (x % 2 ^ s) (pow_pos 2 (bits - s) (omega arith)))
  ]

  trim_hi_from-value :
      (ws : List ℕ)
      → AreWords (2 ^ bits) ws
      → AreWords (2 ^ bits) (trim_hi_from bits (bits - s) ws)
        × (length (trim_hi_from bits (bits - s) ws) ≡ length ws)
        × (value (2 ^ bits) (trim_hi_from bits (bits - s) ws) ≡ value (2 ^ bits) ws % 2 ^ s)
  unfolding trim_hi_from
  trim_hi_from-value [] o = (tt, refl, sym (mod-eq_of_lt (pow_pos 2 s (omega arith))))
  trim_hi_from-value (x ∷ xs) o =
      let b = 2 ^ bits in
      let zeros = replicate-zero b (length xs) (pow_pos 2 bits (omega arith)) in
      let none = ap (λ (t : ℕ). b * t) zeros.2 in
      let small : x % 2 ^ s < b = omega (arith, mod-add-div x (2 ^ s), o.0) in
      rw (low_bits x)
        ((small, zeros.0), ap suc zeros.1, omega (arith, first_bits x (value b xs), none))

  -- A word without its bits below the place `s`.
  high_bits :
      (x : ℕ) → x < 2 ^ bits → ((if s == 0 then x else left bits (x / 2 ^ s) s) + x % 2 ^ s ≡ x)
  unfolding left
  high_bits x h = elim (Bool-cases (s == 0)) [
    | inl none ↦
        let z : s ≡ 0 = ground arith in
        let one : 2 ^ s ≡ 1 = ap (λ (k : ℕ). 2 ^ k) z ∙ pow-zero 2 in
        rw (none, one) (omega (arith, mod-one x))
    | inr some ↦
        let e = mod-add-div x (2 ^ s) in
        let small : x / 2 ^ s * 2 ^ s < 2 ^ bits = omega (arith, e, h) in
        rw (some, mod-eq_of_lt small) (omega (arith, e))
  ]

  trim_lo_from-value :
      (ws : List ℕ)
      → AreWords (2 ^ bits) ws
      → AreWords (2 ^ bits) (trim_lo_from bits s ws)
        × (length (trim_lo_from bits s ws) ≡ length ws)
        × (value (2 ^ bits) (trim_lo_from bits s ws) + value (2 ^ bits) ws % 2 ^ s
            ≡ value (2 ^ bits) ws)
  unfolding trim_lo_from
  trim_lo_from-value [] o =
      let none : 0 % 2 ^ s ≡ 0 = mod-eq_of_lt (pow_pos 2 s (omega arith)) in
      (tt, refl, omega (arith, none))
  trim_lo_from-value (x ∷ xs) o =
      let b = 2 ^ bits in
      let word = high_bits x o.0 in
      ((omega (arith, word, o.0), o.1), refl, omega (arith, word, first_bits x (value b xs)))

module _ (bits : ℕ) (hb : 0 < bits) where
  -- A place above the words is above the bits of the number.
  place_above : (n pos : ℕ) → n ≤ pos / bits → bits * n ≤ pos
  place_above n pos h = omega (arith, mod-add-div pos bits, mul-le-mul_left bits h)

  all_bits :
      (xs : List ℕ) (pos : ℕ)
      → AreWords (2 ^ bits) xs
      → length xs ≤ pos / bits
      → value (2 ^ bits) xs % 2 ^ pos ≡ value (2 ^ bits) xs
  all_bits xs pos o h =
      let small = value-lt (2 ^ bits) xs o in
      mod-eq_of_lt
        (omega (arith, small, power_le bits hb (length xs) pos (place_above (length xs) pos h)))

  -- The bits below a place inside the words.
  split_bits :
      (xs : List ℕ) (pos : ℕ)
      → AreWords (2 ^ bits) xs
      → pos / bits ≤ length xs
      → value (2 ^ bits) xs % 2 ^ pos
        ≡ value (2 ^ bits) (take (pos / bits) xs)
          + (2 ^ bits) ^ (pos / bits) * (value (2 ^ bits) (drop (pos / bits) xs) % 2 ^ (pos % bits))
  split_bits xs pos o h =
      let b = 2 ^ bits in
      let i = pos / bits in
      let ws = take i xs in
      let size : length ws ≡ i = omega (arith, length-take i xs, h) in
      let small : value b ws < b ^ i = rw size at (value-lt b ws (take-AreWords b i xs o)) in
      let low = pow_pos 2 (pos % bits) (omega arith) in
      rw (value_split b i xs h, shift_power bits hb pos)
        (cut_inside (value b ws) (b ^ i) (2 ^ (pos % bits)) (value b (drop i xs)) small low)

  -- On an array of words `wwTrimHi` gives as many words, which stand for the number modulo 2 to the power of
  -- the place, whatever the place.
  pub trim_hi-value :
      (xs : List ℕ) (pos : ℕ)
      → AreWords (2 ^ bits) xs
      → AreWords (2 ^ bits) (trim_hi bits xs pos)
        × (length (trim_hi bits xs pos) ≡ length xs)
        × (value (2 ^ bits) (trim_hi bits xs pos) ≡ value (2 ^ bits) xs % 2 ^ pos)
  unfolding trim_hi
  trim_hi-value xs pos o =
      let b = 2 ^ bits in
      let i = pos / bits in
      elim (Bool-cases (ltb i (length xs))) [
        | inl inside ↦
            let fits : i ≤ length xs = ground arith in
            let ws = take i xs in
            let rest = drop i xs in
            let top =
              trim_hi_from-value bits (pos % bits) (mod-lt pos hb) rest (drop-AreWords b i xs o) in
            let upper = trim_hi_from bits (bits - pos % bits) rest in
            let size_low : length ws ≡ i = omega (arith, length-take i xs, fits) in
            let size : length (ws ++ upper) ≡ length xs =
              omega (arith, length-append ws upper, size_low, top.1, length-drop i xs, fits) in
            let total : value b (ws ++ upper)
                ≡ value b ws + b ^ i * (value b rest % 2 ^ (pos % bits)) =
              rw (size_low, top.2) at (value-append b ws upper) in
            rw inside (
              append-AreWords b ws upper (take-AreWords b i xs o) top.0,
              size,
              total ∙ sym (split_bits xs pos o fits),
            )
        | inr outside ↦
            let above : length xs ≤ i = ground arith in
            rw outside (o, refl, sym (all_bits xs pos o above))
      ]

  -- On an array of words `wwTrimLo` gives as many words, which stand for the number less its remainder
  -- modulo 2 to the power of the place, whatever the place.
  pub trim_lo-value :
      (xs : List ℕ) (pos : ℕ)
      → AreWords (2 ^ bits) xs
      → AreWords (2 ^ bits) (trim_lo bits xs pos)
        × (length (trim_lo bits xs pos) ≡ length xs)
        × (value (2 ^ bits) (trim_lo bits xs pos) + value (2 ^ bits) xs % 2 ^ pos
            ≡ value (2 ^ bits) xs)
  unfolding trim_lo
  trim_lo-value xs pos o =
      let b = 2 ^ bits in
      let i = pos / bits in
      let base = pow_pos 2 bits (omega arith) in
      elim (Bool-cases (ltb i (length xs))) [
        | inl inside ↦
            let fits : i ≤ length xs = ground arith in
            let rest = drop i xs in
            let zeros = replicate-zero b i base in
            let top =
              trim_lo_from-value bits (pos % bits) (mod-lt pos hb) rest (drop-AreWords b i xs o) in
            let upper = trim_lo_from bits (pos % bits) rest in
            let size : length (replicate i 0 ++ upper) ≡ length xs = omega (
              arith,
              length-append (replicate i 0) upper,
              zeros.1,
              top.1,
              length-drop i xs,
              fits,
            ) in
            let total : value b (replicate i 0 ++ upper) ≡ b ^ i * value b upper =
              let e = value-append b (replicate i 0) upper in
              rw (zeros.1, zeros.2) at e ∙ omega arith in
            let scaled = ap (λ (t : ℕ). b ^ i * t) top.2 in
            rw inside (
              append-AreWords b (replicate i 0) upper zeros.0 top.0,
              size,
              omega (arith, total, split_bits xs pos o fits, value_split b i xs fits, scaled),
            )
        | inr outside ↦
            let above : length xs ≤ i = ground arith in
            let n = if ltb (length xs) i then length xs else i in
            let count : n ≡ length xs = ground arith in
            let zeros = replicate-zero b n base in
            rw outside (zeros.0, zeros.1 ∙ count, omega (arith, zeros.2, all_bits xs pos o above))
      ]
