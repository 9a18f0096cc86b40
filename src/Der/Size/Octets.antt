-- ===== src/Der/Size/Octets.antt =====
-- The octets of a size: how many there are, and that the decoder takes them.
use bee.Common.{
  ℕ, zero, suc, ◌+◌, ◌-◌, ◌*◌, ◌/◌, ◌%◌, ◌^◌, ◌<◌, ◌≤◌, ◌≡◌, ◌⊎◌, inl, inr, refl, ap, ◌∙◌, false,
  List, ◌∷◌, ◌++◌, length, ltb, Bool-cases, arith,
}
use bee.Common.Powers.{pow_pos, pow_add}
use bee.Common.BigEndian.{be_octets, be_value-be_octets, be_octets-AreOctets, length-be_octets}
use bee.Der.Len.{l_value}
use bee.Der.Len.Laws.{l_value-eq-be_value}
use bee.Der.Size.{size_len, is_refused}
use native.Mathlib.Nat.{
  pow-suc, pow-zero, div-div-eq-div-mul, div-one, mod-add-div, mod-lt, mul-le-mul_right,
  mul-le-mul_left,
}

below_or_above : (n k : ℕ) → (n < k) ⊎ (k ≤ n)
below_or_above n k = omega arith

-- A size of one octet, or of one with a zero in front.
short_size :
    (n bound : ℕ)
    → n < 256
    → (r : ℕ) × (1 + n / 128 ≡ suc r)
      × (r ≤ suc bound)
      × (n < 128 * 256 ^ r)
      × ((r ≡ 0) ⊎ (256 ^ r ≤ 2 * n))
short_size n bound h = elim (below_or_above n 128) [
  | inl low ↦ (0, omega arith, omega arith, omega (arith, pow-zero 256), inl refl)
  | inr high ↦ (
    1,
    omega arith,
    omega arith,
    omega (arith, pow-suc 256 0, pow-zero 256),
    inr (omega (arith, pow-suc 256 0, pow-zero 256)),
  )
]

-- The octets are the fewest that leave the highest bit free.
pub size_len_bounds :
    (fuel n : ℕ)
    → n < 256 ^ suc fuel
    → (r : ℕ) × (size_len fuel n ≡ suc r)
      × (r ≤ suc fuel)
      × (n < 128 * 256 ^ r)
      × ((r ≡ 0) ⊎ (256 ^ r ≤ 2 * n))
unfolding size_len
size_len_bounds zero n h = short_size n zero (omega (arith, pow-suc 256 0, pow-zero 256))
size_len_bounds (suc fuel) n h = elim (Bool-cases (ltb n 256)) [
  | inl small ↦ let h' : n < 256 = ground arith in rw small (short_size n (suc fuel) h')
  | inr large ↦
      let (r, size, le, lt, least) =
        size_len_bounds fuel (n / 256) (omega (arith, h, pow-suc 256 (suc fuel))) in
      let above : 256 ≤ n = ground arith in
      let least' : 256 ^ suc r ≤ 2 * n = elim least [
        | inl none ↦ rw none (omega (arith, above, pow-suc 256 0, pow-zero 256))
        | inr more ↦ omega (arith, more, pow-suc 256 r)
      ] in
      rw large (suc r, ap suc size, omega (arith, le), omega (arith, lt, pow-suc 256 r), inr least')
]

-- The highest octet and the others.
be_octets-cons : (r n : ℕ) → be_octets (suc r) n ≡ (n / 256 ^ r % 256) ∷ be_octets r n
unfolding be_octets
be_octets-cons zero n = let whole : n / 256 ^ 0 ≡ n = div-one n in rw whole refl
be_octets-cons (suc r) n =
    let deeper : n / 256 / 256 ^ r ≡ n / 256 ^ suc r =
      div-div-eq-div-mul n 256 (256 ^ r) ∙ ap (λ (t : ℕ). n / t) (omega (arith, pow-suc 256 r)) in
    rw (be_octets-cons r (n / 256), deeper) refl

quotient_lt : (n p k : ℕ) → n < k * p → n / p < k
quotient_lt n p k h = elim (below_or_above (n / p) k) [
  | inl lt ↦ lt
  | inr ge ↦ absurd (omega (arith, h, mod-add-div n p, mul-le-mul_right p ge))
]

one_accepted : (a : ℕ) (rest : List ℕ) → a < 128 → is_refused 1 (a ∷ rest) ≡ false
unfolding is_refused
one_accepted a rest h = ground arith

more_accepted :
    (len a c : ℕ) (rest : List ℕ)
    → a < 128
    → (a ≡ 0 → 128 ≤ c)
    → (len ≡ 9 → a ≡ 0)
    → is_refused len (a ∷ c ∷ rest) ≡ false
unfolding is_refused
more_accepted len a c rest h second ninth = ground (arith, second, ninth)

-- The second octet has its highest bit set where the first one is zero.
second_octet :
    (q n : ℕ)
    → 256 ^ suc q ≤ 2 * n
    → n / 256 ^ suc q % 256 ≡ 0
    → n / 256 ^ suc q < 128
    → 128 ≤ n / 256 ^ q % 256
second_octet q n least e lt =
    let p = 256 ^ q in
    let zero_head : n / 256 ^ suc q ≡ 0 = omega arith in
    let pos : 0 < 256 ^ suc q = pow_pos 256 (suc q) (omega arith) in
    let whole = mod-add-div n (256 ^ suc q) in
    let rest = mod-lt n pos in
    let scaled = ap (λ (t : ℕ). 256 ^ suc q * t) zero_head in
    let below : n < 256 * p = omega (arith, whole, rest, scaled, pow-suc 256 q) in
    let high : n / p < 256 = quotient_lt n p 256 below in
    let low : 128 ≤ n / p = elim (below_or_above (n / p) 128) [
      | inl few ↦
          let room : suc (n / p) * p ≤ 128 * p = mul-le-mul_right p few in
          absurd (
            omega (
              arith,
              room,
              mod-add-div n p,
              mod-lt n (pow_pos 256 q (omega arith)),
              least,
              pow-suc 256 q,
            ))
      | inr many ↦ many
    ] in
    omega (arith, high, low)

pub octets-accepted :
    (r n : ℕ) (rest : List ℕ)
    → r ≤ 8
    → n < 2 ^ 64
    → n < 128 * 256 ^ r
    → (r ≡ 0) ⊎ (256 ^ r ≤ 2 * n)
    → is_refused (suc r) (be_octets (suc r) n ++ rest) ≡ false
octets-accepted zero n rest le small lt least =
    let one : n / 256 ^ 0 % 256 < 128 =
      let e = quotient_lt n (256 ^ 0) 128 lt in omega (arith, e) in
    rw (be_octets-cons zero n) (one_accepted (n / 256 ^ 0 % 256) (be_octets 0 n ++ rest) one)
octets-accepted (suc q) n rest le small lt least =
    let a = n / 256 ^ suc q in
    let lt_a : a < 128 = quotient_lt n (256 ^ suc q) 128 lt in
    let enough : 256 ^ suc q ≤ 2 * n = elim least [
      | inl none ↦ absurd (omega (arith, none))
      | inr some ↦ some
    ] in
    let ninth : suc (suc q) ≡ 9 → a % 256 ≡ 0 = λ e.
      let seven : q ≡ 7 = omega (arith, e) in
      let none : n / 256 ^ suc q < 1 =
        quotient_lt n (256 ^ suc q) 1 (rw seven (omega (arith, small))) in
      omega (arith, none) in
    rw (be_octets-cons (suc q) n, be_octets-cons q n)
      (more_accepted (suc (suc q)) (a % 256) (n / 256 ^ q % 256) (be_octets q n ++ rest)
        (omega (arith, lt_a)) (λ e. second_octet q n enough e lt_a) ninth)

-- Eight octets are read back.
eight_octets : (k n : ℕ) → k ≤ 8 → n < 256 ^ k → l_value 0 (be_octets k n) ≡ n
eight_octets k n le lt =
    let size : length (be_octets k n) ≡ k = length-be_octets k n in
    let e : 8 ≡ k + (8 - k) = omega (arith, le) in
    let parts : 256 ^ 8 ≡ 256 ^ k * 256 ^ (8 - k) =
      ap (λ (t : ℕ). 256 ^ t) e ∙ pow_add 256 k (8 - k) in
    let room = mul-le-mul_left (256 ^ k) (pow_pos 256 (8 - k) (omega arith)) in
    let fits : 1 * 256 ^ length (be_octets k n) ≤ 2 ^ 64 = rw size (omega (arith, room, parts)) in
    l_value-eq-be_value (be_octets k n) 0 (be_octets-AreOctets k n) (omega (arith, fits))
    ∙ be_value-be_octets k n lt

-- All the octets of a size are read back; a ninth one is zero.
pub l_value-be_octets :
    (r n : ℕ) → r ≤ 8 → n < 2 ^ 64 → n < 256 ^ suc r → l_value 0 (be_octets (suc r) n) ≡ n
l_value-be_octets r n le small lt = elim (below_or_above r 8) [
  | inl few ↦ eight_octets (suc r) n few lt
  | inr many ↦
      let nine : r ≡ 8 = omega (arith, le, many) in
      let none : n / 256 ^ 8 < 1 = quotient_lt n (256 ^ 8) 1 (omega (arith, small)) in
      let head : n / 256 ^ 8 % 256 ≡ 0 = omega (arith, none) in
      rw (nine, be_octets-cons 8 n, head)
        (zero_first (be_octets 8 n) ∙ eight_octets 8 n (omega arith) (omega (arith, small)))
]
  where
    zero_first : (os : List ℕ) → l_value 0 (0 ∷ os) ≡ l_value 0 os
    zero_first os = unfold l_value in refl
