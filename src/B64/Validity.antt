-- ===== src/B64/Validity.antt =====
-- `b64IsValid` accepts what `b64From` writes.
use bee.Common.{
  ℕ, zero, suc, ◌+◌, ◌-◌, ◌*◌, ◌/◌, ◌%◌, ◌≤◌, ◌<◌, ◌≡◌, inl, inr, refl, ap, ◌∙◌, true, false,
  Bool-cases, List, [], ◌∷◌, ◌++◌, length, take, get_or, get_or-append_left, All, AreOctets, arith,
  bit_and, ◌==◌, ◌!=◌,
}
use bee.Common.BitLaws.{bit_and_mask}
use bee.B64.{letter, lookup, all_letters, is_valid, from_octets}
use bee.B64.Blocks.{letter_lem, mask6, block3_eq, block2_eq}
use bee.B64.RoundTrip.{body, padding, from_octets-split, unpadded-from_octets}

IsLetter : ℕ → Type 0
IsLetter c = (lookup c == 255) ≡ false

letter-IsLetter : (n : ℕ) → n < 64 → IsLetter (letter n)
unfolding IsLetter
letter-IsLetter n h = let e = (letter_lem n h).0 in ground (arith, e)

body-IsLetter : (os : List ℕ) → AreOctets os → All IsLetter (body os)
unfolding body
body-IsLetter (x ∷ y ∷ z ∷ os) o =
    let v = (x * 256 + y) * 256 + z in
    rw (block3_eq x y z o.1.0 o.1.1.0) (
      rw (mask6 (v / 64 / 64), mask6 (v / 64), mask6 v)
        (
          letter-IsLetter (v / 64 / 64 / 64) (omega (arith, o.0, o.1.0, o.1.1.0)),
          (
            letter-IsLetter (v / 64 / 64 % 64) (omega arith),
            (
              letter-IsLetter (v / 64 % 64) (omega arith),
              (letter-IsLetter (v % 64) (omega arith), body-IsLetter os o.1.1.1),
            ),
          ),
        ))
body-IsLetter (x ∷ y ∷ []) o =
    let v = (x * 256 + y) * 4 in
    rw (block2_eq x y o.1.0) (
      rw (mask6 (v / 64), mask6 v)
        (
          letter-IsLetter (v / 64 / 64) (omega (arith, o.0, o.1.0)),
          (
            letter-IsLetter (v / 64 % 64) (omega arith),
            (letter-IsLetter (v % 64) (omega arith), tt),
          ),
        ))
body-IsLetter (x ∷ []) o =
    let v = x * 16 in
    rw (mask6 v)
      (letter-IsLetter (v / 64) (omega (arith, o.0)), (letter-IsLetter (v % 64) (omega arith), tt))
body-IsLetter [] o = tt

all_letters-take :
    (m : ℕ) (xs ps : List ℕ)
    → All IsLetter xs
    → m ≤ length xs
    → all_letters (take m (xs ++ ps)) ≡ true
unfolding all_letters IsLetter
all_letters-take zero xs ps o h = refl
all_letters-take (suc m) [] ps o h = absurd (omega arith)
all_letters-take (suc m) (x ∷ xs) ps o h = rw o.0 (all_letters-take m xs ps o.1 (omega arith))

length-from_octets : (os : List ℕ) → length (from_octets os) % 4 ≡ 0
unfolding from_octets
length-from_octets (x ∷ y ∷ z ∷ os) = omega (arith, length-from_octets os)
length-from_octets (x ∷ y ∷ []) = refl
length-from_octets (x ∷ []) = refl
length-from_octets [] = refl

-- The bits of the last letter that no octet fills are zero.
last_bits :
    (os : List ℕ)
    → AreOctets os
    → let n = length (body os) in
      let last = lookup (get_or (body os) (n - 1) 0) in
      (n % 4 ≡ 3 → last % 4 ≡ 0) × (n % 4 ≡ 2 → last % 16 ≡ 0) × (n % 4 ≡ 1 → ⊥)
unfolding body
last_bits (x ∷ y ∷ z ∷ os) o = elim (Bool-cases (length (body os) == 0)) [
  | inl empty ↦
      let none : length (body os) ≡ 0 = ground arith in
      rw none
        (λ h. absurd (omega (arith, h)), λ h. absurd (omega (arith, h)), λ h. omega (arith, h))
  | inr some ↦
      let n = length (body os) in
      let at : suc (suc (suc (suc n))) - 1 ≡ suc (suc (suc (suc (n - 1)))) = ground arith in
      let rest = last_bits os o.1.1.1 in
      rw at (
        λ h. rest.0 (omega (arith, h)),
        λ h. rest.1 (omega (arith, h)),
        λ h. rest.2 (omega (arith, h)),
      )
]
last_bits (x ∷ y ∷ []) o =
    let v = (x * 256 + y) * 4 in
    rw (block2_eq x y o.1.0) (
      rw (mask6 v) (
        rw ((letter_lem (v % 64) (omega arith)).0)
          (λ h. omega arith, λ h. absurd (omega (arith, h)), λ h. omega (arith, h))))
last_bits (x ∷ []) o =
    let v = x * 16 in
    rw (mask6 v) (
      rw ((letter_lem (v % 64) (omega arith)).0)
        (λ h. absurd (omega (arith, h)), λ h. omega arith, λ h. omega (arith, h)))
last_bits [] o =
    (λ h. absurd (omega (arith, h)), λ h. absurd (omega (arith, h)), λ h. omega (arith, h))

zero_test : {n : ℕ} → n ≡ 0 → (n != 0) ≡ false
zero_test h = ground (arith, h)

-- For octets `b64IsValid` accepts the string that `b64From` writes.
pub is_valid-from_octets : (os : List ℕ) → AreOctets os → is_valid (from_octets os) ≡ true
unfolding is_valid
is_valid-from_octets os o =
    let n = length (body os) in
    let size = unpadded-from_octets os o in
    let quads : (length (from_octets os) % 4 != 0) ≡ false =
      ground (arith, length-from_octets os) in
    let split = from_octets-split os in
    let letters = λ (m : ℕ) (h : m ≤ n).
      ap (λ t. all_letters (take m t)) split
      ∙ all_letters-take m (body os) (padding os) (body-IsLetter os o) h in
    let last = λ (h : n - 1 < n).
      ap (λ t. get_or t (n - 1) 0) split ∙ get_or-append_left (body os) (padding os) (n - 1) 0 h in
    let bits = last_bits os o in
    rw (quads, size)
      (elim (Bool-cases (n % 4 == 3)) [
        | inl three_left ↦
            let test : (bit_and (lookup (get_or (from_octets os) (n - 1) 0)) 3 != 0) ≡ false =
              rw (last (ground arith)) (
                rw (bit_and_mask 2 (lookup (get_or (body os) (n - 1) 0)) 3 refl)
                  (zero_test (bits.0 (ground arith)))) in
            rw (three_left, test) (letters (n - 1) (omega arith))
        | inr other ↦ rw other (elim (Bool-cases (n % 4 == 2)) [
          | inl two_left ↦
              let test : (bit_and (lookup (get_or (from_octets os) (n - 1) 0)) 15 != 0) ≡ false =
                rw (last (ground arith)) (
                  rw (bit_and_mask 4 (lookup (get_or (body os) (n - 1) 0)) 15 refl)
                    (zero_test (bits.1 (ground arith)))) in
              rw (two_left, test) (letters (n - 1) (omega arith))
          | inr full ↦ rw full (letters n (omega arith))
        ])
      ])
