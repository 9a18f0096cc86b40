-- ===== src/B64/RoundTrip.antt =====
-- `b64From` and `b64To`: the octets come back.
use bee.Common.{
  ℕ, zero, suc, ◌+◌, ◌-◌, ◌*◌, ◌/◌, ◌%◌, ◌<◌, ◌≡◌, ◌⊎◌, inl, inr, refl, ap, ◌∙◌, true, false, List,
  [], ◌∷◌, ◌++◌, append-nil, Bool-cases, length, length-append, take, take-append, get_or,
  get_or-append, get_or-append_left, All, AreOctets, arith, bit_and, ◌==◌, ◌!=◌,
}
use bee.Common.BitLaws.{bit_and_mask}
use bee.B64.{
  letter, pad, unpadded, from_octets, decode, to_octets, octet_count, block3, block2, block_of4,
  block_of3, block_of2,
}
use bee.B64.Blocks.{
  letter_lem, mask6, mask8, block3_eq, block2_eq, block_of4_eq, block_of3_eq, block_of2_eq,
}

-- The four letters of three octets are decoded.
four :
    (x y z : ℕ)
    → x < 256
    → y < 256
    → z < 256
    → let block = block3 x y z in
      let a = letter (block / 64 / 64 / 64) in
      let b = letter (bit_and (block / 64 / 64) 63) in
      let c = letter (bit_and (block / 64) 63) in
      let d = letter (bit_and block 63) in block_of4 a b c d ≡ (x * 256 + y) * 256 + z
four x y z hx hy hz =
    let v = (x * 256 + y) * 256 + z in
    rw (block3_eq x y z hy hz) (
      rw (mask6 (v / 64 / 64), mask6 (v / 64), mask6 v)
        (block_of4_eq _ _ _ _ (letter_lem (v / 64 / 64 / 64) (omega arith)).0
            (letter_lem (v / 64 / 64 % 64) (omega arith)).0 (omega arith) _ _
            (letter_lem (v / 64 % 64) (omega arith)).0 (omega arith) _ _
            (letter_lem (v % 64) (omega arith)).0 (omega arith)
          ∙ omega arith))

three :
    (x y : ℕ)
    → x < 256
    → y < 256
    → let block = block2 x y in
      let a = letter (block / 64 / 64) in
      let b = letter (bit_and (block / 64) 63) in
      let c = letter (bit_and block 63) in block_of3 a b c ≡ x * 256 + y
three x y hx hy =
    let v = (x * 256 + y) * 4 in
    rw (block2_eq x y hy) (
      rw (mask6 (v / 64), mask6 v)
        (block_of3_eq _ _ _ _ (letter_lem (v / 64 / 64) (omega arith)).0
            (letter_lem (v / 64 % 64) (omega arith)).0 (omega arith) _ _
            (letter_lem (v % 64) (omega arith)).0 (omega arith)
          ∙ omega arith))

two : (x : ℕ) → x < 256 → block_of2 (letter (x * 16 / 64)) (letter (bit_and (x * 16) 63)) ≡ x
two x hx =
    let v = x * 16 in
    rw (mask6 v) (
      block_of2_eq _ _ (v / 64) (v % 64) (letter_lem (v / 64) (omega arith)).0
        (letter_lem (v % 64) (omega arith)).0 (omega arith)
      ∙ omega arith)

-- The letters in front of the padding, and the padding.
unfoldable pub body : List ℕ → List ℕ
body (x ∷ y ∷ z ∷ src) =
    let block = block3 x y z in
    letter (block / 64 / 64 / 64)
    ∷ letter (bit_and (block / 64 / 64) 63)
    ∷ letter (bit_and (block / 64) 63)
    ∷ letter (bit_and block 63)
    ∷ body src
body (x ∷ y ∷ []) =
    let block = block2 x y in
    letter (block / 64 / 64) ∷ letter (bit_and (block / 64) 63) ∷ letter (bit_and block 63) ∷ []
body (x ∷ []) = letter (x * 16 / 64) ∷ letter (bit_and (x * 16) 63) ∷ []
body [] = []

pub padding : List ℕ → List ℕ
padding (x ∷ y ∷ z ∷ src) = padding src
padding (x ∷ y ∷ []) = pad ∷ []
padding (x ∷ []) = pad ∷ pad ∷ []
padding [] = []

pub from_octets-split : (os : List ℕ) → from_octets os ≡ body os ++ padding os
unfolding from_octets body padding
from_octets-split (x ∷ y ∷ z ∷ os) =
    let block = block3 x y z in
    ap
      (λ t.
        letter (block / 64 / 64 / 64)
        ∷ letter (bit_and (block / 64 / 64) 63)
        ∷ letter (bit_and (block / 64) 63)
        ∷ letter (bit_and block 63)
        ∷ t)
      (from_octets-split os)
from_octets-split (x ∷ y ∷ []) = refl
from_octets-split (x ∷ []) = refl
from_octets-split [] = refl

decode-body : (os : List ℕ) → AreOctets os → decode (body os) ≡ os
unfolding decode body
decode-body (x ∷ y ∷ z ∷ os) o =
    let v = (x * 256 + y) * 256 + z in
    let high : v / 256 / 256 % 256 ≡ x = omega (arith, o.0, o.1.0, o.1.1.0) in
    let middle : v / 256 % 256 ≡ y = omega (arith, o.0, o.1.0, o.1.1.0) in
    let low : v % 256 ≡ z = omega (arith, o.0, o.1.0, o.1.1.0) in
    rw (four x y z o.0 o.1.0 o.1.1.0) (
      rw (mask8 (v / 256), mask8 v)
        (rw (high, middle, low) (ap (λ t. x ∷ y ∷ z ∷ t) (decode-body os o.1.1.1))))
decode-body (x ∷ y ∷ []) o =
    let v = x * 256 + y in
    let high : v / 256 % 256 ≡ x = omega (arith, o.0, o.1.0) in
    let low : v % 256 ≡ y = omega (arith, o.0, o.1.0) in
    rw (three x y o.0 o.1.0) (rw (mask8 v) (rw (high, low) refl))
decode-body (x ∷ []) o = let low : x % 256 ≡ x = omega (arith, o.0) in rw (two x o.0) (rw low refl)
decode-body [] o = refl

NotPad : ℕ → Type 0
NotPad c = (c == pad) ≡ false

body-NotPad : (os : List ℕ) → AreOctets os → All NotPad (body os)
unfolding body NotPad
body-NotPad (x ∷ y ∷ z ∷ os) o =
    let v = (x * 256 + y) * 256 + z in
    rw (block3_eq x y z o.1.0 o.1.1.0) (
      rw (mask6 (v / 64 / 64), mask6 (v / 64), mask6 v)
        (
          (letter_lem (v / 64 / 64 / 64) (omega (arith, o.0, o.1.0, o.1.1.0))).1,
          (
            (letter_lem (v / 64 / 64 % 64) (omega arith)).1,
            (
              (letter_lem (v / 64 % 64) (omega arith)).1,
              ((letter_lem (v % 64) (omega arith)).1, body-NotPad os o.1.1.1),
            ),
          ),
        ))
body-NotPad (x ∷ y ∷ []) o =
    let v = (x * 256 + y) * 4 in
    rw (block2_eq x y o.1.0) (
      rw (mask6 (v / 64), mask6 v)
        (
          (letter_lem (v / 64 / 64) (omega (arith, o.0, o.1.0))).1,
          ((letter_lem (v / 64 % 64) (omega arith)).1, ((letter_lem (v % 64) (omega arith)).1, tt)),
        ))
body-NotPad (x ∷ []) o =
    let v = x * 16 in
    rw (mask6 v)
      ((letter_lem (v / 64) (omega (arith, o.0))).1, ((letter_lem (v % 64) (omega arith)).1, tt))
body-NotPad [] o = tt

NotPad-get_or :
    (xs : List ℕ) (i : ℕ) → All NotPad xs → i < length xs → (get_or xs i 0 == pad) ≡ false
unfolding NotPad
NotPad-get_or [] i o h = absurd (omega arith)
NotPad-get_or (x ∷ xs) zero o h = o.0
NotPad-get_or (x ∷ xs) (suc i) o h = NotPad-get_or xs i o.1 (omega arith)

-- The padding is found.
unpadded_none : (xs : List ℕ) → All NotPad xs → unpadded (xs ++ []) ≡ length xs
unfolding unpadded
unpadded_none xs o = rw (append-nil xs) (elim (Bool-cases (length xs == 0)) [
  | inl empty ↦ rw empty refl
  | inr some ↦
      let last = NotPad-get_or xs (length xs - 1) o (ground arith) in
      let test : (get_or xs (length xs - 1) 0 != pad) ≡ true = ground (arith, last) in
      rw (some, test) refl
])

unpadded_one :
    (xs : List ℕ) → 0 < length xs → All NotPad xs → unpadded (xs ++ (pad ∷ [])) ≡ length xs
unfolding unpadded
unpadded_one xs h o =
    let all = xs ++ (pad ∷ []) in
    let size : length all ≡ suc (length xs) = omega (arith, length-append xs (pad ∷ [])) in
    let last = get_or-append xs (pad ∷ []) (length all - 1) 0 0 (omega (arith, size)) in
    let inner = get_or-append_left xs (pad ∷ []) (length all - 2) 0 (omega (arith, size)) in
    let letter_before = NotPad-get_or xs (length all - 2) o (omega (arith, size)) in
    let t1 : (length all == 0) ≡ false = ground (arith, size) in
    let t2 : (get_or all (length all - 1) 0 != pad) ≡ false = ground (arith, last) in
    let t3 : (get_or all (length all - 2) 0 == pad) ≡ false =
      ap (λ t. t == pad) inner ∙ letter_before in
    rw (t1, t2, t3) (omega (arith, size))

unpadded_two : (xs : List ℕ) → All NotPad xs → unpadded (xs ++ (pad ∷ pad ∷ [])) ≡ length xs
unfolding unpadded
unpadded_two xs o =
    let ps = pad ∷ pad ∷ [] in
    let all = xs ++ ps in
    let size : length all ≡ suc (suc (length xs)) = omega (arith, length-append xs ps) in
    let last = get_or-append xs ps (length all - 1) 1 0 (omega (arith, size)) in
    let previous = get_or-append xs ps (length all - 2) 0 0 (omega (arith, size)) in
    let t1 : (length all == 0) ≡ false = ground (arith, size) in
    let t2 : (get_or all (length all - 1) 0 != pad) ≡ false = ground (arith, last) in
    let t3 : (get_or all (length all - 2) 0 == pad) ≡ true = ground (arith, previous) in
    rw (t1, t2, t3) (omega (arith, size))

padding-cases :
    (os : List ℕ)
    → (padding os ≡ [])
      ⊎ (((padding os ≡ pad ∷ []) × (0 < length (body os))) ⊎ (padding os ≡ pad ∷ pad ∷ []))
unfolding padding body
padding-cases (x ∷ y ∷ z ∷ os) = elim (padding-cases os) [
  | inl none_left ↦ inl none_left
  | inr (inl one_left) ↦ inr (inl (one_left.0, omega arith))
  | inr (inr two_left) ↦ inr (inr two_left)
]
padding-cases (x ∷ y ∷ []) = inr (inl (refl, omega arith))
padding-cases (x ∷ []) = inr (inr refl)
padding-cases [] = inl refl

pub unpadded-from_octets :
    (os : List ℕ) → AreOctets os → unpadded (from_octets os) ≡ length (body os)
unpadded-from_octets os o =
    let letters = body-NotPad os o in
    ap unpadded (from_octets-split os) ∙ elim (padding-cases os) [
      | inl none_left ↦
          ap (λ t. unpadded (body os ++ t)) none_left ∙ unpadded_none (body os) letters
      | inr (inl one_left) ↦
          ap (λ t. unpadded (body os ++ t)) one_left.0 ∙ unpadded_one (body os) one_left.1 letters
      | inr (inr two_left) ↦
          ap (λ t. unpadded (body os ++ t)) two_left ∙ unpadded_two (body os) letters
    ]

mask1 : (n : ℕ) → bit_and n 1 ≡ n % 2
mask1 n = bit_and_mask 1 n 1 refl

count-body : (os : List ℕ) → let n = length (body os) in 3 * (n / 4) + n % 2 + n / 2 % 2 ≡ length os
unfolding body
count-body (x ∷ y ∷ z ∷ os) = omega (arith, count-body os)
count-body (x ∷ y ∷ []) = refl
count-body (x ∷ []) = refl
count-body [] = refl

-- Every octet string is decoded by `b64To` from the string that `b64From` writes of it, and `b64To`
-- foretells its length.
pub to_octets-from_octets :
    (os : List ℕ)
    → AreOctets os
    → (to_octets (from_octets os) ≡ os) × (octet_count (from_octets os) ≡ length os)
unfolding to_octets octet_count
to_octets-from_octets os o =
    let n = length (body os) in
    let size = unpadded-from_octets os o in
    let front : take n (from_octets os) ≡ body os =
      ap (take n) (from_octets-split os) ∙ take-append (body os) (padding os) in
    (
      ap (λ k. decode (take k (from_octets os))) size ∙ ap decode front ∙ decode-body os o,
      rw size (rw (mask1 n, mask1 (n / 2)) (count-body os)),
    )
