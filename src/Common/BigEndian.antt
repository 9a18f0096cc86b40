-- ===== src/Common/BigEndian.antt =====
-- Numbers as octets, the most significant first, as the loops of src/core/der.c write and read them.
use Prim.Native.Nat.{ℕ, zero, suc, ◌+◌, ◌*◌, ◌/◌, ◌%◌, ◌^◌, ◌<◌, ◌≤◌}
use mathlib.Core.Path.{◌≡◌, refl, ap, ◌∙◌}
use mathlib.Core.Logic.{◌≢◌, inl, inr}
use mathlib.Core.List.{List, [], ◌∷◌, ◌++◌, append-nil, append_assoc}
use native.Mathlib.Omega.{arith}
use native.Mathlib.Nat.{one-le-pow, pow-suc, mul-le-mul_right}
use bee.Common.Lists.{length, get_or, get_or-append_left, length-append}
use bee.Common.Bytes.{AreOctets, append-AreOctets}
use bee.Common.Tests.{Bool-cases, ◌==◌, if◌then◌else◌}

-- `for (; r; buf[r--] = (octet)n, n >>= 8);`: the last `r` octets of `n`.
unfoldable pub be_octets : ℕ → ℕ → List ℕ
be_octets zero n = []
be_octets (suc r) n = be_octets r (n / 256) ++ ((n % 256) ∷ [])

-- `for (...) n <<= 8, n |= *buf++;` from the value `n`, with no bound on the width.
unfoldable pub be_value : ℕ → List ℕ → ℕ
be_value n [] = n
be_value n (o ∷ os) = be_value (n * 256 + o) os

-- `for (; n; n >>= 8, ++count);` with `fuel` rounds at most.
unfoldable pub octet_count : ℕ → ℕ → ℕ
octet_count zero n = 0
octet_count (suc fuel) n = let more = octet_count fuel (n / 256) in if n == 0 then 0 else suc more

pub length-be_octets : (r n : ℕ) → length (be_octets r n) ≡ r
unfolding be_octets
length-be_octets zero n = refl
length-be_octets (suc r) n =
    omega
      (arith, length-append (be_octets r (n / 256)) ((n % 256) ∷ []), length-be_octets r (n / 256))

pub be_octets-AreOctets : (r n : ℕ) → AreOctets (be_octets r n)
unfolding be_octets
be_octets-AreOctets zero n = tt
be_octets-AreOctets (suc r) n =
    append-AreOctets (be_octets r (n / 256)) ((n % 256) ∷ []) (be_octets-AreOctets r (n / 256))
      (omega arith)

pub be_value-append : (n : ℕ) (xs ys : List ℕ) → be_value n (xs ++ ys) ≡ be_value (be_value n xs) ys
unfolding be_value
be_value-append n [] ys = refl
be_value-append n (x ∷ xs) ys = be_value-append (n * 256 + x) xs ys

-- Reading what was written gives the number back, if it fits the octets.
pub be_value-be_octets : (r n : ℕ) → n < 256 ^ r → be_value 0 (be_octets r n) ≡ n
unfolding be_value be_octets
be_value-be_octets zero n h = omega arith
be_value-be_octets (suc r) n h =
    rw
      (
        be_value-append 0 (be_octets r (n / 256)) ((n % 256) ∷ []),
        be_value-be_octets r (n / 256) (omega (arith, pow-suc 256 r)),
      )
      (omega arith)

pub be_value-lt : (xs : List ℕ) (n : ℕ) → AreOctets xs → be_value n xs < (n + 1) * 256 ^ length xs
unfolding be_value
be_value-lt [] n o = omega arith
be_value-lt (x ∷ xs) n o =
    let room : n * 256 + x + 1 ≤ (n + 1) * 256 = omega arith in
    omega (
      arith,
      be_value-lt xs (n * 256 + x) o.1,
      mul-le-mul_right (256 ^ length xs) room,
      ap (λ (t : ℕ). (n + 1) * t) (pow-suc 256 (length xs)),
    )

be_octets-be_value_from :
    (xs : List ℕ) (k m n : ℕ)
    → AreOctets xs
    → m ≡ k + length xs
    → be_octets m (be_value n xs) ≡ be_octets k n ++ xs
unfolding be_value
be_octets-be_value_from [] k m n o e = let e' : m ≡ k = omega arith in rw (e', append-nil)
be_octets-be_value_from (x ∷ xs) k m n o e =
    be_octets-be_value_from xs (suc k) m (n * 256 + x) o.1 (omega arith) ∙ back
  where
    quotient : (n * 256 + x) / 256 ≡ n
    quotient = let h = o.0 in omega arith

    remainder : (n * 256 + x) % 256 ≡ x
    remainder = let h = o.0 in omega arith

    back : be_octets (suc k) (n * 256 + x) ++ xs ≡ be_octets k n ++ (x ∷ xs)
    back = unfold be_octets in rw (quotient, remainder, append_assoc)

-- Writing what was read gives the octets back.
pub be_octets-be_value : (xs : List ℕ) → AreOctets xs → be_octets (length xs) (be_value 0 xs) ≡ xs
unfolding be_octets
be_octets-be_value xs o = be_octets-be_value_from xs 0 (length xs) 0 o (omega arith)

-- The count of octets is the least that holds the number.
pub octet_count_bounds :
    (fuel n : ℕ) → n < 256 ^ fuel → (n < 256 ^ octet_count fuel n) × (octet_count fuel n ≤ fuel)
unfolding octet_count
octet_count_bounds zero n h = omega arith
octet_count_bounds (suc fuel) n h = ground (
  arith,
  octet_count_bounds fuel (n / 256),
  pow-suc 256 fuel,
  pow-suc 256 (octet_count fuel (n / 256)),
)

pub octet_count-zero : (fuel : ℕ) → octet_count fuel 0 ≡ 0
unfolding octet_count
octet_count-zero zero = refl
octet_count-zero (suc fuel) = refl

pub octet_count_unique :
    (fuel n r : ℕ) → 256 ^ r ≤ n → n < 256 ^ suc r → r < fuel → octet_count fuel n ≡ suc r
unfolding octet_count
octet_count_unique zero n r lo hi h = absurd (omega arith)
octet_count_unique (suc fuel) n zero lo hi h =
    let small : n / 256 ≡ 0 = omega arith in ground (arith, octet_count-zero fuel)
octet_count_unique (suc fuel) n (suc r) lo hi h = ground (
  arith,
  octet_count_unique fuel (n / 256) r (omega (arith, pow-suc 256 r))
      (omega (arith, pow-suc 256 (suc r))),
  pow-suc 256 r,
  one-le-pow r 256,
)

pub be_value-ge : (xs : List ℕ) (n : ℕ) → n * 256 ^ length xs ≤ be_value n xs
unfolding be_value
be_value-ge [] n = omega arith
be_value-ge (x ∷ xs) n =
    let room : n * 256 ≤ n * 256 + x = omega arith in
    omega (
      arith,
      be_value-ge xs (n * 256 + x),
      mul-le-mul_right (256 ^ length xs) room,
      ap (λ (t : ℕ). n * t) (pow-suc 256 (length xs)),
    )

pub octet_count_pos : (fuel n : ℕ) → 0 < n → n < 256 ^ fuel → 0 < octet_count fuel n
unfolding octet_count
octet_count_pos zero n p h = absurd (omega arith)
octet_count_pos (suc fuel) n p h = ground arith

-- The code of a number has no leading zero octet.
pub be_octets_head :
    (fuel n : ℕ) → 0 < n → n < 256 ^ fuel → get_or (be_octets (octet_count fuel n) n) 0 0 ≢ 0
unfolding octet_count be_octets
be_octets_head zero n p h = absurd (omega arith)
be_octets_head (suc fuel) n p h = elim (Bool-cases (n / 256 == 0)) [
  | inl small ↦ let e : n / 256 ≡ 0 = ground arith in ground (arith, octet_count-zero fuel)
  | inr more ↦
      let fits : n / 256 < 256 ^ fuel = omega (arith, pow-suc 256 fuel) in
      ground (
        arith,
        be_octets_head fuel (n / 256) (ground arith) fits,
        octet_count_pos fuel (n / 256) (ground arith) fits,
        length-be_octets (octet_count fuel (n / 256)) (n / 256),
        get_or-append_left (be_octets (octet_count fuel (n / 256)) (n / 256)) ((n % 256) ∷ []) 0 0,
      )
]

-- Octets with a first that is not zero.
module _ (x : ℕ) (os : List ℕ) (pos : 0 < x) where
  pub be_value-head : be_value 0 (x ∷ os) ≡ be_value x os
  unfolding be_value
  be_value-head = ap (λ n. be_value n os) (omega arith)

  pub value-ge : 256 ^ length os ≤ be_value 0 (x ∷ os)
  value-ge = omega (arith, be_value-head, be_value-ge os x, mul-le-mul_right (256 ^ length os) pos)

  pub octet_count-be_value :
      (fuel : ℕ)
      → AreOctets (x ∷ os)
      → length os < fuel
      → octet_count fuel (be_value 0 (x ∷ os)) ≡ suc (length os)
  octet_count-be_value fuel o h =
      octet_count_unique fuel (be_value 0 (x ∷ os)) (length os) value-ge
        (omega (arith, be_value-lt (x ∷ os) 0 o)) h
