-- ===== src/Der/Bits/Strings.antt =====
-- The bits of a string: which of them the encoder keeps.
use bee.Common.{
  ℕ, zero, suc, ◌+◌, ◌-◌, ◌*◌, ◌/◌, ◌%◌, ◌^◌, ◌<◌, ◌≤◌, ◌≡◌, ◌≢◌, ◌⊎◌, inl, inr, refl, sym, ap, ◌∙◌,
  List, [], ◌∷◌, length, get_or, take, take_all, ◌!=◌, Bool-cases, AreOctets, arith,
}
use bee.Common.Powers.{pow_add, pow_pos}
use bee.Der.Bits.{clear_at, bit_string}
use mathlib.Core.Path.{subst}
use native.Mathlib.Nat.{
  div-div-eq-div-mul, mul-div_cancel, mod-eq_of_lt, div-eq_of_lt, pow-suc, mod-add-div,
}

-- Bit `i` of a string, from the highest bit of its first octet on; behind the octets there are zeros.
abbrev pub bit_at : List ℕ → ℕ → ℕ
bit_at os i = get_or os (i / 8) 0 / 2 ^ (7 - i % 8) % 2

-- Octets in the place of those of a string of `len` bits: its bits, and zeros behind them.
pub record IsString (val : List ℕ) (len : ℕ) (os : List ℕ) : Type 0 where
  pub are_octets : AreOctets os
  pub size : length os ≡ length val
  pub kept : (i : ℕ) → i < len → bit_at os i ≡ bit_at val i
  pub cleared : (i : ℕ) → len ≤ i → bit_at os i ≡ 0

-- An octet of which the lowest `k` bits are cleared keeps those above and has zeros there.
cleared_above : (k d x : ℕ) → x / 2 ^ k * 2 ^ k / 2 ^ (k + d) ≡ x / 2 ^ (k + d)
cleared_above k d x =
    let e : 2 ^ (k + d) ≡ 2 ^ k * 2 ^ d = pow_add 2 k d in
    let once : x / 2 ^ k * 2 ^ k / 2 ^ k ≡ x / 2 ^ k =
      mul-div_cancel (x / 2 ^ k) (pow_pos 2 k (omega arith)) in
    rw e (
      sym (div-div-eq-div-mul (x / 2 ^ k * 2 ^ k) (2 ^ k) (2 ^ d))
      ∙ ap (λ (t : ℕ). t / 2 ^ d) once
      ∙ div-div-eq-div-mul x (2 ^ k) (2 ^ d))

cleared_below : (j d x : ℕ) → x / 2 ^ (suc d + j) * 2 ^ (suc d + j) / 2 ^ j % 2 ≡ 0
cleared_below j d x =
    let q = x / 2 ^ (suc d + j) in
    let e : 2 ^ (suc d + j) ≡ 2 ^ suc d * 2 ^ j = pow_add 2 (suc d) j in
    let parts : q * 2 ^ (suc d + j) ≡ q * 2 ^ suc d * 2 ^ j =
      omega (arith, ap (λ (t : ℕ). q * t) e) in
    let once : q * 2 ^ suc d * 2 ^ j / 2 ^ j ≡ q * 2 ^ suc d =
      mul-div_cancel (q * 2 ^ suc d) (pow_pos 2 j (omega arith)) in
    let even : q * 2 ^ suc d ≡ 2 * (q * 2 ^ d) =
      omega (arith, ap (λ (t : ℕ). q * t) (pow-suc 2 d)) in
    ap (λ (t : ℕ). t / 2 ^ j % 2) parts ∙ ap (λ (t : ℕ). t % 2) (once ∙ even) ∙ omega arith

get_or-octet : (xs : List ℕ) (i : ℕ) → AreOctets xs → get_or xs i 0 < 256
get_or-octet [] i o = omega arith
get_or-octet (x ∷ xs) zero o = o.0
get_or-octet (x ∷ xs) (suc i) o = get_or-octet xs i o.1

get_or_behind : (xs : List ℕ) (i : ℕ) → length xs ≤ i → get_or xs i 0 ≡ 0
get_or_behind [] i h = refl
get_or_behind (x ∷ xs) zero h = absurd (omega (arith, h))
get_or_behind (x ∷ xs) (suc i) h = get_or_behind xs i (omega (arith, h))

cleared_small : (x k : ℕ) → x < 256 → x / 2 ^ k * 2 ^ k % 256 ≡ x / 2 ^ k * 2 ^ k
cleared_small x k h = mod-eq_of_lt (omega (arith, mod-add-div x (2 ^ k), h))

-- What `clear_at` leaves.
clear_at-AreOctets : (i k : ℕ) (xs : List ℕ) → AreOctets xs → AreOctets (clear_at i k xs)
unfolding clear_at
clear_at-AreOctets i k [] o = tt
clear_at-AreOctets zero k (x ∷ xs) o = (omega arith, o.1)
clear_at-AreOctets (suc i) k (x ∷ xs) o = (o.0, clear_at-AreOctets i k xs o.1)

pub length-clear_at : (i k : ℕ) (xs : List ℕ) → length (clear_at i k xs) ≡ length xs
unfolding clear_at
length-clear_at i k [] = refl
length-clear_at zero k (x ∷ xs) = refl
length-clear_at (suc i) k (x ∷ xs) = ap suc (length-clear_at i k xs)

get_or-clear_at :
    (i k : ℕ) (xs : List ℕ)
    → AreOctets xs
    → get_or (clear_at i k xs) i 0 ≡ get_or xs i 0 / 2 ^ k * 2 ^ k
unfolding clear_at
get_or-clear_at i k [] o =
    let none : 0 / 2 ^ k ≡ 0 = div-eq_of_lt (pow_pos 2 k (omega arith)) in
    omega (arith, ap (λ (t : ℕ). t * 2 ^ k) none)
get_or-clear_at zero k (x ∷ xs) o = cleared_small x k o.0
get_or-clear_at (suc i) k (x ∷ xs) o = get_or-clear_at i k xs o.1

get_or-clear_at_other :
    (i k m : ℕ) (xs : List ℕ) → m ≢ i → get_or (clear_at i k xs) m 0 ≡ get_or xs m 0
unfolding clear_at
get_or-clear_at_other i k m [] h = refl
get_or-clear_at_other zero k zero (x ∷ xs) h = absurd (h refl)
get_or-clear_at_other zero k (suc m) (x ∷ xs) h = refl
get_or-clear_at_other (suc i) k zero (x ∷ xs) h = refl
get_or-clear_at_other (suc i) k (suc m) (x ∷ xs) h =
    get_or-clear_at_other i k m xs (λ e. h (ap suc e))

same_or_not : (m n : ℕ) → (m ≡ n) ⊎ (m ≢ n)
same_or_not m n = omega arith

-- Behind the octets there are no bits.
bit_at_behind : (os : List ℕ) (i : ℕ) → length os ≤ i / 8 → bit_at os i ≡ 0
bit_at_behind os i h =
    let j = 7 - i % 8 in
    let none : 0 / 2 ^ j ≡ 0 = div-eq_of_lt (pow_pos 2 j (omega arith)) in
    ap (λ (t : ℕ). t / 2 ^ j % 2) (get_or_behind os (i / 8) h) ∙ ap (λ (t : ℕ). t % 2) none

-- A string that ends inside an octet.
module _ (val : List ℕ) (len : ℕ) (o : AreOctets val) (part : len % 8 ≢ 0) where
  ended : List ℕ
  ended = clear_at (len / 8) (8 - len % 8) val

  last_octet :
      (i : ℕ)
      → i / 8 ≡ len / 8
      → get_or ended (i / 8) 0 ≡ get_or val (i / 8) 0 / 2 ^ (8 - len % 8) * 2 ^ (8 - len % 8)
  unfolding ended
  last_octet i e = rw e (get_or-clear_at (len / 8) (8 - len % 8) val o)

  ended-kept : (i : ℕ) → i < len → bit_at ended i ≡ bit_at val i
  ended-kept i h = elim (same_or_not (i / 8) (len / 8)) [
    | inl e ↦
        let j = 7 - i % 8 in
        let k = 8 - len % 8 in
        let x = get_or val (i / 8) 0 in
        let deep : j ≡ k + (j - k) = omega (arith, e, h, part) in
        let above : x / 2 ^ k * 2 ^ k / 2 ^ j ≡ x / 2 ^ j =
          subst (λ (t : ℕ). x / 2 ^ k * 2 ^ k / 2 ^ t ≡ x / 2 ^ t) (sym deep)
            (cleared_above k (j - k) x) in
        ap (λ (t : ℕ). t / 2 ^ j % 2) (last_octet i e) ∙ ap (λ (t : ℕ). t % 2) above
    | inr other ↦
        ap (λ (t : ℕ). t / 2 ^ (7 - i % 8) % 2)
          (unfold ended in get_or-clear_at_other (len / 8) (8 - len % 8) (i / 8) val other)
  ]

  ended-cleared : (i : ℕ) → length val ≡ len / 8 + 1 → len ≤ i → bit_at ended i ≡ 0
  ended-cleared i size h = elim (same_or_not (i / 8) (len / 8)) [
    | inl e ↦
        let j = 7 - i % 8 in
        let k = 8 - len % 8 in
        let d = k - j - 1 in
        let x = get_or val (i / 8) 0 in
        let deep : k ≡ suc d + j = omega (arith, e, h, part) in
        let below : x / 2 ^ k * 2 ^ k / 2 ^ j % 2 ≡ 0 =
          subst (λ (t : ℕ). x / 2 ^ t * 2 ^ t / 2 ^ j % 2 ≡ 0) (sym deep) (cleared_below j d x) in
        ap (λ (t : ℕ). t / 2 ^ j % 2) (last_octet i e) ∙ below
    | inr other ↦
        let total : length ended ≡ length val =
          unfold ended in length-clear_at (len / 8) (8 - len % 8) val in
        bit_at_behind ended i (omega (arith, total, size, h, other))
  ]

  ended-IsString : length val ≡ len / 8 + 1 → IsString val len ended
  ended-IsString size = record {
    are_octets = unfold ended in clear_at-AreOctets (len / 8) (8 - len % 8) val o;
    size = unfold ended in length-clear_at (len / 8) (8 - len % 8) val;
    kept = ended-kept;
    cleared = λ i h. ended-cleared i size h;
  }

-- The octets that the encoder writes are those of the string.
pub bit_string-IsString :
    (val : List ℕ) (len : ℕ)
    → AreOctets val
    → len < 2 ^ 64 - 256
    → length val ≡ (len + 7) / 8
    → IsString val len (bit_string val len)
unfolding bit_string ended
bit_string-IsString val len o small holds =
    let all : take ((len + 7) % 2 ^ 64 / 8) val ≡ val =
      take_all ((len + 7) % 2 ^ 64 / 8) val (omega (arith, small, holds)) in
    elim (Bool-cases (len % 8 != 0)) [
      | inl part ↦
          let rest : len % 8 ≢ 0 = ground arith in
          rw (part, all) (ended-IsString val len o rest (omega (arith, holds, rest)))
      | inr whole ↦
          let none : len % 8 ≡ 0 = ground arith in
          rw (whole, all)
            (record {
              are_octets = o;
              size = refl;
              kept = λ i h. refl;
              cleared = λ i h. bit_at_behind val i (omega (arith, holds, none, h));
            })
    ]
