-- ===== src/Mem/Buffers/Checks.antt =====
-- `memEq`, `memIsZero`, `memIsRep` and `memNonZeroSize`, regular and fast, and the fast `memCmpRev`.
use bee.Common.{
  ℕ, zero, suc, ◌+◌, ◌-◌, ◌*◌, ◌^◌, ◌≤◌, ◌<◌, ◌≡◌, ◌≢◌, ◌⊎◌, inl, inr, ◌↔◌, refl, sym, ap, ap₂, ◌∙◌,
  true, false, Bool-cases, List, [], ◌∷◌, length, drop, drop-get_or, drop_all, get_or, get_or-lt,
  replicate, AreOctets, arith, bit_or, bit_xor, ltb, ◌!=◌, ==_iff, octets_eq, octets_eq_iff,
}
use bee.Common.BitLaws.{bit_or-eq-zero, bit_xor-eq-zero}
use bee.Mem.Buffers.{
  eq_diff, eq, zero_diff, is_zero, is_zero_fast, non_zero_size_from, non_zero_size, rep_diff,
  is_rep, is_rep_fast, cmp_rev_fast_from, cmp_rev_fast,
}
use bee.Mem.Buffers.Order.{order, three_ways, order_add, order_below, order_above}
use native.Mathlib.Nat.{pow-suc, mul-le-mul_right}

eq_diff-eq-zero :
    (xs ys : List ℕ) (diff : ℕ)
    → length xs ≡ length ys
    → (eq_diff diff xs ys ≡ 0) ↔ ((diff ≡ 0) × (xs ≡ ys))
unfolding eq_diff
eq_diff-eq-zero [] [] diff e = (λ h. (h, refl), λ h. h.0)
eq_diff-eq-zero [] (y ∷ ys) diff e = absurd (omega arith)
eq_diff-eq-zero (x ∷ xs) [] diff e = absurd (omega arith)
eq_diff-eq-zero (x ∷ xs) (y ∷ ys) diff e = ground (
  arith,
  bit_or-eq-zero diff (bit_xor x y),
  bit_xor-eq-zero x y,
  eq_diff-eq-zero xs ys (bit_or diff (bit_xor x y)) (omega arith),
)

-- `memEq`, regular and fast, answers whether two buffers of one length are equal.
pub eq_iff :
    (xs ys : List ℕ)
    → length xs ≡ length ys
    → ((eq xs ys ≡ true) ↔ (xs ≡ ys)) × ((octets_eq xs ys ≡ true) ↔ (xs ≡ ys))
unfolding eq
eq_iff xs ys e =
    (ground (arith, ==_iff (eq_diff 0 xs ys) 0, eq_diff-eq-zero xs ys 0 e), octets_eq_iff xs ys)

rep_diff-eq-zero :
    (xs : List ℕ) (o diff : ℕ)
    → (rep_diff diff xs o ≡ 0) ↔ ((diff ≡ 0) × (xs ≡ replicate (length xs) o))
unfolding rep_diff
rep_diff-eq-zero [] o diff = (λ h. (h, refl), λ h. h.0)
rep_diff-eq-zero (x ∷ xs) o diff = ground (
  arith,
  bit_or-eq-zero diff (bit_xor x o),
  bit_xor-eq-zero x o,
  rep_diff-eq-zero xs o (bit_or diff (bit_xor x o)),
)

is_rep_fast_iff : (xs : List ℕ) (o : ℕ) → (is_rep_fast xs o ≡ true) ↔ (xs ≡ replicate (length xs) o)
unfolding is_rep_fast
is_rep_fast_iff [] o = (λ h. refl, λ h. refl)
is_rep_fast_iff (x ∷ xs) o = ground (arith, is_rep_fast_iff xs o)

-- `memIsRep`, regular and fast, answers whether the buffer repeats the octet.
pub is_rep_iff :
    (xs : List ℕ) (o : ℕ)
    → ((is_rep xs o ≡ true) ↔ (xs ≡ replicate (length xs) o))
      × ((is_rep_fast xs o ≡ true) ↔ (xs ≡ replicate (length xs) o))
unfolding is_rep
is_rep_iff xs o =
    (ground (arith, ==_iff (rep_diff 0 xs o) 0, rep_diff-eq-zero xs o 0), is_rep_fast_iff xs o)

zero_diff-eq-zero :
    (xs : List ℕ) (diff : ℕ)
    → (zero_diff diff xs ≡ 0) ↔ ((diff ≡ 0) × (xs ≡ replicate (length xs) 0))
unfolding zero_diff
zero_diff-eq-zero [] diff = (λ h. (h, refl), λ h. h.0)
zero_diff-eq-zero (x ∷ xs) diff =
    ground (arith, bit_or-eq-zero diff x, zero_diff-eq-zero xs (bit_or diff x))

is_zero_fast_iff : (xs : List ℕ) → (is_zero_fast xs ≡ true) ↔ (xs ≡ replicate (length xs) 0)
unfolding is_zero_fast
is_zero_fast_iff [] = (λ h. refl, λ h. refl)
is_zero_fast_iff (x ∷ xs) = ground (arith, is_zero_fast_iff xs)

-- `memIsZero`, regular and fast, answers whether the buffer is zeros.
pub is_zero_iff :
    (xs : List ℕ)
    → ((is_zero xs ≡ true) ↔ (xs ≡ replicate (length xs) 0))
      × ((is_zero_fast xs ≡ true) ↔ (xs ≡ replicate (length xs) 0))
unfolding is_zero
is_zero_iff xs =
    (ground (arith, ==_iff (zero_diff 0 xs) 0, zero_diff-eq-zero xs 0), is_zero_fast_iff xs)

non_zero_size_from_lem :
    (xs : List ℕ) (count gap : ℕ)
    → count + gap ≡ length xs
    → let n = non_zero_size_from xs count in
      (n ≤ count)
      × ((n ≡ 0) ⊎ (get_or xs (n - 1) 0 ≢ 0))
      × (drop count xs ≡ replicate gap 0 → drop n xs ≡ replicate (length xs - n) 0)
unfolding non_zero_size_from
non_zero_size_from_lem xs zero gap e =
    let size : length xs - 0 ≡ gap = omega arith in (omega arith, inl refl, λ h. rw size h)
non_zero_size_from_lem xs (suc count) gap e = elim (Bool-cases (get_or xs count 0 != 0)) [
  | inl some ↦
      let last : suc count - 1 ≡ count = omega arith in
      let size : length xs - suc count ≡ gap = omega arith in
      rw some (omega arith, inr (rw last (ground arith)), λ h. rw size h)
  | inr none ↦
      let z : get_or xs count 0 ≡ 0 = ground arith in
      let rest = non_zero_size_from_lem xs count (suc gap) (omega arith) in
      rw none (
        omega (arith, rest.0),
        rest.1,
        λ h. rest.2 (drop-get_or count xs 0 (omega arith) ∙ ap₂ ◌∷◌ z h),
      )
]

-- `memNonZeroSize` is at most the length of the buffer; the octet in front of it is not zero, and those
-- behind it are.
pub non_zero_size_lem :
    (xs : List ℕ)
    → let n = non_zero_size xs in
      (n ≤ length xs)
      × ((n ≡ 0) ⊎ (get_or xs (n - 1) 0 ≢ 0))
      × (drop n xs ≡ replicate (length xs - n) 0)
unfolding non_zero_size
non_zero_size_lem xs =
    let all = non_zero_size_from_lem xs (length xs) 0 (omega arith) in
    (all.0, all.1, all.2 (drop_all (length xs) xs (omega arith)))

-- The number of the first `count` octets, the first one being the lowest.
unfoldable pub le_value : List ℕ → ℕ → ℕ
le_value xs zero = 0
le_value xs (suc count) = get_or xs count 0 * 256 ^ count + le_value xs count

pub le_value-lt : (xs : List ℕ) (count : ℕ) → AreOctets xs → le_value xs count < 256 ^ count
unfolding le_value
le_value-lt xs zero o = omega arith
le_value-lt xs (suc count) o = omega (
  arith,
  le_value-lt xs count o,
  mul-le-mul_right (256 ^ count) (get_or-lt xs count o),
  pow-suc 256 count,
)

cmp_rev_fast_from_lem :
    (xs ys : List ℕ) (count : ℕ)
    → AreOctets xs
    → AreOctets ys
    → cmp_rev_fast_from xs ys count ≡ order (le_value xs count) (le_value ys count)
unfolding cmp_rev_fast_from le_value
cmp_rev_fast_from_lem xs ys zero ox oy = unfold order in refl
cmp_rev_fast_from_lem xs ys (suc count) ox oy =
    let x = get_or xs count 0 in
    let y = get_or ys count 0 in
    let p = 256 ^ count in
    let hx = le_value-lt xs count ox in
    let hy = le_value-lt ys count oy in
    elim (three_ways x y) [
      | inl lt ↦
          let a : ltb y x ≡ false = ground arith in
          let b : ltb x y ≡ true = ground arith in
          rw (a, b) (sym (order_below _ _ (omega (arith, mul-le-mul_right p lt, hx, hy))))
      | inr (inl eq) ↦
          let a : ltb y x ≡ false = ground arith in
          let b : ltb x y ≡ false = ground arith in
          rw (a, b)
            (cmp_rev_fast_from_lem xs ys count ox oy
              ∙ sym (order_add (x * p) (le_value xs count) (le_value ys count))
              ∙ ap (λ t. order (x * p + le_value xs count) (t * p + le_value ys count)) eq)
      | inr (inr gt) ↦
          let a : ltb y x ≡ true = ground arith in
          rw a (sym (order_above _ _ (omega (arith, mul-le-mul_right p gt, hx, hy))))
    ]

-- The fast `memCmpRev` on buffers of one length: the order of the numbers that the buffers stand for, the
-- first octet being the lowest.
pub cmp_rev_fast_lem :
    (xs ys : List ℕ)
    → AreOctets xs
    → AreOctets ys
    → length xs ≡ length ys
    → cmp_rev_fast xs ys ≡ order (le_value xs (length xs)) (le_value ys (length ys))
unfolding cmp_rev_fast
cmp_rev_fast_lem xs ys ox oy e =
    cmp_rev_fast_from_lem xs ys (length xs) ox oy
    ∙ ap (λ n. order (le_value xs (length xs)) (le_value ys n)) e
