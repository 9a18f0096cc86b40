-- ===== src/Oid.antt =====
-- Object identifiers, src/core/oid.c: `oidIsValid` on the codes of the characters in front of the zero at
-- the end.
use bee.Common.{
  ℕ, suc, ◌+◌, ◌-◌, ◌*◌, ◌/◌, ◌%◌, ◌^◌, ◌≤◌, ◌<◌, ◌≡◌, ◌⊎◌, Bool, true, Bool-cases, inl, inr, ◌&&◌,
  ◌||◌, not, List, [], ◌∷◌, All, arith, ltb, leb, ◌==◌, if◌then◌else◌,
}

abbrev u32_max : ℕ
u32_max = 2 ^ 32 - 1

-- The number `val` of `pos` digits may end here, as number `n` of the identifier; `d1` is the first number.
pub number_ends : ℕ → ℕ → ℕ → ℕ → Bool
number_ends val d1 pos n = not (
    (pos == 0)
    || (((n == 0) && ltb 2 val)
        || (((n == 1) && (ltb d1 2 && leb 40 val)) || ((n == 1) && ltb (u32_max - 40 * d1) val))))

-- The character `c` continues the number `val` of `pos` digits, of which `first` is the first.
pub digit_fits : ℕ → ℕ → ℕ → ℕ → Bool
digit_fits c val pos first = not (
    (ltb c 48 || ltb 57 c)
    || (((pos == 1) && (first == 48))
        || (ltb (u32_max / 10) val || ((val == u32_max / 10) && ltb (u32_max % 10) (c - 48)))))

-- The loop of `oidIsValid`: the count of numbers, or 0.
pub count_numbers : ℕ → ℕ → ℕ → ℕ → ℕ → List ℕ → ℕ
count_numbers val d1 pos n first [] = if number_ends val d1 pos n then suc n else 0
count_numbers val d1 pos n first (c ∷ oid) =
    let dot = c == 46 in
    let ok = if dot then number_ends val d1 pos n else digit_fits c val pos first in
    let rest =
      count_numbers (if dot then 0 else (val * 10 % 2 ^ 32 + (c - 48)) % 2 ^ 32)
        (if dot then (if n == 0 then val else d1) else d1) (if dot then 0 else suc pos)
        (if dot then suc n else n) (if pos == 0 then c else first) oid in
    if ok then rest else 0

pub is_valid : List ℕ → Bool
is_valid oid = leb 2 (count_numbers 0 0 0 0 0 oid)

-- A digit that is accepted keeps the number below 2^32, so that it does not wrap.
pub digit_fits-lt :
    (c val pos first : ℕ)
    → digit_fits c val pos first ≡ true
    → (48 ≤ c) × (c ≤ 57) × (val * 10 + (c - 48) < 2 ^ 32)
unfolding digit_fits
digit_fits-lt c val pos first h = ground arith

abbrev IsDotOrDigit : ℕ → Type 0
IsDotOrDigit c = (c ≡ 46) ⊎ ((48 ≤ c) × (c ≤ 57))

count_numbers_chars :
    (oid : List ℕ) (val d1 pos n first : ℕ)
    → 0 < count_numbers val d1 pos n first oid
    → All IsDotOrDigit oid
unfolding count_numbers
count_numbers_chars [] val d1 pos n first h = tt
count_numbers_chars (c ∷ oid) val d1 pos n first h = elim (Bool-cases (c == 46)) [
  | inl dot ↦
      let rest =
        count_numbers_chars oid 0 (if n == 0 then val else d1) 0 (suc n)
          (if pos == 0 then c else first) in
      elim (Bool-cases (number_ends val d1 pos n)) [
        | inl ends ↦ (inl (ground arith), rest (rw (dot, ends) at h))
        | inr other ↦ absurd (positive (rw (dot, other) at h))
      ]
  | inr digit ↦
      let val' = (val * 10 % 2 ^ 32 + (c - 48)) % 2 ^ 32 in
      let rest = count_numbers_chars oid val' d1 (suc pos) n (if pos == 0 then c else first) in
      elim (Bool-cases (digit_fits c val pos first)) [
        | inl fits ↦
            let bounds = digit_fits-lt c val pos first fits in
            (inr (bounds.0, bounds.1), rest (rw (digit, fits) at h))
        | inr other ↦ absurd (positive (rw (digit, other) at h))
      ]
]
  where
    positive : 0 < 0 → ⊥
    positive k = omega arith

-- An accepted identifier has no characters but digits and dots.
pub is_valid_chars : (oid : List ℕ) → is_valid oid ≡ true → All IsDotOrDigit oid
unfolding is_valid
is_valid_chars oid h = count_numbers_chars oid 0 0 0 0 0 (ground arith)
