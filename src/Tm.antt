-- ===== src/Tm.antt =====
-- Dates, src/core/tm.c: `tmDateIsValid` and `tmDateIsValid2`.
mod Tests
use bee.Common.{
  ℕ, zero, suc, ◌+◌, ◌*◌, ◌/◌, ◌%◌, ◌≤◌, ◌<◌, ◌≡◌, ◌⊎◌, inl, inr, ◌↔◌, Bool, true, false,
  Bool-cases, ◌&&◌, ◌||◌, not, List, [], ◌∷◌, get_or, arith, ltb, leb, ◌==◌, ◌!=◌, if◌then◌else◌,
}

pub year_is_slope : ℕ → Bool
year_is_slope y = (y % 400 == 0) || ((y % 4 == 0) && (y % 100 != 0))

pub date_is_valid : ℕ → ℕ → ℕ → Bool
date_is_valid y m d =
    leb 1583 y
    && (leb 1 m
        && (leb m 12
            && (leb 1 d
                && (leb d 31
                    && (not ((d == 31) && ((m == 4) || ((m == 6) || ((m == 9) || (m == 11)))))
                        && not ((m == 2) && (ltb 29 d || ((d == 29) && not (year_is_slope y)))))))))

-- `tmDateIsValid2`: six decimal digits, of the year from 2000 on, the month and the day.
pub date_is_valid2 : List ℕ → Bool
date_is_valid2 date =
    let digit = λ (i : ℕ). get_or date i 0 in
    date_is_valid (10 * digit 0 + digit 1 + 2000) (10 * digit 2 + digit 3) (10 * digit 4 + digit 5)

-- The Gregorian rule by the number of the century: the last year of a century is a leap year when four
-- divides the century, any other year when four divides it.
abbrev pub is_leap : ℕ → Bool
is_leap y = if y % 100 == 0 then y / 100 % 4 == 0 else y % 4 == 0

year_is_slope-eq : (y : ℕ) → year_is_slope y ≡ is_leap y
unfolding year_is_slope
year_is_slope-eq y = ground arith

-- The days of the months of a year, from the first one; there is no month 0.
abbrev pub month_lengths : Bool → List ℕ
month_lengths leap =
    0 ∷ 31 ∷ (if leap then 29 else 28) ∷ 31 ∷ 30 ∷ 31 ∷ 30 ∷ 31 ∷ 31 ∷ 30 ∷ 31 ∷ 30 ∷ 31 ∷ []

-- `tmDateIsValid` answers whether the year is 1583 or later and the day is one of the days that the month
-- has in the Gregorian calendar, in which the last year of a century is a leap year when four divides the
-- century, and any other year when four divides it.
pub date_is_valid_iff :
    (y m d : ℕ)
    → (date_is_valid y m d ≡ true)
      ↔ ((1583 ≤ y) × ((1 ≤ d) × (d ≤ get_or (month_lengths (is_leap y)) m 0)))
unfolding date_is_valid
date_is_valid_iff y zero d = ground arith
date_is_valid_iff y (suc zero) d = ground arith
date_is_valid_iff y (suc (suc zero)) d = rw (year_is_slope-eq y) (elim (Bool-cases (is_leap y)) [
  | inl leap ↦ rw leap (ground arith)
  | inr plain ↦ rw plain (ground arith)
])
date_is_valid_iff y (suc (suc (suc zero))) d = ground arith
date_is_valid_iff y (suc (suc (suc (suc zero)))) d = ground arith
date_is_valid_iff y (suc (suc (suc (suc (suc zero))))) d = ground arith
date_is_valid_iff y (suc (suc (suc (suc (suc (suc zero)))))) d = ground arith
date_is_valid_iff y (suc (suc (suc (suc (suc (suc (suc zero))))))) d = ground arith
date_is_valid_iff y (suc (suc (suc (suc (suc (suc (suc (suc zero)))))))) d = ground arith
date_is_valid_iff y (suc (suc (suc (suc (suc (suc (suc (suc (suc zero))))))))) d = ground arith
date_is_valid_iff y (suc (suc (suc (suc (suc (suc (suc (suc (suc (suc zero)))))))))) d =
    ground arith
date_is_valid_iff y (suc (suc (suc (suc (suc (suc (suc (suc (suc (suc (suc zero))))))))))) d =
    ground arith
date_is_valid_iff y (suc (suc (suc (suc (suc (suc (suc (suc (suc (suc (suc (suc zero)))))))))))) d =
    ground arith
date_is_valid_iff y (suc (suc (suc (suc (suc (suc (suc (suc (suc (suc (suc (suc (suc m)))))))))))))
      d =
    ground arith
