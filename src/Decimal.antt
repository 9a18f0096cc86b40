-- ===== src/Decimal.antt =====
-- Decimal strings, src/core/dec.c. A string is the list of the codes of its characters without the zero
-- at its end. The word and the 32- or 64-bit number wrap at their moduli.
pub mod Convert
pub mod Zeros
pub mod Luhn
pub mod Damm
mod Tests
use bee.Common.{
  ℕ, zero, suc, ◌+◌, ◌-◌, ◌*◌, ◌/◌, ◌%◌, ◌^◌, Bool, true, false, ◌||◌, List, [], ◌∷◌, length,
  get_or, ltb, ◌==◌, if◌then◌else◌,
}

-- `*dec - '0'` of a digit.
abbrev pub digit : ℕ → ℕ
digit c = c - 48

-- `decIsValid`
unfoldable pub is_valid : List ℕ → Bool
is_valid [] = true
is_valid (c ∷ dec) = let rest = is_valid dec in if ltb c 48 || ltb 57 c then false else rest

-- `decCLZ`
pub clz : List ℕ → ℕ
clz [] = 0
clz (c ∷ dec) = let rest = suc (clz dec) in if c == 48 then rest else 0

-- `decFromU32` and `decFromU64`: `count` digits are written from the end, in front of `written`.
pub from_onto : List ℕ → ℕ → ℕ → List ℕ
from_onto written zero num = written
from_onto written (suc count) num = from_onto ((num % 10 + 48) ∷ written) count (num / 10)

pub from_num : ℕ → ℕ → List ℕ
from_num = from_onto []

-- `decToU32` and `decToU64`, with `m` the modulus of the number.
pub to_from : ℕ → ℕ → List ℕ → ℕ
to_from m num [] = num
to_from m num (c ∷ dec) = to_from m ((num * 10 % m + digit c) % m) dec

pub to_num : ℕ → List ℕ → ℕ
to_num m = to_from m 0

abbrev pub u32_modulus : ℕ
u32_modulus = 2 ^ 32

abbrev pub u64_modulus : ℕ
u64_modulus = 2 ^ 64

-- `luhn_table`
unfoldable pub luhn_table : List ℕ
luhn_table = 0 ∷ 2 ∷ 4 ∷ 6 ∷ 8 ∷ 1 ∷ 3 ∷ 5 ∷ 7 ∷ 9 ∷ []

abbrev pub doubled_digit : List ℕ → ℕ → ℕ
doubled_digit dec i = get_or luhn_table (digit (get_or dec i 0)) 0

abbrev pub plain_digit : List ℕ → ℕ → ℕ
plain_digit dec i = digit (get_or dec i 0)

-- The loops of `decLuhnCalc` and `decLuhnVerify`: `i` characters are left, `b` is the modulus of the word.
pub calc_loop : ℕ → List ℕ → ℕ → ℕ → ℕ
calc_loop b dec cd zero = cd
calc_loop b dec cd (suc zero) = (cd + doubled_digit dec 0) % b
calc_loop b dec cd (suc (suc i)) =
    calc_loop b dec (((cd + doubled_digit dec (suc i)) % b + plain_digit dec i) % b) i

pub luhn_calc : ℕ → List ℕ → ℕ
luhn_calc b dec = let cd = calc_loop b dec 0 (length dec) % 10 in (cd * 8 + cd) % 10 + 48

unfoldable pub verify_loop : ℕ → List ℕ → ℕ → ℕ → ℕ
verify_loop b dec cd zero = cd
verify_loop b dec cd (suc zero) = (cd + plain_digit dec 0) % b
verify_loop b dec cd (suc (suc i)) =
    verify_loop b dec (((cd + plain_digit dec (suc i)) % b + doubled_digit dec i) % b) i

unfoldable pub luhn_verify : ℕ → List ℕ → Bool
luhn_verify b dec = verify_loop b dec 0 (length dec) % 10 == 0

-- `damm_table`
unfoldable pub damm_table : List (List ℕ)
damm_table =
    (0 ∷ 3 ∷ 1 ∷ 7 ∷ 5 ∷ 9 ∷ 8 ∷ 6 ∷ 4 ∷ 2 ∷ [])
    ∷ (7 ∷ 0 ∷ 9 ∷ 2 ∷ 1 ∷ 5 ∷ 4 ∷ 8 ∷ 6 ∷ 3 ∷ [])
    ∷ (4 ∷ 2 ∷ 0 ∷ 6 ∷ 8 ∷ 7 ∷ 1 ∷ 3 ∷ 5 ∷ 9 ∷ [])
    ∷ (1 ∷ 7 ∷ 5 ∷ 0 ∷ 9 ∷ 8 ∷ 3 ∷ 4 ∷ 2 ∷ 6 ∷ [])
    ∷ (6 ∷ 1 ∷ 2 ∷ 3 ∷ 0 ∷ 4 ∷ 5 ∷ 9 ∷ 7 ∷ 8 ∷ [])
    ∷ (3 ∷ 6 ∷ 7 ∷ 4 ∷ 2 ∷ 0 ∷ 9 ∷ 5 ∷ 8 ∷ 1 ∷ [])
    ∷ (5 ∷ 8 ∷ 6 ∷ 9 ∷ 7 ∷ 2 ∷ 0 ∷ 1 ∷ 3 ∷ 4 ∷ [])
    ∷ (8 ∷ 9 ∷ 4 ∷ 5 ∷ 3 ∷ 6 ∷ 2 ∷ 0 ∷ 1 ∷ 7 ∷ [])
    ∷ (9 ∷ 4 ∷ 3 ∷ 8 ∷ 6 ∷ 1 ∷ 7 ∷ 2 ∷ 0 ∷ 5 ∷ [])
    ∷ (2 ∷ 5 ∷ 8 ∷ 1 ∷ 4 ∷ 3 ∷ 6 ∷ 7 ∷ 9 ∷ 0 ∷ [])
    ∷ []

abbrev pub damm : ℕ → ℕ → ℕ
damm cd d = get_or (get_or damm_table cd []) d 0

-- `decDammCalc` and `decDammVerify`
unfoldable pub damm_loop : ℕ → List ℕ → ℕ
damm_loop cd [] = cd
damm_loop cd (c ∷ dec) = damm_loop (damm cd (digit c)) dec

unfoldable pub damm_calc : List ℕ → ℕ
damm_calc dec = damm_loop 0 dec + 48

unfoldable pub damm_verify : List ℕ → Bool
damm_verify dec = damm_calc dec == 48
