-- ===== src/Hex.antt =====
-- Hexadecimal strings, src/core/hex.c. A string is the list of the codes of its characters without the
-- zero at its end; a code is an octet, as the C code casts it before it looks it up.
pub mod Octets
pub mod RoundTrip
pub mod Reversed
pub mod Compare
mod Tests
use bee.Common.{
  ℕ, zero, suc, ◌+◌, ◌*◌, ◌/◌, ◌%◌, Bool, true, false, ◌&&◌, List, [], ◌∷◌, ◌++◌, length, get_or,
  replicate, bit_and, bit_or, bit_xor, ◌==◌, ◌!=◌, if◌then◌else◌,
}

-- The letters "0" to "9" of both alphabets.
abbrev digits : List ℕ
digits = 48 ∷ 49 ∷ 50 ∷ 51 ∷ 52 ∷ 53 ∷ 54 ∷ 55 ∷ 56 ∷ 57 ∷ []

-- `hex_upper` and `hex_lower`
unfoldable pub upper_alphabet : List ℕ
upper_alphabet = digits ++ (65 ∷ 66 ∷ 67 ∷ 68 ∷ 69 ∷ 70 ∷ [])

unfoldable pub lower_alphabet : List ℕ
lower_alphabet = digits ++ (97 ∷ 98 ∷ 99 ∷ 100 ∷ 101 ∷ 102 ∷ [])

-- `hex_dec_table`: 0xFF for the characters that are no digits.
unfoldable pub dec_table : List ℕ
dec_table =
    let letters = 10 ∷ 11 ∷ 12 ∷ 13 ∷ 14 ∷ 15 ∷ [] in
    replicate 48 255
    ++ (0 ∷ 1 ∷ 2 ∷ 3 ∷ 4 ∷ 5 ∷ 6 ∷ 7 ∷ 8 ∷ 9 ∷ [])
    ++ replicate 7 255
    ++ letters
    ++ replicate 26 255
    ++ letters
    ++ replicate 153 255

abbrev pub lookup : ℕ → ℕ
lookup c = get_or dec_table c 0

-- `hexToO`: two characters make an octet.
unfoldable pub to_octet : ℕ → ℕ → ℕ
to_octet high low = bit_or (lookup high * 16) (lookup low) % 256

-- `hexFromOUpper` and `hexFromOLower`
unfoldable pub from_octet_upper : ℕ → List ℕ
from_octet_upper o = get_or upper_alphabet (o / 16) 0 ∷ get_or upper_alphabet (bit_and o 15) 0 ∷ []

unfoldable pub from_octet_lower : ℕ → List ℕ
from_octet_lower o = get_or lower_alphabet (o / 16) 0 ∷ get_or lower_alphabet (bit_and o 15) 0 ∷ []

-- `hexIsValid`
unfoldable pub are_digits : List ℕ → Bool
are_digits [] = true
are_digits (c ∷ cs) = let rest = are_digits cs in if lookup c == 255 then false else rest

unfoldable pub is_valid : List ℕ → Bool
is_valid hex = if length hex % 2 != 0 then false else are_digits hex

-- `hexUpper` and `hexLower`; the asserted validity leaves no single character at the end.
pub upper : List ℕ → List ℕ
upper (high ∷ low ∷ hex) = from_octet_upper (to_octet high low) ++ upper hex
upper hex = hex

pub lower : List ℕ → List ℕ
lower (high ∷ low ∷ hex) = from_octet_lower (to_octet high low) ++ lower hex
lower hex = hex

-- `hexFrom`
pub from : List ℕ → List ℕ
from [] = []
from (o ∷ src) = from_octet_upper o ++ from src

-- `hexFromRev`: the octets are written from the end of the string, in front of `written`.
pub from_rev_onto : List ℕ → List ℕ → List ℕ
from_rev_onto written [] = written
from_rev_onto written (o ∷ src) = from_rev_onto (from_octet_upper o ++ written) src

pub from_rev : List ℕ → List ℕ
from_rev = from_rev_onto []

-- `hexTo`
pub to : List ℕ → List ℕ
to (high ∷ low ∷ hex) = to_octet high low ∷ to hex
to hex = []

-- `hexToRev`: `count` pairs of characters are left, the last of them is the next to be read.
pub to_rev_from : List ℕ → ℕ → List ℕ
to_rev_from hex zero = []
to_rev_from hex (suc count) =
    to_octet (get_or hex (2 * count) 0) (get_or hex (2 * count + 1) 0) ∷ to_rev_from hex count

pub to_rev : List ℕ → List ℕ
to_rev hex = to_rev_from hex (length hex / 2)

-- `hexEq`: the regular variant collects the differences of the octets.
pub diff_from : ℕ → List ℕ → List ℕ → ℕ
diff_from diff (o ∷ buf) (high ∷ low ∷ hex) =
    diff_from (bit_or diff (bit_xor o (to_octet high low))) buf hex
diff_from diff _ _ = diff

pub eq : List ℕ → List ℕ → Bool
eq buf hex = diff_from 0 buf hex == 0

pub eq_fast : List ℕ → List ℕ → Bool
eq_fast (o ∷ buf) (high ∷ low ∷ hex) =
    let rest = eq_fast buf hex in if o != to_octet high low then false else rest
eq_fast _ _ = true

-- `hexEqRev`, with the pairs of characters from the last to the first.
pub diff_rev_from : ℕ → List ℕ → List ℕ → ℕ → ℕ
diff_rev_from diff (o ∷ buf) hex (suc count) =
    let octet = to_octet (get_or hex (2 * count) 0) (get_or hex (2 * count + 1) 0) in
    diff_rev_from (bit_or diff (bit_xor o octet)) buf hex count
diff_rev_from diff _ hex count = diff

pub eq_rev : List ℕ → List ℕ → Bool
eq_rev buf hex = diff_rev_from 0 buf hex (length hex / 2) == 0

pub eq_rev_fast_from : List ℕ → List ℕ → ℕ → Bool
eq_rev_fast_from (o ∷ buf) hex (suc count) =
    let rest = eq_rev_fast_from buf hex count in
    if o != to_octet (get_or hex (2 * count) 0) (get_or hex (2 * count + 1) 0) then false else rest
eq_rev_fast_from _ hex count = true

pub eq_rev_fast : List ℕ → List ℕ → Bool
eq_rev_fast buf hex = eq_rev_fast_from buf hex (length hex / 2)
