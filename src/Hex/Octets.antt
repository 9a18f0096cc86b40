-- ===== src/Hex/Octets.antt =====
-- One octet and its two characters: facts read off the tables.
use bee.Common.{
  ℕ, ◌+◌, ◌-◌, ◌*◌, ◌/◌, ◌%◌, ◌<◌, ◌≡◌, refl, ap₂, Bool, true, false, ◌&&◌, not, [], ◌∷◌, get_or,
  bit_and, bit_or, &&-both, not-true, arith, ltb, leb, ◌==◌, if◌then◌else◌, ==_iff,
}
use bee.Common.Bits.{passes, by_table}
use bee.Hex.{
  upper_alphabet, lower_alphabet, dec_table, lookup, to_octet, from_octet_upper, from_octet_lower,
}

-- The character with the case changed; the digits stay.
abbrev pub upper_char : ℕ → ℕ
upper_char c = if leb 97 c && leb c 102 then c - 32 else c

abbrev pub lower_char : ℕ → ℕ
lower_char c = if leb 65 c && leb c 70 then c + 32 else c

digit_test : ℕ → Bool
digit_test c =
    let d = lookup c in
    if d == 255
    then true
    else ltb d 16
      && (get_or upper_alphabet d 0 == upper_char c
          && (get_or lower_alphabet d 0 == lower_char c
              && (lookup (upper_char c) == d && lookup (lower_char c) == d)))

digit_test_all : passes digit_test 256 ≡ true
unfolding passes digit_test dec_table upper_alphabet lower_alphabet
digit_test_all = refl

-- What the tables say of a character that is a digit.
pub lookup_lem :
    (c : ℕ)
    → c < 256
    → (lookup c == 255) ≡ false
    → (lookup c < 16)
      × (get_or upper_alphabet (lookup c) 0 ≡ upper_char c)
      × (get_or lower_alphabet (lookup c) 0 ≡ lower_char c)
      × (lookup (upper_char c) ≡ lookup c)
      × (lookup (lower_char c) ≡ lookup c)
unfolding digit_test
lookup_lem c h n =
    let passed = rw n at (by_table digit_test 256 c h digit_test_all) in ground (arith, passed)

octet_test : ℕ → Bool
octet_test o =
    let up = from_octet_upper o in
    let low = from_octet_lower o in
    to_octet (get_or up 0 0) (get_or up 1 0) == o
    && (to_octet (get_or low 0 0) (get_or low 1 0) == o
        && (not (lookup (get_or up 0 0) == 255) && not (lookup (get_or up 1 0) == 255)))

octet_test_all : passes octet_test 256 ≡ true
unfolding passes octet_test to_octet from_octet_upper from_octet_lower dec_table upper_alphabet
    lower_alphabet
octet_test_all = refl

-- The characters of an octet are digits, and the octet comes back from them.
pub to_octet-from_octet :
    (o : ℕ)
    → o < 256
    → let high = get_or upper_alphabet (o / 16) 0 in
      let low = get_or upper_alphabet (bit_and o 15) 0 in
      let high' = get_or lower_alphabet (o / 16) 0 in
      let low' = get_or lower_alphabet (bit_and o 15) 0 in
      (to_octet high low ≡ o)
      × (to_octet high' low' ≡ o)
      × ((lookup high == 255) ≡ false)
      × ((lookup low == 255) ≡ false)
unfolding octet_test from_octet_upper from_octet_lower
to_octet-from_octet o h =
    let (back, r) = &&-both (by_table octet_test 256 o h octet_test_all) in
    let (back', r') = &&-both r in
    let (high, low) = &&-both r' in
    ((==_iff _ _).0 back, (==_iff _ _).0 back', not-true high, not-true low)

nibble_test : ℕ → Bool
nibble_test n =
    let o = bit_or ((n / 16) * 16) (n % 16) % 256 in
    o == n && (o / 16 == n / 16 && bit_and o 15 == n % 16)

nibble_test_all : passes nibble_test 256 ≡ true
unfolding passes nibble_test
nibble_test_all = refl

-- Two digits of four bits are put together and taken apart.
pub nibbles :
    (u v : ℕ)
    → u < 16
    → v < 16
    → let o = bit_or (u * 16) v % 256 in (o < 256) × (o / 16 ≡ u) × (bit_and o 15 ≡ v)
unfolding nibble_test
nibbles u v h k =
    let n = u * 16 + v in
    let top : n / 16 ≡ u = omega arith in
    let bottom : n % 16 ≡ v = omega arith in
    let test = rw (top, bottom) at (by_table nibble_test 256 n (omega arith) nibble_test_all) in
    ground (arith, test)

-- The octet of two digits, written again: the digits with their case changed.
pub from_octet-to_octet :
    (c d : ℕ)
    → c < 256
    → d < 256
    → (lookup c == 255) ≡ false
    → (lookup d == 255) ≡ false
    → (to_octet c d < 256)
      × (from_octet_upper (to_octet c d) ≡ upper_char c ∷ upper_char d ∷ [])
      × (from_octet_lower (to_octet c d) ≡ lower_char c ∷ lower_char d ∷ [])
unfolding to_octet from_octet_upper from_octet_lower
from_octet-to_octet c d hc hd nc nd =
    let cs = lookup_lem c hc nc in
    let ds = lookup_lem d hd nd in
    let (below, high, low) = nibbles (lookup c) (lookup d) cs.0 ds.0 in
    (
      below,
      rw (high, low) (ap₂ (λ (x y : ℕ). x ∷ y ∷ []) cs.1 ds.1),
      rw (high, low) (ap₂ (λ (x y : ℕ). x ∷ y ∷ []) cs.2 ds.2),
    )
