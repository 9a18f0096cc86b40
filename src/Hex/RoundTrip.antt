-- ===== src/Hex/RoundTrip.antt =====
-- `hexFrom`, `hexTo`, `hexUpper` and `hexLower`: the octets come back, and so does the string, up to
-- the case of its letters.
use bee.Common.{
  ℕ, ◌*◌, ◌%◌, ◌<◌, ◌≡◌, refl, ap₂, true, false, List, [], ◌∷◌, ◌++◌, map, length, arith, AreOctets,
  ◌==◌,
}
use bee.Hex.{lookup, to_octet, from_octet_upper, are_digits, is_valid, upper, lower, from, to}
use bee.Hex.Octets.{upper_char, lower_char, lookup_lem, to_octet-from_octet, from_octet-to_octet}

-- A valid string is empty or has two digits in front of a valid string.
pub is_valid-cons :
    (c d : ℕ) (hex : List ℕ)
    → is_valid (c ∷ d ∷ hex) ≡ true
    → ((lookup c == 255) ≡ false) × ((lookup d == 255) ≡ false) × (is_valid hex ≡ true)
unfolding is_valid are_digits
is_valid-cons c d hex v = ground arith

pub is_valid-single : (c : ℕ) → is_valid (c ∷ []) ≡ true → ⊥
unfolding is_valid
is_valid-single c v = ground arith

pub is_valid-even : (hex : List ℕ) → is_valid hex ≡ true → length hex % 2 ≡ 0
unfolding is_valid
is_valid-even hex v = ground arith

-- Every octet string is decoded from the string that `hexFrom` writes of it, which `hexIsValid` accepts
-- and which has two characters for each octet.
pub to-from :
    (os : List ℕ)
    → AreOctets os
    → (to (from os) ≡ os) × (is_valid (from os) ≡ true) × (length (from os) ≡ 2 * length os)
unfolding to from from_octet_upper is_valid are_digits
to-from [] o = (refl, refl, refl)
to-from (x ∷ os) o =
    let rest = to-from os o.1 in
    let octet = to_octet-from_octet x o.0 in
    (ap₂ ◌∷◌ octet.0 rest.0, ground (arith, octet, rest.1), omega (arith, rest.2))

-- `hexTo` and `hexFrom` after it on a valid string: half as many octets as characters, and the
-- string with its letters in upper case.
pub from-to :
    (hex : List ℕ)
    → AreOctets hex
    → is_valid hex ≡ true
    → (from (to hex) ≡ map upper_char hex) × AreOctets (to hex) × (2 * length (to hex) ≡ length hex)
unfolding to from
from-to [] o v = (refl, tt, refl)
from-to (c ∷ []) o v = absurd (is_valid-single c v)
from-to (c ∷ d ∷ hex) o v =
    let (hc, hd, v') = is_valid-cons c d hex v in
    let octet = from_octet-to_octet c d o.0 o.1.0 hc hd in
    let rest = from-to hex o.1.1 v' in
    (ap₂ ◌++◌ octet.1 rest.0, (octet.0, rest.1), omega (arith, rest.2))

-- `hexUpper` and `hexLower` change the case of every letter of a valid string.
pub upper-eq :
    (hex : List ℕ)
    → AreOctets hex
    → is_valid hex ≡ true
    → (upper hex ≡ map upper_char hex) × (lower hex ≡ map lower_char hex)
unfolding upper lower
upper-eq [] o v = (refl, refl)
upper-eq (c ∷ []) o v = absurd (is_valid-single c v)
upper-eq (c ∷ d ∷ hex) o v =
    let (hc, hd, v') = is_valid-cons c d hex v in
    let octet = from_octet-to_octet c d o.0 o.1.0 hc hd in
    let rest = upper-eq hex o.1.1 v' in (ap₂ ◌++◌ octet.1 rest.0, ap₂ ◌++◌ octet.2 rest.1)

to_octet-case :
    (c d : ℕ)
    → c < 256
    → d < 256
    → (lookup c == 255) ≡ false
    → (lookup d == 255) ≡ false
    → (to_octet (upper_char c) (upper_char d) ≡ to_octet c d)
      × (to_octet (lower_char c) (lower_char d) ≡ to_octet c d)
unfolding to_octet
to_octet-case c d hc hd nc nd =
    let cs = lookup_lem c hc nc in
    let ds = lookup_lem d hd nd in (rw (cs.3, ds.3) refl, rw (cs.4, ds.4) refl)

to-map :
    (hex : List ℕ)
    → AreOctets hex
    → is_valid hex ≡ true
    → (to (map upper_char hex) ≡ to hex) × (to (map lower_char hex) ≡ to hex)
unfolding to
to-map [] o v = (refl, refl)
to-map (c ∷ []) o v = absurd (is_valid-single c v)
to-map (c ∷ d ∷ hex) o v =
    let (hc, hd, v') = is_valid-cons c d hex v in
    let octet = to_octet-case c d o.0 o.1.0 hc hd in
    let rest = to-map hex o.1.1 v' in (ap₂ ◌∷◌ octet.0 rest.0, ap₂ ◌∷◌ octet.1 rest.1)

-- The case of the letters does not change the octets that `hexTo` reads.
pub to-upper :
    (hex : List ℕ)
    → AreOctets hex
    → is_valid hex ≡ true
    → (to (upper hex) ≡ to hex) × (to (lower hex) ≡ to hex)
to-upper hex o v = let cases = upper-eq hex o v in rw (cases.0, cases.1) (to-map hex o v)
