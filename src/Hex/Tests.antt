-- ===== src/Hex/Tests.antt =====
-- Concrete runs: the string "0aF7".
use bee.Common.{ℕ, ◌≡◌, refl, true, List, [], ◌∷◌, length, arith, AreOctets}
use bee.Hex.{dec_table, are_digits, is_valid, from, to}
use bee.Hex.RoundTrip.{to-from}

abbrev letters : List ℕ
letters = 48 ∷ 97 ∷ 70 ∷ 55 ∷ []

abbrev two_octets : List ℕ
two_octets = 10 ∷ 247 ∷ []

letters-AreOctets : AreOctets letters
letters-AreOctets = (omega arith, (omega arith, (omega arith, (omega arith, tt))))

two_octets-AreOctets : AreOctets two_octets
two_octets-AreOctets = (omega arith, (omega arith, tt))

letters-is_valid : is_valid letters ≡ true
unfolding is_valid are_digits dec_table
letters-is_valid = refl

to-from_example :
    (to (from two_octets) ≡ two_octets)
    × (is_valid (from two_octets) ≡ true)
    × (length (from two_octets) ≡ 4)
to-from_example = to-from two_octets two_octets-AreOctets
