-- ===== src/B64/Tests.antt =====
-- Concrete runs: four octets, "AQID/w==".
use bee.Common.{ℕ, ◌≡◌, List, [], ◌∷◌, arith, AreOctets}
use bee.B64.{from_octets, to_octets, octet_count}
use bee.B64.RoundTrip.{to_octets-from_octets}

abbrev four_octets : List ℕ
four_octets = 1 ∷ 2 ∷ 3 ∷ 255 ∷ []

four_octets-AreOctets : AreOctets four_octets
four_octets-AreOctets = (omega arith, (omega arith, (omega arith, (omega arith, tt))))

to_octets-from_octets_example :
    (to_octets (from_octets four_octets) ≡ four_octets)
    × (octet_count (from_octets four_octets) ≡ 4)
to_octets-from_octets_example = to_octets-from_octets four_octets four_octets-AreOctets
