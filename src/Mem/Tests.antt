-- ===== src/Mem/Tests.antt =====
-- Concrete runs on short buffers and on a store.
use bee.Common.{ℕ, ◌≡◌, List, [], ◌∷◌, arith, refl, AreOctets}
use bee.Common.BigEndian.{be_value}
use bee.Mem.Buffers.{cmp, cmp_fast}
use bee.Mem.Buffers.Order.{order}
use bee.Mem.Buffers.Regular.{cmp_lem}
use bee.Mem.Store.{Store, join}
use bee.Mem.Store.Join.{Joined, join-Joined}

abbrev low_octets : List ℕ
low_octets = 1 ∷ 2 ∷ 250 ∷ 0 ∷ []

abbrev high_octets : List ℕ
high_octets = 1 ∷ 3 ∷ 0 ∷ 0 ∷ []

low_octets-AreOctets : AreOctets low_octets
low_octets-AreOctets = (omega arith, (omega arith, (omega arith, (omega arith, tt))))

high_octets-AreOctets : AreOctets high_octets
high_octets-AreOctets = (omega arith, (omega arith, (omega arith, (omega arith, tt))))

cmp_lem_example :
    (cmp 2 low_octets high_octets ≡ order (be_value 0 low_octets) (be_value 0 high_octets))
    × (cmp_fast low_octets high_octets ≡ order (be_value 0 low_octets) (be_value 0 high_octets))
cmp_lem_example =
    cmp_lem 2 low_octets high_octets (omega arith) low_octets-AreOctets high_octets-AreOctets refl

-- Each octet is its address; both buffers overlap the destination at both of its ends.
abbrev addresses : Store
addresses a = a

join-Joined_example : Joined addresses (join addresses 100 102 4 101 5) 100 102 4 101 5
join-Joined_example = join-Joined addresses 100 102 4 101 5
