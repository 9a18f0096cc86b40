-- ===== src/Common/Bytes.antt =====
-- AreOctets: numbers below 256.
use Prim.Native.Nat.{ℕ, zero, suc, ◌<◌}
use mathlib.Core.List.{List, [], ◌∷◌, ◌++◌}
use mathlib.Core.Path.{◌≡◌, refl}
use mathlib.Core.Logic.{◌↔◌}
use mathlib.Core.Bool.{Bool, true, false, ◌&&◌}
use bee.Common.Tests.{◌==◌}
use native.Mathlib.Omega.{arith}
use bee.Common.Lists.{All, get_or, take, drop}

abbrev pub IsOctet : ℕ → Type 0
IsOctet b = b < 256

pub get_or-lt : (xs : List ℕ) (i : ℕ) → All IsOctet xs → get_or xs i 0 < 256
get_or-lt [] i o = omega arith
get_or-lt (x ∷ xs) zero o = o.0
get_or-lt (x ∷ xs) (suc i) o = get_or-lt xs i o.1

abbrev pub AreOctets : List ℕ → Type 0
AreOctets = All IsOctet

pub drop-AreOctets : (n : ℕ) (xs : List ℕ) → AreOctets xs → AreOctets (drop n xs)
drop-AreOctets zero xs o = o
drop-AreOctets (suc n) [] o = o
drop-AreOctets (suc n) (x ∷ xs) o = drop-AreOctets n xs o.1

pub take-AreOctets : (n : ℕ) (xs : List ℕ) → AreOctets xs → AreOctets (take n xs)
take-AreOctets zero xs o = tt
take-AreOctets (suc n) [] o = o
take-AreOctets (suc n) (x ∷ xs) o = (o.0, take-AreOctets n xs o.1)

pub append-AreOctets : (xs ys : List ℕ) → AreOctets xs → AreOctets ys → AreOctets (xs ++ ys)
append-AreOctets [] ys o p = p
append-AreOctets (x ∷ xs) ys o p = (o.0, append-AreOctets xs ys o.1 p)

-- `memEq` on two buffers of one length: are they equal octet by octet?
pub octets_eq : List ℕ → List ℕ → Bool
octets_eq [] [] = true
octets_eq [] (y ∷ ys) = false
octets_eq (x ∷ xs) [] = false
octets_eq (x ∷ xs) (y ∷ ys) = x == y && octets_eq xs ys

pub octets_eq_iff : (xs ys : List ℕ) → (octets_eq xs ys ≡ true) ↔ (xs ≡ ys)
unfolding octets_eq
octets_eq_iff [] [] = (λ h. refl, λ h. refl)
octets_eq_iff [] (y ∷ ys) = ground arith
octets_eq_iff (x ∷ xs) [] = ground arith
octets_eq_iff (x ∷ xs) (y ∷ ys) = ground (arith, octets_eq_iff xs ys)
