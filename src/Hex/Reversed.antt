-- ===== src/Hex/Reversed.antt =====
-- `hexFromRev` and `hexToRev`: the octets in the opposite order.
use bee.Common.{
  ℕ, zero, suc, ◌+◌, ◌*◌, ◌/◌, ◌≡◌, refl, sym, ap, ◌∙◌, true, List, [], ◌∷◌, ◌++◌, append-nil,
  append_assoc, length, get_or, arith, AreOctets, append-AreOctets,
}
use mathlib.Core.List.{reverse, reverse-cons, reverse-reverse}
use bee.Hex.{
  to_octet, from_octet_upper, is_valid, from, from_rev_onto, from_rev, to, to_rev_from, to_rev,
}
use bee.Hex.RoundTrip.{is_valid-cons, is_valid-single, to-from}

from-append : (xs ys : List ℕ) → from (xs ++ ys) ≡ from xs ++ from ys
unfolding from
from-append [] ys = refl
from-append (x ∷ xs) ys =
    ap (λ t. from_octet_upper x ++ t) (from-append xs ys)
    ∙ sym (append_assoc (from_octet_upper x) (from xs) (from ys))

from_rev_onto-eq : (os written : List ℕ) → from_rev_onto written os ≡ from (reverse os) ++ written
unfolding from_rev_onto
from_rev_onto-eq [] written = unfold from in refl
from_rev_onto-eq (o ∷ os) written =
    let last : from (o ∷ []) ≡ from_octet_upper o =
      unfold from in append-nil (from_octet_upper o) in
    from_rev_onto-eq os (from_octet_upper o ++ written)
    ∙ sym (append_assoc (from (reverse os)) (from_octet_upper o) written)
    ∙ ap (λ t. (from (reverse os) ++ t) ++ written) (sym last)
    ∙ ap (λ t. t ++ written) (sym (from-append (reverse os) (o ∷ [])))
    ∙ ap (λ t. from t ++ written) (sym (reverse-cons o os))

-- `hexFromRev` writes the string that `hexFrom` writes of the octets in the opposite order.
pub from_rev-eq : (os : List ℕ) → from_rev os ≡ from (reverse os)
unfolding from_rev
from_rev-eq os = from_rev_onto-eq os [] ∙ append-nil (from (reverse os))

to_rev_from-cons :
    (c d : ℕ) (hex : List ℕ) (n : ℕ)
    → to_rev_from (c ∷ d ∷ hex) (suc n) ≡ to_rev_from hex n ++ (to_octet c d ∷ [])
unfolding to_rev_from
to_rev_from-cons c d hex zero = refl
to_rev_from-cons c d hex (suc n) =
    let e : 2 * suc n ≡ suc (suc (2 * n)) = omega arith in
    let e' : suc (suc (2 * n)) + 1 ≡ suc (suc (2 * n + 1)) = omega arith in
    rw (e, e')
      (ap (λ t. to_octet (get_or hex (2 * n) 0) (get_or hex (2 * n + 1) 0) ∷ t)
        (to_rev_from-cons c d hex n))

-- On a valid string `hexToRev` reads the octets of `hexTo` in the opposite order.
pub to_rev-eq : (hex : List ℕ) → is_valid hex ≡ true → to_rev hex ≡ reverse (to hex)
unfolding to_rev
to_rev-eq [] v = unfold to_rev_from to in refl
to_rev-eq (c ∷ []) v = absurd (is_valid-single c v)
to_rev-eq (c ∷ d ∷ hex) v =
    let (hc, hd, v') = is_valid-cons c d hex v in
    let e : suc (suc (length hex)) / 2 ≡ suc (length hex / 2) = omega arith in
    let split : to (c ∷ d ∷ hex) ≡ to_octet c d ∷ to hex = unfold to in refl in
    ap (to_rev_from (c ∷ d ∷ hex)) e
    ∙ to_rev_from-cons c d hex (length hex / 2)
    ∙ ap (λ t. t ++ (to_octet c d ∷ [])) (to_rev-eq hex v')
    ∙ sym (reverse-cons (to_octet c d) (to hex))
    ∙ ap reverse (sym split)

reverse-AreOctets : (os : List ℕ) → AreOctets os → AreOctets (reverse os)
reverse-AreOctets [] o = tt
reverse-AreOctets (x ∷ os) o =
    rw (reverse-cons x os)
      (append-AreOctets (reverse os) (x ∷ []) (reverse-AreOctets os o.1) (o.0, tt))

-- Every octet string is decoded by `hexToRev` from the string that `hexFromRev` writes of it.
pub to_rev-from_rev : (os : List ℕ) → AreOctets os → to_rev (from_rev os) ≡ os
to_rev-from_rev os o =
    let (back, valid, size) = to-from (reverse os) (reverse-AreOctets os o) in
    ap to_rev (from_rev-eq os)
    ∙ to_rev-eq (from (reverse os)) valid
    ∙ ap reverse back
    ∙ reverse-reverse os
