-- ===== src/Der/Len/Canonical.antt =====
-- What `derLDec` accepts is what `derLEnc` writes: the code of a length is unique.
use bee.Common.{
  ℕ, suc, ◌+◌, ◌-◌, ◌<◌, ◌≤◌, ◌≡◌, refl, ap, ◌∙◌, some, List, [], ◌∷◌, ◌++◌, length, take, drop,
  AreOctets, arith, take-append-drop, length-take, take-AreOctets, ltb, Bool-cases, inl, inr, ◌≢◌,
}
use bee.Common.BigEndian.{be_value, be_value-lt, be_octets-be_value, value-ge, octet_count-be_value}
use bee.Der.Len.{size_max, l_enc_count, l_enc, l_value, LenDec, l_dec}
use bee.Der.Len.Laws.{l_value_short, length-l_enc}
use native.Mathlib.Nat.{one-le-pow, pow-suc, pow-le-pow_right}

value-ge-128 : (x : ℕ) (os : List ℕ) → 0 < x → (length os ≡ 0 → 128 ≤ x) → 128 ≤ be_value 0 (x ∷ os)
value-ge-128 x [] p h = unfold be_value in omega (arith, h refl)
value-ge-128 x (y ∷ os) p h =
    omega (arith, value-ge x (y ∷ os) p, pow-suc 256 (length os), one-le-pow (length os) 256)

-- The octets behind a long-form head are the code of their value.
l_enc-long :
    (x : ℕ) (os : List ℕ)
    → AreOctets (x ∷ os)
    → length os < 8
    → 0 < x
    → (length os ≡ 0 → 128 ≤ x)
    → l_enc (be_value 0 (x ∷ os)) ≡ (length os + 129) ∷ x ∷ os
unfolding l_enc
l_enc-long x os o h p one = ground (
  arith,
  value-ge-128 x os p one,
  octet_count-be_value x os p 8 o h,
  be_octets-be_value (x ∷ os) o,
)

pub record IsCanonical (der : List ℕ) (d : LenDec) : Type 0 where
  pub below : d.len < size_max
  pub count : d.l_count ≡ l_enc_count d.len
  pub code : der ≡ l_enc d.len ++ drop d.l_count der

-- The tests of `derLDec` on the long form, for a head octet of `129 + k`.
record IsLongCode (k x : ℕ) (os : List ℕ) (d : LenDec) : Type 0 where
  fits : k ≤ length os
  width : k < 8
  head : 0 < x
  one : k ≡ 0 → 128 ≤ x
  value : d.len ≡ l_value 0 (x ∷ take k os)
  below : d.len ≢ size_max
  count : d.l_count ≡ k + 2

l_dec-IsLongCode :
    (o k x : ℕ) (os : List ℕ) (d : LenDec)
    → o ≡ 129 + k
    → l_dec (o ∷ x ∷ os) ≡ some d
    → IsLongCode k x os d
unfolding l_dec
l_dec-IsLongCode o k x os d h e =
    let taken : take (o - 128) (x ∷ os) ≡ x ∷ take k os =
      ap (λ r. take r (x ∷ os)) (let r : o - 128 ≡ suc k = omega arith in r) in
    ground arith

long-IsCanonical :
    (o k x : ℕ) (os : List ℕ) (d : LenDec)
    → o ≡ 129 + k
    → AreOctets (x ∷ os)
    → IsLongCode k x os d
    → IsCanonical (o ∷ x ∷ os) d
long-IsCanonical o k x os d h oct v = record {
  below = omega (
    arith,
    value,
    be_value-lt (x ∷ take k os) 0 octets,
    pow-le-pow_right {n = 256} (omega arith) (width),
    v.below,
  );
  count = omega (arith, v.count, size, ap length code, length-l_enc d.len);
  code = rw (code, v.count, dropped) (ground (arith, size, take-append-drop k os));
}
  where
    size : length (take k os) ≡ k
    size = omega (arith, length-take k os, v.fits)

    octets : AreOctets (x ∷ take k os)
    octets = (oct.0, take-AreOctets k os oct.1)

    width : suc (length (take k os)) ≤ 8
    width = omega (arith, size, v.width)

    value : d.len ≡ be_value 0 (x ∷ take k os)
    value = v.value ∙ l_value_short (x ∷ take k os) octets width

    code : l_enc d.len ≡ (length (take k os) + 129) ∷ x ∷ take k os
    code =
        rw value (l_enc-long x (take k os) octets width v.head (λ e. v.one (omega (arith, size))))

    dropped : drop (k + 2) (o ∷ x ∷ os) ≡ drop k os
    dropped = ap (λ n. drop n (o ∷ x ∷ os)) (let e : k + 2 ≡ suc (suc k) = omega arith in e)

short-IsCanonical :
    (o : ℕ) (der : List ℕ) (d : LenDec)
    → o < 128
    → l_dec (o ∷ der) ≡ some d
    → IsCanonical (o ∷ der) d
unfolding l_dec l_enc l_enc_count
short-IsCanonical o der d h e = ground arith

l_dec-one_octet : (o : ℕ) (d : LenDec) → 128 ≤ o → l_dec (o ∷ []) ≢ some d
unfolding l_dec
l_dec-one_octet o d h e = ground arith

l_dec-head : (o : ℕ) (der : List ℕ) (d : LenDec) → l_dec (o ∷ der) ≡ some d → o ≢ 128
unfolding l_dec
l_dec-head o der d e = ground arith

-- `derLDec` accepts nothing but codes of `derLEnc`, of lengths below SIZE_MAX, and consumes just them.
pub l_dec-IsCanonical :
    (der : List ℕ) (d : LenDec) → AreOctets der → l_dec der ≡ some d → IsCanonical der d
l_dec-IsCanonical [] d oct e = unfold l_dec in cc
l_dec-IsCanonical (o ∷ []) d oct e = elim (Bool-cases (ltb o 128)) [
  | inl short ↦ short-IsCanonical o [] d (ground arith) e
  | inr long ↦ absurd (l_dec-one_octet o d (ground arith) e)
]
l_dec-IsCanonical (o ∷ x ∷ os) d oct e = elim (Bool-cases (ltb o 128)) [
  | inl short ↦ short-IsCanonical o (x ∷ os) d (ground arith) e
  | inr long ↦
      let k : o ≡ 129 + (o - 129) = ground (arith, l_dec-head o (x ∷ os) d e) in
      long-IsCanonical o (o - 129) x os d k oct.1 (l_dec-IsLongCode o (o - 129) x os d k e)
]
