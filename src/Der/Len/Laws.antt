-- ===== src/Der/Len/Laws.antt =====
-- The length codec is a bijection between the numbers below SIZE_MAX and the accepted codes.
use bee.Common.{
  get_or-append_left, ltb, Bool-cases, inl, inr, ◌≢◌, ℕ, suc, ◌+◌, ◌*◌, ◌%◌, ◌^◌, ◌<◌, ◌≤◌, ◌≡◌,
  refl, ap, some, List, [], ◌∷◌, ◌++◌, length, get_or, AreOctets, arith, take-append_all,
  length-append,
}
use bee.Common.BigEndian.{
  be_octets, octet_count, be_value, length-be_octets, be_octets-AreOctets, be_value-be_octets,
  octet_count_bounds, octet_count_pos, octet_count_unique, be_octets_head,
}
use native.Mathlib.Nat.{one-le-pow, pow-suc, mul-le-mul_right, mul-le-mul_left, pow-le-pow_right}
use bee.Der.Len.{o_per_s, size_max, l_enc_count, l_enc, l_value, l_dec}

-- The code has the length that `derLEnc` returns, with a buffer and without.
pub length-l_enc : (len : ℕ) → length (l_enc len) ≡ l_enc_count len
unfolding l_enc l_enc_count
length-l_enc len = ground (arith, length-be_octets (octet_count o_per_s len) len)

-- No bit is lost over eight octets, so the reading is that of the unbounded numbers.
pub l_value-eq-be_value :
    (os : List ℕ) (l : ℕ)
    → AreOctets os
    → (l + 1) * 256 ^ length os ≤ 2 ^ 64
    → l_value l os ≡ be_value l os
unfolding l_value be_value
l_value-eq-be_value [] l o b = refl
l_value-eq-be_value (x ∷ os) l o b = rw no_wrap (l_value-eq-be_value os (l * 256 + x) o.1 next)
  where
    power : (l + 1) * 256 ^ suc (length os) ≡ (l + 1) * 256 * 256 ^ length os
    power = omega (arith, ap (λ (t : ℕ). (l + 1) * t) (pow-suc 256 (length os)))

    room : l * 256 + x + 1 ≤ (l + 1) * 256
    room = let h = o.0 in omega arith

    next : (l * 256 + x + 1) * 256 ^ length os ≤ 2 ^ 64
    next = omega (arith, power, mul-le-mul_right (256 ^ length os) room)

    no_wrap : l * 256 % 2 ^ 64 ≡ l * 256
    no_wrap =
        omega
          (arith, power, mul-le-mul_left ((l + 1) * 256) (one-le-pow (length os) 256 (omega arith)))

pub l_value_short : (os : List ℕ) → AreOctets os → length os ≤ 8 → l_value 0 os ≡ be_value 0 os
l_value_short os o h =
    l_value-eq-be_value os 0 o (omega (arith, pow-le-pow_right {n = 256} (omega arith) h))

-- The long form of a number of at least 128.
record IsLong (len r : ℕ) : Type 0 where
  r_pos : 0 < r
  r_le : r ≤ 8
  fits : len < 256 ^ r
  head : get_or (be_octets r len) 0 0 ≢ 0
  head_of_one : r ≡ 1 → 128 ≤ get_or (be_octets r len) 0 0

one_octet : (len r : ℕ) → 128 ≤ len → len < 256 ^ r → r ≡ 1 → 128 ≤ get_or (be_octets r len) 0 0
unfolding be_octets
one_octet len r h b e = let b' : len < 256 = rw e at b in rw e (omega arith)

octet_count-IsLong : (len : ℕ) → 128 ≤ len → len < 2 ^ 64 → IsLong len (octet_count o_per_s len)
octet_count-IsLong len h b = record {
  r_pos = octet_count_pos 8 len (omega arith) (omega arith);
  r_le = (octet_count_bounds 8 len (omega arith)).1;
  fits = (octet_count_bounds 8 len (omega arith)).0;
  head = be_octets_head 8 len (omega arith) (omega arith);
  head_of_one = one_octet len (octet_count 8 len) h (octet_count_bounds 8 len (omega arith)).0;
}

l_dec_long :
    (len r : ℕ) (rest : List ℕ)
    → len < size_max
    → IsLong len r
    → l_dec (((r + 128) % 256) ∷ (be_octets r len ++ rest))
      ≡ some (record { l_count = 1 + r; len = len })
unfolding l_dec
l_dec_long len r rest h v =
    let size = length-be_octets r len in
    ground (
      arith,
      size,
      length-append (be_octets r len) rest,
      take-append_all r (be_octets r len) rest size,
      get_or-append_left (be_octets r len) rest 0 0,
      l_value_short (be_octets r len) (be_octets-AreOctets r len) (omega (arith, size, v.r_le)),
      be_value-be_octets r len v.fits,
      v.head,
      v.head_of_one,
    )

-- A length below SIZE_MAX is read back from its code, whatever follows.
pub l_dec-l_enc :
    (len : ℕ) (rest : List ℕ)
    → len < size_max
    → l_dec (l_enc len ++ rest) ≡ some (record { l_count = l_enc_count len; len = len })
l_dec-l_enc len rest h = elim (Bool-cases (ltb len 128)) [
  | inl short ↦ unfold l_dec l_enc l_enc_count in ground arith
  | inr long ↦
      unfold l_enc l_enc_count in
      rw long (
        l_dec_long len (octet_count o_per_s len) rest h
          (octet_count-IsLong len (ground arith) (omega arith)))
]

pub l_enc_count_bounds : (len : ℕ) → len < 2 ^ 64 → (1 ≤ l_enc_count len) × (l_enc_count len ≤ 9)
unfolding l_enc_count
l_enc_count_bounds len h = ground (arith, octet_count_bounds 8 len h)

pub l_dec_short :
    (o : ℕ) (os : List ℕ) → o < 128 → l_dec (o ∷ os) ≡ some (record { l_count = 1; len = o })
unfolding l_dec
l_dec_short o os h = ground arith

pub l_enc_count_top : (len : ℕ) → 2 ^ 56 ≤ len → len < 2 ^ 64 → l_enc_count len ≡ 9
unfolding l_enc_count
l_enc_count_top len h b = ground (arith, octet_count_unique 8 len 7)
