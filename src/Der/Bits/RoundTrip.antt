-- ===== src/Der/Bits/RoundTrip.antt =====
-- `derTBITDec` and `derTBITDec2` against `derTBITEnc`.
use bee.Common.{
  AreOctets, ℕ, suc, ◌+◌, ◌-◌, ◌*◌, ◌/◌, ◌%◌, ◌^◌, ◌<◌, ◌≤◌, ◌≡◌, inl, inr, refl, sym, ap, ◌∙◌,
  some, List, ◌∷◌, ◌++◌, length, take, ◌!=◌, Bool-cases, arith, length-take, take-append,
  take-length,
}
use bee.Der.Tlv.{enc, dec, dec2}
use bee.Der.Tlv.RoundTrip.{dec-enc}
use bee.Der.Bits.Strings.{IsString, length-clear_at, bit_string-IsString}
use bee.Der.Bits.{bit_string, bit_pad, bit_size, bit_enc, is_refused, bit_dec, bit_dec2}

module _ (val : List ℕ) (len : ℕ) (small : len < 2 ^ 64 - 256)
    (holds : length val ≡ (len + 7) / 8) where
  length-bit_string : length (bit_string val len) ≡ length val
  unfolding bit_string
  length-bit_string =
      let count : (len + 7) % 2 ^ 64 / 8 ≡ length val = omega (arith, small, holds) in
      let moved : length (take ((len + 7) % 2 ^ 64 / 8) val) ≡ length val =
        omega (arith, length-take ((len + 7) % 2 ^ 64 / 8) val, count) in
      elim (Bool-cases (len % 8 != 0)) [
        | inl part ↦
            rw part
              (length-clear_at (len / 8) (8 - len % 8) (take ((len + 7) % 2 ^ 64 / 8) val) ∙ moved)
        | inr whole ↦ rw whole moved
      ]

  -- The octet in front and the count of octets determine the length.
  pad_facts :
      (bit_pad len ≤ 7) × (length val * 8 ≡ len + bit_pad len) × (bit_size len ≡ suc (length val))
  unfolding bit_pad bit_size
  pad_facts = ground (arith, small, holds)

  -- The code is that of the padded octets.
  bit_enc-eq :
      (tag : ℕ)
      → let v = bit_pad len ∷ bit_string val len in bit_enc tag val len ≡ enc tag v (length v)
  unfolding bit_enc enc
  bit_enc-eq tag =
      let size : bit_size len ≡ suc (length (bit_string val len)) =
        omega (arith, pad_facts, length-bit_string) in
      rw (size, take-length (bit_string val len)) refl

-- The decoders on what `derDec2` has found.
read_bits :
    (u tag pad n len count : ℕ) (der os rest : List ℕ)
    → dec u der ≡ some (record { count = count; tag = tag; val = (pad ∷ os) ++ rest; len = suc n })
    → length os ≡ n
    → pad ≤ 7
    → n * 8 ≡ len + pad
    → len < 2 ^ 64 - 256
    → (bit_dec u der tag ≡ some (record { count = count; val = os; len = len }))
      × (bit_dec2 u der tag len ≡ some (record { count = count; tag = tag; val = os; len = n }))
unfolding bit_dec bit_dec2 dec2 is_refused
read_bits u tag pad n len count der os rest e size le total small =
    let taken : take n (os ++ rest) ≡ os =
      ap (λ k. take k (os ++ rest)) (sym size) ∙ take-append os rest in
    let back : (n * 8 % 2 ^ 64 + 2 ^ 64 - pad) % 2 ^ 64 ≡ len = omega (arith, total, le, small) in
    let one_less : suc n - 1 ≡ n = omega arith in
    ground (arith, e, taken, back, one_less, le, total, small)

module _ (u tag len : ℕ) (val code rest : List ℕ) (small_tag : tag < 2 ^ 24)
    (small : len < 2 ^ 64 - 256) (are_octets : AreOctets val) (holds : length val ≡ (len + 7) / 8)
    (encoded : bit_enc tag val len ≡ some code) where
  -- For a tag below 2^24 and a string of fewer than 2^64 - 256 bits in its octets: `derTBITDec` and
  -- `derTBITDec2` read back what `derTBITEnc` writes, whatever follows. They return the count of octets
  -- written, `derTBITDec` the length in bits, and as many octets as the string has: each of its bits is
  -- the one that was encoded, and the bits of the last octet behind the string are zero.
  pub bit_dec-bit_enc :
      (os : List ℕ) × IsString val len os
      × (bit_dec u (code ++ rest) tag ≡ some (record { count = length code; val = os; len = len }))
      × (bit_dec2 u (code ++ rest) tag len
          ≡ some (record { count = length code; tag = tag; val = os; len = length val }))
  bit_dec-bit_enc =
      let os = bit_string val len in
      let pad = bit_pad len in
      let size = length-bit_string val len small holds in
      let (le, total, whole) = pad_facts val len small holds in
      let same : enc tag (pad ∷ os) (length (pad ∷ os)) ≡ some code =
        sym (bit_enc-eq val len small holds tag) ∙ encoded in
      let fits : length (pad ∷ os) < 2 ^ 64 - 16 = omega (arith, size, holds, small) in
      let read = dec-enc u tag (pad ∷ os) code rest small_tag fits same in
      let read' : dec u (code ++ rest)
          ≡ some (record {
            count = length code;
            tag = tag;
            val = (pad ∷ os) ++ rest;
            len = suc (length val);
          }) =
        read
        ∙ ap
            (λ (k : ℕ).
              some
                (record { count = length code; tag = tag; val = (pad ∷ os) ++ rest; len = suc k }))
            size in
      let (first, second) =
        read_bits u tag pad (length val) len (length code) (code ++ rest) os rest read' size le
          total small in
      (os, bit_string-IsString val len are_octets small holds, first, second)
