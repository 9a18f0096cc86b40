-- ===== src/Der/Bits/Tests.antt =====
-- A string of thirteen bits with the tag BIT STRING.
use bee.Common.{ℕ, ◌≡◌, refl, some, List, [], ◌∷◌, ◌++◌, arith}
use bee.Common.BigEndian.{be_octets, octet_count}
use bee.Der.Tag.{t_is_valid, t_count_of, t_enc, t_enc_count}
use bee.Der.Len.{l_enc, l_enc_count}
use bee.Der.Bits.{clear_at, bit_pad, bit_size, bit_string, bit_enc, bit_dec, bit_dec2}
use bee.Der.Bits.Strings.{IsString}
use bee.Der.Bits.RoundTrip.{bit_dec-bit_enc}

abbrev thirteen_bits : List ℕ
thirteen_bits = 0xb5 ∷ 0xff ∷ []

abbrev bits_code : List ℕ
bits_code = 3 ∷ 3 ∷ 3 ∷ 0xb5 ∷ 0xf8 ∷ []

bits_encoded : bit_enc 3 thirteen_bits 13 ≡ some bits_code
unfolding bit_enc bit_pad bit_size bit_string clear_at t_enc t_enc_count t_is_valid t_count_of
    octet_count be_octets l_enc l_enc_count
bits_encoded = refl

bit_dec-bit_enc_example :
    (os : List ℕ) × IsString thirteen_bits 13 os
    × (bit_dec 0 (bits_code ++ (7 ∷ [])) 3 ≡ some (record { count = 5; val = os; len = 13 }))
    × (bit_dec2 0 (bits_code ++ (7 ∷ [])) 3 13
        ≡ some (record { count = 5; tag = 3; val = os; len = 2 }))
bit_dec-bit_enc_example =
    bit_dec-bit_enc 0 3 13 thirteen_bits bits_code (7 ∷ []) (omega arith) (omega arith)
      (omega arith, (omega arith, tt)) refl bits_encoded
