-- ===== src/Der/Size/Tests.antt =====
-- The size 300 with the tag INTEGER.
use bee.Common.{ℕ, ◌≡◌, refl, some, List, [], ◌∷◌, arith}
use bee.Common.BigEndian.{be_octets, octet_count}
use bee.Der.Tag.{t_is_valid, t_count_of, t_enc}
use bee.Der.Len.{l_enc}
use bee.Der.Size.{size_len, size_enc, size_enc_count, size_dec, size_dec2}
use bee.Der.Size.RoundTrip.{size_dec-size_enc}

abbrev integer_code : List ℕ
integer_code = 2 ∷ 2 ∷ 1 ∷ 44 ∷ []

integer_encoded : size_enc 2 300 ≡ some integer_code
unfolding size_enc size_len t_enc t_is_valid t_count_of octet_count be_octets l_enc
integer_encoded = refl

two_octets_len : size_len 7 300 ≡ 2
unfolding size_len
two_octets_len = refl

-- The buffer ends in front of the value.
size_dec-size_enc_example :
    (size_dec 0 (2 ∷ 2 ∷ 1 ∷ 44 ∷ 5 ∷ []) 2 2 ≡ some (record { count = 4; val = 300 }))
    × (size_dec2 0 (2 ∷ 2 ∷ 1 ∷ 44 ∷ 5 ∷ []) 2 2 300 ≡ some 4)
    × (size_enc_count 2 300 ≡ some 4)
size_dec-size_enc_example =
    size_dec-size_enc 0 2 300 2 integer_code (5 ∷ []) (omega arith) (omega arith) integer_encoded
      (omega (arith, two_octets_len))
