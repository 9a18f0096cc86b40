-- ===== src/Der/Tests.antt =====
-- The encoding rules at concrete octets.
use bee.Common.{
  ℕ, ◌+◌, ◌-◌, ◌*◌, ◌%◌, ◌^◌, ◌<◌, ◌≤◌, ◌≡◌, ◌↔◌, inl, inr, refl, true, false, none, some, List, [],
  ◌∷◌, ◌++◌, arith, length, replicate,
}
use bee.Common.BigEndian.{be_octets, octet_count}
use bee.Der.Tag.{t_is_valid, valid_loop, valid_end, t_count_of, t_enc, t_enc_count, t_dec}
use bee.Der.Tag.Valid.{t_is_valid-two}
use bee.Der.Tag.RoundTrip.{t_dec-t_enc, t_dec-t_enc_fails, t_dec_zero}
use bee.Der.Len.{l_enc, l_enc_count, l_dec, l_value}
use bee.Der.Len.Canonical.{IsCanonical, l_dec-IsCanonical}
use bee.Der.Tlv.{tl_dec, tl_enc, enc, dec, is_valid, is_valid2, Tlv}
use bee.Der.Tlv.RoundTrip.{dec-enc, is_valid-enc}
use bee.Der.Tlv.Accepts.{dec-fits, dec_wraps, is_valid_zero_tag}

-- Tags: OCTET STRING, and an application tag in two and in four octets.
octet_string : t_enc 4 ≡ some (4 ∷ [])
unfolding t_enc t_is_valid t_count_of octet_count be_octets
octet_string = refl

two_octets : t_enc 0x7f21 ≡ some (0x7f ∷ 0x21 ∷ [])
unfolding t_enc t_is_valid t_count_of octet_count be_octets valid_loop valid_end
two_octets = refl

four_octets : t_enc 0x7f818101 ≡ some (0x7f ∷ 0x81 ∷ 0x81 ∷ 1 ∷ [])
unfolding t_enc t_is_valid t_count_of octet_count be_octets valid_loop valid_end
four_octets = refl

-- The number 640 in its shortest form is refused.
round_number : t_is_valid 0x1f8500 ≡ false
unfolding t_is_valid valid_loop valid_end
round_number = refl

t_is_valid-two_example :
    (t_is_valid (0x7f * 256 + 0x21) ≡ true)
    ↔ (◌≡◌ {A = ℕ} (0x7f % 32) 31 × (31 ≤ 0x21) × (0x21 < 128))
t_is_valid-two_example = t_is_valid-two 0x7f 0x21 (omega arith) (omega arith) (omega arith)

t_dec-t_enc_example : t_dec 0 (0x7f ∷ 0x21 ∷ 5 ∷ []) ≡ some (record { t_count = 2; tag = 0x7f21 })
t_dec-t_enc_example =
    t_dec-t_enc 0 0x7f21 (0x7f ∷ 0x21 ∷ []) (5 ∷ []) (inr (omega arith, omega arith)) two_octets

t_dec-t_enc_fails_example : t_dec 0 (0x7f ∷ 0x81 ∷ 0x81 ∷ 1 ∷ 9 ∷ []) ≡ none
t_dec-t_enc_fails_example =
    t_dec-t_enc_fails 0 0x7f818101 (0x7f ∷ 0x81 ∷ 0x81 ∷ 1 ∷ []) (9 ∷ []) (omega arith)
      (inl (omega arith)) four_octets

t_dec_zero_example : t_dec 7 (0x1f ∷ 0 ∷ 3 ∷ []) ≡ some (record { t_count = 0; tag = 7 })
t_dec_zero_example = t_dec_zero 7 0x1f (0 ∷ 3 ∷ []) refl (inr refl)

-- Lengths.
long_length : l_dec (0x82 ∷ 1 ∷ 0x2c ∷ 1 ∷ []) ≡ some (record { l_count = 3; len = 300 })
unfolding l_dec l_value
long_length = refl

l_dec-IsCanonical_example :
    IsCanonical (0x82 ∷ 1 ∷ 0x2c ∷ 1 ∷ []) (record { l_count = 3; len = 300 })
l_dec-IsCanonical_example = l_dec-IsCanonical (0x82 ∷ 1 ∷ 0x2c ∷ 1 ∷ []) _ (omega arith) long_length

-- Triples.
abbrev triple : List ℕ
triple = 4 ∷ 2 ∷ 7 ∷ 8 ∷ []

triple_code : enc 4 (7 ∷ 8 ∷ []) 2 ≡ some triple
unfolding enc t_enc t_enc_count t_is_valid t_count_of octet_count be_octets l_enc l_enc_count
triple_code = refl

pair_code : tl_enc 4 2 ≡ some (4 ∷ 2 ∷ [])
unfolding tl_enc t_enc t_enc_count t_is_valid t_count_of octet_count be_octets l_enc l_enc_count
pair_code = refl

dec-enc_example :
    dec 0 (triple ++ (5 ∷ [])) ≡ some (record { count = 4; tag = 4; val = 7 ∷ 8 ∷ 5 ∷ []; len = 2 })
dec-enc_example = dec-enc 0 4 (7 ∷ 8 ∷ []) triple (5 ∷ []) (omega arith) (omega arith) triple_code

is_valid-enc_example :
    ((is_valid (triple ++ (5 ∷ [])) ≡ true) ↔ (◌≡◌ {A = List ℕ} (5 ∷ []) []))
    × ((is_valid2 0 (triple ++ (5 ∷ [])) 4 ≡ true) ↔ (◌≡◌ {A = List ℕ} (5 ∷ []) []))
is_valid-enc_example =
    is_valid-enc 0 4 (7 ∷ 8 ∷ []) triple (5 ∷ []) (omega arith) (omega arith) triple_code

abbrev decoded : Tlv
decoded = record { count = 4; tag = 4; val = 7 ∷ 8 ∷ 5 ∷ []; len = 2 }

dec-fits_example :
    (header value rest : List ℕ) × (triple ++ (5 ∷ []) ≡ header ++ (value ++ rest))
    × (tl_dec 0 (triple ++ (5 ∷ [])) ≡ some (record { count = length header; tag = 4; len = 2 }))
    × (1 ≤ length header)
    × (length value ≡ 2)
    × (7 ∷ 8 ∷ 5 ∷ [] ≡ value ++ rest)
    × (4 ≡ length header + length value)
dec-fits_example = dec-fits 0 (triple ++ (5 ∷ [])) decoded (omega arith) dec-enc_read
  where
    dec-enc_read : dec 0 (triple ++ (5 ∷ [])) ≡ some decoded
    dec-enc_read = dec-enc 0 4 (7 ∷ 8 ∷ []) triple (5 ∷ []) (omega arith) (omega arith) triple_code

dec_wraps_example :
    dec 0 ((4 ∷ []) ++ (l_enc (2 ^ 64 - 2) ++ []))
    ≡ some (record { count = 8; tag = 4; val = []; len = 2 ^ 64 - 2 })
dec_wraps_example =
    dec_wraps 0 4 (2 ^ 64 - 2) (4 ∷ []) [] (omega arith) (omega arith) (omega arith) octet_string

is_valid_zero_tag_example : is_valid (31 ∷ replicate 31 0) ≡ true
is_valid_zero_tag_example = is_valid_zero_tag 31 (replicate 31 0) refl (omega arith) refl refl
