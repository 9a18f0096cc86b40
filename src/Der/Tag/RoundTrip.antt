-- ===== src/Der/Tag/RoundTrip.antt =====
-- `derTDec` against `derTEnc`: tags of one to three octets come back, tags of four do not.
use bee.Common.{
  take-min, min, ◌==◌, ltb, if◌then◌else◌, ◌||◌, take, ℕ, suc, ◌+◌, ◌-◌, ◌*◌, ◌%◌, ◌^◌, ◌<◌, ◌≤◌,
  ◌≡◌, ◌≢◌, ◌⊎◌, ap, ◌∙◌, true, none, some, List, [], ◌∷◌, ◌++◌, arith, length, AreOctets, get_or,
}
use bee.Common.BigEndian.{
  be_octets, be_value, length-be_octets, be_octets-AreOctets, be_value-be_octets,
  octet_count_bounds, be_octets_head, octet_count_unique, octet_count-zero,
}
use bee.Der.Tag.{t_is_valid, t_count_of, t_enc, t_enc_count, t_dec, t_store, t_value, long_loop}
use bee.Der.Tag.Valid.{t_is_valid-two, t_is_valid-three, t_is_valid-four}

-- The octets of a valid tag.
pub record IsTagCode (tag : ℕ) (code : List ℕ) : Type 0 where
  pub octets : AreOctets code
  pub value : be_value 0 code ≡ tag
  pub valid : t_is_valid tag ≡ true
  pub size : length code ≡ t_count_of tag
  pub size_pos : 0 < length code
  pub size_le : length code ≤ 4
  pub head : 1 < length code → get_or code 0 0 ≢ 0

pub t_enc-IsTagCode :
    (tag : ℕ) (code : List ℕ) → tag < 2 ^ 32 → t_enc tag ≡ some code → IsTagCode tag code
unfolding t_enc t_count_of
t_enc-IsTagCode tag code h e = record {
  octets = rw is_code (be_octets-AreOctets (t_count_of tag) tag);
  value = rw is_code (be_value-be_octets (t_count_of tag) tag fits);
  valid = ground arith;
  size = rw is_code (length-be_octets (t_count_of tag) tag);
  size_pos = ground (arith, size);
  size_le = ground (arith, size, octet_count_bounds 4 tag (omega arith));
  head = λ long. rw is_code (
      ground (
        arith,
        size,
        octet_count_bounds 4 tag (omega arith),
        be_octets_head 4 tag (ground (arith, size, octet_count-zero 4)) (omega arith),
      ));
}
  where
    is_code : code ≡ be_octets (t_count_of tag) tag
    is_code = ground arith

    size : length code ≡ t_count_of tag
    size = rw is_code (length-be_octets (t_count_of tag) tag)

    fits : tag < 256 ^ t_count_of tag
    fits = ground (arith, octet_count_bounds 4 tag (omega arith))

-- At most three octets behind the first are looked at.
three_more :
    (b : ℕ) (os : List ℕ) → take (min 4 (suc (length (b ∷ os))) - 1) (b ∷ os) ≡ take 3 (b ∷ os)
three_more b os =
    ap (λ k. take k (b ∷ os))
      (let e : min 4 (suc (length (b ∷ os))) - 1 ≡ min 3 (length (b ∷ os)) = omega arith in e)
    ∙ take-min 3 (b ∷ os)

t_dec-long :
    (u a b : ℕ) (os : List ℕ)
    → a % 32 ≡ 31
    → b % 128 ≢ 0
    → t_dec u (a ∷ b ∷ os) ≡ (
        let long = long_loop (take 3 (b ∷ os)) 0 1 in
        if long.t_count == min 4 (length (a ∷ b ∷ os)) || ltb long.tag 31
        then none
        else some (t_store (a ∷ b ∷ os) long.t_count))
unfolding t_dec
t_dec-long u a b os h k = ground (arith, three_more b os)

module _ (u : ℕ) (r : ℕ) (rest : List ℕ) where
  dec_one :
      (a : ℕ)
      → IsTagCode a (a ∷ [])
      → t_dec u (a ∷ r ∷ rest) ≡ some (record { t_count = 1; tag = a })
  unfolding t_dec t_store t_value t_is_valid
  dec_one a v = ground arith

  dec_two :
      (a b : ℕ)
      → IsTagCode (a * 256 + b) (a ∷ b ∷ [])
      → t_dec u (a ∷ b ∷ r ∷ rest) ≡ some (record { t_count = 2; tag = a * 256 + b })
  unfolding t_store t_value long_loop
  dec_two a b v = ground (arith, t_is_valid-two a b, t_dec-long u a b (r ∷ rest))

  dec_three :
      (a b c : ℕ)
      → IsTagCode ((a * 256 + b) * 256 + c) (a ∷ b ∷ c ∷ [])
      → t_dec u (a ∷ b ∷ c ∷ r ∷ rest)
        ≡ some (record { t_count = 3; tag = (a * 256 + b) * 256 + c })
  unfolding t_store t_value long_loop
  dec_three a b c v = ground (arith, t_is_valid-three a b c, t_dec-long u a b (c ∷ r ∷ rest))

module _ (u : ℕ) (rest : List ℕ) where
  alone_one :
      (a : ℕ) → IsTagCode a (a ∷ []) → t_dec u (a ∷ rest) ≡ some (record { t_count = 1; tag = a })
  unfolding t_dec t_store t_value t_is_valid
  alone_one a v = ground arith

  dec_four :
      (a b c d : ℕ)
      → IsTagCode (((a * 256 + b) * 256 + c) * 256 + d) (a ∷ b ∷ c ∷ d ∷ [])
      → t_dec u (a ∷ b ∷ c ∷ d ∷ rest) ≡ none
  unfolding long_loop
  dec_four a b c d v = ground (arith, t_is_valid-four a b c d, t_dec-long u a b (c ∷ d ∷ rest))

module _ (u : ℕ) where
  end_two : (a b : ℕ) → IsTagCode (a * 256 + b) (a ∷ b ∷ []) → t_dec u (a ∷ b ∷ []) ≡ none
  unfolding long_loop
  end_two a b v = ground (arith, t_is_valid-two a b, t_dec-long u a b [])

  end_three :
      (a b c : ℕ)
      → IsTagCode ((a * 256 + b) * 256 + c) (a ∷ b ∷ c ∷ [])
      → t_dec u (a ∷ b ∷ c ∷ []) ≡ none
  unfolding long_loop
  end_three a b c v = ground (arith, t_is_valid-three a b c, t_dec-long u a b (c ∷ []))

-- The three numbers that the octets of a long tag may stand for.
abbrev Long : ℕ → List ℕ → Type 0
Long tag rest = (tag < 2 ^ 24) × (0 < length rest)

dec_code :
    (u tag : ℕ) (code rest : List ℕ)
    → IsTagCode tag code
    → (tag < 256) ⊎ Long tag rest
    → t_dec u (code ++ rest) ≡ some (record { t_count = length code; tag = tag })
unfolding be_value
dec_code u tag [] rest v h = absurd (omega (arith, v.size_pos))
dec_code u tag (a ∷ []) rest v h =
    let e : tag ≡ a = omega (arith, v.value) in rw e (alone_one u rest a (rw e at v))
dec_code u tag (a ∷ b ∷ []) [] v h = absurd (ground (arith, v.value, v.head))
dec_code u tag (a ∷ b ∷ []) (r ∷ rest) v h =
    let e : tag ≡ a * 256 + b = omega (arith, v.value) in rw e (dec_two u r rest a b (rw e at v))
dec_code u tag (a ∷ b ∷ c ∷ []) [] v h = absurd (ground (arith, v.value, v.head))
dec_code u tag (a ∷ b ∷ c ∷ []) (r ∷ rest) v h =
    let e : tag ≡ (a * 256 + b) * 256 + c = omega (arith, v.value) in
    rw e (dec_three u r rest a b c (rw e at v))
dec_code u tag (a ∷ b ∷ c ∷ d ∷ []) rest v h = absurd (ground (arith, v.value, v.head))
dec_code u tag (a ∷ b ∷ c ∷ d ∷ f ∷ code) rest v h = absurd (omega (arith, v.size_le))

-- A tag of one octet is read back whatever follows; one of two or three octets, if at least one more
-- octet follows.
pub t_dec-t_enc :
    (u tag : ℕ) (code rest : List ℕ)
    → (tag < 256) ⊎ ((tag < 2 ^ 24) × (0 < length rest))
    → t_enc tag ≡ some code
    → t_dec u (code ++ rest) ≡ some (record { t_count = length code; tag = tag })
t_dec-t_enc u tag code rest h e =
    dec_code u tag code rest (t_enc-IsTagCode tag code (omega arith) e) h

fail_code :
    (u tag : ℕ) (code rest : List ℕ)
    → IsTagCode tag code
    → (2 ^ 24 ≤ tag) ⊎ ((256 ≤ tag) × (rest ≡ []))
    → t_dec u (code ++ rest) ≡ none
unfolding be_value
fail_code u tag [] rest v h = absurd (omega (arith, v.size_pos))
fail_code u tag (a ∷ []) rest v h = absurd (ground (arith, v.value))
fail_code u tag (a ∷ b ∷ []) [] v h =
    let e : tag ≡ a * 256 + b = omega (arith, v.value) in end_two u a b (rw e at v)
fail_code u tag (a ∷ b ∷ []) (r ∷ rest) v h = absurd (ground (arith, v.value))
fail_code u tag (a ∷ b ∷ c ∷ []) [] v h =
    let e : tag ≡ (a * 256 + b) * 256 + c = omega (arith, v.value) in end_three u a b c (rw e at v)
fail_code u tag (a ∷ b ∷ c ∷ []) (r ∷ rest) v h = absurd (ground (arith, v.value))
fail_code u tag (a ∷ b ∷ c ∷ d ∷ []) rest v h =
    let e : tag ≡ ((a * 256 + b) * 256 + c) * 256 + d = omega (arith, v.value) in
    dec_four u rest a b c d (rw e at v)
fail_code u tag (a ∷ b ∷ c ∷ d ∷ f ∷ code) rest v h = absurd (omega (arith, v.size_le))

-- The codes that `derTEnc` writes and `derTDec` refuses: those of four octets always, and those of two
-- or three at the end of the buffer.
pub t_dec-t_enc_fails :
    (u tag : ℕ) (code rest : List ℕ)
    → tag < 2 ^ 32
    → (2 ^ 24 ≤ tag) ⊎ ((256 ≤ tag) × (rest ≡ []))
    → t_enc tag ≡ some code
    → t_dec u (code ++ rest) ≡ none
t_dec-t_enc_fails u tag code rest b h e = fail_code u tag code rest (t_enc-IsTagCode tag code b e) h

-- A long tag cut behind its first octet, or with a first group of zeros, is accepted with a count of 0,
-- and the tag is what it was before.
pub t_dec_zero :
    (u a : ℕ) (os : List ℕ)
    → a % 32 ≡ 31
    → (os ≡ []) ⊎ (get_or os 0 0 % 128 ≡ 0)
    → t_dec u (a ∷ os) ≡ some (record { t_count = 0; tag = u })
unfolding t_dec
t_dec_zero u a [] h k = ground arith
t_dec_zero u a (b ∷ os) h k = ground arith

-- The code has the length that `derTEnc` returns, with a buffer and without.
pub length-t_enc :
    (tag : ℕ) (code : List ℕ) → t_enc tag ≡ some code → t_enc_count tag ≡ some (length code)
unfolding t_enc t_enc_count
length-t_enc tag code e = ground (arith, length-be_octets (t_count_of tag) tag)

pub length-t_enc_one :
    (tag : ℕ) (code : List ℕ) → tag < 256 → t_enc tag ≡ some code → length code ≡ 1
unfolding t_enc t_count_of
length-t_enc_one tag code h e =
    ground
      (arith, length-be_octets (t_count_of tag) tag, octet_count-zero 4, octet_count_unique 4 tag 0)
