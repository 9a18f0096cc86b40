-- ===== src/Der/Tlv/RoundTrip.antt =====
-- `derDec` against `derEnc`.
use bee.Common.{
  drop_two, eq_nil, >>=-eq-some, ◌↔◌, ℕ, ◌+◌, ◌-◌, ◌^◌, ◌<◌, ◌≡◌, inr, refl, ap, ◌∙◌, true, some,
  List, [], ◌++◌, arith, length, take, drop, length-append, drop-append, take-length, append_assoc,
}
use bee.Der.Tag.{t_enc, t_enc_count, t_dec}
use bee.Der.Tag.RoundTrip.{t_enc-IsTagCode, t_dec-t_enc}
use bee.Der.Len.{l_enc, l_enc_count, l_dec}
use bee.Der.Len.Laws.{l_dec-l_enc, length-l_enc, l_enc_count_bounds}
use bee.Der.Tlv.{tl_dec, tl_enc, enc, is_valid, is_valid2, dec}

-- Both fields are read back in front of any octets.
pub tl_dec_lem :
    (u tag len : ℕ) (t rest : List ℕ)
    → tag < 2 ^ 24
    → len < 2 ^ 64 - 1
    → t_enc tag ≡ some t
    → tl_dec u (t ++ (l_enc len ++ rest))
      ≡ some (record { count = length t + l_enc_count len; tag = tag; len = len })
unfolding tl_dec
tl_dec_lem u tag len t rest h b e = ground (
  arith,
  t_dec-t_enc u tag t (l_enc len ++ rest) (inr (h, follows)) e,
  drop-append t (l_enc len ++ rest),
  l_dec-l_enc len rest b,
  length-append t (l_enc len ++ rest),
  length-append (l_enc len) rest,
  length-l_enc len,
)
  where
    follows : 0 < length (l_enc len ++ rest)
    follows = omega (
      arith,
      length-append (l_enc len) rest,
      length-l_enc len,
      l_enc_count_bounds len (omega arith),
    )

-- What a successful `derTLEnc` has written.
tl_enc-parts :
    (tag len : ℕ) (code : List ℕ)
    → tl_enc tag len ≡ some code
    → (t : List ℕ) × (t_enc tag ≡ some t) × (code ≡ t ++ l_enc len)
unfolding tl_enc
tl_enc-parts tag len code e =
    let (n, en, e1) = >>=-eq-some (t_enc_count tag) _ e in
    let (t, et, e2) = >>=-eq-some (t_enc tag) _ e1 in (t, et, ground arith)

enc-parts :
    (tag : ℕ) (val : List ℕ) (len : ℕ) (code : List ℕ)
    → enc tag val len ≡ some code
    → (t : List ℕ) × (t_enc tag ≡ some t) × (code ≡ t ++ (l_enc len ++ take len val))
unfolding enc
enc-parts tag val len code e =
    let (n, en, e1) = >>=-eq-some (t_enc_count tag) _ e in
    let (t, et, e2) = >>=-eq-some (t_enc tag) _ e1 in (t, et, ground arith)

-- `derTLDec` reads back what `derTLEnc` writes, whatever follows.
pub tl_dec-tl_enc :
    (u tag len : ℕ) (code rest : List ℕ)
    → tag < 2 ^ 24
    → len < 2 ^ 64 - 1
    → tl_enc tag len ≡ some code
    → tl_dec u (code ++ rest) ≡ some (record { count = length code; tag = tag; len = len })
tl_dec-tl_enc u tag len code rest h b e =
    let (t, et, is_code) = tl_enc-parts tag len code e in
    rw (is_code, append_assoc, length-append, length-l_enc) (tl_dec_lem u tag len t rest h b et)

module _ (u tag : ℕ) (val code rest : List ℕ) (small : tag < 2 ^ 24)
    (fits : length val < 2 ^ 64 - 16) (encoded : enc tag val (length val) ≡ some code) where
  parts :
      (t : List ℕ) × (t_enc tag ≡ some t)
      × (code ≡ t ++ (l_enc (length val) ++ val))
      × (length code ≡ length t + l_enc_count (length val) + length val)
  parts =
      let (t, et, is_code) = enc-parts tag val (length val) code encoded in
      let is_code' : code ≡ t ++ (l_enc (length val) ++ val) =
        is_code ∙ ap (λ v. t ++ (l_enc (length val) ++ v)) (take-length val) in
      (
        t,
        et,
        is_code',
        rw is_code' (
            omega (
              arith,
              length-append t (l_enc (length val) ++ val),
              length-append (l_enc (length val)) val,
              length-l_enc (length val),
            )),
      )

  length-enc : length code < length val + 16
  length-enc =
      let (t, et, is_code, size) = parts in
      omega (
        arith,
        size,
        (t_enc-IsTagCode tag t (omega arith) et).size_le,
        l_enc_count_bounds (length val) (omega arith),
      )

  -- For a tag below 2^24, of at most three octets, and a value of fewer than 2^64 - 16 octets: `derDec` reads
  -- back what `derEnc` writes, whatever follows: the tag, the length, and the value at the front of the
  -- octets from the value on. The count is that of the octets written.
  pub dec-enc :
      dec u (code ++ rest)
      ≡ some (record { count = length code; tag = tag; val = val ++ rest; len = length val })
  unfolding dec
  dec-enc =
      let (t, et, is_code, size) = parts in
      let l = l_enc (length val) in
      let whole : code ++ rest ≡ t ++ (l ++ (val ++ rest)) =
        ap (λ c. c ++ rest) is_code
        ∙ append_assoc t (l ++ val) rest
        ∙ ap (λ c. t ++ c) (append_assoc l val rest) in
      let behind : drop (length t + l_enc_count (length val)) (code ++ rest) ≡ val ++ rest =
        rw whole (
          drop_two (length t) (l_enc_count (length val)) t l (val ++ rest) refl
            (length-l_enc (length val))) in
      ground (
        arith,
        whole,
        behind,
        size,
        length-enc,
        length-append code rest,
        tl_dec_lem u tag (length val) t (val ++ rest) small (omega arith) et,
      )

  -- For a tag below 2^24, of at most three octets, and a value of fewer than 2^64 - 16 octets: what `derEnc`
  -- writes passes `derIsValid` and `derIsValid2` alone; with octets behind it, it passes neither.
  pub is_valid-enc :
      ((is_valid (code ++ rest) ≡ true) ↔ (rest ≡ []))
      × ((is_valid2 u (code ++ rest) tag ≡ true) ↔ (rest ≡ []))
  unfolding is_valid is_valid2
  is_valid-enc =
      let (t, et, is_code, size) = parts in
      let l = l_enc (length val) in
      let whole : code ++ rest ≡ t ++ (l ++ (val ++ rest)) =
        ap (λ c. c ++ rest) is_code
        ∙ append_assoc t (l ++ val) rest
        ∙ ap (λ c. t ++ c) (append_assoc l val rest) in
      let follows : 0 < length (l ++ (val ++ rest)) = omega (
        arith,
        length-append l (val ++ rest),
        length-l_enc (length val),
        l_enc_count_bounds (length val) (omega arith),
      ) in
      let tag_read = λ (v : ℕ).
        ap (t_dec v) whole ∙ t_dec-t_enc v tag t (l ++ (val ++ rest)) (inr (small, follows)) et in
      let behind : drop (length t) (code ++ rest) ≡ l ++ (val ++ rest) =
        rw whole (drop-append t (l ++ (val ++ rest))) in
      let len_read = ap l_dec behind ∙ l_dec-l_enc (length val) (val ++ rest) (omega arith) in
      ground (
        arith,
        tag_read 0,
        tag_read u,
        len_read,
        size,
        length-enc,
        length-append code rest,
        eq_nil rest,
      )
