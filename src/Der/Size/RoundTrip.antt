-- ===== src/Der/Size/RoundTrip.antt =====
-- `derTSIZEDec` against `derTSIZEEnc`.
use bee.Common.{
  ℕ, zero, suc, ◌+◌, ◌^◌, ◌<◌, ◌≤◌, ◌≡◌, inr, refl, sym, ap, ap₂, ◌∙◌, false, some, List, [], ◌∷◌,
  ◌++◌, length, take, drop, arith, length-append, append_assoc, drop-append, take-append, drop_two,
  >>=-eq-some,
}
use bee.Common.BigEndian.{be_octets, length-be_octets}
use bee.Der.Tag.{t_enc}
use bee.Der.Tag.RoundTrip.{t_dec-t_enc}
use bee.Der.Len.{l_enc, l_enc_count, l_value}
use bee.Der.Len.Laws.{l_dec_short, length-l_enc}
use bee.Der.Size.{size_len, size_enc, size_enc_count, is_refused, size_dec, size_dec2}
use bee.Der.Size.Octets.{size_len_bounds, octets-accepted, l_value-be_octets}
use native.Mathlib.Nat.{pow-suc}

-- What a successful `derTSIZEEnc` has written.
size_enc-parts :
    (tag val : ℕ) (code : List ℕ)
    → size_enc tag val ≡ some code
    → (t : List ℕ) × (t_enc tag ≡ some t)
      × (code ≡ t ++ (l_enc (size_len 7 val) ++ be_octets (size_len 7 val) val))
unfolding size_enc
size_enc-parts tag val code e =
    let (t, et, e1) = >>=-eq-some (t_enc tag) _ e in (t, et, ground arith)

-- A length of nine octets at most is one octet.
short_len : (len : ℕ) → len ≤ 9 → l_enc len ≡ len ∷ []
unfolding l_enc
short_len len h = ground arith

-- What stands in a buffer that covers the tag and the length.
take_two :
    (t rest : List ℕ) (o count : ℕ)
    → length t + 1 ≤ count
    → (ys : List ℕ) × (take count (t ++ (o ∷ rest)) ≡ t ++ (o ∷ ys))
take_two [] rest o zero h = absurd (omega (arith, h))
take_two [] rest o (suc count) h = (take count rest, refl)
take_two (x ∷ t) rest o zero h = absurd (omega (arith, h))
take_two (x ∷ t) rest o (suc count) h =
    let (ys, e) = take_two t rest o count (omega (arith, h)) in (ys, ap (λ v. x ∷ v) e)

-- The decoder on a code in parts.
size_dec_lem :
    (u tag val count k : ℕ) (t os rest : List ℕ)
    → tag < 2 ^ 24
    → t_enc tag ≡ some t
    → k ≤ 9
    → length os ≡ k
    → is_refused k (os ++ rest) ≡ false
    → l_value 0 os ≡ val
    → length t + 1 ≤ count
    → size_dec u (t ++ (k ∷ (os ++ rest))) count tag
      ≡ some (record { count = length t + 1 + k; val = val })
unfolding size_dec
size_dec_lem u tag val count k t os rest small et le size accepted number covered =
    let (ys, buffer) = take_two t (os ++ rest) k count covered in
    let follows : 0 < length (k ∷ ys) = omega arith in
    let tag_read = t_dec-t_enc u tag t (k ∷ ys) (inr (small, follows)) et in
    let value : drop (length t + 1) (t ++ (k ∷ (os ++ rest))) ≡ os ++ rest =
      drop_two (length t) 1 t (k ∷ []) (os ++ rest) refl refl in
    let taken : take k (os ++ rest) ≡ os =
      ap (λ n. take n (os ++ rest)) (sym size) ∙ take-append os rest in
    ground (
      arith,
      buffer,
      tag_read,
      drop-append t (k ∷ ys),
      l_dec_short k ys (omega (arith, le)),
      value,
      taken,
    )

second :
    (u : ℕ) (mem : List ℕ) (count tag val n : ℕ)
    → size_dec u mem count tag ≡ some (record { count = n; val = val })
    → size_dec2 u mem count tag val ≡ some n
unfolding size_dec2
second u mem count tag val n e = ground (arith, e)

module _ (u tag val count : ℕ) (code rest : List ℕ) (small : tag < 2 ^ 24) (fits : val < 2 ^ 64)
    (encoded : size_enc tag val ≡ some code) (covered : length code ≤ count + size_len 7 val) where
  -- `derTSIZEDec` and `derTSIZEDec2` read back what `derTSIZEEnc` writes, whatever follows, for every tag
  -- below 2^24 and every size, and return the count of octets written, which
  -- is also what `derTSIZEEnc` returns. The buffer may end anywhere behind
  -- the tag and the length: the octets of the value are read although they lie behind it.
  pub size_dec-size_enc :
      (size_dec u (code ++ rest) count tag ≡ some (record { count = length code; val = val }))
      × (size_dec2 u (code ++ rest) count tag val ≡ some (length code))
      × (size_enc_count tag val ≡ some (length code))
  size_dec-size_enc =
      let (t, et, is_code) = size_enc-parts tag val code encoded in
      let (r, size, le, lt, least) = size_len_bounds 7 val (omega (arith, fits)) in
      let k = suc r in
      let os = be_octets k val in
      let size_os : length os ≡ k = length-be_octets k val in
      let one_octet : l_enc (size_len 7 val) ≡ k ∷ [] =
        ap l_enc size ∙ short_len k (omega (arith, le)) in
      let code' : code ≡ t ++ (k ∷ os) =
        is_code ∙ ap₂ (λ l v. t ++ (l ++ v)) one_octet (ap (λ n. be_octets n val) size) in
      let total : length code ≡ length t + 1 + k =
        ap length code' ∙ omega (arith, length-append t (k ∷ os), size_os) in
      let whole : code ++ rest ≡ t ++ (k ∷ (os ++ rest)) =
        ap (λ c. c ++ rest) code' ∙ append_assoc t (k ∷ os) rest in
      let number =
        l_value-be_octets r val (omega (arith, le)) fits (omega (arith, lt, pow-suc 256 r)) in
      let accepted = octets-accepted r val rest (omega (arith, le)) fits lt least in
      let read =
        size_dec_lem u tag val count k t os rest small et (omega (arith, le)) size_os accepted
          number (omega (arith, covered, total, size)) in
      let read' : size_dec u (code ++ rest) count tag
          ≡ some (record { count = length code; val = val }) =
        rw (whole, total) read in
      (
        read',
        second u (code ++ rest) count tag val (length code) read',
        count_returned t et one_octet size total,
      )
    where
      count_returned :
          (t : List ℕ)
          → {k : ℕ} → t_enc tag ≡ some t
          → l_enc (size_len 7 val) ≡ k ∷ []
          → size_len 7 val ≡ k
          → length code ≡ length t + 1 + k
          → size_enc_count tag val ≡ some (length code)
      count_returned t et one_octet size total =
          unfold size_enc_count in
          let one : l_enc_count (size_len 7 val) ≡ 1 =
            sym (length-l_enc (size_len 7 val)) ∙ ap length one_octet in
          ground (arith, et, one, size, total)
