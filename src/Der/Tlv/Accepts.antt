-- ===== src/Der/Tlv/Accepts.antt =====
-- What `derDec` and `derIsValid` accept of octets that no encoder has written.
use native.Mathlib.Nat.{mod-eq_of_lt}
use bee.Common.{
  [], ℕ, ◌+◌, ◌-◌, ◌%◌, ◌^◌, ◌<◌, ◌≤◌, ◌≡◌, inr, refl, true, some, List, ◌∷◌, ◌++◌, arith, length,
  drop, take, length-take, take-append-drop, sym, ap, ◌∙◌, get_or, length-append, >>=-eq-some,
  length-drop, drop_two,
}
use bee.Der.Tag.{t_enc, t_dec}
use bee.Der.Tag.RoundTrip.{t_dec_zero, length-t_enc_one}
use bee.Der.Len.{l_enc, l_enc_count, LenDec, l_dec}
use bee.Der.Len.Laws.{length-l_enc, l_dec_short, l_enc_count_top}
use bee.Der.Tlv.{TlDec, tl_dec, is_valid, Tlv, dec}
use bee.Der.Tlv.RoundTrip.{tl_dec_lem}

l_dec-pos : (der : List ℕ) (l : LenDec) → l_dec der ≡ some l → 1 ≤ l.l_count
unfolding l_dec
l_dec-pos [] l e = ground (arith, e)
l_dec-pos (o ∷ der) l e = ground (arith, e)

-- A header lies within the buffer and has an octet of the length.
tl_dec-le :
    (u : ℕ) (der : List ℕ) (d : TlDec)
    → tl_dec u der ≡ some d
    → (d.count ≤ length der) × (1 ≤ d.count)
unfolding tl_dec
tl_dec-le u der d e =
    let (t, et, e1) = >>=-eq-some (t_dec u der) _ e in
    let (l, el, e2) = >>=-eq-some (l_dec (drop t.t_count der)) _ e1 in
    ground (arith, l_dec-pos (drop t.t_count der) l el)

-- What a successful `derDec` has read, where the sum of the lengths does not wrap.
dec-parts :
    (u : ℕ) (der : List ℕ) (d : Tlv)
    → d.len + length der < 2 ^ 64
    → dec u der ≡ some d
    → (tl : TlDec) × (tl_dec u der ≡ some tl)
      × (d.tag ≡ tl.tag)
      × (d.len ≡ tl.len)
      × (d.val ≡ drop tl.count der)
      × ((d.count ≡ tl.count + d.len) × (d.count ≤ length der))
unfolding dec
dec-parts u der d b e =
    let (tl, et, e1) = >>=-eq-some (tl_dec u der) _ e in
    let (le, pos) = tl_dec-le u der tl et in
    let same : d.len ≡ tl.len = ground arith in
    let whole : (tl.count + tl.len) % 2 ^ 64 ≡ tl.count + tl.len =
      mod-eq_of_lt (omega (arith, b, le, same)) in
    (tl, et, ground arith, same, ground arith, (ground (arith, whole), ground arith))

-- Where the length of the value and that of the buffer add up to less than 2^64, a code that `derDec`
-- accepts is a header of at least one octet, which `derTLDec` reads with the same tag and length, the value
-- of that length, and further octets. The value is given from the end of the header on, and what is
-- returned is the place of its end.
pub dec-fits :
    (u : ℕ) (der : List ℕ) (d : Tlv)
    → d.len + length der < 2 ^ 64
    → dec u der ≡ some d
    → (header value rest : List ℕ) × (der ≡ header ++ (value ++ rest))
      × (tl_dec u der ≡ some (record { count = length header; tag = d.tag; len = d.len }))
      × (1 ≤ length header)
      × (length value ≡ d.len)
      × (d.val ≡ value ++ rest)
      × (d.count ≡ length header + length value)
dec-fits u der d b e =
    let (tl, et, same_tag, same_len, is_val, no_wrap) = dec-parts u der d b e in
    let (le, pos) = tl_dec-le u der tl et in
    let header = take tl.count der in
    let behind = drop tl.count der in
    let value = take d.len behind in
    let size : length header ≡ tl.count = omega (arith, length-take tl.count der, le) in
    let size_value : length value ≡ d.len =
      omega (arith, length-take d.len behind, length-drop tl.count der, no_wrap) in
    let split : value ++ drop d.len behind ≡ behind = take-append-drop d.len behind in
    (
      header,
      value,
      drop d.len behind,
      sym (take-append-drop tl.count der) ∙ ap (λ t. header ++ t) (sym split),
      rw (size, same_tag, same_len) et,
      omega (arith, pos, size),
      size_value,
      is_val ∙ sym split,
      omega (arith, size, size_value, no_wrap),
    )

-- A length close to 2^64 wraps in `tl_count + *len`: the code is accepted with fewer octets returned than
-- the header has, though the value would end far behind the buffer.
pub dec_wraps :
    (u tag len : ℕ) (t rest : List ℕ)
    → tag < 256
    → 2 ^ 64 - 10 ≤ len
    → len < 2 ^ 64 - 1
    → t_enc tag ≡ some t
    → dec u (t ++ (l_enc len ++ rest))
      ≡ some (record { count = len + 10 - 2 ^ 64; tag = tag; val = rest; len = len })
unfolding dec
dec_wraps u tag len t rest h lo hi e = ground (
  arith,
  tl_dec_lem u tag len t rest (omega arith) hi e,
  length-t_enc_one tag t h e,
  l_enc_count_top len (omega arith) (omega arith),
  length-append t (l_enc len ++ rest),
  length-append (l_enc len) rest,
  length-l_enc len,
  drop_two (length t) (l_enc_count len) t (l_enc len) rest refl (length-l_enc len),
)

-- A tag code that `derTDec` answers with 0 passes `derIsValid`, its first octet read again as a length:
-- every string of 1 + a octets that begins with a = 31, 63, 95 or 127 and an octet of which the low seven
-- bits are zero.
pub is_valid_zero_tag :
    (a : ℕ) (os : List ℕ)
    → a % 32 ≡ 31
    → a < 128
    → length os ≡ a
    → get_or os 0 0 % 128 ≡ 0
    → is_valid (a ∷ os) ≡ true
unfolding is_valid
is_valid_zero_tag a os h b size zero_group =
    ground (arith, t_dec_zero 0 a os h (inr zero_group), l_dec_short a os)
