-- ===== src/Der/Len.antt =====
-- The length field: `derLEnc` and `derLDec` of src/core/der.c.
pub mod Laws
pub mod Canonical
use bee.Common.{
  ℕ, zero, suc, ◌+◌, ◌-◌, ◌*◌, ◌/◌, ◌%◌, ◌^◌, ◌<◌, ◌≤◌, ◌&&◌, ◌||◌, Option, none, some, List, [],
  ◌∷◌, ◌++◌, length, take, drop, get_or, ltb, leb, ◌==◌, if◌then◌else◌,
}
use bee.Common.BigEndian.{be_octets, octet_count}

abbrev pub o_per_s : ℕ
o_per_s = 8

abbrev pub size_max : ℕ
size_max = 2 ^ 64 - 1

-- The value that `derLEnc` returns.
unfoldable pub l_enc_count : ℕ → ℕ
l_enc_count len = if ltb len 128 then 1 else 1 + octet_count o_per_s len

-- `derLEnc`: the octets written.
unfoldable pub l_enc : ℕ → List ℕ
l_enc len =
    if ltb len 128
    then len % 256 ∷ []
    else let r = octet_count o_per_s len in ((r + 128) % 256) ∷ be_octets r len

-- `l <<= 8, l |= (size_t)der[r]` over the octets, in `size_t`.
unfoldable pub l_value : ℕ → List ℕ → ℕ
l_value l [] = l
l_value l (o ∷ os) = l_value (l * 256 % 2 ^ 64 + o) os

pub record LenDec : Type 0 where
  pub l_count : ℕ
  pub len : ℕ

-- `derLDec` on `der[0..count)`.
unfoldable pub l_dec : List ℕ → Option LenDec
l_dec [] = none
l_dec (o ∷ der) =
    if o == 128 || o == 255
    then none
    else if ltb o 128
    then some (record { l_count = 1; len = o })
    else let r = o - 128 in
      let l = l_value 0 (take r der) in
      if ltb (length der) r
        || ltb o_per_s r
        || get_or der 0 0 == 0
        || r == 1 && ltb (get_or der 0 0) 128
      then none
      else if l == size_max
      then none
      else some (record { l_count = 1 + r; len = l })
