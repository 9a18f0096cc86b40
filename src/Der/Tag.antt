-- ===== src/Der/Tag.antt =====
-- The tag field: `derTIsValid`, `derTIsPrimitive`, `derTIsConstructive`, `derTEnc` and `derTDec` of
-- src/core/der.c. A tag is the `u32` of its octets, the first octet the most significant.
pub mod Valid
pub mod RoundTrip
use bee.Common.{
  ℕ, zero, suc, ◌+◌, ◌-◌, ◌*◌, ◌/◌, ◌%◌, ◌^◌, ◌<◌, ◌≤◌, ◌&&◌, ◌||◌, not, Bool, true, false, Option,
  none, some, List, [], ◌∷◌, ◌++◌, length, take, drop, get_or, ltb, leb, ◌==◌, ◌!=◌, if◌then◌else◌,
  min,
}
use bee.Common.BigEndian.{be_octets, octet_count}

-- `for (...; tag > 255; tag >>= 8)`: `none` is the FALSE returned from inside. A `u32` shifted once
-- leaves the loop after two rounds at most, so three units of fuel are one too many.
pub record Scan : Type 0 where
  pub t : ℕ
  pub b : ℕ
  pub tag : ℕ

unfoldable pub valid_loop : ℕ → Scan → Option Scan
valid_loop zero s = none
valid_loop (suc fuel) s =
    let b' = s.tag % 128 in
    let next =
      valid_loop fuel (record { t = s.t * 128 % 2 ^ 32 + b'; b = b'; tag = s.tag / 256 }) in
    if leb s.tag 255
    then some s
    else if s.tag / 128 % 2 == 0 || s.t / 2 ^ 25 != 0
    then none
    else next

-- The test behind the loop.
unfoldable pub valid_end : Option Scan → Bool
valid_end none = false
valid_end (some s) = not (ltb s.t 31 || s.b == 0 || s.tag % 32 != 31)

unfoldable pub t_is_valid : ℕ → Bool
t_is_valid tag =
    if ltb tag 256
    then tag % 32 != 31
    else if tag / 128 % 2 != 0
    then false
    else valid_end (valid_loop 3 (record { t = tag % 128; b = tag % 128; tag = tag / 256 }))

-- `for (; tag > 255; tag >>= 8);`: three rounds at most on a `u32`.
pub leading_octet : ℕ → ℕ → ℕ
leading_octet zero tag = tag
leading_octet (suc fuel) tag =
    let more = leading_octet fuel (tag / 256) in if leb tag 255 then tag else more

pub t_is_primitive : ℕ → Bool
t_is_primitive tag = leading_octet 3 tag / 2 ^ 5 % 2 == 0

pub t_is_constructive : ℕ → Bool
t_is_constructive tag = not (t_is_primitive tag)

-- How many octets the code of a tag takes.
unfoldable pub t_count_of : ℕ → ℕ
t_count_of tag = let n = octet_count 4 tag in if n == 0 then 1 else n

-- The value that `derTEnc` returns.
unfoldable pub t_enc_count : ℕ → Option ℕ
t_enc_count tag = if t_is_valid tag then some (t_count_of tag) else none

-- `derTEnc`: the octets written.
unfoldable pub t_enc : ℕ → Option (List ℕ)
t_enc tag = if t_is_valid tag then some (be_octets (t_count_of tag) tag) else none

pub record TagDec : Type 0 where
  pub t_count : ℕ
  pub tag : ℕ

-- `for (t = 0; t_count < count;)` over the octets left, up to one with a clear top bit.
unfoldable pub long_loop : List ℕ → ℕ → ℕ → TagDec
long_loop [] t n = record { t_count = n; tag = t }
long_loop (o ∷ os) t n =
    let t' = t * 256 % 2 ^ 32 + o % 128 in
    if o / 128 % 2 == 0 then record { t_count = n + 1; tag = t' } else long_loop os t' (n + 1)

-- `t <<= 8, t |= der[pos]` over the octets, in `u32`.
unfoldable pub t_value : ℕ → List ℕ → ℕ
t_value t [] = t
t_value t (o ∷ os) = t_value (t * 256 % 2 ^ 32 + o) os

-- The last step: the tag is stored, and its count of octets returned.
unfoldable pub t_store : List ℕ → ℕ → TagDec
t_store der t_count = record {
  t_count = t_count;
  tag = t_value (get_or der 0 0) (take (t_count - 1) (drop 1 der));
}

-- `derTDec` on `der[0..count)`. `u` is what `*tag` held before: one path returns FALSE, that is 0, and
-- leaves it as it was.
unfoldable pub t_dec : ℕ → List ℕ → Option TagDec
t_dec u der =
    let count = min 4 (length der) in
    let long = long_loop (take (count - 1) (drop 1 der)) 0 1 in
    if ltb (length der) 1
    then none
    else if get_or der 0 0 % 32 == 31
    then (if ltb count 2 || get_or der 1 0 % 128 == 0
        then some (record { t_count = 0; tag = u })
        else if long.t_count == count || ltb long.tag 31
        then none
        else some (t_store der long.t_count))
    else some (t_store der 1)
