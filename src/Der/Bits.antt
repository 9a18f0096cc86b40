-- ===== src/Der/Bits.antt =====
-- The type BIT: `derTBITEnc`, `derTBITDec` and `derTBITDec2` of src/core/der.c. A string of `len` bits stands in
-- `(len + 7) / 8` octets, the value of its code in one octet more. `u` is what the local tag of `derDec2` held
-- before the call.
pub mod Strings
pub mod RoundTrip
mod Tests
use bee.Common.{
  ℕ, zero, suc, ◌+◌, ◌-◌, ◌*◌, ◌/◌, ◌%◌, ◌^◌, ◌&&◌, ◌||◌, not, Bool, Option, none, some, List, [],
  ◌∷◌, ◌++◌, length, take, drop, get_or, ltb, ◌==◌, ◌!=◌, if◌then◌else◌, ◌>>=◌, ◌>>◌, guard,
}
use bee.Der.Tag.{t_enc, t_enc_count}
use bee.Der.Len.{l_enc, l_enc_count}
use bee.Der.Tlv.{Tlv, dec2}

-- `v[i] >>= k; v[i] <<= k;`
pub clear_at : ℕ → ℕ → List ℕ → List ℕ
clear_at i k [] = []
clear_at zero k (x ∷ xs) = (x / 2 ^ k * 2 ^ k % 256) ∷ xs
clear_at (suc i) k (x ∷ xs) = x ∷ clear_at i k xs

-- The octets of the string, the bits behind it cleared.
pub bit_string : List ℕ → ℕ → List ℕ
bit_string val len =
    let moved = take ((len + 7) % 2 ^ 64 / 8) val in
    if len % 8 != 0 then clear_at (len / 8) (8 - len % 8) moved else moved

-- The octet in front of them.
pub bit_pad : ℕ → ℕ
bit_pad len = if len % 8 != 0 then 8 - len % 8 else 0

-- `(len + 15) / 8`
pub bit_size : ℕ → ℕ
bit_size len = (len + 15) % 2 ^ 64 / 8

-- `derTBITEnc` with a buffer: the octets written.
pub bit_enc : ℕ → List ℕ → ℕ → Option (List ℕ)
bit_enc tag val len = do
  t_count ← t_enc_count tag
  t ← t_enc tag
  guard (length t == t_count && length (l_enc (bit_size len)) == l_enc_count (bit_size len))
  some (t ++ (l_enc (bit_size len) ++ (bit_pad len ∷ bit_string val len)))

-- The tests on a value of `l` octets.
pub is_refused : ℕ → List ℕ → Bool
is_refused l v = ltb l 1 || ltb 7 (get_or v 0 0) || get_or v 0 0 != 0 && l == 1

pub record BitDec : Type 0 where
  pub count : ℕ
  pub val : List ℕ
  pub len : ℕ

pub bit_dec : ℕ → List ℕ → ℕ → Option BitDec
bit_dec u der tag = do
  d ← dec2 u der tag
  guard (not (is_refused d.len d.val))
  some (record {
    count = d.count;
    val = take (d.len - 1) (drop 1 d.val);
    len = ((d.len - 1) * 8 % 2 ^ 64 + 2 ^ 64 - get_or d.val 0 0) % 2 ^ 64;
  })

-- `derTBITDec2`: the count and the octets.
pub bit_dec2 : ℕ → List ℕ → ℕ → ℕ → Option Tlv
bit_dec2 u der tag len = do
  d ← dec2 u der tag
  guard (
      not (is_refused d.len d.val || (d.len - 1) * 8 % 2 ^ 64 != (len + get_or d.val 0 0) % 2 ^ 64))
  some (record {
    count = d.count;
    tag = d.tag;
    val = take (d.len - 1) (drop 1 d.val);
    len = d.len - 1;
  })
