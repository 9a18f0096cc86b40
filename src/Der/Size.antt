-- ===== src/Der/Size.antt =====
-- The type SIZE: `derTSIZEEnc`, `derTSIZEDec` and `derTSIZEDec2` of src/core/der.c. `mem` holds the octets
-- in memory from `der` on, of which the first `count` are the buffer: the decoder reads the value without a
-- look at `count`. `u` is what the local `t` held before the call.
pub mod Octets
pub mod RoundTrip
mod Tests
use bee.Common.{
  ℕ, zero, suc, ◌+◌, ◌*◌, ◌/◌, ◌%◌, ◌^◌, ◌&&◌, ◌||◌, not, Bool, Option, none, some, List, ◌++◌,
  length, take, drop, get_or, ltb, leb, ◌==◌, ◌!=◌, if◌then◌else◌, ◌>>=◌, ◌>>◌, guard,
}
use bee.Common.BigEndian.{be_octets}
use bee.Der.Tag.{t_enc, TagDec, t_dec}
use bee.Der.Len.{o_per_s, l_enc, l_enc_count, l_value, LenDec, l_dec}

-- `for (; v >= 256; v >>= 8, ++len); len += v >> 7`, from the length 1.
pub size_len : ℕ → ℕ → ℕ
size_len zero v = 1 + v / 128
size_len (suc fuel) v =
    let more = size_len fuel (v / 256) in if ltb v 256 then 1 + v / 128 else suc more

-- `derTSIZEEnc` with a buffer: the octets written.
pub size_enc : ℕ → ℕ → Option (List ℕ)
size_enc tag val = do
  t ← t_enc tag
  some (t ++ (l_enc (size_len 7 val) ++ be_octets (size_len 7 val) val))

-- The value that `derTSIZEEnc` returns.
pub size_enc_count : ℕ → ℕ → Option ℕ
size_enc_count tag val = do
  t ← t_enc tag
  some (length t + l_enc_count (size_len 7 val) + size_len 7 val)

-- The tests on the first octets of the value.
pub is_refused : ℕ → List ℕ → Bool
is_refused len v =
    leb 128 (get_or v 0 0)
    || get_or v 0 0 == 0 && ltb 1 len && ltb (get_or v 1 0) 128
    || len == o_per_s + 1 && get_or v 0 0 != 0

pub record SizeDec : Type 0 where
  pub count : ℕ
  pub val : ℕ

pub size_dec : ℕ → List ℕ → ℕ → ℕ → Option SizeDec
size_dec u mem count tag = do
  t ← t_dec u (take count mem)
  guard (t.tag == tag)
  l ← l_dec (drop t.t_count (take count mem))
  guard (leb l.len (o_per_s + 1))
  guard (not (is_refused l.len (drop (t.t_count + l.l_count) mem)))
  some (record {
    count = t.t_count + l.l_count + l.len;
    val = l_value 0 (take l.len (drop (t.t_count + l.l_count) mem));
  })

pub size_dec2 : ℕ → List ℕ → ℕ → ℕ → ℕ → Option ℕ
size_dec2 u mem count tag val = do d ← size_dec u mem count tag; guard (d.val == val); some d.count
