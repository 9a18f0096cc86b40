-- ===== src/Der/Tlv.antt =====
-- The pair TL and the triple TLV: `derTLDec`, `derTLEnc`, `derEnc`, `derIsValid`, `derIsValid2`,
-- `derStartsWith` and `derDec` to `derDec4` of src/core/der.c. `u` is what the caller's `tag`, or the
-- local `t`, held before the call.
pub mod RoundTrip
pub mod Accepts
use bee.Common.{
  ℕ, zero, suc, ◌+◌, ◌-◌, ◌*◌, ◌/◌, ◌%◌, ◌^◌, ◌<◌, ◌≤◌, ◌&&◌, ◌||◌, not, Bool, true, false, Option,
  none, some, List, [], ◌∷◌, ◌++◌, length, take, drop, get_or, ltb, leb, ◌==◌, ◌!=◌, if◌then◌else◌,
  ◌>>=◌, ◌>>◌, guard, octets_eq,
}
use bee.Der.Tag.{t_enc, t_enc_count, TagDec, t_dec}
use bee.Der.Len.{l_enc, l_enc_count, LenDec, l_dec}

pub record TlDec : Type 0 where
  pub count : ℕ
  pub tag : ℕ
  pub len : ℕ

unfoldable pub tl_dec : ℕ → List ℕ → Option TlDec
tl_dec u der = do
  t ← t_dec u der
  l ← l_dec (drop t.t_count der)
  guard (leb (t.t_count + l.l_count) (length der))
  some (record { count = t.t_count + l.l_count; tag = t.tag; len = l.len })

-- `derTLEnc` with a buffer: the octets written, after the two lengths are checked.
unfoldable pub tl_enc : ℕ → ℕ → Option (List ℕ)
tl_enc tag len = do
  t_count ← t_enc_count tag
  t ← t_enc tag
  guard (length t == t_count && length (l_enc len) == l_enc_count len)
  some (t ++ l_enc len)

-- `derEnc` with a buffer: the octets written. `val` holds `len` octets.
unfoldable pub enc : ℕ → List ℕ → ℕ → Option (List ℕ)
enc tag val len = do
  t_count ← t_enc_count tag
  t ← t_enc tag
  guard (length t == t_count && length (l_enc len) == l_enc_count len)
  some (t ++ (l_enc len ++ take len val))

-- The value that `derEnc` returns, in `size_t`.
pub enc_count : ℕ → ℕ → Option ℕ
enc_count tag len = do t_count ← t_enc_count tag; some ((t_count + l_enc_count len + len) % 2 ^ 64)

-- `count == t_count + l_count + len`, in `size_t`.
unfoldable pub is_valid : List ℕ → Bool
is_valid der = elim (t_dec 0 der) [
  | none ↦ false
  | some t ↦ elim (l_dec (drop t.t_count der)) [
    | none ↦ false
    | some l ↦ length der == (t.t_count + l.l_count + l.len) % 2 ^ 64
  ]
]

pub is_valid2 : ℕ → List ℕ → ℕ → Bool
is_valid2 u der tag = elim (t_dec u der) [
  | none ↦ false
  | some t ↦ elim (l_dec (drop t.t_count der)) [
    | none ↦ false
    | some l ↦ t.tag == tag && length der == (t.t_count + l.l_count + l.len) % 2 ^ 64
  ]
]

pub starts_with : ℕ → List ℕ → ℕ → Bool
starts_with u der tag = elim (t_dec u der) [ none ↦ false | some t ↦ t.tag == tag ]

-- `val` is the buffer from the value on, `len` the length of the value, `count` what is returned.
pub record Tlv : Type 0 where
  pub count : ℕ
  pub tag : ℕ
  pub val : List ℕ
  pub len : ℕ

-- `derDec`: the sum `tl_count + *len` is taken in `size_t`.
unfoldable pub dec : ℕ → List ℕ → Option Tlv
dec u der = do
  tl ← tl_dec u der
  guard (leb ((tl.count + tl.len) % 2 ^ 64) (length der))
  some (record {
    count = (tl.count + tl.len) % 2 ^ 64;
    tag = tl.tag;
    val = drop tl.count der;
    len = tl.len;
  })

unfoldable pub dec2 : ℕ → List ℕ → ℕ → Option Tlv
dec2 u der tag = do d ← dec u der; guard (d.tag == tag); some d

pub dec3 : ℕ → List ℕ → ℕ → ℕ → Option Tlv
dec3 u der tag len = do d ← dec u der; guard (d.tag == tag && d.len == len); some d

-- `val` holds `len` octets.
pub dec4 : ℕ → List ℕ → ℕ → List ℕ → ℕ → Option Tlv
dec4 u der tag val len = do
  d ← dec u der
  guard (d.tag == tag && d.len == len && octets_eq (take len d.val) (take len val))
  some d
