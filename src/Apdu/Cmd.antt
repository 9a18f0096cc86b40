-- ===== src/Apdu/Cmd.antt =====
-- The command codec of src/core/apdu.c: `apduCmdEnc` against `apduCmdDec`.
use bee.Common.{
  AreOctets, get_or-lt, drop-AreOctets, take_all, take-append_all, drop-append_all, eq_nil,
  >>=-eq-some, ◌&&◌, ◌==◌, if◌then◌else◌, ltb, leb, ℕ, ◌+◌, ◌<◌, ◌≤◌, ◌≡◌, true, some, List, [],
  ◌∷◌, ◌++◌, length, drop, arith, length-append, length-take,
}
use bee.Apdu.{
  Command, cmd_is_valid, cdf_enc, rdf_enc, cmd_enc, cdf_count, rdf_count, cmd_enc_count, CdfLen,
  cdf_len_dec, tail_dec, rdf_len_dec, body_dec, cmd_dec,
}

-- A command that passes `apduCmdIsValid` and whose `cdf` holds `cdf_len` octets.
pub record IsCommand (c : Command) : Type 0 where
  pub valid : cmd_is_valid c ≡ true
  pub cdf_fits : length c.cdf ≡ c.cdf_len

length-rdf_enc : (c : Command) → length (rdf_enc c) ≡ rdf_count c
unfolding rdf_enc rdf_count
length-rdf_enc c = ground arith

-- The code has the length that `apduCmdEnc` returns, with a buffer and without.
pub length-cmd_enc : (c : Command) → IsCommand c → length (cmd_enc c) ≡ cmd_enc_count c
unfolding cmd_enc cmd_enc_count cdf_enc cdf_count
length-cmd_enc c v =
    ground
      (arith, length-rdf_enc c, length-append (cdf_enc c) (rdf_enc c), length-take c.cdf_len c.cdf)

-- How many octets hold `cdf_len` in the code.
form : Command → ℕ
form c = if c.cdf_len == 0 then 0 else if ltb c.cdf_len 256 && leb c.rdf_len 256 then 1 else 3

-- The first field comes back, whatever its form, and what follows it is left.
cdf_len_dec-cdf_enc :
    (c : Command)
    → IsCommand c
    → cdf_len_dec (cdf_enc c ++ rdf_enc c)
      ≡ some (record { len_len = form c; len = c.cdf_len; rest = c.cdf ++ rdf_enc c })
unfolding cdf_len_dec cdf_enc rdf_enc form cmd_is_valid
cdf_len_dec-cdf_enc c v =
    ground
      (arith, eq_nil c.cdf, take_all c.cdf_len c.cdf v.cdf_fits, length-append c.cdf (rdf_enc c))

-- The second field comes back behind the first.
rdf_len_dec-rdf_enc :
    (c : Command) → IsCommand c → rdf_len_dec (form c) c.cdf_len (rdf_enc c) ≡ some c.rdf_len
unfolding rdf_len_dec rdf_enc form cmd_is_valid
rdf_len_dec-rdf_enc c v = ground arith

-- Decoding the code of a valid command gives the size of the structure and the command itself:
-- in the empty, the short and the long forms of both lengths, 0 and 65536 included.
pub cmd_dec-cmd_enc :
    (size_of : ℕ) (c : Command)
    → IsCommand c
    → cmd_dec size_of (cmd_enc c) ≡ some (size_of + c.cdf_len, c)
unfolding cmd_dec cmd_enc body_dec tail_dec
cmd_dec-cmd_enc size_of c v = ground (
  arith,
  cdf_len_dec-cdf_enc c v,
  rdf_len_dec-rdf_enc c v,
  length-append c.cdf (rdf_enc c),
  take-append_all c.cdf_len c.cdf (rdf_enc c) v.cdf_fits,
  drop-append_all c.cdf_len c.cdf (rdf_enc c) v.cdf_fits,
)

cdf_len_dec-lt :
    (apdu : List ℕ) (l : CdfLen) → AreOctets apdu → cdf_len_dec apdu ≡ some l → l.len < 65536
unfolding cdf_len_dec
cdf_len_dec-lt apdu l o h =
    ground (arith, get_or-lt apdu 0 o, get_or-lt apdu 1 o, get_or-lt apdu 2 o)

cdf_len_dec-IsOctet :
    (apdu : List ℕ) (l : CdfLen) → AreOctets apdu → cdf_len_dec apdu ≡ some l → AreOctets l.rest
unfolding cdf_len_dec
cdf_len_dec-IsOctet apdu l o h = ground (arith, drop-AreOctets 1 apdu o, drop-AreOctets 3 apdu o)

rdf_len_dec-le :
    (ll n : ℕ) (apdu : List ℕ) (r : ℕ) → AreOctets apdu → rdf_len_dec ll n apdu ≡ some r → r ≤ 65536
unfolding rdf_len_dec
rdf_len_dec-le ll n [] r o h = ground arith
rdf_len_dec-le ll n (a ∷ []) r o h = ground arith
rdf_len_dec-le ll n (a ∷ b ∷ []) r o h = ground arith
rdf_len_dec-le ll n (a ∷ b ∷ c ∷ []) r o h = ground arith
rdf_len_dec-le ll n (a ∷ b ∷ c ∷ d ∷ more) r o h = ground arith

tail_dec_fits :
    (l : CdfLen) (r : ℕ)
    → AreOctets l.rest
    → tail_dec l ≡ some r
    → (r ≤ 65536) × (l.len ≤ length l.rest)
unfolding tail_dec
tail_dec_fits l r o h =
    ground
      (arith, rdf_len_dec-le l.len_len l.len (drop l.len l.rest) r (drop-AreOctets l.len l.rest o))

body_dec-IsCommand :
    (size_of cla ins p1 p2 size : ℕ) (apdu : List ℕ) (c : Command)
    → AreOctets apdu
    → body_dec size_of cla ins p1 p2 apdu ≡ some (size, c)
    → IsCommand c × (size ≡ size_of + c.cdf_len)
unfolding body_dec cmd_is_valid
body_dec-IsCommand size_of cla ins p1 p2 size apdu c o h =
    let (l, el, hl) = >>=-eq-some (cdf_len_dec apdu) _ h in
    let (r, er, hr) = >>=-eq-some (tail_dec l) _ hl in
    ground (
      arith,
      cdf_len_dec-lt apdu l o el,
      tail_dec_fits l r (cdf_len_dec-IsOctet apdu l o el) er,
      length-take l.len l.rest,
    )

-- Whatever octets are given, a decoded command is valid and its `cdf` has the length it says.
pub cmd_dec-IsCommand :
    (size_of size : ℕ) (apdu : List ℕ) (c : Command)
    → AreOctets apdu
    → cmd_dec size_of apdu ≡ some (size, c)
    → IsCommand c × (size ≡ size_of + c.cdf_len)
unfolding cmd_dec
cmd_dec-IsCommand size_of size (cla ∷ ins ∷ p1 ∷ p2 ∷ apdu) c o h =
    body_dec-IsCommand size_of cla ins p1 p2 size apdu c o.1.1.1.1 h
cmd_dec-IsCommand size_of size _ c o h = cc
