-- ===== src/Apdu.antt =====
-- src/core/apdu.c: the smart card command and response units. The encoders with a null buffer
-- (`apduCmdEnc(0, cmd)`) return a length, here `cmd_enc_count`; with a buffer they fill it, here
-- `cmd_enc`. `none` stands for SIZE_MAX. The C reads of `apdu[i]` are `get_or apdu i 0`: the guards
-- keep them inside the buffer. `size_of` is `sizeof(apdu_cmd_t)` or `sizeof(apdu_resp_t)`, which the
-- compiler chooses.
pub mod Cmd
pub mod Resp
mod Tests
use bee.Common.{
  ◌>>=◌, ℕ, ◌+◌, ◌-◌, ◌*◌, ◌/◌, ◌%◌, ◌<◌, ◌≤◌, ◌≡◌, Bool, true, false, ◌&&◌, ◌||◌, Option, none,
  some, List, [], ◌∷◌, ◌++◌, length, get_or, take, drop, All, ltb, leb, ◌==◌, ◌!=◌, if◌then◌else◌,
}

pub record Command : Type 0 where
  pub cla : ℕ
  pub ins : ℕ
  pub p1 : ℕ
  pub p2 : ℕ
  pub rdf_len : ℕ
  pub cdf_len : ℕ
  pub cdf : List ℕ

-- The pointer checks of the source hold of every list.
pub cmd_is_valid : Command → Bool
cmd_is_valid c = ltb c.cdf_len 65536 && leb c.rdf_len 65536

-- `[cdf_len]cdf`: the empty, the short and the long form.
pub cdf_enc : Command → List ℕ
cdf_enc c =
    if c.cdf_len == 0
    then []
    else if ltb c.cdf_len 256 && leb c.rdf_len 256
    then (c.cdf_len % 256) ∷ take c.cdf_len c.cdf
    else 0 ∷ (c.cdf_len / 256 % 256) ∷ (c.cdf_len % 256) ∷ take c.cdf_len c.cdf

-- `rdf_len`: the empty form, one octet, two octets behind a long `cdf_len`, three octets.
pub rdf_enc : Command → List ℕ
rdf_enc c =
    if c.rdf_len == 0
    then []
    else if leb c.rdf_len 256 && ltb c.cdf_len 256
    then (c.rdf_len % 256) ∷ []
    else if c.cdf_len != 0
    then (c.rdf_len / 256 % 256) ∷ (c.rdf_len % 256) ∷ []
    else 0 ∷ (c.rdf_len / 256 % 256) ∷ (c.rdf_len % 256) ∷ []

-- `apduCmdEnc(apdu, cmd)`: the octets written.
pub cmd_enc : Command → List ℕ
cmd_enc c = c.cla ∷ c.ins ∷ c.p1 ∷ c.p2 ∷ (cdf_enc c ++ rdf_enc c)

cdf_count : Command → ℕ
cdf_count c =
    if c.cdf_len == 0
    then 0
    else if ltb c.cdf_len 256 && leb c.rdf_len 256
    then 1 + c.cdf_len
    else 3 + c.cdf_len

rdf_count : Command → ℕ
rdf_count c =
    if c.rdf_len == 0
    then 0
    else if leb c.rdf_len 256 && ltb c.cdf_len 256
    then 1
    else if c.cdf_len != 0
    then 2
    else 3

-- The value that `apduCmdEnc` returns.
pub cmd_enc_count : Command → ℕ
unfolding cdf_count rdf_count
cmd_enc_count c = 4 + cdf_count c + rdf_count c

-- What the decoder knows of `cdf_len`: how many octets held it, its value, and what follows.
pub record CdfLen : Type 0 where
  pub len_len : ℕ
  pub len : ℕ
  pub rest : List ℕ

pub cdf_len_dec : List ℕ → Option CdfLen
cdf_len_dec apdu =
    let count = length apdu in
    if count == 0 || count == 1 || count == 3 && get_or apdu 0 0 == 0
    then some (record { len_len = 0; len = 0; rest = apdu })
    else if get_or apdu 0 0 != 0
    then some (record { len_len = 1; len = get_or apdu 0 0; rest = drop 1 apdu })
    else if ltb count 3
    then none
    else some
        (record { len_len = 3; len = get_or apdu 1 0 * 256 + get_or apdu 2 0; rest = drop 3 apdu })

-- A zero stands for the largest length of its form.
zero_as : ℕ → ℕ → ℕ
zero_as top n = if n == 0 then top else n

-- The `switch` on the octets left.
pub rdf_len_dec : ℕ → ℕ → List ℕ → Option ℕ
unfolding zero_as
rdf_len_dec ll cdf_len [] = some 0
rdf_len_dec ll cdf_len (a ∷ []) = if ll == 3 then none else some (zero_as 256 a)
rdf_len_dec ll cdf_len (a ∷ b ∷ []) =
    let rdf_len = zero_as 65536 (a * 256 + b) in
    if leb ll 1 || ltb cdf_len 256 && leb rdf_len 256 then none else some rdf_len
rdf_len_dec ll cdf_len (a ∷ b ∷ c ∷ []) =
    let rdf_len = zero_as 65536 (b * 256 + c) in
    if a != 0 || ll != 0 || leb rdf_len 256 then none else some rdf_len
rdf_len_dec ll cdf_len (a ∷ b ∷ c ∷ d ∷ more) = none

-- The `cdf` must fit; `rdf_len` stands behind it.
pub tail_dec : CdfLen → Option ℕ
tail_dec l =
    if ltb (length l.rest) l.len then none else rdf_len_dec l.len_len l.len (drop l.len l.rest)

-- The body behind the header.
body_dec : ℕ → ℕ → ℕ → ℕ → ℕ → List ℕ → Option (ℕ × Command)
body_dec size_of cla ins p1 p2 apdu = do
  l ← cdf_len_dec apdu
  rdf_len ← tail_dec l
  some (
    size_of + l.len,
    record {
      cla = cla;
      ins = ins;
      p1 = p1;
      p2 = p2;
      rdf_len = rdf_len;
      cdf_len = l.len;
      cdf = take l.len l.rest;
    },
  )

-- `apduCmdDec`: the value returned and the command.
pub cmd_dec : ℕ → List ℕ → Option (ℕ × Command)
unfolding body_dec
cmd_dec size_of (cla ∷ ins ∷ p1 ∷ p2 ∷ apdu) = body_dec size_of cla ins p1 p2 apdu
cmd_dec size_of _ = none

pub record Response : Type 0 where
  pub sw1 : ℕ
  pub sw2 : ℕ
  pub rdf_len : ℕ
  pub rdf : List ℕ

pub resp_is_valid : Response → Bool
resp_is_valid r = leb r.rdf_len 65536

pub resp_enc : Response → List ℕ
resp_enc r = take r.rdf_len r.rdf ++ (r.sw1 ∷ r.sw2 ∷ [])

pub resp_dec : ℕ → List ℕ → Option (ℕ × Response)
resp_dec size_of apdu =
    let count = length apdu in
    if ltb count 2
    then none
    else some (
      size_of + count - 2,
      record {
        sw1 = get_or apdu (count - 2) 0;
        sw2 = get_or apdu (count - 1) 0;
        rdf_len = count - 2;
        rdf = take (count - 2) apdu;
      },
    )
