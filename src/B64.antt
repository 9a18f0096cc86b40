-- ===== src/B64.antt =====
-- The code base64, src/core/b64.c. A string is the list of the codes of its characters without the zero at
-- its end; a code is an octet.
pub mod Blocks
pub mod RoundTrip
pub mod Validity
mod Tests
use bee.Common.{
  ℕ, zero, suc, ◌+◌, ◌-◌, ◌*◌, ◌/◌, ◌%◌, Bool, true, false, ◌&&◌, List, [], ◌∷◌, ◌++◌, length,
  get_or, take, replicate, bit_and, bit_or, ltb, ◌==◌, ◌!=◌, if◌then◌else◌,
}

-- `n` numbers in a row.
abbrev up : ℕ → ℕ → List ℕ
up n zero = []
up n (suc m) = n ∷ up (suc n) m

-- `b64_alphabet`: the letters, the digits, `+` and `/`.
unfoldable pub alphabet : List ℕ
alphabet = up 65 26 ++ up 97 26 ++ up 48 10 ++ (43 ∷ 47 ∷ [])

-- `b64_dec_table`: 0xFF for the characters that are not in the alphabet.
unfoldable pub dec_table : List ℕ
dec_table =
    replicate 43 255
    ++ (62 ∷ 255 ∷ 255 ∷ 255 ∷ 63 ∷ [])
    ++ up 52 10
    ++ replicate 7 255
    ++ up 0 26
    ++ replicate 6 255
    ++ up 26 26
    ++ replicate 133 255

abbrev pub letter : ℕ → ℕ
letter n = get_or alphabet n 0

abbrev pub lookup : ℕ → ℕ
lookup c = get_or dec_table c 0

-- `=`
abbrev pub pad : ℕ
pad = 61

-- `if (len && b64[len - 1] == '=' && b64[--len - 1] == '=') --len;`
pub unpadded : List ℕ → ℕ
unpadded b64 =
    let len = length b64 in
    if len == 0
    then len
    else if get_or b64 (len - 1) 0 != pad
    then len
    else if get_or b64 (len - 2) 0 == pad
    then len - 2
    else len - 1

pub all_letters : List ℕ → Bool
all_letters [] = true
all_letters (c ∷ cs) = let rest = all_letters cs in if lookup c == 255 then false else rest

-- `b64IsValid`
pub is_valid : List ℕ → Bool
is_valid b64 =
    let len = unpadded b64 in
    let last = lookup (get_or b64 (len - 1) 0) in
    if length b64 % 4 != 0
    then false
    else if len % 4 == 3
    then (if bit_and last 3 != 0 then false else all_letters (take (len - 1) b64))
    else if len % 4 == 2
    then (if bit_and last 15 != 0 then false else all_letters (take (len - 1) b64))
    else all_letters (take len b64)

-- The blocks of `b64From`; a block is a number of 32 bits.
unfoldable pub block3 : ℕ → ℕ → ℕ → ℕ
block3 x y z = bit_or (bit_or (x * 256) y * 256) z

unfoldable pub block2 : ℕ → ℕ → ℕ
block2 x y = bit_or (x * 256) y * 4

-- `b64From`
pub from_octets : List ℕ → List ℕ
from_octets (x ∷ y ∷ z ∷ src) =
    let block = block3 x y z in
    letter (block / 64 / 64 / 64)
    ∷ letter (bit_and (block / 64 / 64) 63)
    ∷ letter (bit_and (block / 64) 63)
    ∷ letter (bit_and block 63)
    ∷ from_octets src
from_octets (x ∷ y ∷ []) =
    let block = block2 x y in
    letter (block / 64 / 64)
    ∷ letter (bit_and (block / 64) 63)
    ∷ letter (bit_and block 63)
    ∷ pad
    ∷ []
from_octets (x ∷ []) =
    let block = x * 16 in letter (block / 64) ∷ letter (bit_and block 63) ∷ pad ∷ pad ∷ []
from_octets [] = []

-- The blocks of `b64To`.
unfoldable pub block_of4 : ℕ → ℕ → ℕ → ℕ → ℕ
block_of4 a b c d =
    bit_or (bit_or (bit_or (lookup a * 64) (lookup b) * 64) (lookup c) * 64) (lookup d)

unfoldable pub block_of3 : ℕ → ℕ → ℕ → ℕ
block_of3 a b c = bit_or (bit_or (lookup a * 64) (lookup b) * 64) (lookup c) / 4

unfoldable pub block_of2 : ℕ → ℕ → ℕ
block_of2 a b = bit_or (lookup a * 64) (lookup b) / 16

-- `b64To` on the characters in front of the padding.
pub decode : List ℕ → List ℕ
decode (a ∷ b ∷ c ∷ d ∷ src) =
    let block = block_of4 a b c d in
    block / 256 / 256 % 256 ∷ bit_and (block / 256) 255 ∷ bit_and block 255 ∷ decode src
decode (a ∷ b ∷ c ∷ []) = let block = block_of3 a b c in block / 256 % 256 ∷ bit_and block 255 ∷ []
decode (a ∷ b ∷ []) = block_of2 a b % 256 ∷ []
decode _ = []

pub to_octets : List ℕ → List ℕ
to_octets src = decode (take (unpadded src) src)

-- The size that `b64To` stores in `count`.
pub octet_count : List ℕ → ℕ
octet_count src = let len = unpadded src in 3 * (len / 4) + bit_and len 1 + bit_and (len / 2) 1
