-- ===== src/Apdu/Resp.antt =====
-- The response codec of src/core/apdu.c: `apduRespEnc` against `apduRespDec`.
use bee.Common.{
  ℕ, zero, suc, ◌+◌, ◌-◌, ◌≡◌, refl, ap, some, List, [], ◌∷◌, ◌++◌, length, take, get_or, arith,
  length-append, length-take, take_all, take-append_all, get_or-append,
}
use bee.Apdu.{Response, resp_enc, resp_dec}

-- The data has the length that the response names.
abbrev pub IsResponse : Response → Type 0
IsResponse r = length r.rdf ≡ r.rdf_len

-- A response is read back from its code, with the size of the structure.
pub resp_dec-resp_enc :
    (size_of : ℕ) (r : Response)
    → IsResponse r
    → resp_dec size_of (resp_enc r) ≡ some (size_of + r.rdf_len, r)
unfolding resp_dec resp_enc
resp_dec-resp_enc size_of r v = rw (take_all r.rdf_len r.rdf v) (
    ground (
      arith,
      length-append r.rdf (r.sw1 ∷ r.sw2 ∷ []),
      get_or-append r.rdf (r.sw1 ∷ r.sw2 ∷ []) r.rdf_len 0 0,
      get_or-append r.rdf (r.sw1 ∷ r.sw2 ∷ []) (r.rdf_len + 1) 1 0,
      take-append_all r.rdf_len r.rdf (r.sw1 ∷ r.sw2 ∷ []) v,
    ))

last_two :
    (n : ℕ) (xs : List ℕ)
    → length xs ≡ n + 2
    → take n xs ++ (get_or xs n 0 ∷ get_or xs (suc n) 0 ∷ []) ≡ xs
last_two zero (a ∷ b ∷ []) h = refl
last_two zero (a ∷ b ∷ c ∷ xs) h = absurd (omega arith)
last_two zero (a ∷ []) h = absurd (omega arith)
last_two n [] h = absurd (omega arith)
last_two (suc n) (x ∷ xs) h = ap (λ t. x ∷ t) (last_two n xs (omega arith))

-- The decoder loses nothing: a response that it accepts is valid and encodes to the same octets.
pub resp_enc-resp_dec :
    (size_of size : ℕ) (apdu : List ℕ) (r : Response)
    → resp_dec size_of apdu ≡ some (size, r)
    → IsResponse r × (resp_enc r ≡ apdu)
unfolding resp_dec resp_enc
resp_enc-resp_dec size_of size apdu r h = ground (
  arith,
  length-take (length apdu - 2) apdu,
  last_two (length apdu - 2) apdu,
  take_all (length apdu - 2) (take (length apdu - 2) apdu),
)
