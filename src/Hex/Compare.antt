-- ===== src/Hex/Compare.antt =====
-- `hexEq` and `hexEqRev`, regular and fast: they compare the octets with those that the string stands for.
use bee.Common.{
  ℕ, zero, suc, ◌+◌, ◌*◌, ◌/◌, ◌≡◌, ◌↔◌, refl, true, List, [], ◌∷◌, length, get_or, bit_or, bit_xor,
  arith, ==_iff,
}
use bee.Common.BitLaws.{bit_or-eq-zero, bit_xor-eq-zero}
use bee.Hex.{
  to_octet, to, to_rev_from, to_rev, diff_from, eq, eq_fast, diff_rev_from, eq_rev,
  eq_rev_fast_from, eq_rev_fast,
}

diff_next : (diff o p : ℕ) → (bit_or diff (bit_xor o p) ≡ 0) ↔ ((diff ≡ 0) × (o ≡ p))
diff_next diff o p = ground (arith, bit_or-eq-zero diff (bit_xor o p), bit_xor-eq-zero o p)

diff_from-eq-zero :
    (buf hex : List ℕ) (diff : ℕ)
    → 2 * length buf ≡ length hex
    → (diff_from diff buf hex ≡ 0) ↔ ((diff ≡ 0) × (buf ≡ to hex))
unfolding diff_from to
diff_from-eq-zero [] [] diff e = (λ h. (h, refl), λ h. h.0)
diff_from-eq-zero [] (c ∷ hex) diff e = absurd (omega arith)
diff_from-eq-zero (o ∷ buf) [] diff e = absurd (omega arith)
diff_from-eq-zero (o ∷ buf) (c ∷ []) diff e = absurd (omega arith)
diff_from-eq-zero (o ∷ buf) (c ∷ d ∷ hex) diff e = ground (
  arith,
  diff_next diff o (to_octet c d),
  diff_from-eq-zero buf hex (bit_or diff (bit_xor o (to_octet c d))) (omega arith),
)

eq_fast_iff :
    (buf hex : List ℕ) → 2 * length buf ≡ length hex → (eq_fast buf hex ≡ true) ↔ (buf ≡ to hex)
unfolding eq_fast to
eq_fast_iff [] [] e = (λ h. refl, λ h. refl)
eq_fast_iff [] (c ∷ hex) e = absurd (omega arith)
eq_fast_iff (o ∷ buf) [] e = absurd (omega arith)
eq_fast_iff (o ∷ buf) (c ∷ []) e = absurd (omega arith)
eq_fast_iff (o ∷ buf) (c ∷ d ∷ hex) e = ground (arith, eq_fast_iff buf hex (omega arith))

-- For a string of two characters for each octet of the buffer, `hexEq`, regular and fast, answers
-- whether the buffer is what `hexTo` reads from the string.
pub eq_iff :
    (buf hex : List ℕ)
    → 2 * length buf ≡ length hex
    → ((eq buf hex ≡ true) ↔ (buf ≡ to hex)) × ((eq_fast buf hex ≡ true) ↔ (buf ≡ to hex))
unfolding eq
eq_iff buf hex e = (
  ground (arith, ==_iff (diff_from 0 buf hex) 0, diff_from-eq-zero buf hex 0 e),
  eq_fast_iff buf hex e,
)

diff_rev_from-eq-zero :
    (buf hex : List ℕ) (count diff : ℕ)
    → length buf ≡ count
    → (diff_rev_from diff buf hex count ≡ 0) ↔ ((diff ≡ 0) × (buf ≡ to_rev_from hex count))
unfolding diff_rev_from to_rev_from
diff_rev_from-eq-zero [] hex zero diff e = (λ h. (h, refl), λ h. h.0)
diff_rev_from-eq-zero [] hex (suc count) diff e = absurd (omega arith)
diff_rev_from-eq-zero (o ∷ buf) hex zero diff e = absurd (omega arith)
diff_rev_from-eq-zero (o ∷ buf) hex (suc count) diff e =
    let octet = to_octet (get_or hex (2 * count) 0) (get_or hex (2 * count + 1) 0) in
    ground (
      arith,
      diff_next diff o octet,
      diff_rev_from-eq-zero buf hex count (bit_or diff (bit_xor o octet)) (omega arith),
    )

eq_rev_fast_from_iff :
    (buf hex : List ℕ) (count : ℕ)
    → length buf ≡ count
    → (eq_rev_fast_from buf hex count ≡ true) ↔ (buf ≡ to_rev_from hex count)
unfolding eq_rev_fast_from to_rev_from
eq_rev_fast_from_iff [] hex zero e = (λ h. refl, λ h. refl)
eq_rev_fast_from_iff [] hex (suc count) e = absurd (omega arith)
eq_rev_fast_from_iff (o ∷ buf) hex zero e = absurd (omega arith)
eq_rev_fast_from_iff (o ∷ buf) hex (suc count) e =
    ground (arith, eq_rev_fast_from_iff buf hex count (omega arith))

-- For a string of two characters for each octet of the buffer, `hexEqRev`, regular and fast, answers
-- whether the buffer is what `hexToRev` reads from the string.
pub eq_rev_iff :
    (buf hex : List ℕ)
    → 2 * length buf ≡ length hex
    → ((eq_rev buf hex ≡ true) ↔ (buf ≡ to_rev hex))
      × ((eq_rev_fast buf hex ≡ true) ↔ (buf ≡ to_rev hex))
unfolding eq_rev eq_rev_fast to_rev
eq_rev_iff buf hex e =
    let half : length buf ≡ length hex / 2 = omega arith in
    (
      ground (
        arith,
        ==_iff (diff_rev_from 0 buf hex (length hex / 2)) 0,
        diff_rev_from-eq-zero buf hex (length hex / 2) 0 half,
      ),
      eq_rev_fast_from_iff buf hex (length hex / 2) half,
    )
