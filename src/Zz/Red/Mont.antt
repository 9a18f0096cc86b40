-- ===== src/Zz/Red/Mont.antt =====
-- The reduction of Montgomery: its result times b^n is the number, modulo the modulus.
use bee.Common.{
  ℕ, zero, suc, ◌+◌, ◌*◌, ◌/◌, ◌%◌, ◌^◌, ◌<◌, ◌≤◌, ◌≡◌, ◌⊎◌, inl, inr, refl, sym, ap, ◌∙◌, List, [],
  ◌∷◌, ◌++◌, length, max, bit_or, arith, if◌then◌else◌,
}
use bee.Common.BitLaws.{bit_or_flags}
use bee.Common.Powers.{pow_two}
use bee.Mem.Buffers.Order.{order, three_ways}
use bee.Ww.{cmp2}
use bee.Ww.Lengths.{cmp2_lem}
use bee.Zz.Value.{AreWords, value, value-lt, value-append, append-AreWords, value-injective}
use bee.Zz.Add.{Result}
use bee.Zz.Add.Laws.{StandsFor}
use bee.Zz.Sub.{minus, sub2}
use bee.Zz.Sub.Laws.{Differs}
use bee.Zz.Etc.{sub_and_w}
use bee.Zz.Etc.Masked.{sub_and_w-Differs}
use bee.Zz.Mod.{at_least, next_mask}
use bee.Zz.Mod.Reduce.{IsResidue, flag_cases, reduce}
use bee.Zz.Mod.Mask.{
  Says, mask_fold, mask_fold-Says, next_mask-low, at_least-order, kept-IsResidue, taken-IsResidue,
}
use bee.Zz.Red.{mont_loop, mask_from, red_mont, red_mont_fast}
use bee.Zz.Red.Loop.{mont_loop-Leaves, factor_below}
use native.Mathlib.Nat.{mod-add-div, mod-lt, add-mul-mod_self_right, mul-le-mul_right, zero-mod}

-- Words below the modulus that stand, times b^n, for the residue of `a`.
pub record IsMontgomery (b a : ℕ) (ms words : List ℕ) : Type 0 where
  pub are_words : AreWords b words
  pub size : length words ≡ length ms
  pub is_below : value b words < value b ms
  pub residue : (value b words * b ^ length ms) % value b ms ≡ a % value b ms

-- Adding multiples does not change a residue.
same_residue : (x y p q m : ℕ) → x + p * m ≡ y + q * m → x % m ≡ y % m
same_residue x y p q m e =
    sym (add-mul-mod_self_right x p m) ∙ ap (λ (t : ℕ). t % m) e ∙ add-mul-mod_self_right y q m

mask_from-fold : (w : ℕ) (ms ws : List ℕ) → mask_from w ms ws ≡ mask_fold w ms ws
unfolding mask_from mask_fold
mask_from-fold w [] ws = refl
mask_from-fold w (m ∷ ms) [] = refl
mask_from-fold w (m ∷ ms) (a ∷ ws) = mask_from-fold (next_mask w m a) ms ws

module _ (b : ℕ) where
  residue-IsMontgomery :
      (a v times : ℕ) (ms words : List ℕ)
      → 0 < value b ms
      → v * b ^ length ms ≡ a + times * value b ms
      → IsResidue b (length ms) v ms words
      → IsMontgomery b a ms words
  residue-IsMontgomery a v times ms words pos e r =
      let m = value b ms in
      let q = b ^ length ms in
      let split = ap (λ (t : ℕ). t * q) (mod-add-div v m) in
      let here = ap (λ (t : ℕ). t * q) r.residue in
      record {
        are_words = r.are_words;
        size = r.size;
        is_below = rw r.residue (mod-lt v pos);
        residue =
            same_residue (value b words * q) a (v / m * q) times m (omega (arith, split, here, e));
      }

  -- What the loop leaves is below twice the modulus.
  left_below : (a v times m q : ℕ) → v * q ≡ a + times * m → times < q → a < m * q → v < m + m
  left_below a v times m q e few h =
      let rows : suc times * m ≤ q * m = mul-le-mul_right m few in
      factor_below q v (m + m) (omega (arith, e, rows, h))

  -- The comparison of the fast variant decides whether the modulus is subtracted.
  fast_reduces :
      (v : ℕ) (ms : List ℕ) (r : Result)
      → b % 2 ≡ 0
      → 1 < b
      → StandsFor b (length ms) v r
      → AreWords b ms
      → v < value b ms + value b ms
      → IsResidue b (length ms) v ms (
          if at_least (cmp2 b (r.words ++ (r.carry ∷ [])) ms)
          then (sub2 b r.words ms).words
          else r.words)
  fast_reduces v ms r even hb s om small =
      let n = length ms in
      let whole = r.words ++ (r.carry ∷ []) in
      let are = append-AreWords b r.words (r.carry ∷ []) s.are_words (omega (arith, s.flag), tt) in
      let e : value b whole ≡ v = omega (
        arith,
        value-append b r.words (r.carry ∷ []),
        ap (λ (k : ℕ). b ^ k * r.carry) s.size,
        s.total,
      ) in
      let o : cmp2 b whole ms ≡ order v (value b ms) =
        (cmp2_lem b whole ms even (omega arith) are om).0 ∙ ap (λ t. order t (value b ms)) e in
      rw o (elim (at_least-order v (value b ms)) [
        | inl (over, test) ↦
            rw test (taken-IsResidue b n v ms r hb s om refl small (over_or_carry over))
        | inr (under, test) ↦
            let none = no_carry under in
            let low = ap (λ (t : ℕ). b ^ n * t) none in
            rw test (kept-IsResidue b n v ms r s none (omega (arith, low, s.total, under)))
      ])
    where
      over_or_carry :
          value b ms ≤ v → (r.carry ≡ 1) ⊎ ((r.carry ≡ 0) × (value b ms ≤ value b r.words))
      over_or_carry over = elim (flag_cases r.carry s.flag) [
        | inr full ↦ inl full
        | inl empty ↦
            let low = ap (λ (t : ℕ). b ^ length ms * t) empty in
            inr (empty, omega (arith, low, s.total, over))
      ]

      no_carry : v < value b ms → r.carry ≡ 0
      no_carry under = elim (flag_cases r.carry s.flag) [
        | inl empty ↦ empty
        | inr full ↦
            let top = ap (λ (t : ℕ). b ^ length ms * t) full in
            absurd (omega (arith, top, s.total, under, value-lt b ms om))
      ]

  mask_from-Says :
      (w m0 : ℕ) (ms cs : List ℕ)
      → AreWords b (m0 ∷ ms)
      → AreWords b cs
      → length cs ≡ length (m0 ∷ ms)
      → Says (mask_from w (m0 ∷ ms) cs) (w % 2) (value b (m0 ∷ ms)) (value b cs)
  unfolding mask_from mask_fold
  mask_from-Says w m0 ms [] om oc e = absurd (omega arith)
  mask_from-Says w m0 ms (c ∷ cs) om oc e =
      let says = mask_fold-Says b (w % 2) (m0 ∷ ms) (c ∷ cs) (omega arith) om oc (omega arith) in
      rw (mask_from-fold (next_mask w m0 c) ms cs, next_mask-low w m0 c) says

  -- The mask of the regular variant: reduced, or equal to the modulus and left as it is.
  regular_cases :
      (j v mask w : ℕ) (ms : List ℕ) (r : Result)
      → b ≡ 2 ^ j
      → 1 < b
      → StandsFor b (length ms) v r
      → Says mask (w % 2) (value b ms) (value b r.words)
      → AreWords b ms
      → v < value b ms + value b ms
      → let words = (sub_and_w b r.words ms (minus b 0 (bit_or mask r.carry))).words in
        IsResidue b (length ms) v ms words ⊎ ((v ≡ value b ms) × (words ≡ ms))
  regular_cases j v mask w ms r eb hb s says om small =
      let n = length ms in
      let m = value b ms in
      let f = bit_or mask r.carry in
      let flag : f ≡ max mask r.carry = bit_or_flags mask r.carry says.0 s.flag in
      let fine : f ≤ 1 = omega (arith, flag, says.0, s.flag) in
      let d0 = sub_and_w-Differs b j f r.words ms eb hb fine s.are_words om s.size in
      let diff = sub_and_w b r.words ms (minus b 0 f) in
      let d : Differs b n (value b r.words) (f * m) diff = rw s.size at d0 in
      let room : m < b ^ n = value-lt b ms om in
      elim (flag_cases r.carry s.flag) [
        | inr full ↦ inl (
            reduce b n v f ms r diff s d room small
              (inl (omega (arith, flag, full, says.0), inl full)))
        | inl empty ↦ elim (flag_cases mask says.0) [
          | inr one ↦
              let le = says.1.0 one in
              inl (
                reduce b n v f ms r diff s d room small
                  (inl (omega (arith, flag, empty, one), inr (empty, omega (arith, le)))))
          | inl none ↦
              let off : f ≡ 0 = omega (arith, flag, empty, none) in
              elim (three_ways (value b r.words) m) [
                | inl lt ↦ inl (reduce b n v f ms r diff s d room small (inr (off, empty, lt)))
                | inr (inl eq) ↦
                    let low = ap (λ (t : ℕ). b ^ n * t) empty in
                    inr (omega (arith, eq, low, s.total), untouched f ms r.words diff d om off eq)
                | inr (inr gt) ↦
                    let set = says.1.1 (omega arith) in absurd (omega (arith, set, none))
              ]
        ]
      ]
    where
      untouched :
          (f : ℕ) (ms ws : List ℕ) (diff : Result)
          → Differs b (length ms) (value b ws) (f * value b ms) diff
          → AreWords b ms
          → f ≡ 0
          → value b ws ≡ value b ms
          → diff.words ≡ ms
      untouched f ms ws diff d om off e =
          let never = ap (λ (t : ℕ). t * value b ms) off in
          let top : value b diff.words < b ^ length ms =
            rw d.size at (value-lt b diff.words d.are_words) in
          value-injective b diff.words ms d.are_words om d.size
            (elim (flag_cases diff.carry d.flag) [
              | inl none ↦
                  let low = ap (λ (t : ℕ). b ^ length ms * t) none in
                  omega (arith, never, low, d.total, e)
              | inr one ↦
                  let high = ap (λ (t : ℕ). b ^ length ms * t) one in
                  absurd (omega (arith, never, high, d.total, e, top, value-lt b ms om))
            ])

  -- For an odd modulus of n words with its Montgomery parameter, m0 * mont + 1 a multiple of the modulus b of
  -- a word, and a number of 2n words below b^n times the modulus: the fast `zzRedMont` gives n words of a
  -- number below the modulus which, times b^n, has the residue of the operand. The regular variant gives the
  -- same, or the operand is a multiple of the modulus and the result is the modulus instead of zero.
  pub red_mont-IsMontgomery :
      (j m0 mont : ℕ) (ms ws : List ℕ)
      → b ≡ 2 ^ suc j
      → AreWords b (m0 ∷ ms)
      → AreWords b ws
      → length ws ≡ length (m0 ∷ ms) + length (m0 ∷ ms)
      → (m0 * mont + 1) % b ≡ 0
      → value b ws < value b (m0 ∷ ms) * b ^ length (m0 ∷ ms)
      → let modulus = m0 ∷ ms in
        IsMontgomery b (value b ws) modulus (red_mont_fast b ws modulus mont)
        × (IsMontgomery b (value b ws) modulus (red_mont b ws modulus mont)
            ⊎ ((value b ws % value b modulus ≡ 0) × (red_mont b ws modulus mont ≡ modulus)))
  unfolding red_mont red_mont_fast
  red_mont-IsMontgomery j m0 mont ms ws eb om oa e inverse small =
      let n = length (m0 ∷ ms) in
      let m = value b (m0 ∷ ms) in
      let word = pow_two j in
      let hb : 1 < b = omega (arith, eb, word) in
      let even : b % 2 ≡ 0 = rw (← eb) at word.0 in
      let pos : 0 < m = positive m (b ^ n) small in
      let start : value b ws + b ^ length ws * 0 < b ^ length ws + m =
        omega (arith, value-lt b ws oa) in
      let l =
        mont_loop-Leaves b n 0 0 m0 mont ms ws hb (omega arith) (omega arith) om oa e inverse
          start in
      let r = mont_loop b n 0 0 (m0 ∷ ms) mont ws in
      let v = value b r.words + b ^ n * r.carry in
      let total : v * b ^ n ≡ value b ws + l.times * m = omega (arith, l.total) in
      let below = left_below (value b ws) v l.times m (b ^ n) total l.few small in
      let res : Result = record { words = r.words; carry = r.carry } in
      let s : StandsFor b n v res = record {
        are_words = l.are_words;
        size = l.size;
        flag = l.flag;
        total = refl;
      } in
      let says = mask_from-Says r.last m0 ms r.words om l.are_words l.size in
      (
        residue-IsMontgomery (value b ws) v l.times (m0 ∷ ms) _ pos total
            (fast_reduces v (m0 ∷ ms) res even hb s om below),
        elim (regular_cases (suc j) v _ r.last (m0 ∷ ms) res eb hb s says om below) [
          | inl good ↦ inl (residue-IsMontgomery (value b ws) v l.times (m0 ∷ ms) _ pos total good)
          | inr (same, out) ↦
              let multiple : b ^ n * m ≡ v * b ^ n =
                omega (arith, ap (λ (t : ℕ). t * b ^ n) same) in
              let zero_sum : 0 + b ^ n * m ≡ value b ws + l.times * m =
                omega (arith, multiple, total) in
              inr (sym (same_residue 0 (value b ws) (b ^ n) l.times m zero_sum) ∙ zero-mod m, out)
        ],
      )
    where
      positive : (m q : ℕ) → value b ws < m * q → 0 < m
      positive zero q h = absurd (omega arith)
      positive (suc m) q h = omega arith
