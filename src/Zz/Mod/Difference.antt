-- ===== src/Zz/Mod/Difference.antt =====
-- `zzSubMod`, `zzSubWMod` and `zzNegMod`: residues of a difference.
use bee.Common.{
  ℕ, suc, ◌+◌, ◌-◌, ◌*◌, ◌^◌, ◌<◌, ◌≤◌, ◌≡◌, ◌≢◌, inl, inr, refl, sym, ap, ◌∙◌, List, length, ◌!=◌,
  true, false, arith, if◌then◌else◌, Bool-cases,
}
use bee.Common.Powers.{pow_two}
use bee.Ww.{eq, is_zero}
use bee.Ww.Zero.{ww_eq_iff, ww_is_zero_iff}
use bee.Zz.Value.{replicate-zero, AreWords, value, value-lt, value-injective}
use bee.Zz.Add.{Result, add, add2}
use bee.Zz.Add.Laws.{StandsFor, add-StandsFor, add_variants}
use bee.Zz.Sub.{minus, sub, sub_w}
use bee.Zz.Sub.Laws.{Differs, sub-Differs}
use bee.Zz.Sub.Short.{sub_w-Differs}
use bee.Zz.Etc.{add_and_w}
use bee.Zz.Etc.Masked.{add_and_w-StandsFor, sub_and_w-Differs}
use bee.Zz.Mod.{sub_mod, sub_mod_fast, sub_w_mod, sub_w_mod_fast, neg_mod, neg_mod_fast}
use bee.Zz.Mod.Reduce.{IsResidue, flag_cases, reduce, restore}
use bee.Zz.Mod.Mask.{kept-IsResidue}
use bee.Zz.Mod.Sum.{some_word}
use native.Mathlib.Nat.{mod_self}

false-true : false ≡ true → ⊥
false-true e = absurd (ground (arith, e))

module _ (b : ℕ) where
  -- A difference and the two ways to add the modulus to it.
  restored :
      (j n s t : ℕ) (ms : List ℕ) (r : Result)
      → b ≡ 2 ^ suc j
      → Differs b n s t r
      → AreWords b ms
      → length ms ≡ n
      → s < value b ms
      → t < value b ms
      → IsResidue b n (s + (value b ms - t)) ms (add_and_w b r.words ms (minus b 0 r.carry))
        × IsResidue b n
            (s + (value b ms - t))
            ms
            (if r.carry != 0 then (add2 b r.words ms).words else r.words)
  unfolding add_and_w
  restored j n s t ms r eb d om e hs ht =
      let word = pow_two j in
      let pos : 0 < b = omega (arith, eb, word) in
      let size : length r.words ≡ length ms = omega (arith, d.size) in
      let room : value b ms < b ^ n = rw e at (value-lt b ms om) in
      let v = add_and_w-StandsFor b (suc j) r.carry r.words ms eb pos d.flag d.are_words om size in
      let regular = restore b n s t ms r _ d (rw d.size at v) room hs ht in
      (
        regular,
        elim (flag_cases r.carry d.flag) [
          | inl none ↦
              let test : (r.carry != 0) ≡ false = ground (arith, none) in
              let never = ap (λ (k : ℕ). k * value b ms) none in
              rw test (
                restore b n s t ms r (record { words = r.words; carry = 0 }) d
                  (record {
                    are_words = d.are_words;
                    size = d.size;
                    flag = omega arith;
                    total = omega (arith, never);
                  })
                  room hs ht)
          | inr one ↦
              let test : (r.carry != 0) ≡ true = ground (arith, one) in
              let once = ap (λ (k : ℕ). k * value b ms) one in
              let sum = add-StandsFor b ms r.words om d.are_words (sym size) in
              let same : add2 b r.words ms ≡ add b ms r.words =
                (add_variants b ms r.words om d.are_words).1 in
              let total : value b ms + value b r.words ≡ value b r.words + r.carry * value b ms =
                omega (arith, once) in
              rw (test, same)
                (restore b n s t ms r (add b ms r.words) d (rw (e, total) at sum) room hs ht)
        ],
      )

  -- For n words of B_PER_W bits each, and operands below the modulus, `zzSubMod` in both variants gives n
  -- words that stand for the difference modulo the modulus.
  pub sub_mod-IsResidue :
      (j : ℕ) (xs ys ms : List ℕ)
      → b ≡ 2 ^ suc j
      → AreWords b xs
      → AreWords b ys
      → AreWords b ms
      → length xs ≡ length ys
      → length xs ≡ length ms
      → value b xs < value b ms
      → value b ys < value b ms
      → let s = value b xs + (value b ms - value b ys) in
        IsResidue b (length xs) s ms (sub_mod b xs ys ms)
        × IsResidue b (length xs) s ms (sub_mod_fast b xs ys ms)
  unfolding sub_mod sub_mod_fast
  sub_mod-IsResidue j xs ys ms eb ox oy om e k hx hy =
      restored j (length xs) (value b xs) (value b ys) ms (sub b xs ys) eb
        (sub-Differs b xs ys ox oy e) om (sym k) hx hy

  -- For n words of B_PER_W bits each, and an operand and a word below the modulus, `zzSubWMod` in both
  -- variants gives n words that stand for the difference modulo the modulus.
  pub sub_w_mod-IsResidue :
      (j : ℕ) (xs : List ℕ) (w : ℕ) (ms : List ℕ)
      → b ≡ 2 ^ suc j
      → AreWords b xs
      → w < b
      → AreWords b ms
      → length xs ≡ length ms
      → value b xs < value b ms
      → w < value b ms
      → let s = value b xs + (value b ms - w) in
        IsResidue b (length xs) s ms (sub_w_mod b xs w ms)
        × IsResidue b (length xs) s ms (sub_w_mod_fast b xs w ms)
  unfolding sub_w_mod sub_w_mod_fast
  sub_w_mod-IsResidue j xs w ms eb ox ow om k hx hw =
      let word = pow_two j in
      let pos : 1 < b = omega (arith, eb, word) in
      restored j (length xs) (value b xs) w ms (sub_w b xs w) eb
        (sub_w-Differs b xs w (some_word b xs ms k hx) ow pos ox) om (sym k) hx hw

  -- The negative before its last reduction.
  negative :
      (n : ℕ) (xs ms : List ℕ) (r : Result)
      → Differs b n (value b ms) (value b xs) r
      → value b xs < value b ms
      → StandsFor b n (value b ms - value b xs) (record { words = r.words; carry = 0 })
  negative n xs ms r d h =
      let top : value b r.words < b ^ n = rw d.size at (value-lt b r.words d.are_words) in
      record {
        are_words = d.are_words;
        size = d.size;
        flag = omega arith;
        total = elim (flag_cases r.carry d.flag) [
          | inl none ↦ let z = ap (λ (t : ℕ). b ^ n * t) none in omega (arith, z, d.total)
          | inr one ↦ let z = ap (λ (t : ℕ). b ^ n * t) one in absurd (omega (arith, z, d.total))
        ];
      }

  -- For n words of B_PER_W bits each, and an operand below the modulus, `zzNegMod` in both variants gives n
  -- words that stand for the negative modulo the modulus.
  pub neg_mod-IsResidue :
      (j : ℕ) (xs ms : List ℕ)
      → b ≡ 2 ^ suc j
      → AreWords b xs
      → AreWords b ms
      → length xs ≡ length ms
      → value b xs < value b ms
      → IsResidue b (length xs) (value b ms - value b xs) ms (neg_mod b xs ms)
        × IsResidue b (length xs) (value b ms - value b xs) ms (neg_mod_fast b xs ms)
  unfolding neg_mod neg_mod_fast
  neg_mod-IsResidue j xs ms eb ox om k h =
      let word = pow_two j in
      let pos : 1 < b = omega (arith, eb, word) in
      let n = length xs in
      let r = sub b ms xs in
      let d : Differs b n (value b ms) (value b xs) r =
        rw (← k) at (sub-Differs b ms xs om ox (sym k)) in
      let v = negative n xs ms r d h in
      let size : length r.words ≡ length ms = omega (arith, d.size) in
      let room : value b ms < b ^ n = rw (← k) at (value-lt b ms om) in
      let zero_test = (ww_is_zero_iff b xs (omega (arith, pos))).0 in
      let same_test = (ww_eq_iff r.words ms size).0 in
      let sum : Result = record { words = r.words; carry = 0 } in
      let small : value b ms - value b xs < value b ms + value b ms = omega arith in
      let step = λ (f : ℕ) (fine : f ≤ 1).
        rw d.size at (sub_and_w-Differs b (suc j) f r.words ms eb pos fine d.are_words om size) in
      (
        elim (Bool-cases (eq r.words ms)) [
          | inl same ↦
              let eq_words = same_test.0 same in
              let le : value b ms ≤ value b r.words = omega (arith, ap (value b) eq_words) in
              rw (neg_mod, same)
                (reduce b n _ 1 ms sum _ v (step 1 (omega arith)) room small
                  (inl (refl, inr (refl, le))))
          | inr differ ↦
              let ne : value b r.words ≢ value b ms = λ e. absurd (
                false-true (
                  sym differ ∙ same_test.1 (value-injective b r.words ms d.are_words om size e))) in
              let lt : value b r.words < value b ms = omega (arith, ne, v.total) in
              rw (neg_mod, differ)
                (reduce b n _ 0 ms sum _ v (step 0 (omega arith)) room small (inr (refl, refl, lt)))
        ],
        elim (Bool-cases (is_zero xs)) [
          | inl none ↦
              let z = zero_test.0 none in
              let zeros = replicate-zero b n (omega (arith, pos)) in
              let e : value b ms - value b xs ≡ value b ms = omega (arith, z) in
              rw (neg_mod_fast, none, e)
                (record {
                  are_words = zeros.0;
                  size = zeros.1;
                  residue = zeros.2 ∙ sym (mod_self (value b ms));
                })
          | inr some ↦
              let p : value b xs ≢ 0 = λ z. absurd (false-true (sym some ∙ zero_test.1 z)) in
              rw (neg_mod_fast, some)
                (kept-IsResidue b n _ ms sum v refl (omega (arith, p, v.total)))
        ],
      )
