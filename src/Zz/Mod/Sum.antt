-- ===== src/Zz/Mod/Sum.antt =====
-- `zzAddMod` and `zzAddWMod`: residues of a sum.
use bee.Common.{
  ℕ, suc, ◌+◌, ◌*◌, ◌%◌, ◌^◌, ◌<◌, ◌≡◌, ◌≢◌, ◌⊎◌, inl, inr, refl, sym, ap, ◌∙◌, List, [], ◌∷◌,
  length, ◌!=◌, true, false, arith,
}
use bee.Mem.Buffers.Order.{order, three_ways}
use bee.Ww.Compare.{ww_cmp_lem}
use bee.Common.Powers.{pow_two}
use bee.Zz.Value.{AreWords, value, value-lt, value-injective}
use bee.Zz.Add.{add_from, add, add_w}
use bee.Zz.Add.Laws.{add-StandsFor}
use bee.Zz.Add.Carry.{add_w-StandsFor}
use bee.Zz.Mod.{
  in_front, add_checked, add_mod, add_mod_fast, add_w_checked, add_w_mod, add_w_mod_fast,
  greater_than,
}
use bee.Zz.Mod.Reduce.{IsResidue, flag_cases}
use bee.Zz.Mod.Mask.{mask_fold, with_mask, reduced, kept-IsResidue, taken-IsResidue}

greater-order :
    (u v : ℕ)
    → ((v < u) × (greater_than (order u v) ≡ true))
      ⊎ (((u ≡ v) × (greater_than (order u v) ≡ false))
          ⊎ ((u < v) × (greater_than (order u v) ≡ false)))
unfolding order
greater-order u v = elim (three_ways u v) [
  | inl lt ↦ inr (inr (lt, ground arith))
  | inr (inl eq) ↦ inr (inl (eq, ground arith))
  | inr (inr gt) ↦ inl (gt, ground arith)
]

module _ (b : ℕ) where
  -- A number below the modulus has at least one word.
  pub some_word : (xs ms : List ℕ) → length xs ≡ length ms → value b xs < value b ms → 0 < length xs
  some_word [] [] k h = absurd (omega arith)
  some_word [] (m ∷ ms) k h = absurd (omega arith)
  some_word (x ∷ xs) ms k h = omega arith

  add_checked-eq :
      (xs ys ms : List ℕ) (carry mask : ℕ)
      → length xs ≡ length ys
      → length xs ≡ length ms
      → add_checked b carry mask xs ys ms ≡ with_mask mask ms (add_from b carry xs ys)
  unfolding add_checked add_from mask_fold
  add_checked-eq [] [] [] carry mask e k = refl
  add_checked-eq [] ys (m ∷ ms) carry mask e k = absurd (omega arith)
  add_checked-eq [] (y ∷ ys) ms carry mask e k = absurd (omega arith)
  add_checked-eq (x ∷ xs) [] ms carry mask e k = absurd (omega arith)
  add_checked-eq (x ∷ xs) (y ∷ ys) [] carry mask e k = absurd (omega arith)
  add_checked-eq (x ∷ xs) (y ∷ ys) (m ∷ ms) carry mask e k =
      ap (in_front _) (add_checked-eq xs ys ms _ _ (omega arith) (omega arith))

  -- For n words of B_PER_W bits each, and operands below the modulus, `zzAddMod` in both variants gives n
  -- words that stand for the sum modulo the modulus.
  pub add_mod-IsResidue :
      (j : ℕ) (xs ys ms : List ℕ)
      → b ≡ 2 ^ suc j
      → AreWords b xs
      → AreWords b ys
      → AreWords b ms
      → length xs ≡ length ys
      → length xs ≡ length ms
      → value b xs < value b ms
      → value b ys < value b ms
      → IsResidue b (length xs) (value b xs + value b ys) ms (add_mod b xs ys ms)
        × IsResidue b (length xs) (value b xs + value b ys) ms (add_mod_fast b xs ys ms)
  unfolding add_mod add_mod_fast
  add_mod-IsResidue j xs ys ms eb ox oy om e k hx hy =
      let v = add-StandsFor b xs ys ox oy e in
      let both = reduced b j (length xs) _ ms (add b xs ys) eb v om (sym k) (omega arith) in
      let same : add_checked b 0 1 xs ys ms ≡ with_mask 1 ms (add b xs ys) =
        unfold add in add_checked-eq xs ys ms 0 1 e k in
      let r = add b xs ys in
      let even : b % 2 ≡ 0 = rw (← eb) at (pow_two j).0 in
      let size : length r.words ≡ length ms = omega (arith, v.size, k) in
      let orders = ww_cmp_lem b r.words ms even v.are_words om size in
      (rw same both.0, rw (orders.1 ∙ sym orders.0) both.1)

  add_w_checked-eq :
      (xs ms : List ℕ) (mask w : ℕ)
      → length xs ≡ length ms
      → add_w_checked b mask xs w ms ≡ with_mask mask ms (add_w b xs w)
  unfolding add_w_checked add_w mask_fold
  add_w_checked-eq [] [] mask w k = refl
  add_w_checked-eq [] (m ∷ ms) mask w k = absurd (omega arith)
  add_w_checked-eq (x ∷ xs) [] mask w k = absurd (omega arith)
  add_w_checked-eq (x ∷ xs) (m ∷ ms) mask w k =
      ap (in_front _) (add_w_checked-eq xs ms _ _ (omega arith))

  -- For n words of B_PER_W bits each, and an operand and a word below the modulus, the regular `zzAddWMod`
  -- gives n words that stand for the sum modulo the modulus.
  pub add_w_mod-IsResidue :
      (j : ℕ) (xs : List ℕ) (w : ℕ) (ms : List ℕ)
      → b ≡ 2 ^ suc j
      → AreWords b xs
      → w < b
      → AreWords b ms
      → length xs ≡ length ms
      → value b xs < value b ms
      → w < value b ms
      → IsResidue b (length xs) (value b xs + w) ms (add_w_mod b xs w ms)
  unfolding add_w_mod
  add_w_mod-IsResidue j xs w ms eb ox ow om k hx hw =
      let word = pow_two j in
      let pos : 1 < b = omega (arith, eb, word) in
      let v = add_w-StandsFor b xs w (some_word xs ms k hx) ow pos ox in
      let both = reduced b j (length xs) _ ms (add_w b xs w) eb v om (sym k) (omega arith) in
      rw (add_w_checked-eq xs ms 1 w k) both.0

  -- For n words of B_PER_W bits each, and an operand and a word below the modulus, the fast `zzAddWMod`
  -- gives n words that stand for the sum modulo the modulus if the sum is not the modulus itself; if it is,
  -- the result is the modulus and not zero.
  pub add_w_mod_fast-cases :
      (j : ℕ) (xs : List ℕ) (w : ℕ) (ms : List ℕ)
      → b ≡ 2 ^ suc j
      → AreWords b xs
      → w < b
      → AreWords b ms
      → length xs ≡ length ms
      → value b xs < value b ms
      → w < value b ms
      → ((value b xs + w ≢ value b ms)
          × IsResidue b (length xs) (value b xs + w) ms (add_w_mod_fast b xs w ms))
        ⊎ ((value b xs + w ≡ value b ms) × (add_w_mod_fast b xs w ms ≡ ms))
  unfolding add_w_mod_fast
  add_w_mod_fast-cases j xs w ms eb ox ow om k hx hw =
      let word = pow_two j in
      let pos : 1 < b = omega (arith, eb, word) in
      let even : b % 2 ≡ 0 = rw (← eb) at word.0 in
      let v = add_w-StandsFor b xs w (some_word xs ms k hx) ow pos ox in
      let r = add_w b xs w in
      let m = value b ms in
      let n = length xs in
      let size : length r.words ≡ length ms = omega (arith, v.size) in
      let o = (ww_cmp_lem b r.words ms even v.are_words om size).0 in
      let small : value b xs + w < m + m = omega arith in
      let room : m < b ^ n = rw (← k) at (value-lt b ms om) in
      elim (flag_cases r.carry v.flag) [
        | inr full ↦
            let all = ap (λ (t : ℕ). b ^ n * t) full in
            let t : (r.carry != 0) ≡ true = ground (arith, full) in
            rw t (
              inl (
                λ e. absurd (omega (arith, e, all, v.total)),
                taken-IsResidue b n (value b xs + w) ms r pos v om (sym k) small (inl full),
              ))
        | inl empty ↦
            let none = ap (λ (t : ℕ). b ^ n * t) empty in
            let t : (r.carry != 0) ≡ false = ground (arith, empty) in
            rw (t, o)
              (elim (greater-order (value b r.words) m) [
                | inl (over, test) ↦ rw test (
                    inl (
                      λ e. absurd (omega (arith, e, none, v.total)),
                      taken-IsResidue b n (value b xs + w) ms r pos v om (sym k) small
                          (inr (empty, omega (arith, over))),
                    ))
                | inr (inl (same, test)) ↦ rw test (
                    inr (
                      omega (arith, same, none, v.total),
                      value-injective b r.words ms v.are_words om size same,
                    ))
                | inr (inr (under, test)) ↦ rw test (
                    inl (
                      λ e. absurd (omega (arith, e, under, none, v.total)),
                      kept-IsResidue b n (value b xs + w) ms r v empty under,
                    ))
              ])
      ]
