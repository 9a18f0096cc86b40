-- ===== src/Zz/Red/Round.antt =====
-- One round of the reduction of Montgomery: a multiple of the modulus clears the lowest word.
use bee.Common.{
  ℕ, suc, ◌+◌, ◌*◌, ◌/◌, ◌%◌, ◌^◌, ◌<◌, ◌≡◌, ap, List, length, take, drop, length-take, length-drop,
  length-append, arith,
}
use bee.Common.Powers.{pow_add}
use bee.Zz.Value.{
  AreWords, value, value-append, append-AreWords, take-AreWords, drop-AreWords, digits_unique,
}
use bee.Zz.Add.{add_w2}
use bee.Zz.Add.Laws.{StandsFor}
use bee.Zz.Add.Carry.{add_w-StandsFor, add_w_variants, value_split}
use bee.Zz.Mul.{add_mul_w}
use bee.Zz.Mul.Word.{mul_w-Scaled}
use bee.Zz.Red.{mont_round}
use native.Mathlib.Nat.{mod-add-div}

module _ (b : ℕ) where
  -- A round on at least n + 1 words adds w times the modulus.
  pub round-StandsFor :
      (i w : ℕ) (ms ws : List ℕ)
      → 1 < b
      → w < b
      → AreWords b ms
      → AreWords b ws
      → length ws ≡ length ms + suc i
      → StandsFor b (length ws) (value b ws + w * value b ms) (mont_round b w ms ws)
  unfolding mont_round
  round-StandsFor i w ms ws hb hw om oa e =
      let n = length ms in
      let size : length (take n ws) ≡ n = omega (arith, length-take n ws) in
      let rest : length (drop n ws) ≡ suc i = omega (arith, length-drop n ws) in
      let v = (mul_w-Scaled b (take n ws) ms w hw (take-AreWords b n ws oa) om size).1 in
      let low = add_mul_w b (take n ws) ms w in
      let same = (add_w_variants b (drop n ws) low.carry (drop-AreWords b n ws oa)).0 in
      let h : StandsFor b (length (drop n ws)) (value b (drop n ws) + low.carry)
          (add_w2 b (drop n ws) low.carry) =
        rw same (
          add_w-StandsFor b (drop n ws) low.carry (omega arith) v.is_word hb
            (drop-AreWords b n ws oa)) in
      let high = add_w2 b (drop n ws) low.carry in
      record {
        are_words = append-AreWords b low.words high.words v.are_words h.are_words;
        size = omega (arith, length-append low.words high.words, v.size, h.size);
        flag = h.flag;
        total = omega (
          arith,
          value-append b low.words high.words,
          ap (λ k. b ^ k * value b high.words) v.size,
          ap (λ (t : ℕ). b ^ n * t) h.total,
          ap (λ k. b ^ n * (b ^ k * high.carry)) rest,
          ap (λ k. b ^ k * high.carry) e,
          ap (λ (t : ℕ). t * high.carry) (pow_add b n (suc i)),
          v.total,
          value_split b n ws (omega arith),
        );
      }

  -- The lowest word becomes zero.
  pub cleared :
      (a0 m0 u v z z' mont : ℕ)
      → z < b
      → (m0 * mont + 1) % b ≡ 0
      → let w = a0 * mont % b in z + b * z' ≡ a0 + b * u + w * (m0 + b * v) → z ≡ 0
  cleared a0 m0 u v z z' mont hz inverse e =
      let w = a0 * mont % b in
      let s = a0 * mont / b in
      let t = (m0 * mont + 1) / b in
      let one = mod-add-div (m0 * mont + 1) b in
      let two = mod-add-div (a0 * mont) b in
      let e1 = ap (λ (k : ℕ). a0 * k) one in
      let e2 = ap (λ (k : ℕ). m0 * k) two in
      let e0 = ap (λ (k : ℕ). a0 * k) inverse in
      (digits_unique b z 0 (z' + s * m0) (a0 * t + u + w * v) hz (omega arith)
        (omega (arith, e, e1, e2, e0))).0
