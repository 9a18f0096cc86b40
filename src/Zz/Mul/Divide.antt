-- ===== src/Zz/Mul/Divide.antt =====
-- `zzDivW` and `zzModW`: division by a word.
use bee.Common.{
  ℕ, suc, ◌+◌, ◌*◌, ◌/◌, ◌%◌, ◌^◌, ◌<◌, ◌≤◌, ◌≡◌, ◌⊎◌, inl, inr, refl, sym, ap, ◌∙◌, List, [], ◌∷◌,
  length, bit_or, arith,
}
use bee.Common.BitLaws.{bit_or_low}
use bee.Zz.Value.{AreWords, value}
use bee.Zz.Add.{Result}
use bee.Zz.Mul.{dword, div_w, mod_w}
use bee.Zz.Mul.Word.{dword_small}
use native.Mathlib.Nat.{mod-lt, mod-eq_of_lt, mod-add-div, mul-le-mul_right, mul-add-mod_self_left}

-- The words of a quotient and the remainder.
pub record Divides (b n s w : ℕ) (r : Result) : Type 0 where
  pub are_words : AreWords b r.words
  pub size : length r.words ≡ n
  pub is_below : r.carry < w
  pub total : value b r.words * w + r.carry ≡ s

module _ (b : ℕ) where
  -- The `dword` that is divided.
  joined :
      (j r x w : ℕ) → b ≡ 2 ^ j → x < b → r < w → w < b → bit_or (dword b (r * b)) x ≡ b * r + x
  joined j r x w eb hx hr hw =
      let p : r < b = omega arith in
      let square : suc r * b ≤ b * b = mul-le-mul_right b p in
      let small = dword_small b (r * b) (omega (arith, square)) in
      let turned : r * b ≡ 2 ^ j * r = omega (arith, ap (λ (t : ℕ). r * t) eb) in
      ap (λ t. bit_or t x) (small ∙ turned)
      ∙ bit_or_low j r x (omega (arith, hx, eb))
      ∙ omega (arith, turned)

  -- A quotient of a `dword` whose high word is below the divisor is one word.
  div_word :
      (r x w : ℕ)
      → x < b
      → r < w
      → w < b
      → let t = b * r + x in
        (t / w % b ≡ t / w)
        × (t / w < b)
        × (t % w % b ≡ t % w)
        × (t % w < w)
        × (t / w * w + t % w ≡ t)
  div_word r x w hx hr hw =
      let t = b * r + x in
      let q = t / w in
      let low : t % w < w = mod-lt t (omega arith) in
      let e = mod-add-div t w in
      let room : suc r * b ≤ w * b = mul-le-mul_right b hr in
      let fits : q < b = elim (above q) [
        | inl lt ↦ lt
        | inr ge ↦ absurd (omega (arith, e, room, mul-le-mul_right w ge))
      ] in
      (mod-eq_of_lt fits, fits, mod-eq_of_lt (omega arith), low, omega (arith, e))
    where
      above : (q : ℕ) → (q < b) ⊎ (b ≤ q)
      above q = omega arith

  -- `zzDivW` by a word w that is not zero: n words of the quotient and the remainder.
  pub div_w-Divides :
      (j : ℕ) (xs : List ℕ) (w : ℕ)
      → b ≡ 2 ^ j
      → 0 < w
      → w < b
      → AreWords b xs
      → Divides b (length xs) (value b xs) w (div_w b xs w)
  unfolding div_w
  div_w-Divides j [] w eb pos hw o = record {
    are_words = tt;
    size = refl;
    is_below = pos;
    total = omega arith;
  }
  div_w-Divides j (x ∷ xs) w eb pos hw o =
      let high = div_w-Divides j xs w eb pos hw o.1 in
      let r = div_w b xs w in
      let t = b * r.carry + x in
      let d = joined j r.carry x w eb o.0 high.is_below hw in
      let step = div_word r.carry x w o.0 high.is_below hw in
      rw (d, step.0, step.2)
        (record {
          are_words = (step.1, high.are_words);
          size = ap suc high.size;
          is_below = step.3;
          total = omega (arith, step.4, ap (λ (k : ℕ). b * k) high.total);
        })

  mod_w-div_w : (xs : List ℕ) (w : ℕ) → mod_w b xs w ≡ (div_w b xs w).carry
  unfolding mod_w div_w
  mod_w-div_w [] w = refl
  mod_w-div_w (x ∷ xs) w = ap (λ (t : ℕ). bit_or (dword b (t * b)) x % w % b) (mod_w-div_w xs w)

  -- `zzModW` by a word w that is not zero is the remainder of the number, and so is the one `zzDivW` returns.
  pub mod_w_lem :
      (j : ℕ) (xs : List ℕ) (w : ℕ)
      → b ≡ 2 ^ j
      → 0 < w
      → w < b
      → AreWords b xs
      → (mod_w b xs w ≡ value b xs % w) × ((div_w b xs w).carry ≡ value b xs % w)
  mod_w_lem j xs w eb pos hw o =
      let d = div_w-Divides j xs w eb pos hw o in
      let r = div_w b xs w in
      let e : value b xs ≡ w * value b r.words + r.carry = omega (arith, d.total) in
      let rest : r.carry ≡ value b xs % w = sym (
        ap (λ (t : ℕ). t % w) e
        ∙ mul-add-mod_self_left w (value b r.words) r.carry
        ∙ mod-eq_of_lt d.is_below) in
      (mod_w-div_w xs w ∙ rest, rest)
