-- ===== src/Zz/Mod/Double.antt =====
-- `zzDoubleMod`: the double of a residue.
use bee.Common.{
  ℕ, suc, ◌+◌, ◌-◌, ◌*◌, ◌/◌, ◌%◌, ◌^◌, ◌<◌, ◌≤◌, ◌≡◌, ◌⊎◌, inl, inr, refl, sym, ap, ◌∙◌, List, [],
  ◌∷◌, length, bit_or, arith,
}
use bee.Common.BitLaws.{bit_or_low}
use bee.Common.Powers.{pow_two}
use bee.Zz.Value.{AreWords, value}
use bee.Zz.Add.Words.{wrap}
use bee.Zz.Add.Laws.{StandsFor, before-StandsFor}
use bee.Zz.Mod.{in_front, double_from, double_mod, double_mod_fast, double_checked}
use bee.Zz.Mod.Reduce.{IsResidue}
use bee.Zz.Mod.Mask.{mask_fold, with_mask, reduced}
use native.Mathlib.Nat.{pow-zero, mod-add-div, mul-le-mul_right, mod-lt}

small_cases : (q : ℕ) → (q ≡ 0) ⊎ ((q ≡ 1) ⊎ (2 ≤ q))
small_cases q = omega arith

-- The highest bit of a word.
pub high_bit : (h x : ℕ) → x < h + h → ((x < h) × (x / h ≡ 0)) ⊎ ((h ≤ x) × (x / h ≡ 1))
high_bit h x small =
    let split = mod-add-div x h in
    let low : x % h < h = mod-lt x {m = h} (omega arith) in
    let q = x / h in
    elim (small_cases q) [
      | inl z ↦ inl (omega (arith, split, low, ap (λ (t : ℕ). h * t) z), z)
      | inr (inl o) ↦ inr (omega (arith, split, ap (λ (t : ℕ). h * t) o), o)
      | inr (inr big) ↦ absurd (omega (arith, split, mul-le-mul_right h big))
    ]

module _ (b : ℕ) where
  -- One word of the double, and the bit that leaves it.
  double_word :
      (h x carry : ℕ)
      → b ≡ h + h
      → x < b
      → carry ≤ 1
      → let c = bit_or (x * 2 % b) carry in
        (c < b) × (x / h ≤ 1) × (c + b * (x / h) ≡ 2 * x + carry)
  double_word h x carry eb hx hc = elim (high_bit h x (omega arith)) [
    | inl (lt, q) ↦
        let none = ap (λ (t : ℕ). b * t) q in
        let even : x * 2 % b ≡ 2 * x = omega (arith, wrap b (x * 2) (omega arith)) in
        let c = ap (λ t. bit_or t carry) even ∙ bit_or_low 1 x carry (omega arith) in
        (omega (arith, c), omega (arith, q), omega (arith, c, none))
    | inr (ge, q) ↦
        let one = ap (λ (t : ℕ). b * t) q in
        let even : x * 2 % b ≡ 2 * (x - h) = omega (arith, wrap b (x * 2) (omega arith)) in
        let c = ap (λ t. bit_or t carry) even ∙ bit_or_low 1 (x - h) carry (omega arith) in
        (omega (arith, c), omega (arith, q), omega (arith, c, one))
  ]

  double_from-StandsFor :
      (xs : List ℕ) (carry : ℕ)
      → b ≡ b / 2 + b / 2
      → carry ≤ 1
      → AreWords b xs
      → StandsFor b (length xs) (2 * value b xs + carry) (double_from b carry xs)
  unfolding double_from
  double_from-StandsFor [] carry eb hc o = record {
    are_words = tt;
    size = refl;
    flag = hc;
    total = omega (arith, ap (λ (t : ℕ). t * carry) (pow-zero b));
  }
  double_from-StandsFor (x ∷ xs) carry eb hc o =
      let step = double_word (b / 2) x carry eb o.0 hc in
      let rest = double_from-StandsFor xs (x / (b / 2)) eb step.1 o.1 in
      before-StandsFor b (length xs) _ _ _ _ step.0 rest (omega (arith, step.2))

  double_checked-eq :
      (xs ms : List ℕ) (carry mask : ℕ)
      → length xs ≡ length ms
      → double_checked b carry mask xs ms ≡ with_mask mask ms (double_from b carry xs)
  unfolding double_checked double_from mask_fold
  double_checked-eq [] [] carry mask e = refl
  double_checked-eq [] (m ∷ ms) carry mask e = absurd (omega arith)
  double_checked-eq (x ∷ xs) [] carry mask e = absurd (omega arith)
  double_checked-eq (x ∷ xs) (m ∷ ms) carry mask e =
      ap (in_front _) (double_checked-eq xs ms _ _ (omega arith))

  -- For n words of B_PER_W bits each, and an operand below the modulus, `zzDoubleMod` in both variants
  -- gives n words that stand for the double modulo the modulus.
  pub double_mod-IsResidue :
      (j : ℕ) (xs ms : List ℕ)
      → b ≡ 2 ^ suc j
      → AreWords b xs
      → AreWords b ms
      → length xs ≡ length ms
      → value b xs < value b ms
      → IsResidue b (length xs) (2 * value b xs) ms (double_mod b xs ms)
        × IsResidue b (length xs) (2 * value b xs) ms (double_mod_fast b xs ms)
  unfolding double_mod double_mod_fast
  double_mod-IsResidue j xs ms eb ox om k h =
      let even : b % 2 ≡ 0 = rw (← eb) at (pow_two j).0 in
      let halves : b ≡ b / 2 + b / 2 = omega (arith, even) in
      let v = double_from-StandsFor xs 0 halves (omega arith) ox in
      let total : 2 * value b xs + 0 ≡ 2 * value b xs = omega arith in
      let both =
        reduced b j (length xs) _ ms (double_from b 0 xs) eb (rw total at v) om (sym k)
          (omega arith) in
      (rw (double_checked-eq xs ms 0 1 k) both.0, both.1)
