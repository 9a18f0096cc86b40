-- ===== src/Zz/Mul/Word.antt =====
-- `zzMulW`, `zzAddMulW` and `zzSubMulW`: a number times a word.
use bee.Common.{
  ℕ, suc, ◌+◌, ◌-◌, ◌*◌, ◌/◌, ◌%◌, ◌^◌, ◌<◌, ◌≤◌, ◌≡◌, ◌⊎◌, inl, inr, refl, ap, List, [], ◌∷◌,
  length, arith,
}
use bee.Zz.Value.{AreWords, value}
use bee.Zz.Add.{Result, before}
use bee.Zz.Add.Words.{wrap}
use bee.Zz.Sub.{minus}
use bee.Zz.Sub.Words.{minus_cases}
use bee.Zz.Mul.{
  dword, mul_w_from, mul_w, add_mul_w_from, add_mul_w, sub_prod, sub_mul_w_from, sub_mul_w,
}
use native.Mathlib.Nat.{
  pow-suc, pow-zero, mod-lt, mod-eq_of_lt, mod-add-div, mul-le-mul_right, add-zero,
}

-- `n` words and a carry of one word that stand for `s`.
pub record Scaled (b n s : ℕ) (r : Result) : Type 0 where
  pub are_words : AreWords b r.words
  pub size : length r.words ≡ n
  pub is_word : r.carry < b
  pub total : value b r.words + b ^ n * r.carry ≡ s

module _ (b : ℕ) where
  -- A product of words with two words added fits a `dword`.
  pub product_fits : (x w c d : ℕ) → x < b → w < b → c < b → d < b → w * x + c + d < b * b
  product_fits x w c d hx hw hc hd =
      let p = b - 1 in
      let e : b ≡ p + 1 = omega arith in
      let rows : w * x ≤ p * x = mul-le-mul_right x (omega arith) in
      let columns : x * p ≤ p * p = mul-le-mul_right p (omega arith) in
      let square : b * b ≡ p * p + p + p + 1 =
        omega (arith, ap (λ (t : ℕ). t * b) e, ap (λ (t : ℕ). p * t) e) in
      omega (arith, rows, columns, square)

  pub dword_small : (t : ℕ) → t < b * b → dword b t ≡ t
  unfolding dword
  dword_small t h = mod-eq_of_lt h

  -- The low and the high word of a `dword`.
  pub split : (t : ℕ) → 0 < b → t < b * b → (t % b < b) × (t / b < b) × (t % b + b * (t / b) ≡ t)
  split t pos h =
      let e = mod-add-div t b in
      let q = t / b in
      (
        mod-lt t pos,
        elim (above q) [ inl lt ↦ lt | inr ge ↦ absurd (omega (arith, e, mul-le-mul_right b ge)) ],
        e,
      )
    where
      above : (q : ℕ) → (q < b) ⊎ (b ≤ q)
      above q = omega arith

  before-Scaled :
      (n s s' c : ℕ) (r : Result)
      → c < b
      → Scaled b n s r
      → s' ≡ c + b * s
      → Scaled b (suc n) s' (before c r)
  before-Scaled n s s' c r h v e = record {
    are_words = (h, v.are_words);
    size = ap suc v.size;
    is_word = v.is_word;
    total =
        omega (arith, ap (λ (t : ℕ). b * t) v.total, ap (λ (t : ℕ). t * r.carry) (pow-suc b n), e);
  }

  add_mul_w_from-Scaled :
      (ys xs : List ℕ) (w carry : ℕ)
      → w < b
      → carry < b
      → AreWords b ys
      → AreWords b xs
      → length ys ≡ length xs
      → Scaled b (length xs) (value b ys + w * value b xs + carry) (add_mul_w_from b carry ys xs w)
  unfolding add_mul_w_from
  add_mul_w_from-Scaled [] [] w carry hw hc oy ox e = record {
    are_words = tt;
    size = refl;
    is_word = hc;
    total = omega (arith, ap (λ (t : ℕ). t * carry) (pow-zero b));
  }
  add_mul_w_from-Scaled [] (x ∷ xs) w carry hw hc oy ox e = absurd (omega arith)
  add_mul_w_from-Scaled (y ∷ ys) [] w carry hw hc oy ox e = absurd (omega arith)
  add_mul_w_from-Scaled (y ∷ ys) (x ∷ xs) w carry hw hc oy ox e =
      let pos : 0 < b = omega arith in
      let small = product_fits x w carry y ox.0 hw hc oy.0 in
      let d1 = dword_small (w * x) (omega (arith, small)) in
      let d2 = dword_small (w * x + carry) (omega (arith, small)) in
      let d3 = dword_small (w * x + carry + y) small in
      let parts = split (w * x + carry + y) pos small in
      rw (d1, d2, d3)
        (before-Scaled (length xs) _ _ _ _ parts.0
          (add_mul_w_from-Scaled ys xs w _ hw (parts.1) oy.1 ox.1 (omega arith))
          (omega (arith, parts.2)))

  mul_w_from-Scaled :
      (xs : List ℕ) (w carry : ℕ)
      → w < b
      → carry < b
      → AreWords b xs
      → Scaled b (length xs) (w * value b xs + carry) (mul_w_from b carry xs w)
  unfolding mul_w_from
  mul_w_from-Scaled [] w carry hw hc o = record {
    are_words = tt;
    size = refl;
    is_word = hc;
    total = omega (arith, ap (λ (t : ℕ). t * carry) (pow-zero b));
  }
  mul_w_from-Scaled (x ∷ xs) w carry hw hc o =
      let pos : 0 < b = omega arith in
      let small = product_fits x w carry 0 o.0 hw hc pos in
      let d1 = dword_small (w * x) (omega (arith, small)) in
      let d2 = dword_small (w * x + carry) (omega (arith, small)) in
      let parts = split (w * x + carry) pos (omega (arith, small)) in
      rw (d1, d2)
        (before-Scaled (length xs) _ _ _ _ parts.0 (mul_w_from-Scaled xs w _ hw parts.1 o.1)
          (omega (arith, parts.2)))

  -- `zzMulW` and `zzAddMulW` on n words: n words and a carry of one word, b^n its weight, that stand for
  -- the product with the word, and for the array plus the product.
  pub mul_w-Scaled :
      (ys xs : List ℕ) (w : ℕ)
      → w < b
      → AreWords b ys
      → AreWords b xs
      → length ys ≡ length xs
      → Scaled b (length xs) (w * value b xs) (mul_w b xs w)
        × Scaled b (length xs) (value b ys + w * value b xs) (add_mul_w b ys xs w)
  unfolding mul_w add_mul_w
  mul_w-Scaled ys xs w hw oy ox e =
      let pos : 0 < b = omega arith in
      (
        rw (add-zero (w * value b xs)) at (mul_w_from-Scaled xs w 0 hw pos ox),
        rw (add-zero (value b ys + w * value b xs)) at
            (add_mul_w_from-Scaled ys xs w 0 hw pos oy ox e),
      )

  -- One `dword` of `zzSubMulW`.
  sub_dword :
      (m p y k : ℕ)
      → p < m
      → y < m
      → k < m
      → let n = (((m - p % m) % m + y) % m + (m - k)) % m in
        p + k < m → (n < m) × ((n + p + k ≡ y) ⊎ (n + p + k ≡ y + m))
  sub_dword m p y k hp hy hk h =
      let e : p % m ≡ p = mod-eq_of_lt hp in
      let n1 = (m - p) % m in
      let n2 = (n1 + y) % m in
      let w1 = wrap m (m - p) (omega arith) in
      let w2 = wrap m (n1 + y) (omega (arith, w1)) in
      let w3 = wrap m (n2 + (m - k)) (omega (arith, w1, w2)) in
      rw e (omega (arith, w1, w2, w3), omega (arith, w1, w2, w3))

  -- One word of `zzSubMulW`.
  sub_mul_word :
      (x y w borrow : ℕ)
      → x < b
      → y < b
      → w < b
      → borrow < b
      → let prod = sub_prod b w x y borrow in
        (prod % b < b)
        × (minus b 0 (prod / b) < b)
        × (prod % b + w * x + borrow ≡ y + b * minus b 0 (prod / b))
  unfolding dword sub_prod
  sub_mul_word x y w borrow hx hy hw hb =
      let small = product_fits x w borrow (b - 1) hx hw hb (omega arith) in
      let one : 1 ≤ b = omega arith in
      let wide : b ≤ b * b = omega (arith, mul-le-mul_right b one) in
      let n =
        (((b * b - (w * x) % (b * b)) % (b * b) + y) % (b * b) + (b * b - borrow)) % (b * b) in
      let d =
        sub_dword (b * b) (w * x) y borrow (omega (arith, small)) (omega arith) (omega arith)
          (omega (arith, small)) in
      let parts = split n (omega arith) d.0 in
      let q = n / b in
      let m = minus_cases b 0 q (omega arith) parts.1 in
      elim m [
        | inl (z, e) ↦
            let none : q ≡ 0 = omega arith in
            let low = ap (λ (t : ℕ). b * t) none in
            let kept : minus b 0 q ≡ 0 = omega (arith, e) in
            let kept' = ap (λ (t : ℕ). b * t) kept in
            (parts.0, omega (arith, kept), omega (arith, parts.2, d, low, kept', small))
        | inr (p, e) ↦
            let some : 1 ≤ q = omega arith in
            let high = mul-le-mul_right b some in
            let turned = ap (λ (t : ℕ). b * t) e in
            (parts.0, omega (arith, e), omega (arith, parts.2, d, high, turned, small))
      ]

  sub_mul_w_from-total :
      (ys xs : List ℕ) (w borrow : ℕ)
      → w < b
      → borrow < b
      → AreWords b ys
      → AreWords b xs
      → length ys ≡ length xs
      → let r = sub_mul_w_from b borrow ys xs w in
        AreWords b r.words
        × (length r.words ≡ length xs)
        × (r.carry < b)
        × (value b r.words + w * value b xs + borrow ≡ value b ys + b ^ length xs * r.carry)
  unfolding sub_mul_w_from
  sub_mul_w_from-total [] [] w borrow hw hb oy ox e =
      (tt, refl, hb, omega (arith, ap (λ (t : ℕ). t * borrow) (pow-zero b)))
  sub_mul_w_from-total [] (x ∷ xs) w borrow hw hb oy ox e = absurd (omega arith)
  sub_mul_w_from-total (y ∷ ys) [] w borrow hw hb oy ox e = absurd (omega arith)
  sub_mul_w_from-total (y ∷ ys) (x ∷ xs) w borrow hw hb oy ox e =
      let step = sub_mul_word x y w borrow ox.0 oy.0 hw hb in
      let next = minus b 0 (sub_prod b w x y borrow / b) in
      let rest = sub_mul_w_from-total ys xs w next hw step.1 oy.1 ox.1 (omega arith) in
      let r = sub_mul_w_from b next ys xs w in
      (
        (step.0, rest.0),
        ap suc rest.1,
        rest.2,
        omega (
          arith,
          step.2,
          ap (λ (t : ℕ). b * t) rest.3,
          ap (λ (t : ℕ). t * r.carry) (pow-suc b (length xs)),
        ),
      )

  -- `zzSubMulW` on n words: n words and a borrow of one word, b^n its weight; the words plus the product
  -- are the array plus the borrow.
  pub sub_mul_w-total :
      (ys xs : List ℕ) (w : ℕ)
      → w < b
      → AreWords b ys
      → AreWords b xs
      → length ys ≡ length xs
      → let r = sub_mul_w b ys xs w in
        AreWords b r.words
        × (length r.words ≡ length xs)
        × (r.carry < b)
        × (value b r.words + w * value b xs ≡ value b ys + b ^ length xs * r.carry)
  unfolding sub_mul_w
  sub_mul_w-total ys xs w hw oy ox e =
      let t = sub_mul_w_from-total ys xs w 0 hw (omega arith) oy ox e in
      (t.0, t.1, t.2, omega (arith, t.3))
