-- ===== src/Zz/Mul/Product.antt =====
-- `zzMul`: the product of two arrays of any lengths.
use bee.Common.{
  ℕ, zero, suc, ◌+◌, ◌*◌, ◌^◌, ◌<◌, ◌≡◌, refl, sym, ap, ◌∙◌, List, [], ◌∷◌, ◌++◌, length, take,
  drop, replicate, append-nil, append_assoc, length-append, drop_two, arith,
}
use bee.Zz.Value.{replicate-zero, AreWords, value, value-append, append-AreWords}
use bee.Zz.Add.{before}
use bee.Zz.Mul.{add_mul_w_from, add_mul_w, row, mul_from, mul}
use bee.Zz.Mul.Word.{mul_w-Scaled}

replicate-append {ℓ} :
    {A : Type ℓ} (n m : ℕ) (a : A) → replicate (n + m) a ≡ replicate n a ++ replicate m a
replicate-append zero m a = let e : zero + m ≡ m = omega arith in ap (λ t. replicate t a) e
replicate-append (suc n) m a =
    let e : suc n + m ≡ suc (n + m) = omega arith in
    ap (λ t. replicate t a) e ∙ ap (λ t. a ∷ t) (replicate-append n m a)

module _ (b : ℕ) where
  -- `n` words that stand for the number `s`.
  Holds : ℕ → ℕ → List ℕ → Type 0
  Holds n s ws = AreWords b ws × (length ws ≡ n) × (value b ws ≡ s)

  -- A row reads as many words as the factor has.
  add_mul_w_from-prefix :
      (low ys rest : List ℕ) (carry w : ℕ)
      → length low ≡ length ys
      → add_mul_w_from b carry (low ++ rest) ys w ≡ add_mul_w_from b carry low ys w
  unfolding add_mul_w_from
  add_mul_w_from-prefix [] [] [] carry w e = refl
  add_mul_w_from-prefix [] [] (r ∷ rest) carry w e = refl
  add_mul_w_from-prefix [] (y ∷ ys) rest carry w e = absurd (omega arith)
  add_mul_w_from-prefix (l ∷ low) [] rest carry w e = absurd (omega arith)
  add_mul_w_from-prefix (l ∷ low) (y ∷ ys) rest carry w e =
      ap (before _) (add_mul_w_from-prefix low ys rest _ w (omega arith))

  -- The words of a row and its carry.
  pub row_front : ℕ → List ℕ → List ℕ → List ℕ
  row_front x ys low = let r = add_mul_w b low ys x in r.words ++ (r.carry ∷ [])

  row-eq :
      (x h : ℕ) (ys low high : List ℕ)
      → length low ≡ length ys
      → row b x ys (low ++ (h ∷ high)) ≡ row_front x ys low ++ high
  unfolding row row_front add_mul_w
  row-eq x h ys low high e =
      let r = add_mul_w_from b 0 low ys x in
      rw (add_mul_w_from-prefix low ys (h ∷ high) 0 x e) (
        ap (λ (t : List ℕ). r.words ++ (r.carry ∷ t))
          (drop_two (length ys) 1 low (h ∷ []) high e refl)
        ∙ sym (append_assoc r.words (r.carry ∷ []) high))

  row_front-Holds :
      (x : ℕ) (ys low : List ℕ)
      → x < b
      → AreWords b ys
      → AreWords b low
      → length low ≡ length ys
      → Holds (suc (length ys)) (value b low + x * value b ys) (row_front x ys low)
  unfolding row_front Holds
  row_front-Holds x ys low hx oy ol e =
      let v = (mul_w-Scaled b low ys x hx ol oy e).1 in
      let r = add_mul_w b low ys x in
      (
        append-AreWords b r.words (r.carry ∷ []) v.are_words (v.is_word, tt),
        omega (arith, length-append r.words (r.carry ∷ []), v.size),
        omega (
          arith,
          value-append b r.words (r.carry ∷ []),
          v.total,
          ap (λ (k : ℕ). b ^ k * r.carry) v.size,
        ),
      )

  -- One row, and the rows above it.
  next_row :
      (n s : ℕ) (xs ys front high : List ℕ)
      → Holds (suc (length ys)) s front
      → ((low : List ℕ)
          → AreWords b low
          → length low ≡ length ys
          → Holds
              (length xs + length ys)
              (value b xs * value b ys + value b low)
              (mul_from b xs ys (low ++ high)))
      → Holds
          (suc (length xs + length ys))
          (b * (value b xs * value b ys) + s)
          (take 1 (front ++ high) ++ mul_from b xs ys (drop 1 (front ++ high)))
  unfolding Holds
  next_row n s xs ys [] high f ih = absurd (omega (arith, f))
  next_row n s xs ys (c ∷ low) high f ih =
      let rest = ih low f.0.1 (omega (arith, f)) in
      ((f.0.0, rest.0), omega (arith, rest.1), omega (arith, f.2, ap (λ (t : ℕ). b * t) rest.2))

  mul_from-Holds :
      (xs ys low high : List ℕ)
      → AreWords b xs
      → AreWords b ys
      → AreWords b low
      → length low ≡ length ys
      → length high ≡ length xs
      → Holds
          (length xs + length ys)
          (value b xs * value b ys + value b low)
          (mul_from b xs ys (low ++ high))
  unfolding mul_from
  mul_from-Holds [] ys low [] ox oy ol e k =
      unfold Holds in rw (append-nil low) (ol, omega (arith, e), omega arith)
  mul_from-Holds [] ys low (h ∷ high) ox oy ol e k = absurd (omega arith)
  mul_from-Holds (x ∷ xs) ys low [] ox oy ol e k = absurd (omega arith)
  mul_from-Holds (x ∷ xs) ys low (h ∷ high) ox oy ol e k =
      let front = row_front-Holds x ys low ox.0 oy ol e in
      let v =
        next_row (length xs) _ xs ys (row_front x ys low) high front
          (λ low' o' e'. mul_from-Holds xs ys low' high ox.1 oy o' e' (omega arith)) in
      let size : suc (length xs + length ys) ≡ length (x ∷ xs) + length ys = omega arith in
      let total : b * (value b xs * value b ys) + (value b low + x * value b ys)
          ≡ value b (x ∷ xs) * value b ys + value b low =
        omega arith in
      rw (row-eq x h ys low high e) (rw (size, total) at v)

  -- `zzMul` on arrays of n and m words: n + m words that stand for the product.
  pub mul-Holds :
      (xs ys : List ℕ)
      → 0 < b
      → AreWords b xs
      → AreWords b ys
      → AreWords b (mul b xs ys)
        × (length (mul b xs ys) ≡ length xs + length ys)
        × (value b (mul b xs ys) ≡ value b xs * value b ys)
  unfolding mul Holds
  mul-Holds xs ys pos ox oy =
      let n = length xs in
      let m = length ys in
      let low = replicate-zero b m pos in
      let high = replicate-zero b n pos in
      let turned : n + m ≡ m + n = omega arith in
      let zs : replicate {A = ℕ} (n + m) 0 ≡ replicate m 0 ++ replicate n 0 =
        ap (λ t. replicate t 0) turned ∙ replicate-append m n 0 in
      let v = mul_from-Holds xs ys (replicate m 0) (replicate n 0) ox oy low.0 low.1 high.1 in
      rw zs (v.0, v.1, omega (arith, v.2, low.2))
