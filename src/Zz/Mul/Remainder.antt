-- ===== src/Zz/Mul/Remainder.antt =====
-- `zzModW2`: the remainder by a small word without division of a `dword`.
use bee.Common.{
  ℕ, zero, suc, ◌+◌, ◌-◌, ◌*◌, ◌/◌, ◌%◌, ◌<◌, ◌≤◌, ◌≡◌, ◌⊎◌, inl, inr, refl, sym, ap, ◌∙◌, List, [],
  ◌∷◌, some, Bool-cases, true, ◌==◌, arith,
}
use bee.Zz.Value.{AreWords, value}
use bee.Zz.Mul.{fold_w2, lower_w2, normalize_w2, base_w2, mod_w2, mod_w2_fast}
use bee.Zz.Mul.Word.{dword_small, split}
use native.Mathlib.Nat.{mod-lt, mod-eq_of_lt, mod-add-div, mul-le-mul_right, mul-add-mod_self_left}

-- The small divisors: w * w is not above the modulus of a word.
record IsSmall (b w base k : ℕ) : Type 0 where
  some_bits : 1 < b
  positive : 0 < w
  square : w * w ≤ b
  is_below : base < w
  splits : b ≡ base + w * k

below_by : (q w : ℕ) → ((w ≤ q) → ⊥) → q < w
below_by q w never = elim (le_or_lt w q) [ inl ge ↦ absurd (never ge) | inr lt ↦ lt ]
  where
    le_or_lt : (w q : ℕ) → (w ≤ q) ⊎ (q < w)
    le_or_lt w q = omega arith

zero_by : (q : ℕ) → ((1 ≤ q) → ⊥) → q ≡ 0
zero_by zero never = refl
zero_by (suc q) never = absurd (never (omega arith))

module _ (b w base k : ℕ) (h : IsSmall b w base k) where
  -- The number and what is left of it differ by a multiple of the divisor.
  Left : ℕ → ℕ × ℕ → Type 0
  Left v r = (r.0 < b) × (r.1 < b) × ((t : ℕ) × (v ≡ r.0 + b * r.1 + w * t))

  base_square : base * base + base + 1 ≤ b
  base_square =
      let q = h.square in
      let small : base + 1 ≤ w = omega (arith, h.is_below) in
      let rows : (base + 1) * w ≤ w * w = mul-le-mul_right w small in
      let columns : (base + 1) * (base + 1) ≤ w * (base + 1) = mul-le-mul_right (base + 1) small in
      omega (arith, rows, columns, q)

  -- One round of the fold fits a `dword`.
  fold_fits :
      (r0 r1 x : ℕ)
      → r0 < b
      → r1 < b
      → x < b
      → (r1 * base < b * b)
        × (r1 * base + r0 < b * b)
        × ((r1 * base + r0) * base < b * b)
        × ((r1 * base + r0) * base + x < b * b)
  fold_fits r0 r1 x h0 h1 hx =
      let p = b - 1 in
      let e : b ≡ p + 1 = omega (arith, h.some_bits) in
      let a1 : r1 * base ≤ p * base = mul-le-mul_right base (omega arith) in
      let a2 : r1 * base + r0 ≤ p * base + p = omega (arith, a1) in
      let a3 : (r1 * base + r0) * base ≤ (p * base + p) * base = mul-le-mul_right base a2 in
      let a4 : (base * base + base + 1) * p ≤ b * p = mul-le-mul_right p base_square in
      let a5 : b * p + b ≡ b * b = omega (arith, ap (λ (t : ℕ). b * t) e) in
      let a6 : (r1 * base + r0) * base + x < b * b = omega (arith, a3, a4, a5) in
      let a7 : (base + 1) * p ≤ b * p = mul-le-mul_right p (omega (arith, base_square)) in
      let a8 : r1 * base + r0 < b * b = omega (arith, a2, a7, a5) in
      (omega (arith, a8), a8, omega (arith, a6), a6)

  fold_step :
      (x v : ℕ) (r : ℕ × ℕ)
      → x < b
      → Left v r
      → let n = (r.1 * base + r.0) * base + x in Left (x + b * v) (n % b, n / b)
  unfolding Left
  fold_step x v r hx l =
      let f = fold_fits r.0 r.1 x l.0 l.1 hx in
      let n = (r.1 * base + r.0) * base + x in
      let parts = split b n (omega (arith, h.some_bits)) f.3 in
      let t = l.2.0 in
      let e1 = ap (λ (q : ℕ). b * q) l.2.1 in
      let e2 = ap (λ (q : ℕ). q * r.0) h.splits in
      let e3 = ap (λ (q : ℕ). q * b * r.1) h.splits in
      let e4 = ap (λ (q : ℕ). base * q * r.1) h.splits in
      (
        parts.0,
        parts.1,
        (k * r.0 + k * b * r.1 + base * k * r.1 + b * t, omega (arith, parts.2, e1, e2, e3, e4)),
      )

  fold-Left : (xs : List ℕ) → AreWords b xs → Left (value b xs) (fold_w2 b xs base)
  unfolding fold_w2
  fold-Left [] o =
      let pos : 0 < b = omega (arith, h.some_bits) in unfold Left in (pos, pos, (0, omega arith))
  fold-Left (x ∷ xs) o =
      let rest = fold-Left xs o.1 in
      let r = fold_w2 b xs base in
      let f = fits_of r x rest o.0 in
      rw
        (
          dword_small b (r.1 * base) f.0,
          dword_small b (r.1 * base + r.0) f.1,
          dword_small b ((r.1 * base + r.0) * base) f.2,
          dword_small b ((r.1 * base + r.0) * base + x) f.3,
        )
        (fold_step x (value b xs) r o.0 rest)
    where
      fits_of :
          (r : ℕ × ℕ) (x : ℕ)
          → Left (value b xs) r
          → x < b
          → (r.1 * base < b * b)
            × (r.1 * base + r.0 < b * b)
            × ((r.1 * base + r.0) * base < b * b)
            × ((r.1 * base + r.0) * base + x < b * b)
      fits_of r x l hx = unfold Left in fold_fits r.0 r.1 x l.0 l.1 hx

  -- A round of the normalisation keeps the residue, and its high part falls below the divisor, then to 0.
  lower-Left :
      (v : ℕ) (r : ℕ × ℕ)
      → Left v r
      → Left v (lower_w2 b w base r)
        × ((lower_w2 b w base r).1 < w)
        × (r.1 < w → (lower_w2 b w base r).1 ≡ 0)
  unfolding Left lower_w2
  lower-Left v r l =
      let low = mod-lt r.0 h.positive in
      let s = r.0 % w in
      let small : base + 1 ≤ w = omega (arith, h.is_below) in
      let p = b - 1 in
      let e : b ≡ p + 1 = omega (arith, h.some_bits) in
      let a1 : r.1 * base ≤ p * base = mul-le-mul_right base (omega (arith, l.1)) in
      let a2 : (base + 1) * p ≤ w * p = mul-le-mul_right p small in
      let a3 : w * p + w ≡ b * w = omega (arith, ap (λ (t : ℕ). w * t) e) in
      let wb : w ≤ b = omega (arith, h.square, mul-le-mul_right w h.positive) in
      let a4 : w * b ≤ b * b = mul-le-mul_right b wb in
      let total : r.1 * base + s < b * w = omega (arith, a1, a2, a3, low) in
      let n = r.1 * base + s in
      let parts = split b n (omega (arith, h.some_bits)) (omega (arith, total, a4)) in
      let d1 = dword_small b (r.1 * base) (omega (arith, total, a4)) in
      let d2 = dword_small b n (omega (arith, total, a4)) in
      let q = n / b in
      let t = l.2.0 in
      let residue = mod-add-div r.0 w in
      let e1 = ap (λ (z : ℕ). z * r.1) h.splits in
      rw (d1, d2)
        (
          (parts.0, parts.1, (t + r.0 / w + k * r.1, omega (arith, l.2.1, parts.2, residue, e1))),
          below_by q w
              (λ ge. let far = mul-le-mul_right b ge in omega (arith, far, parts.2, total)),
          λ lt.
              let b1 : suc r.1 * base ≤ w * base = mul-le-mul_right base lt in
              let b2 : (base + 1) * w ≤ w * w = mul-le-mul_right w small in
              let short : n < b = omega (arith, b1, b2, low, h.square) in
              zero_by q
                (λ ge. let far = mul-le-mul_right b ge in omega (arith, far, parts.2, short)),
        )

  -- Without a high part the low one has the remainder.
  Left-remainder : (v : ℕ) (r : ℕ × ℕ) → Left v r → r.1 ≡ 0 → r.0 % w ≡ v % w
  unfolding Left
  Left-remainder v r l z =
      let t = l.2.0 in
      let e : v ≡ w * t + r.0 = omega (arith, l.2.1, ap (λ (q : ℕ). b * q) z) in
      sym (ap (λ (q : ℕ). q % w) e ∙ mul-add-mod_self_left w t r.0)

  stop : (fuel : ℕ) (r : ℕ × ℕ) → r.1 ≡ 0 → normalize_w2 b fuel w base r ≡ some (r.0 % w)
  unfolding normalize_w2
  stop zero r z = let t : (r.1 == 0) ≡ true = ground (arith, z) in rw t refl
  stop (suc fuel) r z = let t : (r.1 == 0) ≡ true = ground (arith, z) in rw t refl

  continue_or_stop :
      (fuel : ℕ) (r : ℕ × ℕ)
      → (normalize_w2 b (suc fuel) w base r ≡ some (r.0 % w)) × (r.1 ≡ 0)
        ⊎ (normalize_w2 b (suc fuel) w base r ≡ normalize_w2 b fuel w base (lower_w2 b w base r))
  unfolding normalize_w2
  continue_or_stop fuel r = elim (Bool-cases (r.1 == 0)) [
    | inl t ↦ inl (rw t refl, ground (arith, t))
    | inr t ↦ inr (rw t refl)
  ]

  -- Two rounds are enough.
  normalize-remainder :
      (v fuel : ℕ) (r : ℕ × ℕ) → Left v r → normalize_w2 b (suc (suc fuel)) w base r ≡ some (v % w)
  normalize-remainder v fuel r l =
      let one = lower-Left v r l in
      let r1 = lower_w2 b w base r in
      let two = lower-Left v r1 one.0 in
      let r2 = lower_w2 b w base r1 in
      elim (continue_or_stop (suc fuel) r) [
        | inl (e, z) ↦ e ∙ ap some (Left-remainder v r l z)
        | inr e ↦ e ∙ elim (continue_or_stop fuel r1) [
          | inl (e', z) ↦ e' ∙ ap some (Left-remainder v r1 one.0 z)
          | inr e' ↦
              let z = two.2 one.1 in e' ∙ stop fuel r2 z ∙ ap some (Left-remainder v r2 two.0 z)
        ]
      ]

-- The base is the modulus of a word reduced by the divisor.
base-IsSmall : (b w : ℕ) → 1 < b → 0 < w → w * w ≤ b → IsSmall b w (base_w2 b w) ((b - w) / w + 1)
unfolding base_w2
base-IsSmall b w hb pos sq =
    let wb : w < b = elim (one_or_more w pos) [
      | inl e ↦ omega arith
      | inr big ↦ omega (arith, sq, mul-le-mul_right w big)
    ] in
    let e : b - 1 - w + 1 ≡ b - w = omega arith in
    let same : (b - w) % b ≡ b - w = mod-eq_of_lt (omega arith) in
    rw (e, same)
      (record {
        some_bits = hb;
        positive = pos;
        square = sq;
        is_below = mod-lt (b - w) pos;
        splits = omega (arith, mod-add-div (b - w) w);
      })
  where
    one_or_more : (w : ℕ) → 0 < w → (w ≡ 1) ⊎ (2 ≤ w)
    one_or_more w h = omega arith

-- For an array of words and a word w with 0 < w and w * w ≤ b, `zzModW2` gives the remainder of the number
-- by w: the loop of the fast variant ends within two rounds, and the regular variant agrees.
pub mod_w2_lem :
    (b w : ℕ) (xs : List ℕ)
    → 1 < b
    → 0 < w
    → w * w ≤ b
    → AreWords b xs
    → (mod_w2_fast b 2 xs w ≡ some (value b xs % w)) × (mod_w2 b xs w ≡ value b xs % w)
unfolding mod_w2_fast mod_w2
mod_w2_lem b w xs hb pos sq o =
    let base = base_w2 b w in
    let k = (b - w) / w + 1 in
    let h = base-IsSmall b w hb pos sq in
    let r = fold_w2 b xs base in
    let l = fold-Left b w base k h xs o in
    let one = lower-Left b w base k h (value b xs) r l in
    let r1 = lower_w2 b w base r in
    let two = lower-Left b w base k h (value b xs) r1 one.0 in
    (
      normalize-remainder b w base k h (value b xs) 0 r l,
      Left-remainder b w base k h (value b xs) (lower_w2 b w base r1) two.0 (two.2 one.1),
    )
