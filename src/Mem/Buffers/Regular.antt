-- ===== src/Mem/Buffers/Regular.antt =====
-- The regular `memCmp`: a word keeps octets of the words before it, and the order is right nevertheless.
use bee.Common.{
  ℕ, zero, suc, ◌+◌, ◌*◌, ◌%◌, ◌^◌, ◌<◌, ◌≡◌, inl, inr, refl, sym, ap, ◌∙◌, true, false, Bool-cases,
  List, [], ◌∷◌, length, AreOctets, arith, bit_or, ◌==◌, if◌then◌else◌,
}
use bee.Common.BigEndian.{be_value}
use bee.Mem.Buffers.{Outcome, outcome, shift_in, unless, cmp_loop, cmp, cmp_fast}
use bee.Mem.Buffers.Words.{marks, shift_in_lem, pow-pos}
use bee.Mem.Buffers.Order.{
  order, three_ways, order_add, order_below, order_above, order_same, be_value-below, cmp_fast_lem,
}
use native.Mathlib.Nat.{pow-suc, pow-zero, mod-lt, mod-one}

outcome_marks :
    (k u v : ℕ)
    → 0 < k
    → let less = bit_or 0 (unless k 0 u v) in
      outcome less (bit_or 0 (unless k less v u)) ≡ order u v
unfolding outcome order
outcome_marks k u v h =
    let m = marks k 0 0 u v h (omega arith) in
    elim (three_ways u v) [
      | inl lt ↦ ground (arith, m)
      | inr (inl eq) ↦ ground (arith, m)
      | inr (inr gt) ↦ ground (arith, m)
    ]

pub stays :
    (k less greater w1 w2 filled : ℕ)
    → 0 < k
    → less + greater ≡ 1
    → let less' = bit_or less (unless k greater w1 w2) in
      let greater' = bit_or greater (unless k less' w2 w1) in
      (less' ≡ less)
      × (greater' ≡ greater)
      × ((if filled == 0 then outcome less greater else outcome less' greater')
          ≡ outcome less greater)
stays k less greater w1 w2 filled h e =
    let m = marks k less greater w1 w2 h (omega arith) in
    let less' = bit_or less (unless k greater w1 w2) in
    let greater' = bit_or greater (unless k less' w2 w1) in
    let l : less' ≡ less = ground (arith, m.0) in
    let g : greater' ≡ greater = ground (arith, m.1) in
    (
      l,
      g,
      elim (Bool-cases (filled == 0)) [
        | inl none ↦ rw none refl
        | inr some ↦ rw some (ap (λ t. outcome t greater') l ∙ ap (outcome less) g)
      ],
    )

-- A word is filled, or is not.
module _ (k less greater w1 w2 filled x y : ℕ) (xs ys : List ℕ) where
  step_full :
      (u v l g : ℕ)
      → (suc filled == k) ≡ true
      → shift_in k w1 x ≡ u
      → shift_in k w2 y ≡ v
      → bit_or less (unless k greater u v) ≡ l
      → bit_or greater (unless k l v u) ≡ g
      → cmp_loop k less greater w1 w2 filled (x ∷ xs) (y ∷ ys) ≡ cmp_loop k l g u v 0 xs ys
  unfolding cmp_loop
  step_full u v l g full eu ev el eg = rw (full, eu, ev, el, eg) refl

  step_more :
      (u v : ℕ)
      → (suc filled == k) ≡ false
      → shift_in k w1 x ≡ u
      → shift_in k w2 y ≡ v
      → cmp_loop k less greater w1 w2 filled (x ∷ xs) (y ∷ ys)
        ≡ cmp_loop k less greater u v (suc filled) xs ys
  unfolding cmp_loop
  step_more u v more eu ev = rw (more, eu, ev) refl

-- Flags that are set decide.
decided :
    (k : ℕ) (xs ys : List ℕ) (less greater w1 w2 filled : ℕ)
    → 0 < k
    → less + greater ≡ 1
    → cmp_loop k less greater w1 w2 filled xs ys ≡ outcome less greater
unfolding cmp_loop
decided k [] ys less greater w1 w2 filled h e = (stays k less greater w1 w2 filled h e).2
decided k (x ∷ xs) [] less greater w1 w2 filled h e = (stays k less greater w1 w2 filled h e).2
decided k (x ∷ xs) (y ∷ ys) less greater w1 w2 filled h e =
    let u = shift_in k w1 x in
    let v = shift_in k w2 y in
    let kept = stays k less greater u v filled h e in
    elim (Bool-cases (suc filled == k)) [
      | inl full ↦
          step_full k less greater w1 w2 filled x y xs ys u v less greater full refl refl kept.0
            (ap (λ l. bit_or greater (unless k l v u)) (sym kept.0) ∙ kept.1)
          ∙ decided k xs ys less greater u v 0 h e
      | inr more ↦
          step_more k less greater w1 w2 filled x y xs ys u v more refl refl
          ∙ decided k xs ys less greater u v (suc filled) h e
    ]

pub outcome_below : outcome 1 0 ≡ Outcome.below
unfolding outcome
outcome_below = refl

pub outcome_above : outcome 0 1 ≡ Outcome.above
unfolding outcome
outcome_above = refl

order_step :
    (a c x y : ℕ) (xs ys : List ℕ)
    → order (be_value (a * 256 + x) xs) (be_value (c * 256 + y) ys)
      ≡ order (be_value a (x ∷ xs)) (be_value c (y ∷ ys))
unfolding be_value
order_step a c x y xs ys = refl

shifted_full :
    (k f h a x : ℕ)
    → k ≡ suc 0 + f
    → h < 256 ^ suc 0
    → a < 256 ^ f
    → x < 256
    → shift_in k (h * 256 ^ f + a) x ≡ a * 256 + x
shifted_full k f h a x ek hh ha hx =
    ap (λ t. shift_in t (h * 256 ^ f + a) x) ek
    ∙ shift_in_lem 0 f h a x hh ha hx
    ∙ omega (
      arith,
      ap (λ (t : ℕ). (h % t) * 256 ^ suc f) (pow-zero 256),
      ap (λ (t : ℕ). t * 256 ^ suc f) (mod-one h),
    )

loop_end :
    (k j f h a c : ℕ)
    → k ≡ suc j + f
    → a < 256 ^ f
    → c < 256 ^ f
    → cmp_loop k 0 0 (h * 256 ^ f + a) (h * 256 ^ f + c) f [] []
      ≡ order (be_value a []) (be_value c [])
unfolding cmp_loop be_value
loop_end k j f h a c ek ha hc = elim (Bool-cases (f == 0)) [
  | inl none ↦
      let e : f ≡ 0 = ground arith in
      let one = ap (λ (t : ℕ). 256 ^ t) e ∙ pow-zero 256 in
      let za : a ≡ 0 = omega (arith, one, ha) in
      let zc : c ≡ 0 = omega (arith, one, hc) in rw (none, za, zc) (unfold outcome order in refl)
  | inr some ↦ rw some (
      outcome_marks k (h * 256 ^ f + a) (h * 256 ^ f + c) (omega (arith, ek))
      ∙ order_add (h * 256 ^ f) a c)
]

-- No octet of the words has been compared yet: `h` are the octets before them, `a` and `c` those to compare.
loop-eq :
    (k : ℕ) (xs ys : List ℕ) (j f h a c : ℕ)
    → k ≡ suc j + f
    → h < 256 ^ suc j
    → a < 256 ^ f
    → c < 256 ^ f
    → AreOctets xs
    → AreOctets ys
    → length xs ≡ length ys
    → cmp_loop k 0 0 (h * 256 ^ f + a) (h * 256 ^ f + c) f xs ys
      ≡ order (be_value a xs) (be_value c ys)
loop-eq k [] [] j f h a c ek hh ha hc ox oy e = loop_end k j f h a c ek ha hc
loop-eq k [] (y ∷ ys) j f h a c ek hh ha hc ox oy e = absurd (omega arith)
loop-eq k (x ∷ xs) [] j f h a c ek hh ha hc ox oy e = absurd (omega arith)
loop-eq k (x ∷ xs) (y ∷ ys) zero f h a c ek hh ha hc ox oy e =
    let a' = a * 256 + x in
    let c' = c * 256 + y in
    let full : (suc f == k) ≡ true = ground arith in
    let tails : length xs ≡ length ys = omega arith in
    let eu = shifted_full k f h a x ek hh ha ox.0 in
    let ev = shifted_full k f h c y ek hh hc oy.0 in
    let m = marks k 0 0 a' c' (omega (arith, ek)) (omega arith) in
    let step = λ (l g : ℕ).
      step_full k 0 0 (h * 256 ^ f + a) (h * 256 ^ f + c) f x y xs ys a' c' l g full eu ev in
    elim (three_ways a' c') [
      | inl lt ↦
          let l : bit_or 0 (unless k 0 a' c') ≡ 1 = ground (arith, m.0) in
          let g : bit_or 0 (unless k 1 c' a') ≡ 0 =
            ap (λ t. bit_or 0 (unless k t c' a')) (sym l) ∙ ground (arith, m.1) in
          step 1 0 l g
          ∙ decided k xs ys 1 0 a' c' 0 (omega (arith, ek)) refl
          ∙ outcome_below
          ∙ sym (order_below _ _ (be_value-below xs ys a' c' ox.1 tails lt))
          ∙ order_step a c x y xs ys
      | inr (inl eq) ↦
          let l : bit_or 0 (unless k 0 a' c') ≡ 0 = ground (arith, m.0) in
          let g : bit_or 0 (unless k 0 c' a') ≡ 0 =
            ap (λ t. bit_or 0 (unless k t c' a')) (sym l) ∙ ground (arith, m.1) in
          let ea : a' ≡ a' * 256 ^ 0 + 0 = omega (arith, ap (λ (t : ℕ). a' * t) (pow-zero 256)) in
          let ec : c' ≡ a' * 256 ^ 0 + 0 = sym eq ∙ ea in
          let head : a' < 256 ^ suc f = omega (arith, pow-suc 256 f, ha, ox.0) in
          let one : 0 < 256 ^ 0 = pow-pos 0 in
          step 0 0 l g
          ∙ ap (λ t. cmp_loop k 0 0 t c' 0 xs ys) ea
          ∙ ap (λ t. cmp_loop k 0 0 (a' * 256 ^ 0 + 0) t 0 xs ys) ec
          ∙ loop-eq k xs ys f 0 a' 0 0 (omega (arith, ek)) head one one ox.1 oy.1 tails
          ∙ sym (order_same xs ys a' tails)
          ∙ ap (λ t. order (be_value a' xs) (be_value t ys)) eq
          ∙ order_step a c x y xs ys
      | inr (inr gt) ↦
          let l : bit_or 0 (unless k 0 a' c') ≡ 0 = ground (arith, m.0) in
          let g : bit_or 0 (unless k 0 c' a') ≡ 1 =
            ap (λ t. bit_or 0 (unless k t c' a')) (sym l) ∙ ground (arith, m.1) in
          step 0 1 l g
          ∙ decided k xs ys 0 1 a' c' 0 (omega (arith, ek)) refl
          ∙ outcome_above
          ∙ sym (order_above _ _ (be_value-below ys xs c' a' oy.1 (sym tails) gt))
          ∙ order_step a c x y xs ys
    ]
loop-eq k (x ∷ xs) (y ∷ ys) (suc j) f h a c ek hh ha hc ox oy e =
    let a' = a * 256 + x in
    let c' = c * 256 + y in
    let more : (suc f == k) ≡ false = ground arith in
    let tails : length xs ≡ length ys = omega arith in
    let q = 256 ^ suc j in
    let h' = h % q in
    let eu =
      ap (λ t. shift_in t (h * 256 ^ f + a) x) ek ∙ shift_in_lem (suc j) f h a x hh ha ox.0 in
    let ev =
      ap (λ t. shift_in t (h * 256 ^ f + c) y) ek ∙ shift_in_lem (suc j) f h c y hh hc oy.0 in
    step_more k 0 0 (h * 256 ^ f + a) (h * 256 ^ f + c) f x y xs ys (h' * 256 ^ suc f + a')
      (h' * 256 ^ suc f + c') more eu ev
    ∙ loop-eq k xs ys j (suc f) h' a' c' (omega (arith, ek)) (mod-lt h (pow-pos (suc j)))
        (omega (arith, pow-suc 256 f, ha, ox.0)) (omega (arith, pow-suc 256 f, hc, oy.0)) ox.1 oy.1
        tails
    ∙ order_step a c x y xs ys

-- `memCmp`, regular and fast, on buffers of octets of one length, for words of at least one octet: the order of
-- the numbers that the buffers stand for, the first octet being the highest.
pub cmp_lem :
    (k : ℕ) (xs ys : List ℕ)
    → 0 < k
    → AreOctets xs
    → AreOctets ys
    → length xs ≡ length ys
    → (cmp k xs ys ≡ order (be_value 0 xs) (be_value 0 ys))
      × (cmp_fast xs ys ≡ order (be_value 0 xs) (be_value 0 ys))
unfolding cmp
cmp_lem zero xs ys h ox oy e = absurd (omega arith)
cmp_lem (suc j) xs ys h ox oy e =
    let one : 0 < 256 ^ 0 = pow-pos 0 in
    let z : 0 ≡ 0 * 256 ^ 0 + 0 = omega arith in
    (
      ap (λ t. cmp_loop (suc j) 0 0 t 0 0 xs ys) z
          ∙ ap (λ t. cmp_loop (suc j) 0 0 (0 * 256 ^ 0 + 0) t 0 xs ys) z
          ∙ loop-eq (suc j) xs ys j 0 0 0 0 (omega arith) (pow-pos (suc j)) one one ox oy e,
      cmp_fast_lem xs ys ox oy e,
    )
