-- ===== src/Mem/Buffers/Reversed.antt =====
-- The regular `memCmpRev`: words of octets from the last one to the first.
use bee.Common.{
  ℕ, zero, suc, ◌+◌, ◌-◌, ◌*◌, ◌%◌, ◌^◌, ◌≤◌, ◌<◌, ◌≡◌, ◌≢◌, ◌⊎◌, inl, inr, refl, sym, ap, ◌∙◌,
  Bool, true, false, Bool-cases, List, length, get_or, get_or-lt, AreOctets, arith, bit_or, ◌==◌,
  if◌then◌else◌,
}
use bee.Mem.Buffers.{Outcome, outcome, shift_in, unless, cmp_rev_loop, cmp_rev, cmp_rev_fast}
use bee.Mem.Buffers.Words.{marks, shift_in_lem, pow-pos}
use bee.Mem.Buffers.Order.{order, three_ways, order_add, order_below, order_above}
use bee.Mem.Buffers.Regular.{stays, outcome_below, outcome_above}
use bee.Mem.Buffers.Checks.{le_value, le_value-lt, cmp_rev_fast_lem}
use native.Mathlib.Nat.{
  pow-suc, mod-lt, mod_self, zero-mod, suc-mod, mod-eq_of_lt, mul-le-mul_right,
}

module _ (k less greater w1 w2 count : ℕ) (fresh : Bool) (xs ys : List ℕ) where
  step_full :
      (u v l g : ℕ)
      → (count % k == 0) ≡ true
      → (if fresh then get_or xs count 0 else shift_in k w1 (get_or xs count 0)) ≡ u
      → (if fresh then get_or ys count 0 else shift_in k w2 (get_or ys count 0)) ≡ v
      → bit_or less (unless k greater u v) ≡ l
      → bit_or greater (unless k l v u) ≡ g
      → cmp_rev_loop k less greater fresh w1 w2 xs ys (suc count)
        ≡ cmp_rev_loop k l g true u v xs ys count
  unfolding cmp_rev_loop
  step_full u v l g full eu ev el eg = rw (full, eu, ev, el, eg) refl

  step_more :
      (u v : ℕ)
      → (count % k == 0) ≡ false
      → (if fresh then get_or xs count 0 else shift_in k w1 (get_or xs count 0)) ≡ u
      → (if fresh then get_or ys count 0 else shift_in k w2 (get_or ys count 0)) ≡ v
      → cmp_rev_loop k less greater fresh w1 w2 xs ys (suc count)
        ≡ cmp_rev_loop k less greater false u v xs ys count
  unfolding cmp_rev_loop
  step_more u v more eu ev = rw (more, eu, ev) refl

decided :
    (k : ℕ) (xs ys : List ℕ) (count less greater w1 w2 : ℕ) (fresh : Bool)
    → 0 < k
    → less + greater ≡ 1
    → cmp_rev_loop k less greater fresh w1 w2 xs ys count ≡ outcome less greater
decided k xs ys zero less greater w1 w2 fresh h e = unfold cmp_rev_loop in refl
decided k xs ys (suc count) less greater w1 w2 fresh h e =
    let u = if fresh then get_or xs count 0 else shift_in k w1 (get_or xs count 0) in
    let v = if fresh then get_or ys count 0 else shift_in k w2 (get_or ys count 0) in
    let kept = stays k less greater u v 0 h e in
    elim (Bool-cases (count % k == 0)) [
      | inl full ↦
          step_full k less greater w1 w2 count fresh xs ys u v less greater full refl refl kept.0
            (ap (λ l. bit_or greater (unless k l v u)) (sym kept.0) ∙ kept.1)
          ∙ decided k xs ys count less greater u v true h e
      | inr more ↦
          step_more k less greater w1 w2 count fresh xs ys u v more refl refl
          ∙ decided k xs ys count less greater u v false h e
    ]

-- What the words are before the octet number `count`: a new word begins, or `f` octets of it are read.
Reading : (k count a c w1 w2 f : ℕ) → Bool → Type 0
Reading k count a c w1 w2 f fresh =
    ((fresh ≡ true) × (f ≡ 0) × (a ≡ 0) × (c ≡ 0))
    ⊎ ((fresh ≡ false) × (w1 ≡ a) × (w2 ≡ c) × (f + count % k ≤ k) × (count % k ≢ 0))

mod_pred : (k n : ℕ) → 0 < k → suc n % k ≢ 0 → n % k + 1 ≡ suc n % k
mod_pred k n h ne = elim (three_ways (suc (n % k)) k) [
  | inl lt ↦ omega (arith, suc-mod n k, mod-eq_of_lt lt)
  | inr (inl eq) ↦ absurd (ne (suc-mod n k ∙ ap (λ t. t % k) eq ∙ mod_self k))
  | inr (inr gt) ↦ absurd (omega (arith, mod-lt n h, gt))
]

shifted : (k f a x : ℕ) → suc f ≤ k → a < 256 ^ f → x < 256 → shift_in k a x ≡ a * 256 + x
shifted k f a x h ha hx =
    let size : k ≡ suc (k - suc f) + f = omega arith in
    let front : a ≡ 0 * 256 ^ f + a = omega arith in
    let none : 0 % 256 ^ (k - suc f) ≡ 0 = mod-eq_of_lt (pow-pos (k - suc f)) in
    ap (λ t. shift_in t a x) size
    ∙ ap (λ t. shift_in (suc (k - suc f) + f) t x) front
    ∙ shift_in_lem (k - suc f) f 0 a x (pow-pos (suc (k - suc f))) ha hx
    ∙ omega (arith, ap (λ (t : ℕ). t * 256 ^ suc f) none)

-- The words with the next octet.
next_words :
    (k count a c w1 w2 f x y : ℕ) (fresh : Bool)
    → 0 < k
    → Reading k (suc count) a c w1 w2 f fresh
    → a < 256 ^ f
    → c < 256 ^ f
    → x < 256
    → y < 256
    → ((if fresh then x else shift_in k w1 x) ≡ a * 256 + x)
      × ((if fresh then y else shift_in k w2 y) ≡ c * 256 + y)
      × (suc f + count % k ≤ k)
unfolding Reading
next_words k count a c w1 w2 f x y fresh h (inl (begins, none, ea, ec)) ha hc hx hy =
    rw begins (omega (arith, ea), omega (arith, ec), omega (arith, mod-lt count h, none))
next_words k count a c w1 w2 f x y fresh h (inr (goes, ea, ec, room, ne)) ha hc hx hy =
    let pred = mod_pred k count h ne in
    rw (goes, ea, ec)
      (
        shifted k f a x (omega (arith, room, pred)) ha hx,
        shifted k f c y (omega (arith, room, pred)) hc hy,
        omega (arith, room, pred),
      )

-- The order of two numbers with different digits in front.
front_below : (a c p u v : ℕ) → a < c → u < p → order (a * p + u) (c * p + v) ≡ Outcome.below
front_below a c p u v h k = order_below _ _ (omega (arith, mul-le-mul_right p h, k))

front_above : (a c p u v : ℕ) → c < a → v < p → order (a * p + u) (c * p + v) ≡ Outcome.above
front_above a c p u v h k = order_above _ _ (omega (arith, mul-le-mul_right p h, k))

regroup :
    (xs ys : List ℕ) (count a c : ℕ)
    → order
        ((a * 256 + get_or xs count 0) * 256 ^ count + le_value xs count)
        ((c * 256 + get_or ys count 0) * 256 ^ count + le_value ys count)
      ≡ order
          (a * 256 ^ suc count + le_value xs (suc count))
          (c * 256 ^ suc count + le_value ys (suc count))
unfolding le_value
regroup xs ys count a c =
    let x = get_or xs count 0 in
    let y = get_or ys count 0 in
    let p = 256 ^ count in
    let ex : (a * 256 + x) * p + le_value xs count
        ≡ a * 256 ^ suc count + (x * p + le_value xs count) =
      omega (arith, ap (λ (t : ℕ). a * t) (pow-suc 256 count)) in
    let ey : (c * 256 + y) * p + le_value ys count
        ≡ c * 256 ^ suc count + (y * p + le_value ys count) =
      omega (arith, ap (λ (t : ℕ). c * t) (pow-suc 256 count)) in
    ap (λ t. order t ((c * 256 + y) * p + le_value ys count)) ex
    ∙ ap (λ t. order (a * 256 ^ suc count + (x * p + le_value xs count)) t) ey

loop_end :
    (k : ℕ) (xs ys : List ℕ) (a c w1 w2 f : ℕ) (fresh : Bool)
    → Reading k 0 a c w1 w2 f fresh
    → cmp_rev_loop k 0 0 fresh w1 w2 xs ys 0
      ≡ order (a * 256 ^ 0 + le_value xs 0) (c * 256 ^ 0 + le_value ys 0)
unfolding Reading cmp_rev_loop le_value
loop_end k xs ys a c w1 w2 f fresh (inl (begins, none, ea, ec)) =
    rw (ea, ec) (unfold outcome order in refl)
loop_end k xs ys a c w1 w2 f fresh (inr (goes, ea, ec, room, ne)) = absurd (ne (zero-mod k))

loop-eq :
    (k : ℕ) (xs ys : List ℕ) (count a c w1 w2 f : ℕ) (fresh : Bool)
    → 0 < k
    → AreOctets xs
    → AreOctets ys
    → Reading k count a c w1 w2 f fresh
    → a < 256 ^ f
    → c < 256 ^ f
    → cmp_rev_loop k 0 0 fresh w1 w2 xs ys count
      ≡ order (a * 256 ^ count + le_value xs count) (c * 256 ^ count + le_value ys count)
loop-eq k xs ys zero a c w1 w2 f fresh h ox oy r ha hc = loop_end k xs ys a c w1 w2 f fresh r
loop-eq k xs ys (suc count) a c w1 w2 f fresh h ox oy r ha hc =
    let x = get_or xs count 0 in
    let y = get_or ys count 0 in
    let p = 256 ^ count in
    let a' = a * 256 + x in
    let c' = c * 256 + y in
    let lx = le_value xs count in
    let ly = le_value ys count in
    let hx = get_or-lt xs count ox in
    let hy = get_or-lt ys count oy in
    let words = next_words k count a c w1 w2 f x y fresh h r ha hc hx hy in
    let room_a : a' < 256 ^ suc f = omega (arith, pow-suc 256 f, ha, hx) in
    let room_c : c' < 256 ^ suc f = omega (arith, pow-suc 256 f, hc, hy) in
    let target = regroup xs ys count a c in
    elim (Bool-cases (count % k == 0)) [
      | inl full ↦
          let m = marks k 0 0 a' c' h (omega arith) in
          let step =
            λ (l g : ℕ). step_full k 0 0 w1 w2 count fresh xs ys a' c' l g full words.0 words.1 in
          elim (three_ways a' c') [
            | inl lt ↦
                let l : bit_or 0 (unless k 0 a' c') ≡ 1 = ground (arith, m.0) in
                let g : bit_or 0 (unless k 1 c' a') ≡ 0 =
                  ap (λ t. bit_or 0 (unless k t c' a')) (sym l) ∙ ground (arith, m.1) in
                step 1 0 l g
                ∙ decided k xs ys count 1 0 a' c' true h refl
                ∙ outcome_below
                ∙ sym (front_below a' c' p lx ly lt (le_value-lt xs count ox))
                ∙ target
            | inr (inl eq) ↦
                let l : bit_or 0 (unless k 0 a' c') ≡ 0 = ground (arith, m.0) in
                let g : bit_or 0 (unless k 0 c' a') ≡ 0 =
                  ap (λ t. bit_or 0 (unless k t c' a')) (sym l) ∙ ground (arith, m.1) in
                let one = pow-pos 0 in
                step 0 0 l g
                ∙ loop-eq k xs ys count 0 0 a' c' 0 true h ox oy
                    (unfold Reading in inl (refl, refl, refl, refl)) one one
                ∙ order_add (0 * p) lx ly
                ∙ sym (order_add (a' * p) lx ly)
                ∙ ap (λ t. order (a' * p + lx) (t * p + ly)) eq
                ∙ target
            | inr (inr gt) ↦
                let l : bit_or 0 (unless k 0 a' c') ≡ 0 = ground (arith, m.0) in
                let g : bit_or 0 (unless k 0 c' a') ≡ 1 =
                  ap (λ t. bit_or 0 (unless k t c' a')) (sym l) ∙ ground (arith, m.1) in
                step 0 1 l g
                ∙ decided k xs ys count 0 1 a' c' true h refl
                ∙ outcome_above
                ∙ sym (front_above a' c' p lx ly gt (le_value-lt ys count oy))
                ∙ target
          ]
      | inr more ↦
          let ne : count % k ≢ 0 = λ e. absurd (ground (arith, e, more)) in
          step_more k 0 0 w1 w2 count fresh xs ys a' c' more words.0 words.1
          ∙ loop-eq k xs ys count a' c' a' c' (suc f) false h ox oy
              (unfold Reading in inr (refl, refl, refl, words.2, ne)) room_a room_c
          ∙ target
    ]

start :
    (n m : ℕ) (xs ys : List ℕ)
    → order (0 * n + le_value xs (length xs)) (0 * m + le_value ys (length xs))
      ≡ order (le_value xs (length xs)) (le_value ys (length xs))
start n m xs ys =
    let e : 0 * n + le_value xs (length xs) ≡ le_value xs (length xs) = omega arith in
    let e' : 0 * m + le_value ys (length xs) ≡ le_value ys (length xs) = omega arith in
    rw (e, e') refl

-- `memCmpRev`, regular and fast, on buffers of octets of one length, for words of at least one octet: the order of
-- the numbers that the buffers stand for, the first octet being the lowest.
pub cmp_rev_lem :
    (k : ℕ) (xs ys : List ℕ)
    → 0 < k
    → AreOctets xs
    → AreOctets ys
    → length xs ≡ length ys
    → (cmp_rev k xs ys ≡ order (le_value xs (length xs)) (le_value ys (length ys)))
      × (cmp_rev_fast xs ys ≡ order (le_value xs (length xs)) (le_value ys (length ys)))
unfolding cmp_rev
cmp_rev_lem k xs ys h ox oy e =
    let n = length xs in
    let one = pow-pos 0 in
    (
      loop-eq k xs ys n 0 0 0 0 0 true h ox oy (unfold Reading in inl (refl, refl, refl, refl)) one
            one
          ∙ start (256 ^ n) (256 ^ n) xs ys
          ∙ ap (λ m. order (le_value xs n) (le_value ys m)) e,
      cmp_rev_fast_lem xs ys ox oy e,
    )
