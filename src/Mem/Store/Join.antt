-- ===== src/Mem/Store/Join.antt =====
-- `memJoin` puts the octets of both buffers into the destination, wherever the buffers overlap.
use bee.Common.{
  ℕ, zero, suc, ◌+◌, ◌-◌, ◌≤◌, ◌<◌, ◌≡◌, ◌⊎◌, inl, inr, refl, sym, ap, ◌∙◌, true, false, Bool-cases,
  arith,
}
use bee.Mem.Places.{is_disjoint2}
use bee.Mem.Store.{Store, put, move, rotate, join_once, put_ends, join_from, join}
use bee.Mem.Store.Moves.{
  Outside, put_at, put_other, move_at, move_other, rotate_low, rotate_high, rotate_elsewhere,
}

-- The store `t` has the octets of the first buffer of `s` at `dest`, those of the second one behind
-- them, and is `s` elsewhere.
pub record Joined (s t : Store) (dest src1 count1 src2 count2 : ℕ) : Type 0 where
  pub front : (a b : ℕ) → dest ≤ a → a < dest + count1 → b ≡ src1 + (a - dest) → t a ≡ s b
  pub back :
      (a b : ℕ)
      → dest + count1 ≤ a
      → a < dest + count1 + count2
      → b ≡ src2 + (a - (dest + count1))
      → t a ≡ s b
  pub outside : (a : ℕ) → Outside dest (count1 + count2) a → t a ≡ s a

apart_true :
    (p n q m : ℕ) → is_disjoint2 p n q m ≡ true → ((n ≡ 0) ⊎ (m ≡ 0)) ⊎ ((p + n ≤ q) ⊎ (q + m ≤ p))
unfolding is_disjoint2
apart_true p n q m h = ground arith

apart_false :
    (p n q m : ℕ) → is_disjoint2 p n q m ≡ false → ((0 < n) × (0 < m)) × ((q < p + n) × (p < q + m))
unfolding is_disjoint2
apart_false p n q m h = ground arith

-- The first buffer is moved before the second one.
first_first :
    (s : Store) (dest src1 count1 src2 count2 : ℕ)
    → is_disjoint2 dest count1 src2 count2 ≡ true
    → Joined s
        (move (move s dest src1 count1) (dest + count1) src2 count2)
        dest
        src1
        count1
        src2
        count2
first_first s dest src1 count1 src2 count2 h =
    let apart = apart_true dest count1 src2 count2 h in
    record {
      front = λ a b l u e.
          move_other (move s dest src1 count1) (dest + count1) src2 count2 a (omega (arith, u))
          ∙ move_at s dest src1 count1 a b l u e;
      back = λ a b l u e.
          move_at (move s dest src1 count1) (dest + count1) src2 count2 a b l u e
          ∙ move_other s dest src1 count1 b (omega (arith, apart, l, u, e));
      outside = λ a o.
          move_other (move s dest src1 count1) (dest + count1) src2 count2 a (omega (arith, o))
          ∙ move_other s dest src1 count1 a (omega (arith, o));
    }

-- The second buffer is moved before the first one.
second_first :
    (s : Store) (dest src1 count1 src2 count2 : ℕ)
    → is_disjoint2 (dest + count1) count2 src1 count1 ≡ true
    → Joined s
        (move (move s (dest + count1) src2 count2) dest src1 count1)
        dest
        src1
        count1
        src2
        count2
second_first s dest src1 count1 src2 count2 h =
    let apart = apart_true (dest + count1) count2 src1 count1 h in
    record {
      front = λ a b l u e.
          move_at (move s (dest + count1) src2 count2) dest src1 count1 a b l u e
          ∙ move_other s (dest + count1) src2 count2 b (omega (arith, apart, l, u, e));
      back = λ a b l u e.
          move_other (move s (dest + count1) src2 count2) dest src1 count1 a (omega (arith, l))
          ∙ move_at s (dest + count1) src2 count2 a b l u e;
      outside = λ a o.
          move_other (move s (dest + count1) src2 count2) dest src1 count1 a (omega (arith, o))
          ∙ move_other s (dest + count1) src2 count2 a (omega (arith, o));
    }

-- The buffers have been joined in the wrong order, and are rotated.
rotated :
    (s m : Store) (dest src1 count1 src2 count2 : ℕ)
    → Joined s m dest src2 count2 src1 count1
    → Joined s (rotate m dest (count1 + count2) count2) dest src1 count1 src2 count2
rotated s m dest src1 count1 src2 count2 v = record {
  front = λ a b l u e.
      rotate_low m dest (count1 + count2) count2 a (a + count2) (omega arith) l (omega (arith, u))
        refl
      ∙ v.back (a + count2) b (omega (arith, l)) (omega (arith, u)) (omega (arith, e, l));
  back = λ a b l u e.
      rotate_high m dest (count1 + count2) count2 a (a - count1) (omega arith) (omega (arith, l))
        (omega (arith, u)) (omega (arith, l)) (omega (arith, l))
      ∙ v.front (a - count1) b (omega (arith, l)) (omega (arith, u, l)) (omega (arith, e, l));
  outside = λ a o.
      rotate_elsewhere m dest (count1 + count2) count2 a (omega arith) o
      ∙ v.outside a (omega (arith, o));
}

module _ (s : Store) (dest src1 count1 src2 count2 : ℕ) where
  abbrev first : Store
  first = put s dest (s src1)

  ends_dest : 0 < count1 → 0 < count2 → put_ends s dest src1 count1 src2 count2 dest ≡ s src1
  unfolding put_ends
  ends_dest h1 h2 =
      put_other first (dest + count1 + count2 - 1) _ dest (λ e. omega (arith, e, h1, h2))
      ∙ put_at s dest (s src1) dest refl

  ends_last :
      (a b : ℕ)
      → a ≡ dest + count1 + count2 - 1
      → b ≡ src2 + count2 - 1
      → dest < b
      → put_ends s dest src1 count1 src2 count2 a ≡ s b
  unfolding put_ends
  ends_last a b e e' l =
      put_at first (dest + count1 + count2 - 1) _ a e
      ∙ put_other s dest (s src1) (src2 + count2 - 1) (λ k. omega (arith, k, e', l))
      ∙ ap s (sym e')

  ends_other :
      (a : ℕ)
      → (a ≡ dest → ⊥)
      → (a ≡ dest + count1 + count2 - 1 → ⊥)
      → put_ends s dest src1 count1 src2 count2 a ≡ s a
  unfolding put_ends
  ends_other a n n' = put_other first _ _ a n' ∙ put_other s dest (s src1) a n

-- Both ends are written, and the rest is joined.
ends :
    (s t : Store) (dest src1 count1 src2 count2 : ℕ)
    → 0 < count1
    → 0 < count2
    → dest < src1
    → dest < src2
    → src1 < dest + count2
    → src2 < dest + count1
    → Joined
        (put_ends s dest src1 count1 src2 count2)
        t
        (dest + 1)
        (src1 + 1)
        (count1 - 1)
        src2
        (count2 - 1)
    → Joined s t dest src1 count1 src2 count2
ends s t dest src1 count1 src2 count2 h1 h2 l1 l2 u1 u2 v = record {
  front = λ a b l u e. elim (begins dest a l) [
    | inl here ↦
        v.outside a (omega (arith, here))
        ∙ ap (put_ends s dest src1 count1 src2 count2) here
        ∙ ends_dest s dest src1 count1 src2 count2 h1 h2
        ∙ ap s (omega (arith, e, here))
    | inr later ↦
        v.front a b (omega (arith, later)) (omega (arith, u)) (omega (arith, e, later))
        ∙ ends_other s dest src1 count1 src2 count2 b (λ k. omega (arith, k, e, l1))
            (λ k. omega (arith, k, e, u, u1, l))
  ];
  back = λ a b l u e. elim (begins a (dest + count1 + count2 - 1) (omega (arith, u))) [
    | inl here ↦
        v.outside a (omega (arith, here, h1, h2))
        ∙ ends_last s dest src1 count1 src2 count2 a b (sym here) (omega (arith, e, here, h2, l))
            (omega (arith, e, l2))
    | inr earlier ↦
        v.back a b (omega (arith, l, h1)) (omega (arith, earlier, h1, h2)) (omega (arith, e, h1))
        ∙ ends_other s dest src1 count1 src2 count2 b (λ k. omega (arith, k, e, l2))
            (λ k. omega (arith, k, e, u, u2, l))
  ];
  outside = λ a o.
      v.outside a (omega (arith, o))
      ∙ ends_other s dest src1 count1 src2 count2 a (λ k. omega (arith, k, o, h1))
          (λ k. omega (arith, k, o, h1, h2));
}
  where
    begins : (p a : ℕ) → p ≤ a → (a ≡ p) ⊎ (p < a)
    begins p a h = omega arith

-- `memJoin`, with the counts bounded by the passes left.
once :
    (s again : Store) (dest src1 count1 src2 count2 : ℕ)
    → (0 < count1
        → 0 < count2
        → dest < src1
        → dest < src2
        → src1 < dest + count2
        → src2 < dest + count1
        → Joined s again dest src1 count1 src2 count2)
    → Joined s (join_once s dest src1 count1 src2 count2 again) dest src1 count1 src2 count2
unfolding join_once
once s again dest src1 count1 src2 count2 rest =
    elim (Bool-cases (is_disjoint2 dest count1 src2 count2)) [
      | inl a ↦ rw a (first_first s dest src1 count1 src2 count2 a)
      | inr a ↦ rw a (elim (Bool-cases (is_disjoint2 (dest + count1) count2 src1 count1)) [
        | inl b ↦ rw b (second_first s dest src1 count1 src2 count2 b)
        | inr b ↦ rw b (elim (Bool-cases (is_disjoint2 dest count2 src1 count1)) [
          | inl c ↦ rw c (
              rotated s _ dest src1 count1 src2 count2
                (first_first s dest src2 count2 src1 count1 c))
          | inr c ↦ rw c (elim (Bool-cases (is_disjoint2 (dest + count2) count1 src2 count2)) [
            | inl d ↦ rw d (
                rotated s _ dest src1 count1 src2 count2
                  (second_first s dest src2 count2 src1 count1 d))
            | inr d ↦
                let fa = apart_false _ _ _ _ a in
                let fb = apart_false _ _ _ _ b in
                let fc = apart_false _ _ _ _ c in
                let fd = apart_false _ _ _ _ d in
                rw d (
                  rest fa.0.0 fa.0.1 (omega (arith, fb)) (omega (arith, fd)) (omega (arith, fc))
                    (omega (arith, fa)))
          ])
        ])
      ])
    ]

join_from-Joined :
    (fuel : ℕ) (s : Store) (dest src1 count1 src2 count2 : ℕ)
    → count1 ≤ fuel
    → Joined s (join_from fuel s dest src1 count1 src2 count2) dest src1 count1 src2 count2
unfolding join_from
join_from-Joined zero s dest src1 count1 src2 count2 h =
    once s s dest src1 count1 src2 count2 (λ h1 h2 l1 l2 u1 u2. absurd (omega (arith, h, h1)))
join_from-Joined (suc fuel) s dest src1 count1 src2 count2 h =
    once s _ dest src1 count1 src2 count2 (λ h1 h2 l1 l2 u1 u2.
      ends s _ dest src1 count1 src2 count2 h1 h2 l1 l2 u1 u2 (
        join_from-Joined fuel _ (dest + 1) (src1 + 1) (count1 - 1) src2 (count2 - 1)
          (omega (arith, h))))

-- For buffers at any addresses `memJoin` leaves the octets that the first buffer had, then those that the
-- second one had, at the destination, and changes no other octet.
pub join-Joined :
    (s : Store) (dest src1 count1 src2 count2 : ℕ)
    → Joined s (join s dest src1 count1 src2 count2) dest src1 count1 src2 count2
unfolding join
join-Joined s dest src1 count1 src2 count2 =
    join_from-Joined count1 s dest src1 count1 src2 count2 (omega arith)
