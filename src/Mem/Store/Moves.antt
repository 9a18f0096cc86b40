-- ===== src/Mem/Store/Moves.antt =====
-- What `memMove` and the rotation of `memJoin` leave at each address.
use bee.Common.{
  ℕ, zero, suc, ◌+◌, ◌-◌, ◌≤◌, ◌<◌, ◌≡◌, ◌⊎◌, inl, inr, refl, sym, ap, ◌∙◌, true, false, ◌&&◌, leb,
  ltb, ◌==◌, arith,
}
use bee.Mem.Store.{Store, put, move, rotate}

abbrev pub Outside : ℕ → ℕ → ℕ → Type 0
Outside dest n a = (a < dest) ⊎ (dest + n ≤ a)

pub put_at : (s : Store) (p o a : ℕ) → a ≡ p → put s p o a ≡ o
put_at s p o a e = let t : (a == p) ≡ true = ground arith in rw t refl

pub put_other : (s : Store) (p o a : ℕ) → (a ≡ p → ⊥) → put s p o a ≡ s a
put_other s p o a n = let t : (a == p) ≡ false = ground (arith, n) in rw t refl

pub move_at :
    (s : Store) (dest src n a b : ℕ)
    → dest ≤ a
    → a < dest + n
    → b ≡ src + (a - dest)
    → move s dest src n a ≡ s b
move_at s dest src n a b h k e =
    let t : (leb dest a && ltb a (dest + n)) ≡ true = ground arith in rw t (ap s (sym e))

pub move_other : (s : Store) (dest src n a : ℕ) → Outside dest n a → move s dest src n a ≡ s a
move_other s dest src n a h =
    let t : (leb dest a && ltb a (dest + n)) ≡ false = ground (arith, h) in rw t refl

-- One step of the rotation.
module _ (s : Store) (dest n : ℕ) where
  abbrev moved : Store
  moved = move s dest (dest + 1) (n - 1)

  step : Store
  step = put moved (dest + n - 1) (s dest)

  step_inner : (a b : ℕ) → dest ≤ a → suc a < dest + n → b ≡ suc a → step a ≡ s b
  unfolding step
  step_inner a b h k e =
      put_other moved _ _ a (λ e'. omega (arith, e', k))
      ∙ move_at s dest (dest + 1) (n - 1) a b h (omega (arith, k)) (omega (arith, e, h))

  step_last : (a : ℕ) → dest ≤ a → suc a ≡ dest + n → step a ≡ s dest
  unfolding step
  step_last a h k = put_at moved _ _ a (omega (arith, k))

  step_elsewhere : (a : ℕ) → 0 < n → Outside dest n a → step a ≡ s a
  unfolding step
  step_elsewhere a h o =
      put_other moved _ _ a (λ e. omega (arith, e, o, h))
      ∙ move_other s dest (dest + 1) (n - 1) a (omega (arith, o, h))

-- `k` steps: the octets move `k` places down, and the first ones to the end.
pub rotate_low :
    (s : Store) (dest n k a b : ℕ)
    → k ≤ n
    → dest ≤ a
    → a + k < dest + n
    → b ≡ a + k
    → rotate s dest n k a ≡ s b
unfolding rotate step
rotate_low s dest n zero a b h l u e = ap s (omega (arith, e))
rotate_low s dest n (suc k) a b h l u e =
    rotate_low (step s dest n) dest n k a (a + k) (omega arith) l (omega arith) refl
    ∙ step_inner s dest n (a + k) b (omega arith) (omega arith) (omega (arith, e))

pub rotate_high :
    (s : Store) (dest n k a b : ℕ)
    → k ≤ n
    → dest ≤ a
    → a < dest + n
    → dest + n ≤ a + k
    → b + n ≡ a + k
    → rotate s dest n k a ≡ s b
unfolding rotate step
rotate_high s dest n zero a b h l u v e = absurd (omega arith)
rotate_high s dest n (suc k) a b h l u v e = elim (at_end (a + k) (dest + n) (omega arith)) [
  | inl last ↦
      rotate_low (step s dest n) dest n k a (a + k) (omega arith) l (omega (arith, last)) refl
      ∙ step_last s dest n (a + k) (omega arith) last
      ∙ ap s (omega (arith, last, e))
  | inr wrapped ↦
      rotate_high (step s dest n) dest n k a (a + k - n) (omega arith) l u wrapped
        (omega (arith, wrapped, l))
      ∙ step_inner s dest n (a + k - n) b (omega (arith, wrapped)) (omega (arith, wrapped, u))
          (omega (arith, wrapped, e, l))
]
  where
    at_end : (a end : ℕ) → end ≤ a + suc 0 → (suc a ≡ end) ⊎ (end ≤ a)
    at_end a end h = omega arith

pub rotate_elsewhere :
    (s : Store) (dest n k a : ℕ) → k ≤ n → Outside dest n a → rotate s dest n k a ≡ s a
unfolding rotate step
rotate_elsewhere s dest n zero a h o = refl
rotate_elsewhere s dest n (suc k) a h o =
    rotate_elsewhere (step s dest n) dest n k a (omega arith) o
    ∙ step_elsewhere s dest n a (omega arith) o
