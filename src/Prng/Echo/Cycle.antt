-- ===== src/Prng/Echo/Cycle.antt =====
-- What the echo generator puts out: the octets of the seed in turn, again and again.
use bee.Common.{
  ℕ, zero, suc, ◌+◌, ◌-◌, ◌%◌, ◌<◌, ◌≤◌, ◌≡◌, ◌⊎◌, inl, inr, refl, sym, ap, ap₂, ◌∙◌, List, [], ◌∷◌,
  ◌++◌, length, get_or, Bool-cases, ◌==◌, arith,
}
use bee.Prng.Echo.{Echo, advance, step_r}
use bee.Zz.Add.Words.{wrap}
use native.Mathlib.Nat.{mod-eq_of_lt, mod_self, add-mod_right}

-- The position is in the seed.
abbrev pub IsValid : Echo → Type 0
IsValid s = s.pos < length s.seed

pub advance-IsValid : (s : Echo) → IsValid s → IsValid (advance s)
unfolding advance
advance-IsValid s h = ground arith

advance-pos : (s : Echo) → IsValid s → (advance s).pos ≡ (s.pos + 1) % length s.seed
unfolding advance
advance-pos s h = elim (Bool-cases (s.pos + 1 == length s.seed)) [
  | inl over ↦
      let e : s.pos + 1 ≡ length s.seed = ground arith in
      rw over (sym (ap (λ (t : ℕ). t % length s.seed) e ∙ mod_self (length s.seed)))
  | inr within ↦
      let lt : s.pos + 1 < length s.seed = ground arith in rw within (sym (mod-eq_of_lt lt))
]

-- The position after a step and k more is the one after k + 1.
step_mod : (p q k n : ℕ) → p < n → q ≡ (p + 1) % n → (q + k) % n ≡ (p + suc k) % n
step_mod p q k n h e = elim (wrap n (p + 1) (omega arith)) [
  | inl (low, same) ↦
      let sum : q + k ≡ p + suc k = omega (arith, e, same) in ap (λ (t : ℕ). t % n) sum
  | inr (high, less) ↦
      let sum : p + suc k ≡ q + k + n = omega (arith, e, less) in
      sym (ap (λ (t : ℕ). t % n) sum ∙ add-mod_right (q + k) n)
]

same_seed : (n : ℕ) (s : Echo) → (step_r n s).1.seed ≡ s.seed
unfolding step_r
same_seed zero s = refl
same_seed (suc n) s = same_seed n (advance s) ∙ (unfold advance in refl)

advance-seed : (s : Echo) → (advance s).seed ≡ s.seed
unfolding advance
advance-seed s = refl

-- From a position in the seed, a request of n octets gives n octets; the one of index k is that of the seed
-- at the position plus k, modulo the length of the seed, and the position moves by n modulo that length.
pub step_r-cycle :
    (n : ℕ) (s : Echo)
    → IsValid s
    → (length (step_r n s).0 ≡ n)
      × ((step_r n s).1.pos ≡ (s.pos + n) % length s.seed)
      × ((k : ℕ)
          → k < n
          → get_or (step_r n s).0 k 0 ≡ get_or s.seed ((s.pos + k) % length s.seed) 0)
unfolding step_r
step_r-cycle zero s h = (
  refl,
  sym (
      ap (λ (t : ℕ). t % length s.seed) (let e : s.pos + 0 ≡ s.pos = omega arith in e)
      ∙ mod-eq_of_lt h),
  λ k lt. absurd (omega arith),
)
step_r-cycle (suc n) s h =
    let rest = step_r-cycle n (advance s) (advance-IsValid s h) in
    let len = length s.seed in
    let size : length (advance s).seed ≡ len = ap length (advance-seed s) in
    let moved : (k : ℕ) → ((advance s).pos + k) % length (advance s).seed ≡ (s.pos + suc k) % len =
      λ k.
        ap (λ (t : ℕ). ((advance s).pos + k) % t) size
        ∙ step_mod s.pos (advance s).pos k len h (advance-pos s h) in
    (ap suc rest.0, rest.1 ∙ moved n, octets rest.2 moved)
  where
    octets :
        ((k : ℕ)
          → k < n
          → get_or (step_r n (advance s)).0 k 0
            ≡ get_or (advance s).seed (((advance s).pos + k) % length (advance s).seed) 0)
        → ((k : ℕ)
            → ((advance s).pos + k) % length (advance s).seed ≡ (s.pos + suc k) % length s.seed)
        → (k : ℕ) → k < suc n
        → get_or (get_or s.seed s.pos 0 ∷ (step_r n (advance s)).0) k 0
          ≡ get_or s.seed ((s.pos + k) % length s.seed) 0
    octets ih moved zero lt =
        let e : s.pos + 0 ≡ s.pos = omega arith in
        sym
          (ap (λ (t : ℕ). get_or s.seed t 0) (ap (λ (t : ℕ). t % length s.seed) e ∙ mod-eq_of_lt h))
    octets ih moved (suc k) lt =
        ih k (omega arith) ∙ ap₂ (λ (xs : List ℕ) (i : ℕ). get_or xs i 0) (advance-seed s) (moved k)

-- A request of n + m octets gives the octets of a request of n and of one of m after it, and the same state.
pub step_r-add :
    (n m : ℕ) (s : Echo)
    → ((step_r (n + m) s).0 ≡ (step_r n s).0 ++ (step_r m (step_r n s).1).0)
      × ((step_r (n + m) s).1 ≡ (step_r m (step_r n s).1).1)
unfolding step_r
step_r-add zero m s =
    let e : zero + m ≡ m = omega arith in
    (ap (λ (k : ℕ). (step_r k s).0) e, ap (λ (k : ℕ). (step_r k s).1) e)
step_r-add (suc n) m s =
    let e : suc n + m ≡ suc (n + m) = omega arith in
    let rest = step_r-add n m (advance s) in
    (
      ap (λ (k : ℕ). (step_r k s).0) e ∙ ap (λ (t : List ℕ). get_or s.seed s.pos 0 ∷ t) rest.0,
      ap (λ (k : ℕ). (step_r k s).1) e ∙ rest.1,
    )

-- From a position in the seed, every octet of the seed is put out: for each index there is a number of
-- octets below the length of the seed after which the next octet is the one of that index.
pub step_r_reaches :
    (s : Echo) (i : ℕ)
    → IsValid s
    → i < length s.seed
    → (k : ℕ) × (k < length s.seed)
      × ((step_r k s).1.pos ≡ i)
      × ((step_r 1 (step_r k s).1).0 ≡ get_or s.seed i 0 ∷ [])
step_r_reaches s i h lt = elim (ahead s.pos i) [
  | inl le ↦
      let e : s.pos + (i - s.pos) ≡ i = omega arith in
      found (i - s.pos) (omega arith) (ap (λ (t : ℕ). t % length s.seed) e ∙ mod-eq_of_lt lt)
  | inr gt ↦
      let k = i + length s.seed - s.pos in
      let e : s.pos + k ≡ i + length s.seed = omega arith in
      found k (omega arith)
        (ap (λ (t : ℕ). t % length s.seed) e ∙ add-mod_right i (length s.seed) ∙ mod-eq_of_lt lt)
]
  where
    ahead : (p i : ℕ) → (p ≤ i) ⊎ (i < p)
    ahead p i = omega arith

    found :
        (k : ℕ)
        → k < length s.seed
        → (s.pos + k) % length s.seed ≡ i
        → (k : ℕ) × (k < length s.seed)
          × ((step_r k s).1.pos ≡ i)
          × ((step_r 1 (step_r k s).1).0 ≡ get_or s.seed i 0 ∷ [])
    found k small e =
        let moved = (step_r-cycle k s h).1 ∙ e in
        (
          k,
          small,
          moved,
          unfold step_r in ap₂ (λ (xs : List ℕ) (p : ℕ). get_or xs p 0 ∷ []) (same_seed k s) moved,
        )
