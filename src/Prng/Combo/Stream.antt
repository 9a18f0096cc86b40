-- ===== src/Prng/Combo/Stream.antt =====
-- COMBO as a source of single octets.
use bee.Common.{
  ℕ, zero, suc, ◌+◌, ◌-◌, ◌*◌, ◌<◌, ◌≤◌, ◌≡◌, inl, inr, refl, sym, ap, ap₂, ◌∙◌, List, [], ◌∷◌,
  ◌++◌, length, take, drop, Bool-cases, leb, ◌==◌, arith, drop_all, length-drop,
}
use bee.Prng.Combo.{Combo, u32, octets, next_z, step, start, last_block, fill, step_r}

-- The three numbers, and the octets of the last word that have not been given yet.
pub record Source : Type 0 where
  pub x : ℕ
  pub y : ℕ
  pub z : ℕ
  pub pending : List ℕ

-- A new word when nothing is pending.
unfoldable pub refill : Source → Source
refill s =
    let r = u32 (s.x * s.x) in
    let z = next_z s.z in record { x = s.y; y = r; z = z; pending = octets (u32 (r + z)) }

-- One octet.
unfoldable pub pop : Source → ℕ × Source
pop s = elim s.pending [ [] ↦ first (refill s) | ◌∷◌ o os ↦ (o, record s { pending = os }) ]
  where
    first : Source → ℕ × Source
    first t = elim t.pending [ [] ↦ (0, t) | ◌∷◌ o os ↦ (o, record t { pending = os }) ]

unfoldable pub pops : ℕ → Source → List ℕ × Source
pops zero s = ([], s)
pops (suc n) s = let one = pop s in let rest = pops n one.1 in (one.0 ∷ rest.0, rest.1)

unfoldable pub view : Combo → Source
view s = record { x = s.x; y = s.y; z = s.z; pending = drop (4 - s.reserved) s.block }

pub record IsValid (s : Combo) : Type 0 where
  pub few : s.reserved < 4
  pub size : length s.block ≡ 4

pops-add :
    (n m : ℕ) (s : Source)
    → ((pops (n + m) s).0 ≡ (pops n s).0 ++ (pops m (pops n s).1).0)
      × ((pops (n + m) s).1 ≡ (pops m (pops n s).1).1)
unfolding pops
pops-add zero m s =
    let e : zero + m ≡ m = omega arith in
    (ap (λ (k : ℕ). (pops k s).0) e, ap (λ (k : ℕ). (pops k s).1) e)
pops-add (suc n) m s =
    let e : suc n + m ≡ suc (n + m) = omega arith in
    let rest = pops-add n m (pop s).1 in
    (
      ap (λ (k : ℕ). (pops k s).0) e ∙ ap (λ (t : List ℕ). (pop s).0 ∷ t) rest.0,
      ap (λ (k : ℕ). (pops k s).1) e ∙ rest.1,
    )

-- Pending octets are given first.
pops-pending :
    (n x y z : ℕ) (os : List ℕ)
    → n ≤ length os
    → pops n (record { x = x; y = y; z = z; pending = os })
      ≡ (take n os, record { x = x; y = y; z = z; pending = drop n os })
unfolding pops pop
pops-pending zero x y z os h = refl
pops-pending (suc n) x y z [] h = absurd (omega arith)
pops-pending (suc n) x y z (o ∷ os) h =
    ap (λ (t : List ℕ × Source). (o ∷ t.0, t.1)) (pops-pending n x y z os (omega arith))

-- A word is drawn for the first octet behind the pending ones.
pops-refill :
    (n x y z : ℕ)
    → let s : Source = record { x = x; y = y; z = z; pending = [] } in
      pops (suc n) s ≡ pops (suc n) (refill s)
unfolding pops pop refill
pops-refill n x y z = refl

pops-zero : (t : Source) → pops 0 t ≡ ([], t)
unfolding pops
pops-zero t = refl

-- What a request does, seen as single octets.
Agrees : ℕ → Source → List ℕ × Combo → Type 0
Agrees n t out = (out.0 ≡ (pops n t).0) × (view out.1 ≡ (pops n t).1) × IsValid out.1

-- Up to four octets of a new word.
few-octets :
    (k x y z : ℕ) (block : List ℕ)
    → suc k ≤ 4
    → let t : Source = record { x = x; y = y; z = z; pending = [] } in
      let s : Combo = record { x = x; y = y; z = z; block = block; reserved = 0 } in
      let w = step s in
      pops (suc k) t
      ≡ (take (suc k) w.block, record { x = w.x; y = w.y; z = w.z; pending = drop (suc k) w.block })
unfolding step refill
few-octets k x y z block h =
    pops-refill k x y z ∙ (unfold refill in pops-pending (suc k) y _ _ (octets _) (omega arith))

fill-Agrees :
    (n x y z : ℕ) (block : List ℕ)
    → length block ≡ 4
    → Agrees n
        (record { x = x; y = y; z = z; pending = [] })
        (fill n (record { x = x; y = y; z = z; block = block; reserved = 0 }))
unfolding fill last_block Agrees view step
fill-Agrees zero x y z block e =
    let t : Source = record { x = x; y = y; z = z; pending = [] } in
    let none = pops-zero t in
    (
      ap (λ (q : List ℕ × Source). q.0) (sym none),
      ap (λ (os : List ℕ). record { x = x; y = y; z = z; pending = os })
            (drop_all 4 block (omega arith))
          ∙ ap (λ (q : List ℕ × Source). q.1) (sym none),
      record { few = omega arith; size = e },
    )
fill-Agrees (suc zero) x y z block e =
    let f = few-octets 0 x y z block (omega arith) in
    (
      sym (ap (λ (q : List ℕ × Source). q.0) f),
      sym (ap (λ (q : List ℕ × Source). q.1) f),
      record { few = omega arith; size = refl },
    )
fill-Agrees (suc (suc zero)) x y z block e =
    let f = few-octets 1 x y z block (omega arith) in
    (
      sym (ap (λ (q : List ℕ × Source). q.0) f),
      sym (ap (λ (q : List ℕ × Source). q.1) f),
      record { few = omega arith; size = refl },
    )
fill-Agrees (suc (suc (suc zero))) x y z block e =
    let f = few-octets 2 x y z block (omega arith) in
    (
      sym (ap (λ (q : List ℕ × Source). q.0) f),
      sym (ap (λ (q : List ℕ × Source). q.1) f),
      record { few = omega arith; size = refl },
    )
fill-Agrees (suc (suc (suc (suc n)))) x y z block e =
    let f = few-octets 3 x y z block (omega arith) in
    let t : Source = record { x = x; y = y; z = z; pending = [] } in
    let a = pops-add 4 n t in
    let count : 4 + n ≡ suc (suc (suc (suc n))) = omega arith in
    let r = u32 (x * x) in
    let ih = fill-Agrees n y r (next_z z) (octets (u32 (r + next_z z))) refl in
    let first = ap (λ (q : List ℕ × Source). q.0) f in
    let after = ap (λ (q : List ℕ × Source). q.1) f in
    (
      ap₂ (λ (p q : List ℕ). p ++ q) (sym first)
            (ih.0 ∙ ap (λ (q : Source). (pops n q).0) (sym after))
          ∙ sym a.0
          ∙ ap (λ (k : ℕ). (pops k t).0) count,
      ih.1
          ∙ ap (λ (q : Source). (pops n q).1) (sym after)
          ∙ sym a.1
          ∙ ap (λ (k : ℕ). (pops k t).1) count,
      ih.2,
    )

drop-drop : (n m : ℕ) (xs : List ℕ) → drop n (drop m xs) ≡ drop (m + n) xs
drop-drop n zero xs = let e : n ≡ zero + n = omega arith in ap (λ (k : ℕ). drop k xs) e
drop-drop zero (suc m) [] =
    let e : suc (m + 0) ≡ suc m + 0 = omega arith in ap (λ (k : ℕ). drop {A = ℕ} k []) e
drop-drop (suc n) (suc m) [] =
    let e : suc (m + suc n) ≡ suc m + suc n = omega arith in ap (λ (k : ℕ). drop {A = ℕ} k []) e
drop-drop n (suc m) (x ∷ xs) =
    let e : suc (m + n) ≡ suc m + n = omega arith in
    drop-drop n m xs ∙ ap (λ (k : ℕ). drop k (x ∷ xs)) e

-- Octets of the last word are kept for the next request.
kept-Agrees :
    (n r x y z : ℕ) (block : List ℕ)
    → r < 4
    → length block ≡ 4
    → n ≤ r
    → let s : Combo = record { x = x; y = y; z = z; block = block; reserved = r } in
      Agrees n (view s) (take n (drop (4 - r) block), record s { reserved = r - n })
unfolding Agrees view
kept-Agrees n r x y z block few e le =
    let kept = drop (4 - r) block in
    let f = pops-pending n x y z kept (omega (arith, length-drop (4 - r) block)) in
    let place : 4 - r + n ≡ 4 - (r - n) = omega arith in
    (
      sym (ap (λ (q : List ℕ × Source). q.0) f),
      ap (λ (os : List ℕ). record { x = x; y = y; z = z; pending = os })
            (ap (λ (k : ℕ). drop k block) (sym place) ∙ sym (drop-drop n (4 - r) block))
          ∙ sym (ap (λ (q : List ℕ × Source). q.1) f),
      record { few = omega arith; size = e },
    )

-- The octets that are kept, and new ones.
more-Agrees :
    (n k r x y z : ℕ) (block : List ℕ)
    → r < 4
    → length block ≡ 4
    → n ≡ r + k
    → let s : Combo = record { x = x; y = y; z = z; block = block; reserved = r } in
      let rest = fill k (record s { reserved = 0 }) in
      Agrees n (view s) (take r (drop (4 - r) block) ++ rest.0, rest.1)
unfolding Agrees view
more-Agrees n k r x y z block few e split =
    let kept = drop (4 - r) block in
    let size : length kept ≡ r = omega (arith, length-drop (4 - r) block) in
    let t : Source = record { x = x; y = y; z = z; pending = kept } in
    let f = pops-pending r x y z kept (omega arith) in
    let a = pops-add r k t in
    let ih = fill-Agrees k x y z block e in
    let none : drop r kept ≡ [] = drop_all r kept (omega arith) in
    let after : (pops r t).1 ≡ record { x = x; y = y; z = z; pending = [] } =
      ap (λ (q : List ℕ × Source). q.1) f
      ∙ ap (λ (os : List ℕ). record { x = x; y = y; z = z; pending = os }) none in
    (
      ap₂ (λ (p q : List ℕ). p ++ q) (sym (ap (λ (q : List ℕ × Source). q.0) f))
            (ih.0 ∙ ap (λ (q : Source). (pops k q).0) (sym after))
          ∙ sym a.0
          ∙ ap (λ (i : ℕ). (pops i t).0) (sym split),
      ih.1
          ∙ ap (λ (q : Source). (pops k q).1) (sym after)
          ∙ sym a.1
          ∙ ap (λ (i : ℕ). (pops i t).1) (sym split),
      ih.2,
    )

empty_view :
    (s : Combo)
    → s.reserved ≡ 0
    → length s.block ≡ 4
    → view s ≡ record { x = s.x; y = s.y; z = s.z; pending = [] }
unfolding view
empty_view s z e =
    ap (λ (os : List ℕ). record { x = s.x; y = s.y; z = s.z; pending = os })
      (drop_all (4 - s.reserved) s.block (omega arith))

step_r-Agrees : (n : ℕ) (s : Combo) → IsValid s → Agrees n (view s) (step_r n s)
unfolding step_r
step_r-Agrees n s h = elim (Bool-cases (s.reserved == 0)) [
  | inl none ↦
      let z : s.reserved ≡ 0 = ground arith in
      let v : view s ≡ record { x = s.x; y = s.y; z = s.z; pending = [] } = empty_view s z h.size in
      let same : record s { reserved = 0 } ≡ s =
        ap (λ (k : ℕ). record s { reserved = k }) (sym z) in
      rw (none, v) (rw same at (fill-Agrees n s.x s.y s.z s.block h.size))
  | inr some ↦ elim (Bool-cases (leb n s.reserved)) [
    | inl enough ↦
        rw (some, enough) (kept-Agrees n s.reserved s.x s.y s.z s.block h.few h.size (ground arith))
    | inr over ↦
        rw (some, over)
          (more-Agrees n (n - s.reserved) s.reserved s.x s.y s.z s.block h.few h.size
            (ground arith))
  ]
]

-- From a valid state, one whose block has four octets of which fewer than four are kept, a request of n
-- octets gives the octets that n requests of a single octet give from the state seen as a source, and leaves
-- a valid state that is seen as the source they leave.
pub step_r-pops :
    (n : ℕ) (s : Combo)
    → IsValid s
    → ((step_r n s).0 ≡ (pops n (view s)).0)
      × (view (step_r n s).1 ≡ (pops n (view s)).1)
      × IsValid (step_r n s).1
unfolding Agrees
step_r-pops n s h = step_r-Agrees n s h

-- From a valid state the octets do not depend on how they are requested: a request of n + m octets gives
-- those of a request of n octets and of a request of m octets after it.
pub step_r-cut :
    (n m : ℕ) (s : Combo)
    → IsValid s
    → (step_r (n + m) s).0 ≡ (step_r n s).0 ++ (step_r m (step_r n s).1).0
step_r-cut n m s h =
    let whole = step_r-pops (n + m) s h in
    let first = step_r-pops n s h in
    let second = step_r-pops m (step_r n s).1 first.2 in
    let cut = (pops-add n m (view s)).0 in
    whole.0
    ∙ cut
    ∙ ap₂ (λ (p q : List ℕ). p ++ q) (sym first.0)
        (ap (λ (t : Source). (pops m t).0) (sym first.1) ∙ sym second.0)

-- The state after the start is valid.
pub start-IsValid : (seed : ℕ) → IsValid (start seed)
unfolding start
start-IsValid seed = record { few = omega arith; size = refl }
