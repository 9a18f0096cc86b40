-- ===== src/Prng/Stb/Queue.antt =====
-- The ring as a queue, the oldest number first, and the recurrences by which the comments of src/core/prng.c
-- describe a step: z[t] = z[t - 31] - z[t - 21] modulo 65257, v[t] = v[t - 1] + z[t - 31], and w[t] the sum of
-- z[t - 11] and of w[t - 1] turned by one bit. The comment turns towards the high bits, the code towards the
-- low ones; the recurrence here is that of the code, in numbers: half of w, and 2^15 more if w is odd.
use bee.Common.{
  ℕ, zero, suc, ◌+◌, ◌-◌, ◌/◌, ◌%◌, ◌<◌, ◌≡◌, inl, inr, refl, sym, ap, ap₂, ◌∙◌, List, [], ◌∷◌,
  ◌++◌, length, get_or, set, take, drop, bit_xor, arith, ◌*◌, ◌^◌, ◌==◌, if◌then◌else◌,
  get_or-append, get_or-append_left, drop-get_or, drop_all, take_all, append-nil, append_assoc,
  length-drop,
}
use bee.Common.Masks.{bit_or_high}
use bee.Prng.Stb.{Stb, sub_mod, rot, modulus, clock, step_r}
use bee.Prng.Stb.Valid.{IsValid, get_or-below, length-set, clock-IsValid}
use bee.Zz.Add.Words.{wrap}

pub record Queue : Type 0 where
  pub numbers : List ℕ
  pub v : ℕ
  pub w : ℕ
  pub u : ℕ

-- A number of 16 bits turned by one bit towards the low bits: the lowest bit becomes the highest.
abbrev pub turned_low : ℕ → ℕ
turned_low w = if w % 2 == 0 then w / 2 else w / 2 + 32768

-- One step of the recurrences on the last 31 numbers.
unfoldable pub tick : Queue → Queue
tick q =
    let z0 = get_or q.numbers 0 0 in
    let v = (q.v + z0) % 65536 in
    let w = (turned_low q.w + get_or q.numbers 20 0) % 65536 in
    record {
      numbers = drop 1 q.numbers ++ ((z0 + (modulus - get_or q.numbers 10 0)) % modulus ∷ []);
      v = v;
      w = w;
      u = bit_xor v w;
    }

-- The octets that the recurrences give.
unfoldable pub octets : ℕ → Queue → List ℕ × Queue
octets zero q = ([], q)
octets (suc n) q =
    let q' = tick q in let rest = octets n q' in ((q'.u + q.u / 255) % 256 ∷ rest.0, rest.1)

-- The ring from its index on.
unfoldable pub view : Stb → Queue
view s = record { numbers = drop s.i s.z ++ take s.i s.z; v = s.v; w = s.w; u = s.u }

get_or-drop : (i k : ℕ) (xs : List ℕ) → get_or (drop i xs) k 0 ≡ get_or xs (i + k) 0
get_or-drop zero k xs = let e : k ≡ zero + k = omega arith in ap (λ (t : ℕ). get_or xs t 0) e
get_or-drop (suc i) k [] = refl
get_or-drop (suc i) k (x ∷ xs) =
    let e : suc (i + k) ≡ suc i + k = omega arith in
    get_or-drop i k xs ∙ ap (λ (t : ℕ). get_or (x ∷ xs) t 0) e

get_or-take : (i k : ℕ) (xs : List ℕ) → k < i → get_or (take i xs) k 0 ≡ get_or xs k 0
get_or-take zero k xs h = absurd (omega arith)
get_or-take (suc i) k [] h = refl
get_or-take (suc i) zero (x ∷ xs) h = refl
get_or-take (suc i) (suc k) (x ∷ xs) h = get_or-take i k xs (omega arith)

-- A number of the queue is that of the ring, modulo its size.
get_or-turned :
    (n i k : ℕ) (xs : List ℕ)
    → length xs ≡ n
    → i < n
    → k < n
    → get_or (drop i xs ++ take i xs) k 0 ≡ get_or xs ((i + k) % n) 0
get_or-turned n i k xs e hi hk =
    let size : length (drop i xs) ≡ n - i = omega (arith, length-drop i xs) in
    elim (wrap n (i + k) (omega arith)) [
      | inl (low, same) ↦
          get_or-append_left (drop i xs) (take i xs) k 0 (omega (arith, size))
          ∙ get_or-drop i k xs
          ∙ ap (λ (t : ℕ). get_or xs t 0) (sym same)
      | inr (high, less) ↦
          let k' = (i + k) % n in
          get_or-append (drop i xs) (take i xs) k k' 0 (omega (arith, size, less))
          ∙ get_or-take i k' xs (omega (arith, less))
    ]

drop-set : (i v : ℕ) (xs : List ℕ) → drop (suc i) (set xs i v) ≡ drop (suc i) xs
drop-set i v [] = refl
drop-set zero v (x ∷ xs) = refl
drop-set (suc i) v (x ∷ xs) = drop-set i v xs

take-set :
    (i v : ℕ) (xs : List ℕ) → i < length xs → take (suc i) (set xs i v) ≡ take i xs ++ (v ∷ [])
take-set i v [] h = absurd (omega arith)
take-set zero v (x ∷ xs) h = refl
take-set (suc i) v (x ∷ xs) h = ap (λ (t : List ℕ). x ∷ t) (take-set i v xs (omega arith))

-- The oldest number leaves the queue and the new one enters it.
turn :
    (i v : ℕ) (xs : List ℕ)
    → i < length xs
    → drop (suc i) xs ++ (take i xs ++ (v ∷ [])) ≡ drop 1 (drop i xs ++ take i xs) ++ (v ∷ [])
turn i v xs h =
    rw (drop-get_or i xs 0 h) (sym (append_assoc (drop (suc i) xs) (take i xs) (v ∷ [])))

turned :
    (n i v : ℕ) (xs : List ℕ)
    → length xs ≡ n
    → i < n
    → let ys = set xs i v in
      drop ((i + 1) % n) ys ++ take ((i + 1) % n) ys ≡ drop 1 (drop i xs ++ take i xs) ++ (v ∷ [])
turned n i v xs e h = elim (wrap n (i + 1) (omega arith)) [
  | inl (low, same) ↦
      let next : (i + 1) % n ≡ suc i = omega (arith, same) in
      rw next (
        ap₂ (λ (s t : List ℕ). s ++ t) (drop-set i v xs) (take-set i v xs (omega arith))
        ∙ turn i v xs (omega arith))
  | inr (high, less) ↦
      let next : (i + 1) % n ≡ 0 = omega (arith, less) in
      let last : suc i ≡ n = omega arith in
      let whole : take (suc i) (set xs i v) ≡ set xs i v =
        take_all (suc i) (set xs i v) (omega (arith, length-set xs i v)) in
      rw next (
        append-nil (set xs i v)
        ∙ sym whole
        ∙ take-set i v xs (omega arith)
        ∙ ap (λ (t : List ℕ). t ++ (take i xs ++ (v ∷ [])))
            (sym (drop_all (suc i) xs (omega arith)))
        ∙ turn i v xs (omega arith))
]

sub_mod-eq : (x y : ℕ) → x < modulus → y < modulus → sub_mod x y ≡ (x + (modulus - y)) % modulus
unfolding sub_mod
sub_mod-eq x y h k = ground (arith, wrap modulus (x + (modulus - y)) (omega arith))

rot-eq : (w : ℕ) → w < 65536 → rot w ≡ turned_low w
unfolding rot
rot-eq w h =
    let high : w * 32768 % 65536 ≡ 2 ^ 15 * (w % 2) = omega arith in
    rw high (bit_or_high 15 (w / 2) (w % 2) (omega arith) ∙ ground arith)

pub clock-refines : (s : Stb) → IsValid s → view (clock s) ≡ tick (view s)
unfolding clock view tick
clock-refines s h =
    let z0 = get_or-turned 31 s.i 0 s.z h.size h.index (omega arith) in
    let z10 = get_or-turned 31 s.i 10 s.z h.size h.index (omega arith) in
    let z20 = get_or-turned 31 s.i 20 s.z h.size h.index (omega arith) in
    let here : (s.i + 0) % 31 ≡ s.i = omega (arith, h.index) in
    let oldest = z0 ∙ ap (λ (t : ℕ). get_or s.z t 0) here in
    let zi = get_or s.z s.i 0 in
    let zj = get_or s.z ((s.i + 10) % 31) 0 in
    let new =
      sub_mod-eq zi zj (get_or-below modulus s.z s.i (omega arith) h.below)
        (get_or-below modulus s.z ((s.i + 10) % 31) (omega arith) h.below) in
    let v = (s.v + zi) % 65536 in
    let w = (rot s.w + get_or s.z ((s.i + 20) % 31) 0) % 65536 in
    rw (oldest, z10, z20, ← rot-eq s.w h.word)
      (ap (λ (ns : List ℕ). record { numbers = ns; v = v; w = w; u = bit_xor v w })
        (turned 31 s.i (sub_mod zi zj) s.z h.size h.index
          ∙ ap (λ (t : ℕ). drop 1 (drop s.i s.z ++ take s.i s.z) ++ (t ∷ [])) new))

seen : (s : Stb) → s.u ≡ (view s).u
unfolding view
seen s = refl

-- From a state with 31 numbers below 65257, an index below 31 and w of 16 bits, a request gives the octets that
-- the recurrences give from the queue of the state, the numbers in the order of their age, and the state that
-- it leaves has the queue that the recurrences reach. A step of them takes the oldest number less the one ten
-- places behind it, modulo 65257, into the queue, and adds, in 16 bits, the oldest number to v, and to w, turned
-- by one bit towards the low bits, the number twenty places behind. The exclusive or of both is u, and an octet
-- is the sum of the new u and the quotient of the old u by 255, modulo 256.
pub step_r-refines :
    (n : ℕ) (s : Stb)
    → IsValid s
    → ((step_r n s).0 ≡ (octets n (view s)).0) × (view (step_r n s).1 ≡ (octets n (view s)).1)
unfolding step_r octets
step_r-refines zero s h = (refl, refl)
step_r-refines (suc n) s h =
    let rest = step_r-refines n (clock s) (clock-IsValid s h) in
    let moved = clock-refines s h in
    let same : (clock s).u ≡ (tick (view s)).u = seen (clock s) ∙ ap (λ (q : Queue). q.u) moved in
    (
      ap₂ (λ (o : ℕ) (os : List ℕ). o ∷ os) (ap₂ (λ (p q : ℕ). (p + q / 255) % 256) same (seen s))
          (rest.0 ∙ ap (λ (q : Queue). (octets n q).0) moved),
      rest.1 ∙ ap (λ (q : Queue). (octets n q).1) moved,
    )
