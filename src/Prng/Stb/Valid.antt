-- ===== src/Prng/Stb/Valid.antt =====
-- The ring holds 31 numbers below 65257, the index stays in it and w in 16 bits, whatever is requested.
use bee.Common.{
  ℕ, zero, suc, ◌+◌, ◌%◌, ◌<◌, ◌≤◌, ◌≡◌, refl, ap, ◌∙◌, List, [], ◌∷◌, All, Option, some, none,
  length, get_or, set, arith,
}
use bee.Prng.Stb.{Stb, sub_mod, modulus, clock, clocks, counting, loaded, start, step_r}

pub record IsValid (s : Stb) : Type 0 where
  pub index : s.i < 31
  pub size : length s.z ≡ 31
  pub below : All (λ x. x < modulus) s.z
  pub word : s.w < 65536

-- A request, or the absence of one.
pub data Request : Stb → Stb → Type 0 where
  request : (s : Stb) (count : ℕ) → Request s (step_r count s).1

pub data Reach (s : Stb) : Stb → Type 0 where
  here : Reach s s
  next : {t u : Stb} → Reach s t → Request t u → Reach s u

pub get_or-below : (n : ℕ) (xs : List ℕ) (i : ℕ) → 0 < n → All (λ x. x < n) xs → get_or xs i 0 < n
get_or-below n [] i h o = h
get_or-below n (x ∷ xs) zero h o = o.0
get_or-below n (x ∷ xs) (suc i) h o = get_or-below n xs i h o.1

set-below :
    (n : ℕ) (xs : List ℕ) (i v : ℕ) → v < n → All (λ x. x < n) xs → All (λ x. x < n) (set xs i v)
set-below n [] i v h o = tt
set-below n (x ∷ xs) zero v h o = (h, o.1)
set-below n (x ∷ xs) (suc i) v h o = (o.0, set-below n xs i v h o.1)

pub length-set : (xs : List ℕ) (i v : ℕ) → length (set xs i v) ≡ length xs
length-set [] i v = refl
length-set (x ∷ xs) zero v = refl
length-set (x ∷ xs) (suc i) v = ap suc (length-set xs i v)

pub sub_mod-below : (x y : ℕ) → x < modulus → y < modulus → sub_mod x y < modulus
unfolding sub_mod
sub_mod-below x y h k = ground arith

pub clock-IsValid : (s : Stb) → IsValid s → IsValid (clock s)
unfolding clock
clock-IsValid s h =
    let zi = get_or-below modulus s.z s.i (omega arith) h.below in
    let zj = get_or-below modulus s.z ((s.i + 10) % 31) (omega arith) h.below in
    record {
      index = omega arith;
      size = length-set s.z s.i _ ∙ h.size;
      below = set-below modulus s.z s.i _ (sub_mod-below _ _ zi zj) h.below;
      word = omega arith;
    }

clocks-IsValid : (n : ℕ) (s : Stb) → IsValid s → IsValid (clocks n s)
unfolding clocks
clocks-IsValid zero s h = h
clocks-IsValid (suc n) s h = clocks-IsValid n (clock s) (clock-IsValid s h)

step_r-IsValid : (n : ℕ) (s : Stb) → IsValid s → IsValid (step_r n s).1
unfolding step_r
step_r-IsValid zero s h = h
step_r-IsValid (suc n) s h = step_r-IsValid n (clock s) (clock-IsValid s h)

Request-IsValid : {s t : Stb} → Request s t → IsValid s → IsValid t
Request-IsValid (request s count) h = step_r-IsValid count s h

Reach-IsValid : {s t : Stb} → IsValid s → Reach s t → IsValid t
Reach-IsValid h here = h
Reach-IsValid h (next r q) = Request-IsValid q (Reach-IsValid h r)

-- The numbers that the caller gives: none, or 31 that are not zero and below 65257.
pub GivenNumbers : Option (List ℕ) → Type 0
GivenNumbers none = Unit {0}
GivenNumbers (some z) = (length z ≡ 31) × All (λ x. x < modulus) z

pub no_numbers_given : GivenNumbers none
unfolding GivenNumbers
no_numbers_given = tt

counting-below : (from n : ℕ) → from + n ≤ modulus → All (λ x. x < modulus) (counting from n)
unfolding counting
counting-below from zero h = tt
counting-below from (suc n) h = (omega arith, counting-below (from + 1) n (omega arith))

length-counting : (from n : ℕ) → length (counting from n) ≡ n
unfolding counting
length-counting from zero = refl
length-counting from (suc n) = ap suc (length-counting (from + 1) n)

loaded-IsValid : (z : Option (List ℕ)) → GivenNumbers z → IsValid (loaded z)
unfolding loaded GivenNumbers
loaded-IsValid none h = record {
  index = omega arith;
  size = length-counting 1 31;
  below = counting-below 1 31 (omega arith);
  word = omega arith;
}
loaded-IsValid (some z) h = record {
  index = omega arith;
  size = h.0;
  below = h.1;
  word = omega arith;
}

-- After `prngSTBStart` on no numbers or on 31 numbers below 65257, and after any sequence of requests, the
-- ring has 31 numbers below 65257, the index is in it and w has 16 bits: the assertion of `_prngSTBClock` holds.
pub start-IsValid : (z : Option (List ℕ)) (s : Stb) → GivenNumbers z → Reach (start z) s → IsValid s
unfolding start
start-IsValid z s h r = Reach-IsValid (clocks-IsValid 256 (loaded z) (loaded-IsValid z h)) r
