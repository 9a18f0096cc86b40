-- ===== src/Ww.antt =====
-- src/math/ww.c: arrays of machine words, the least significant first. A word is below `b`, which stands
-- for 2^B_PER_W. The loops that run from the last word to the first are recursion that takes the tail
-- before the head. An `int` of a comparison is an `Outcome`.
pub mod Compare
pub mod Zero
pub mod Lengths
pub mod Shift
mod Tests
use bee.Common.{
  ℕ, zero, suc, ◌+◌, ◌-◌, Bool, true, false, ◌&&◌, List, [], ◌∷◌, length, take, drop, bit_and,
  bit_or, bit_xor, ltb, ◌==◌, ◌!=◌, if◌then◌else◌,
}
use bee.Mem.Buffers.{Outcome, outcome}
use bee.Zz.Value.{less01}
use bee.Zz.Sub.{complement}

-- `wwEq`: the regular variant collects the differences.
pub eq_diff : List ℕ → List ℕ → ℕ
eq_diff (x ∷ xs) (y ∷ ys) = bit_or (eq_diff xs ys) (bit_xor x y)
eq_diff _ _ = 0

pub eq : List ℕ → List ℕ → Bool
eq xs ys = eq_diff xs ys == 0

pub eq_fast : List ℕ → List ℕ → Bool
eq_fast (x ∷ xs) (y ∷ ys) = let rest = eq_fast xs ys in if rest then x == y else false
eq_fast _ _ = true

-- `wwIsZero`
pub zero_diff : List ℕ → ℕ
zero_diff [] = 0
zero_diff (x ∷ xs) = bit_or (zero_diff xs) x

pub is_zero : List ℕ → Bool
is_zero xs = zero_diff xs == 0

pub is_zero_fast : List ℕ → Bool
is_zero_fast [] = true
is_zero_fast (x ∷ xs) = let rest = is_zero_fast xs in if rest then x == 0 else false

-- `wwIsW`: is the number equal to the word?
pub is_w : List ℕ → ℕ → Bool
is_w [] w = w == 0
is_w (x ∷ xs) w = x == w && zeros xs
  where
    zeros : List ℕ → Bool
    zeros [] = true
    zeros (y ∷ ys) = zeros ys && y == 0

-- The variables `less` and `greater` of the regular `wwCmp`.
pub record Flags : Type 0 where
  pub less : ℕ
  pub greater : ℕ

-- The fast `wwCmp`: the highest words that differ decide.
pub compare_words : ℕ → ℕ → Outcome
compare_words x y =
    if ltb y x then Outcome.above else if ltb x y then Outcome.below else Outcome.same

pub cmp_fast : List ℕ → List ℕ → Outcome
cmp_fast (x ∷ xs) (y ∷ ys) = elim (cmp_fast xs ys) [
  | Outcome.same ↦ compare_words x y
  | Outcome.below ↦ Outcome.below
  | Outcome.above ↦ Outcome.above
]
cmp_fast _ _ = Outcome.same

-- `-z & ret | (z - 1) & other` for a flag z.
pub select : Bool → Outcome → Outcome → Outcome
select z ret other = if z then ret else other

-- The fast `wwCmp2`.
pub cmp2_fast : List ℕ → List ℕ → Outcome
cmp2_fast xs ys =
    let n = length xs in
    let m = length ys in
    if ltb m n
    then (if is_zero_fast (drop m xs) then cmp_fast (take m xs) ys else Outcome.above)
    else if ltb n m
    then (if is_zero_fast (drop n ys) then cmp_fast xs (take n ys) else Outcome.below)
    else cmp_fast xs ys

-- The loop of the fast `wwCmpW` over the higher words: is one of them not zero?
pub any_word : List ℕ → Bool
any_word [] = false
any_word (y ∷ ys) = let found = any_word ys in if found then true else y != 0

-- The fast `wwCmpW`.
pub cmp_w_fast : List ℕ → ℕ → Outcome
cmp_w_fast [] w = if w == 0 then Outcome.same else Outcome.below
cmp_w_fast (x ∷ xs) w =
    if any_word xs
    then Outcome.above
    else if ltb x w
    then Outcome.below
    else if ltb w x
    then Outcome.above
    else Outcome.same

-- The regular `wwCmpW`.
pub cmp_w : List ℕ → ℕ → Outcome
cmp_w [] w = if w == 0 then Outcome.same else Outcome.below
cmp_w (x ∷ xs) w = select (is_zero xs) (outcome (less01 x w) (less01 w x)) Outcome.above

-- `wwWordSize`
pub word_size : List ℕ → ℕ
word_size [] = 0
word_size (x ∷ xs) =
    let higher = word_size xs in if higher == 0 then (if x == 0 then 0 else 1) else suc higher

module _ (b : ℕ) where
  -- The body of the loop of the regular `wwCmp`.
  pub cmp_step : ℕ → ℕ → Flags → Flags
  cmp_step x y f =
      let less = bit_or f.less (bit_and (complement b f.greater) (less01 x y)) in
      record { less = less; greater = bit_or f.greater (bit_and (complement b less) (less01 y x)) }

  pub cmp_flags : List ℕ → List ℕ → Flags
  cmp_flags (x ∷ xs) (y ∷ ys) = cmp_step x y (cmp_flags xs ys)
  cmp_flags _ _ = record { less = 0; greater = 0 }

  pub cmp : List ℕ → List ℕ → Outcome
  cmp xs ys = let f = cmp_flags xs ys in outcome f.less f.greater

  -- The regular `wwCmp2`.
  pub cmp2 : List ℕ → List ℕ → Outcome
  cmp2 xs ys =
      let n = length xs in
      let m = length ys in
      if ltb m n
      then select (is_zero (drop m xs)) (cmp (take m xs) ys) Outcome.above
      else if ltb n m
      then select (is_zero (drop n ys)) (cmp xs (take n ys)) Outcome.below
      else cmp xs ys
