-- ===== src/Mem/Buffers.antt =====
-- Buffers as lists of octets: comparison, tests of zero and of repetition, exclusive or, and the order of
-- the octets. A word has `k` octets.
pub mod Order
pub mod Words
pub mod Regular
pub mod Checks
pub mod Reversed
use bee.Common.{
  ℕ, zero, suc, ◌+◌, ◌-◌, ◌*◌, ◌%◌, ◌^◌, Bool, true, false, List, [], ◌∷◌, length, get_or, bit_and,
  bit_or, bit_xor, ltb, ◌==◌, ◌!=◌, if◌then◌else◌,
}

-- The results -1, 0 and 1 of a comparison.
pub data Outcome : Type 0 where
  below : Outcome
  same : Outcome
  above : Outcome

-- The regular `memEq`.
pub eq_diff : ℕ → List ℕ → List ℕ → ℕ
eq_diff diff (x ∷ xs) (y ∷ ys) = eq_diff (bit_or diff (bit_xor x y)) xs ys
eq_diff diff _ _ = diff

pub eq : List ℕ → List ℕ → Bool
eq xs ys = eq_diff 0 xs ys == 0

-- `memIsZero`
pub zero_diff : ℕ → List ℕ → ℕ
zero_diff diff [] = diff
zero_diff diff (x ∷ xs) = zero_diff (bit_or diff x) xs

pub is_zero : List ℕ → Bool
is_zero xs = zero_diff 0 xs == 0

pub is_zero_fast : List ℕ → Bool
is_zero_fast [] = true
is_zero_fast (x ∷ xs) = let rest = is_zero_fast xs in if x != 0 then false else rest

-- `memNonZeroSize`, from the last octet to the first.
pub non_zero_size_from : List ℕ → ℕ → ℕ
non_zero_size_from xs zero = 0
non_zero_size_from xs (suc count) =
    let rest = non_zero_size_from xs count in if get_or xs count 0 != 0 then suc count else rest

pub non_zero_size : List ℕ → ℕ
non_zero_size xs = non_zero_size_from xs (length xs)

-- `memIsRep`
pub rep_diff : ℕ → List ℕ → ℕ → ℕ
rep_diff diff [] o = diff
rep_diff diff (x ∷ xs) o = rep_diff (bit_or diff (bit_xor x o)) xs o

pub is_rep : List ℕ → ℕ → Bool
is_rep xs o = rep_diff 0 xs o == 0

pub is_rep_fast : List ℕ → ℕ → Bool
is_rep_fast [] o = true
is_rep_fast (x ∷ xs) o = let rest = is_rep_fast xs o in if x != o then false else rest

-- The fast `memCmp`.
pub cmp_fast : List ℕ → List ℕ → Outcome
cmp_fast (x ∷ xs) (y ∷ ys) =
    let rest = cmp_fast xs ys in
    if ltb y x then Outcome.above else if ltb x y then Outcome.below else rest
cmp_fast _ _ = Outcome.same

-- The fast `memCmpRev`, from the last octet to the first.
pub cmp_rev_fast_from : List ℕ → List ℕ → ℕ → Outcome
cmp_rev_fast_from xs ys zero = Outcome.same
cmp_rev_fast_from xs ys (suc count) =
    let x = get_or xs count 0 in
    let y = get_or ys count 0 in
    let rest = cmp_rev_fast_from xs ys count in
    if ltb y x then Outcome.above else if ltb x y then Outcome.below else rest

pub cmp_rev_fast : List ℕ → List ℕ → Outcome
cmp_rev_fast xs ys = cmp_rev_fast_from xs ys (length xs)

-- `(wordEq(less, 0) - 1) | wordNeq(greater, 0)`
unfoldable pub outcome : ℕ → ℕ → Outcome
outcome less greater =
    if less == 0 then (if greater == 0 then Outcome.same else Outcome.above) else Outcome.below

module _ (k : ℕ) where
  -- `w << 8 | o` on words.
  pub shift_in : ℕ → ℕ → ℕ
  shift_in w o = bit_or (w * 256 % 256 ^ k) o

  -- `~flag & wordLess(w1, w2)`
  pub unless : ℕ → ℕ → ℕ → ℕ
  unless flag w1 w2 = bit_and (256 ^ k - 1 - flag) (if ltb w1 w2 then 1 else 0)

  -- The regular `memCmp`: words of `k` octets are compared when they are filled, and are not cleared.
  pub cmp_loop : ℕ → ℕ → ℕ → ℕ → ℕ → List ℕ → List ℕ → Outcome
  cmp_loop less greater w1 w2 filled (x ∷ xs) (y ∷ ys) =
      let u = shift_in w1 x in
      let v = shift_in w2 y in
      let full = suc filled == k in
      let less' = bit_or less (unless greater u v) in
      let greater' = bit_or greater (unless less' v u) in
      cmp_loop (if full then less' else less) (if full then greater' else greater) u v
        (if full then 0 else suc filled) xs ys
  cmp_loop less greater w1 w2 filled _ _ =
      let less' = bit_or less (unless greater w1 w2) in
      let greater' = bit_or greater (unless less' w2 w1) in
      if filled == 0 then outcome less greater else outcome less' greater'

  pub cmp : List ℕ → List ℕ → Outcome
  cmp = cmp_loop 0 0 0 0 0

  -- The regular `memCmpRev`, from the last octet to the first: `fresh` is set where a word begins, and a
  -- word ends where `count % O_PER_W` is zero.
  pub cmp_rev_loop : ℕ → ℕ → Bool → ℕ → ℕ → List ℕ → List ℕ → ℕ → Outcome
  cmp_rev_loop less greater fresh w1 w2 xs ys zero = outcome less greater
  cmp_rev_loop less greater fresh w1 w2 xs ys (suc count) =
      let x = get_or xs count 0 in
      let y = get_or ys count 0 in
      let u = if fresh then x else shift_in w1 x in
      let v = if fresh then y else shift_in w2 y in
      let full = count % k == 0 in
      let less' = bit_or less (unless greater u v) in
      let greater' = bit_or greater (unless less' v u) in
      cmp_rev_loop (if full then less' else less) (if full then greater' else greater) full u v xs
        ys count

  pub cmp_rev : List ℕ → List ℕ → Outcome
  cmp_rev xs ys = cmp_rev_loop 0 0 true 0 0 xs ys (length xs)
