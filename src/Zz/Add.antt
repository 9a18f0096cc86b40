-- ===== src/Zz/Add.antt =====
-- Sums of src/math/zz/zz_add.c: `zzAdd`, `zzAdd2`, `zzAdd3`, `zzAddW`, `zzAddW2`, `zzIsSumEq` and
-- `zzIsSumWEq`. Each returns the words of the result and the carry; the arrays have the same length, and
-- the loops stop where one of them ends.
pub mod Words
pub mod Laws
pub mod Carry
pub mod Check
pub mod CheckFast
pub mod CheckWord
use bee.Common.{
  ℕ, zero, suc, ◌+◌, ◌-◌, ◌*◌, ◌/◌, ◌%◌, ◌^◌, ◌<◌, ◌≤◌, Bool, true, false, ◌&&◌, not, List, [], ◌∷◌,
  ◌++◌, length, take, drop, bit_or, bit_xor, ltb, leb, ◌==◌, ◌!=◌, if◌then◌else◌,
}
use bee.Zz.Value.{less01}

-- The words of the result, and the carry or the borrow.
pub record Result : Type 0 where
  pub words : List ℕ
  pub carry : ℕ

-- A word in front of the result of the later rounds.
abbrev pub before : ℕ → Result → Result
before c r = record { words = c ∷ r.words; carry = r.carry }

module _ (b : ℕ) where
  -- The loop of `zzAdd` with the carry that the earlier words have left.
  unfoldable pub add_from : ℕ → List ℕ → List ℕ → Result
  add_from carry (x ∷ xs) (y ∷ ys) =
      let w = (x + carry) % b in
      let c = (w + y) % b in before c (add_from (bit_or (less01 w carry) (less01 c w)) xs ys)
  add_from carry _ _ = record { words = []; carry = carry }

  unfoldable pub add : List ℕ → List ℕ → Result
  add = add_from 0

  -- The fast variant.
  pub add_fast_from : ℕ → List ℕ → List ℕ → Result
  add_fast_from carry (x ∷ xs) (y ∷ ys) =
      let w = (x + carry) % b in
      let w' = (w + y) % b in
      let wrapped = ltb w carry in
      before (if wrapped then y else w')
        (add_fast_from (if wrapped then carry else less01 w' y) xs ys)
  add_fast_from carry _ _ = record { words = []; carry = carry }

  pub add_fast : List ℕ → List ℕ → Result
  add_fast = add_fast_from 0

  -- `zzAdd2(b, a, n)`: the array `ys` becomes the sum.
  unfoldable pub add2_from : ℕ → List ℕ → List ℕ → Result
  add2_from carry (y ∷ ys) (x ∷ xs) =
      let w = (x + carry) % b in
      let c = (y + w) % b in before c (add2_from (bit_or (less01 w carry) (less01 c w)) ys xs)
  add2_from carry _ _ = record { words = []; carry = carry }

  unfoldable pub add2 : List ℕ → List ℕ → Result
  add2 = add2_from 0

  pub add2_fast_from : ℕ → List ℕ → List ℕ → Result
  add2_fast_from carry (y ∷ ys) (x ∷ xs) =
      let w = (x + carry) % b in
      let w' = (w + y) % b in
      let kept = leb carry w in
      before (if kept then w' else y) (add2_fast_from (if kept then less01 w' y else carry) ys xs)
  add2_fast_from carry _ _ = record { words = []; carry = carry }

  pub add2_fast : List ℕ → List ℕ → Result
  add2_fast = add2_fast_from 0

  -- `zzAddW`: a word is added.
  unfoldable pub add_w : List ℕ → ℕ → Result
  add_w [] w = record { words = []; carry = w }
  add_w (x ∷ xs) w = let c = (x + w) % b in before c (add_w xs (less01 c w))

  -- `zzAddW2` in place; the fast variant stops when there is nothing left to add.
  pub add_w2 : List ℕ → ℕ → Result
  add_w2 [] w = record { words = []; carry = w }
  add_w2 (x ∷ xs) w = let c = (x + w) % b in before c (add_w2 xs (less01 c w))

  pub add_w2_fast : List ℕ → ℕ → Result
  add_w2_fast [] w = record { words = []; carry = w }
  add_w2_fast (x ∷ xs) w =
      let c = (x + w) % b in
      let more = before c (add_w2_fast xs (less01 c w)) in
      if w == 0 then record { words = x ∷ xs; carry = w } else more

  -- The end of `zzAdd3`: the low words are added, the words behind them take the carry.
  pub add_tail : Result → List ℕ → Result
  add_tail low tail =
      let high = add_w2 tail low.carry in
      record { words = low.words ++ high.words; carry = high.carry }

  -- `zzAdd3`: two arrays of any lengths.
  pub add3 : List ℕ → List ℕ → Result
  add3 xs ys =
      let n = length xs in
      let m = length ys in
      if ltb m n
      then add_tail (add (take m xs) ys) (drop m xs)
      else if ltb n m
      then add_tail (add xs (take n ys)) (drop n ys)
      else add xs ys

  -- `zzIsSumEq`: is `cs` the sum of `xs` and `ys`? The regular variant collects the differences.
  pub sum_diff : ℕ → ℕ → List ℕ → List ℕ → List ℕ → ℕ
  sum_diff diff carry (c ∷ cs) (x ∷ xs) (y ∷ ys) =
      let w = (x + carry) % b in
      sum_diff (bit_or diff (bit_xor c ((w + y) % b))) (bit_or (less01 w carry) (less01 c w)) cs xs
        ys
  sum_diff diff carry _ _ _ = bit_or diff carry

  pub is_sum_eq : List ℕ → List ℕ → List ℕ → Bool
  is_sum_eq cs xs ys = sum_diff 0 0 cs xs ys == 0

  pub is_sum_eq_fast_from : ℕ → List ℕ → List ℕ → List ℕ → Bool
  is_sum_eq_fast_from carry (c ∷ cs) (x ∷ xs) (y ∷ ys) =
      let w = (x + carry) % b in
      let wrapped = ltb w carry in
      let rest = is_sum_eq_fast_from (if wrapped then carry else less01 c w) cs xs ys in
      if wrapped then (if c != y then false else rest) else if c != (w + y) % b then false else rest
  is_sum_eq_fast_from carry _ _ _ = carry == 0

  pub is_sum_eq_fast : List ℕ → List ℕ → List ℕ → Bool
  is_sum_eq_fast = is_sum_eq_fast_from 0

  -- `zzIsSumWEq`: is `cs` the sum of `xs` and the word `w`?
  pub sum_w_diff : ℕ → List ℕ → List ℕ → ℕ → ℕ
  sum_w_diff diff (c ∷ cs) (x ∷ xs) w =
      sum_w_diff (bit_or diff (bit_xor c ((x + w) % b))) cs xs (less01 c x)
  sum_w_diff diff _ _ w = bit_or diff w

  pub is_sum_w_eq : List ℕ → List ℕ → ℕ → Bool
  is_sum_w_eq cs xs w = sum_w_diff 0 cs xs w == 0

  pub is_sum_w_eq_fast : List ℕ → List ℕ → ℕ → Bool
  is_sum_w_eq_fast (c ∷ cs) (x ∷ xs) w =
      let rest = is_sum_w_eq_fast cs xs (less01 c x) in if c != (x + w) % b then false else rest
  is_sum_w_eq_fast _ _ w = w == 0
