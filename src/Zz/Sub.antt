-- ===== src/Zz/Sub.antt =====
-- Differences of src/math/zz/zz_add.c: `zzSub`, `zzSub2`, `zzSubW`, `zzSubW2` and `zzNeg`. The carry of
-- a result is the borrow; a difference of words is taken modulo the word, and `~w` is the complement.
pub mod Words
pub mod Laws
pub mod Short
use bee.Common.{ℕ, ◌+◌, ◌-◌, ◌%◌, List, [], ◌∷◌, map, bit_or, ltb, ◌==◌, if◌then◌else◌}
use bee.Zz.Value.{less01}
use bee.Zz.Add.{Result, before, add_w2}

module _ (b : ℕ) where
  -- `~w` and `x - w` on words.
  abbrev pub complement : ℕ → ℕ
  complement w = b - 1 - w

  abbrev pub minus : ℕ → ℕ → ℕ
  minus x w = (x + (b - w)) % b

  pub sub_from : ℕ → List ℕ → List ℕ → Result
  sub_from borrow (x ∷ xs) (y ∷ ys) =
      let w = (y + borrow) % b in
      before (minus x w) (sub_from (bit_or (less01 w borrow) (less01 x w)) xs ys)
  sub_from borrow _ _ = record { words = []; carry = borrow }

  pub sub : List ℕ → List ℕ → Result
  sub = sub_from 0

  -- The fast variant.
  pub sub_fast_from : ℕ → List ℕ → List ℕ → Result
  sub_fast_from borrow (x ∷ xs) (y ∷ ys) =
      let w = minus x borrow in
      let w' = minus w y in
      let wrapped = ltb (complement borrow) w in
      before (if wrapped then complement y else w')
        (sub_fast_from (if wrapped then borrow else less01 (complement y) w') xs ys)
  sub_fast_from borrow _ _ = record { words = []; carry = borrow }

  pub sub_fast : List ℕ → List ℕ → Result
  sub_fast = sub_fast_from 0

  -- `zzSub2(b, a, n)`: the array `ys` becomes the difference `ys - xs`.
  unfoldable pub sub2_from : ℕ → List ℕ → List ℕ → Result
  sub2_from borrow (y ∷ ys) (x ∷ xs) =
      let w = (x + borrow) % b in
      before (minus y w) (sub2_from (bit_or (less01 w borrow) (less01 y w)) ys xs)
  sub2_from borrow _ _ = record { words = []; carry = borrow }

  unfoldable pub sub2 : List ℕ → List ℕ → Result
  sub2 = sub2_from 0

  pub sub2_fast_from : ℕ → List ℕ → List ℕ → Result
  sub2_fast_from borrow (y ∷ ys) (x ∷ xs) =
      let w = minus y borrow in
      let w' = minus w x in
      let wrapped = ltb (complement borrow) w in
      before (if wrapped then complement x else w')
        (sub2_fast_from (if wrapped then borrow else less01 (complement x) w') ys xs)
  sub2_fast_from borrow _ _ = record { words = []; carry = borrow }

  pub sub2_fast : List ℕ → List ℕ → Result
  sub2_fast = sub2_fast_from 0

  -- `zzSubW`: a word is subtracted; both variants test `b[i] > ~w`.
  pub sub_w : List ℕ → ℕ → Result
  sub_w [] w = record { words = []; carry = w }
  sub_w (x ∷ xs) w = let c = minus x w in before c (sub_w xs (less01 (complement w) c))

  -- `zzSubW2` in place; the fast variant stops when there is nothing left to subtract.
  pub sub_w2 : List ℕ → ℕ → Result
  sub_w2 [] w = record { words = []; carry = w }
  sub_w2 (x ∷ xs) w = let c = minus x w in before c (sub_w2 xs (less01 (complement w) c))

  pub sub_w2_fast : List ℕ → ℕ → Result
  sub_w2_fast [] w = record { words = []; carry = w }
  sub_w2_fast (x ∷ xs) w =
      let c = minus x w in
      let more = before c (sub_w2_fast xs (less01 (complement w) c)) in
      if w == 0 then record { words = x ∷ xs; carry = w } else more

  -- `zzNeg`
  pub neg : List ℕ → List ℕ
  neg xs = (add_w2 b (map complement xs) 1).words
