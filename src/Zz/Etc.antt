-- ===== src/Zz/Etc.antt =====
-- src/math/zz/zz_etc.c: parity, and sums and differences that a mask switches on or off.
pub mod Masked
use bee.Common.{ℕ, ◌+◌, ◌%◌, Bool, true, false, List, [], ◌∷◌, bit_and, bit_or, ◌==◌}
use bee.Zz.Value.{less01}
use bee.Zz.Add.{Result, before}
use bee.Zz.Sub.{minus}

-- `zzIsEven`, `zzIsOdd`
pub is_even : List ℕ → Bool
is_even [] = true
is_even (x ∷ xs) = x % 2 == 0

unfoldable pub is_odd : List ℕ → Bool
is_odd [] = false
is_odd (x ∷ xs) = x % 2 == 1

module _ (b : ℕ) where
  -- `zzAddAndW(b, a, n, w)`: the array `ys` takes the words `w & a[i]`. The carry of the loop is dropped.
  unfoldable pub add_and_w_from : ℕ → List ℕ → List ℕ → ℕ → Result
  add_and_w_from carry (y ∷ ys) (x ∷ xs) w =
      let prod = (bit_and w x + carry) % b in
      let c = (y + prod) % b in
      before c (add_and_w_from (bit_or (less01 prod carry) (less01 c prod)) ys xs w)
  add_and_w_from carry _ _ w = record { words = []; carry = carry }

  unfoldable pub add_and_w : List ℕ → List ℕ → ℕ → List ℕ
  add_and_w ys xs w = (add_and_w_from 0 ys xs w).words

  -- `zzSubAndW`
  pub sub_and_w_from : ℕ → List ℕ → List ℕ → ℕ → Result
  sub_and_w_from borrow (y ∷ ys) (x ∷ xs) w =
      let prod = (bit_and w x + borrow) % b in
      before (minus b y prod) (sub_and_w_from (bit_or (less01 prod borrow) (less01 y prod)) ys xs w)
  sub_and_w_from borrow _ _ w = record { words = []; carry = borrow }

  pub sub_and_w : List ℕ → List ℕ → ℕ → Result
  sub_and_w = sub_and_w_from 0
