-- ===== src/Zz/Mul.antt =====
-- src/math/zz/zz_mul.c: products with a word and with an array, and division by a word. A `dword` is taken
-- modulo `b * b`.
pub mod Word
pub mod Product
pub mod Divide
pub mod Remainder
mod Tests
use bee.Common.{
  ℕ, ◌+◌, ◌-◌, ◌*◌, ◌/◌, ◌%◌, List, [], ◌∷◌, ◌++◌, length, take, drop, replicate, bit_or, zero, suc,
  Option, some, none, ◌==◌, if◌then◌else◌,
}
use bee.Zz.Add.{Result, before}
use bee.Zz.Sub.{minus}

module _ (b : ℕ) where
  -- The conversion to a `dword`.
  pub dword : ℕ → ℕ
  dword t = t % (b * b)

  -- The loop of `zzMulW`.
  pub mul_w_from : ℕ → List ℕ → ℕ → Result
  mul_w_from carry [] w = record { words = []; carry = carry }
  mul_w_from carry (x ∷ xs) w =
      let prod = dword (dword (w * x) + carry) in before (prod % b) (mul_w_from (prod / b) xs w)

  pub mul_w : List ℕ → ℕ → Result
  mul_w = mul_w_from 0

  -- The loop of `zzAddMulW(b, a, n, w)`: the array `ys` takes the product.
  pub add_mul_w_from : ℕ → List ℕ → List ℕ → ℕ → Result
  add_mul_w_from carry (y ∷ ys) (x ∷ xs) w =
      let prod = dword (dword (dword (w * x) + carry) + y) in
      before (prod % b) (add_mul_w_from (prod / b) ys xs w)
  add_mul_w_from carry _ _ w = record { words = []; carry = carry }

  pub add_mul_w : List ℕ → List ℕ → ℕ → Result
  add_mul_w = add_mul_w_from 0

  -- `prod = (dword)0 - prod; prod += b[i]; prod -= borrow;`
  pub sub_prod : ℕ → ℕ → ℕ → ℕ → ℕ
  sub_prod w x y borrow =
      let neg = dword (b * b - dword (w * x)) in dword (dword (neg + y) + (b * b - borrow))

  -- The loop of `zzSubMulW`.
  pub sub_mul_w_from : ℕ → List ℕ → List ℕ → ℕ → Result
  sub_mul_w_from borrow (y ∷ ys) (x ∷ xs) w =
      let prod = sub_prod w x y borrow in
      before (prod % b) (sub_mul_w_from (minus b 0 (prod / b)) ys xs w)
  sub_mul_w_from borrow _ _ w = record { words = []; carry = borrow }

  pub sub_mul_w : List ℕ → List ℕ → ℕ → Result
  sub_mul_w = sub_mul_w_from 0

  -- The loop of `zzMul` on the words of `c` from index i on: the row of a[i] is added, the word behind it
  -- becomes the carry, and the next row begins one word higher.
  pub row : ℕ → List ℕ → List ℕ → List ℕ
  row x ys cs = let r = add_mul_w_from 0 cs ys x in r.words ++ (r.carry ∷ drop (length ys + 1) cs)

  pub mul_from : List ℕ → List ℕ → List ℕ → List ℕ
  mul_from [] ys cs = cs
  mul_from (x ∷ xs) ys cs = let next = row x ys cs in take 1 next ++ mul_from xs ys (drop 1 next)

  pub mul : List ℕ → List ℕ → List ℕ
  mul xs ys = mul_from xs ys (replicate (length xs + length ys) 0)

  -- `zzDivW`, from the last word to the first: the words of the quotient, and the remainder as the carry.
  pub div_w : List ℕ → ℕ → Result
  div_w [] w = record { words = []; carry = 0 }
  div_w (x ∷ xs) w =
      let high = div_w xs w in
      let divisor = bit_or (dword (high.carry * b)) x in
      record { words = divisor / w % b ∷ high.words; carry = divisor % w % b }

  -- `zzModW`
  pub mod_w : List ℕ → ℕ → ℕ
  mod_w [] w = 0
  mod_w (x ∷ xs) w = let divisor = bit_or (dword (mod_w xs w * b)) x in divisor % w % b

  -- `zzModW2` for `w * w` not above `b`. The two parts of r, the low one a word.
  pub fold_w2 : List ℕ → ℕ → ℕ × ℕ
  fold_w2 [] base = (0, 0)
  fold_w2 (x ∷ xs) base =
      let high = fold_w2 xs base in
      let r = dword (dword (dword (dword (high.1 * base) + high.0) * base) + x) in (r % b, r / b)

  -- `r1 *= b; r1 += r0 % w; r0 = (word)r1; r1 >>= B_PER_W;`
  pub lower_w2 : ℕ → ℕ → ℕ × ℕ → ℕ × ℕ
  lower_w2 w base r = let t = dword (dword (r.1 * base) + r.0 % w) in (t % b, t / b)

  -- The loop `while (r1 != 0)` of the fast variant, on `fuel` rounds.
  pub normalize_w2 : ℕ → ℕ → ℕ → ℕ × ℕ → Option ℕ
  normalize_w2 zero w base r = if r.1 == 0 then some (r.0 % w) else none
  normalize_w2 (suc fuel) w base r =
      let rest = normalize_w2 fuel w base (lower_w2 w base r) in
      if r.1 == 0 then some (r.0 % w) else rest

  pub base_w2 : ℕ → ℕ
  base_w2 w = (b - 1 - w + 1) % b % w

  pub mod_w2_fast : ℕ → List ℕ → ℕ → Option ℕ
  mod_w2_fast fuel xs w = normalize_w2 fuel w (base_w2 w) (fold_w2 xs (base_w2 w))

  -- The regular variant: two rounds and half of one.
  pub mod_w2 : List ℕ → ℕ → ℕ
  mod_w2 xs w =
      let base = base_w2 w in let r = lower_w2 w base (lower_w2 w base (fold_w2 xs base)) in r.0 % w
