-- ===== src/Zz/Red.antt =====
-- src/math/zz/zz_red.c: the reduction of Montgomery, regular and fast. The array `ws` is a[i..2n), the words
-- below a[i] being read no more: the fast variant asserts that they are zero, and both overwrite them.
pub mod Round
pub mod Loop
pub mod Mont
mod Tests
use bee.Common.{
  ℕ, zero, suc, ◌+◌, ◌*◌, ◌%◌, List, [], ◌∷◌, ◌++◌, length, take, drop, get_or, bit_or,
  if◌then◌else◌,
}
use bee.Ww.{cmp2}
use bee.Zz.Add.{Result, add_w2}
use bee.Zz.Sub.{minus, sub2}
use bee.Zz.Etc.{sub_and_w}
use bee.Zz.Mul.{add_mul_w}
use bee.Zz.Mod.{at_least, next_mask}

-- The words a[n..2n), the carry, and the variable `w` as the loop leaves it.
pub record Reduced : Type 0 where
  pub words : List ℕ
  pub carry : ℕ
  pub last : ℕ

-- The loop `w &= wordEq01(mod[i], a[i]); w |= wordLess01(mod[i], a[i]);`
pub mask_from : ℕ → List ℕ → List ℕ → ℕ
mask_from w (m ∷ ms) (a ∷ ws) = mask_from (next_mask w m a) ms ws
mask_from w _ _ = w

module _ (b : ℕ) where
  -- `_MUL_LO(w, a[i], mont_param)`
  pub mont_word : List ℕ → ℕ → ℕ
  mont_word ws mont = get_or ws 0 0 * mont % b

  -- `zzAddW2(a + i + n, n - i, zzAddMulW(a + i, mod, n, w))`
  pub mont_round : ℕ → List ℕ → List ℕ → Result
  mont_round w ms ws =
      let n = length ms in
      let low = add_mul_w b (take n ws) ms w in
      let high = add_w2 b (drop n ws) low.carry in
      record { words = low.words ++ high.words; carry = high.carry }

  -- The loop, with the number of rounds left.
  pub mont_loop : ℕ → ℕ → ℕ → List ℕ → ℕ → List ℕ → Reduced
  mont_loop zero carry w ms mont ws = record { words = ws; carry = carry; last = w }
  mont_loop (suc i) carry w ms mont ws =
      let w' = mont_word ws mont in
      let r = mont_round w' ms ws in mont_loop i (bit_or carry r.carry) w' ms mont (drop 1 r.words)

  pub red_mont_fast : List ℕ → List ℕ → ℕ → List ℕ
  red_mont_fast ws ms mont =
      let r = mont_loop (length ms) 0 0 ms mont ws in
      if at_least (cmp2 b (r.words ++ (r.carry ∷ [])) ms)
      then (sub2 b r.words ms).words
      else r.words

  -- The regular variant: `w` is not set before the mask is collected.
  pub red_mont : List ℕ → List ℕ → ℕ → List ℕ
  red_mont ws ms mont =
      let r = mont_loop (length ms) 0 0 ms mont ws in
      let w = mask_from r.last ms r.words in
      (sub_and_w b r.words ms (minus b 0 (bit_or w r.carry))).words
