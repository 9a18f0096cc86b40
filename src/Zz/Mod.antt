-- ===== src/Zz/Mod.antt =====
-- src/math/zz/zz_mod.c: additive operations modulo a number, regular and fast. The fast variants add or
-- subtract the modulus behind a test, the regular ones under a mask. `FAST(wwCmp)` is the fast variant of the comparison; where the
-- source writes `wwCmp`, `wwEq` or `wwIsZero`, the build decides the variant, and the regular one is taken: both
-- decide the same.
pub mod Reduce
pub mod Mask
pub mod Sum
pub mod Difference
pub mod Double
pub mod Half
mod Tests
use bee.Common.{
  ℕ, zero, suc, ◌+◌, ◌-◌, ◌*◌, ◌/◌, ◌%◌, Bool, true, false, ◌||◌, List, [], ◌∷◌, length, replicate,
  bit_and, bit_or, ltb, ◌==◌, ◌!=◌, if◌then◌else◌,
}
use bee.Mem.Buffers.{Outcome}
use bee.Ww.{cmp, cmp_fast, eq, is_zero}
use bee.Zz.Value.{less01}
use bee.Zz.Add.{Result, before, add, add2, add_w}
use bee.Zz.Sub.{minus, sub, sub2, sub_w}
use bee.Zz.Etc.{add_and_w, sub_and_w, is_odd}

-- `cmp >= 0` and `cmp > 0`
abbrev pub at_least : Outcome → Bool
at_least o = elim o [ Outcome.below ↦ false | Outcome.same ↦ true | Outcome.above ↦ true ]

abbrev pub greater_than : Outcome → Bool
greater_than o = elim o [ Outcome.below ↦ false | Outcome.same ↦ false | Outcome.above ↦ true ]

-- `wordEq01(a, b)`
abbrev pub eq01 : ℕ → ℕ → ℕ
eq01 a c = if a == c then 1 else 0

-- The words of a sum, its carry, and the mask: is the modulus not above the words?
pub record Checked : Type 0 where
  pub words : List ℕ
  pub carry : ℕ
  pub mask : ℕ

abbrev pub in_front : ℕ → Checked → Checked
in_front c r = record { words = c ∷ r.words; carry = r.carry; mask = r.mask }

-- `mask &= wordEq01(mod[i], c[i]); mask |= wordLess01(mod[i], c[i]);`
pub next_mask : ℕ → ℕ → ℕ → ℕ
next_mask mask m c = bit_or (bit_and mask (eq01 m c)) (less01 m c)

module _ (b : ℕ) where
  -- `mask |= carry; mask = WORD_0 - mask; zzSubAndW(c, mod, n, mask);`
  pub sub_masked : Checked → List ℕ → List ℕ
  sub_masked r ms = (sub_and_w b r.words ms (minus b 0 (bit_or r.mask r.carry))).words

  -- `zzAddMod`
  pub add_mod_fast : List ℕ → List ℕ → List ℕ → List ℕ
  add_mod_fast xs ys ms =
      let r = add b xs ys in
      if r.carry != 0 || at_least (cmp_fast r.words ms) then (sub2 b r.words ms).words else r.words

  -- The loop of the regular variant.
  pub add_checked : ℕ → ℕ → List ℕ → List ℕ → List ℕ → Checked
  add_checked carry mask (x ∷ xs) (y ∷ ys) (m ∷ ms) =
      let w = (x + carry) % b in
      let c = (w + y) % b in
      in_front c (add_checked (bit_or (less01 w carry) (less01 c w)) (next_mask mask m c) xs ys ms)
  add_checked carry mask _ _ _ = record { words = []; carry = carry; mask = mask }

  pub add_mod : List ℕ → List ℕ → List ℕ → List ℕ
  add_mod xs ys ms = sub_masked (add_checked 0 1 xs ys ms) ms

  -- `zzAddWMod`: the fast variant subtracts behind `wwCmp(b, mod, n) > 0`.
  pub add_w_mod_fast : List ℕ → ℕ → List ℕ → List ℕ
  add_w_mod_fast xs w ms =
      let r = add_w b xs w in
      if r.carry != 0 || greater_than (cmp b r.words ms) then (sub2 b r.words ms).words else r.words

  pub add_w_checked : ℕ → List ℕ → ℕ → List ℕ → Checked
  add_w_checked mask (x ∷ xs) w (m ∷ ms) =
      let c = (x + w) % b in in_front c (add_w_checked (next_mask mask m c) xs (less01 c w) ms)
  add_w_checked mask _ w _ = record { words = []; carry = w; mask = mask }

  pub add_w_mod : List ℕ → ℕ → List ℕ → List ℕ
  add_w_mod xs w ms = sub_masked (add_w_checked 1 xs w ms) ms

  -- `zzSubMod`
  pub sub_mod_fast : List ℕ → List ℕ → List ℕ → List ℕ
  sub_mod_fast xs ys ms =
      let r = sub b xs ys in if r.carry != 0 then (add2 b r.words ms).words else r.words

  pub sub_mod : List ℕ → List ℕ → List ℕ → List ℕ
  sub_mod xs ys ms = let r = sub b xs ys in add_and_w b r.words ms (minus b 0 r.carry)

  -- `zzSubWMod`
  pub sub_w_mod_fast : List ℕ → ℕ → List ℕ → List ℕ
  sub_w_mod_fast xs w ms =
      let r = sub_w b xs w in if r.carry != 0 then (add2 b r.words ms).words else r.words

  pub sub_w_mod : List ℕ → ℕ → List ℕ → List ℕ
  sub_w_mod xs w ms = let r = sub_w b xs w in add_and_w b r.words ms (minus b 0 r.carry)

  -- `zzNegMod`
  pub neg_mod_fast : List ℕ → List ℕ → List ℕ
  neg_mod_fast xs ms = if is_zero xs then replicate (length xs) 0 else (sub b ms xs).words

  pub neg_mod : List ℕ → List ℕ → List ℕ
  neg_mod xs ms =
      let r = sub b ms xs in
      (sub_and_w b r.words ms (minus b 0 (if eq r.words ms then 1 else 0))).words

  -- `zzDoubleMod`: the loop `b[i] = a[i] << 1 | carry`.
  pub double_from : ℕ → List ℕ → Result
  double_from carry [] = record { words = []; carry = carry }
  double_from carry (x ∷ xs) = before (bit_or (x * 2 % b) carry) (double_from (x / (b / 2)) xs)

  pub double_mod_fast : List ℕ → List ℕ → List ℕ
  double_mod_fast xs ms =
      let r = double_from 0 xs in
      if r.carry != 0 || at_least (cmp b r.words ms) then (sub2 b r.words ms).words else r.words

  pub double_checked : ℕ → ℕ → List ℕ → List ℕ → Checked
  double_checked carry mask (x ∷ xs) (m ∷ ms) =
      let c = bit_or (x * 2 % b) carry in
      in_front c (double_checked (x / (b / 2)) (next_mask mask m c) xs ms)
  double_checked carry mask _ _ = record { words = []; carry = carry; mask = mask }

  pub double_mod : List ℕ → List ℕ → List ℕ
  double_mod xs ms = sub_masked (double_checked 0 1 xs ms) ms

  -- `zzHalfMod`: the loop `b[n] = b[n] >> 1 | carry << (B_PER_W - 1)`, from the last word to the first. The
  -- carry of a result is the bit that has been shifted out.
  pub half_from : ℕ → List ℕ → Result
  half_from carry [] = record { words = []; carry = carry }
  half_from carry (x ∷ xs) =
      let high = half_from carry xs in
      record { words = bit_or (x / 2) (high.carry * (b / 2)) ∷ high.words; carry = x % 2 }

  pub half_mod_fast : List ℕ → List ℕ → List ℕ
  half_mod_fast xs ms =
      let r = add b xs ms in
      if is_odd xs then (half_from r.carry r.words).words else (half_from 0 xs).words

  -- The loop of the regular variant: `prev` is b[i - 1], shifted and waiting for its highest bit.
  pub half_masked : List ℕ → List ℕ → ℕ → ℕ → ℕ → List ℕ
  half_masked (x ∷ xs) (m ∷ ms) mask prev carry =
      let c = (x + carry) % b in
      let w = bit_and mask m in
      let d = (c + w) % b in
      bit_or prev (d % 2 * (b / 2))
      ∷ half_masked xs ms mask (d / 2) (bit_or (less01 c carry) (less01 d w))
  half_masked _ _ mask prev carry = bit_or prev (carry * (b / 2)) ∷ []

  pub half_mod : List ℕ → List ℕ → List ℕ
  half_mod (x ∷ xs) (m ∷ ms) =
      let mask = minus b 0 (x % 2) in
      let w = bit_and mask m in let d = (x + w) % b in half_masked xs ms mask (d / 2) (less01 d w)
  half_mod _ _ = []
