-- ===== src/Common/Bits.antt =====
-- Facts about masks, from a table: a test that holds of every number up to a bound.
use Prim.Native.Nat.{ℕ, zero, suc, ◌<◌}
use mathlib.Core.Path.{◌≡◌}
use mathlib.Core.Bool.{Bool, true, false}
use native.Mathlib.Omega.{arith}
use bee.Common.Tests.{if◌then◌else◌}

module _ (test : ℕ → Bool) where
  unfoldable pub passes : ℕ → Bool
  passes zero = true
  passes (suc top) = if test top then passes top else false

  pub by_table : (top n : ℕ) → n < top → passes top ≡ true → test n ≡ true
  unfolding passes
  by_table zero n below h = elim below [ ]
  by_table (suc top) n below h = ground (arith, by_table top n)
