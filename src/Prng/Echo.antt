-- ===== src/Prng/Echo.antt =====
-- The echo generator: it repeats the octets of the buffer given at the start.
pub mod Cycle
use bee.Common.{ℕ, zero, suc, ◌+◌, List, [], ◌∷◌, length, get_or, ◌==◌, if◌then◌else◌}

-- `prng_echo_st`; `seed_len` is the length of the list.
pub record Echo : Type 0 where
  pub seed : List ℕ
  pub pos : ℕ

-- `prngEchoStart`
pub start : List ℕ → Echo
start seed = record { seed = seed; pos = 0 }

-- `++s->pos; if (s->pos == s->seed_len) s->pos = 0;`
unfoldable pub advance : Echo → Echo
advance s = record s { pos = if s.pos + 1 == length s.seed then 0 else s.pos + 1 }

-- `prngEchoStepR`
pub step_r : ℕ → Echo → List ℕ × Echo
step_r zero s = ([], s)
step_r (suc count) s =
    let rest = step_r count (advance s) in (get_or s.seed s.pos 0 ∷ rest.0, rest.1)
