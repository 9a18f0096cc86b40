-- ===== src/Prng/Tests.antt =====
-- Concrete runs of the generators.
use bee.Common.{ℕ, ◌+◌, ◌<◌, ◌≡◌, none, [], ◌∷◌, ◌++◌, arith}
use bee.Prng.Echo
use bee.Prng.Echo.Cycle.{step_r_reaches}
use bee.Prng.Combo
use bee.Prng.Combo.Stream.{pops, view, step_r-pops, step_r-cut}
use bee.Prng.Combo.Stream
use bee.Prng.Stb
use bee.Prng.Stb.Valid.{Reach, here, next, request, GivenNumbers, no_numbers_given, start-IsValid}
use bee.Prng.Stb.Valid
use bee.Prng.Stb.Queue.{step_r-refines}
use bee.Prng.Stb.Queue

abbrev echo : Echo.Echo
echo = record { seed = 10 ∷ 20 ∷ 30 ∷ []; pos = 2 }

step_r_reaches_example :
    (k : ℕ) × (k < 3)
    × ((Echo.step_r k echo).1.pos ≡ 1)
    × ((Echo.step_r 1 (Echo.step_r k echo).1).0 ≡ 20 ∷ [])
step_r_reaches_example = step_r_reaches echo 1 (omega arith) (omega arith)

abbrev seeded : Combo.Combo
seeded = Combo.start 7

step_r-pops_example :
    ((Combo.step_r 6 seeded).0 ≡ (pops 6 (view seeded)).0)
    × (view (Combo.step_r 6 seeded).1 ≡ (pops 6 (view seeded)).1)
    × Combo.Stream.IsValid (Combo.step_r 6 seeded).1
step_r-pops_example = step_r-pops 6 seeded (Combo.Stream.start-IsValid 7)

step_r-cut_example :
    (Combo.step_r (3 + 6) seeded).0
    ≡ (Combo.step_r 3 seeded).0 ++ (Combo.step_r 6 (Combo.step_r 3 seeded).1).0
step_r-cut_example = step_r-cut 3 6 seeded (Combo.Stream.start-IsValid 7)

start-IsValid_example : Stb.Valid.IsValid (Stb.step_r 2 (Stb.step_r 5 (Stb.start none)).1).1
start-IsValid_example =
    start-IsValid none (Stb.step_r 2 (Stb.step_r 5 (Stb.start none)).1).1 no_numbers_given
      (next (next here (request (Stb.start none) 5)) (request (Stb.step_r 5 (Stb.start none)).1 2))

step_r-refines_example :
    ((Stb.step_r 4 (Stb.start none)).0 ≡ (Stb.Queue.octets 4 (Stb.Queue.view (Stb.start none))).0)
    × (Stb.Queue.view (Stb.step_r 4 (Stb.start none)).1
        ≡ (Stb.Queue.octets 4 (Stb.Queue.view (Stb.start none))).1)
step_r-refines_example =
    step_r-refines 4 (Stb.start none) (start-IsValid none (Stb.start none) no_numbers_given here)
