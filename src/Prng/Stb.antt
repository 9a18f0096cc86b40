-- ===== src/Prng/Stb.antt =====
-- The generator of STB 1176.2: a ring of 31 numbers below 65257 and three words of 16 bits.
pub mod Queue
pub mod Valid
use bee.Common.{
  ℕ, zero, suc, ◌+◌, ◌-◌, ◌*◌, ◌/◌, ◌%◌, List, [], ◌∷◌, Option, some, none, get_or, set, bit_or,
  bit_xor, leb, if◌then◌else◌,
}

-- `prng_stb_st`
pub record Stb : Type 0 where
  pub i : ℕ
  pub z : List ℕ
  pub v : ℕ
  pub w : ℕ
  pub u : ℕ

abbrev pub modulus : ℕ
modulus = 65257

-- `z[i] <- (z[i] - z[j]) \mod 65257`
pub sub_mod : ℕ → ℕ → ℕ
sub_mod x y = if leb y x then x - y else modulus - (y - x)

-- `w = (w >> 1) | (w << 15)`
pub rot : ℕ → ℕ
rot w = bit_or (w / 2) (w * 32768 % 65536)

-- `_prngSTBClock`
pub clock : Stb → Stb
clock s =
    let zi = get_or s.z s.i 0 in
    let zj = get_or s.z ((s.i + 10) % 31) 0 in
    let v = (s.v + zi) % 65536 in
    let w = (rot s.w + get_or s.z ((s.i + 20) % 31) 0) % 65536 in
    record { i = (s.i + 1) % 31; z = set s.z s.i (sub_mod zi zj); v = v; w = w; u = bit_xor v w }

pub clocks : ℕ → Stb → Stb
clocks zero s = s
clocks (suc n) s = clocks n (clock s)

-- `(u16)(i + 1)` for i = 0, 1,..., 30.
pub counting : ℕ → ℕ → List ℕ
counting from zero = []
counting from (suc n) = from ∷ counting (from + 1) n

-- `prngSTBStart`: the member u, which the source leaves unset until the first clock, is 0.
pub loaded : Option (List ℕ) → Stb
loaded (some z) = record { i = 0; z = z; v = 0; w = 0; u = 0 }
loaded none = record { i = 0; z = counting 1 31; v = 0; w = 0; u = 0 }

pub start : Option (List ℕ) → Stb
start z = clocks 256 (loaded z)

-- `prngSTBStepR`
pub step_r : ℕ → Stb → List ℕ × Stb
step_r zero s = ([], s)
step_r (suc count) s =
    let s' = clock s in let rest = step_r count s' in ((s'.u + s.u / 255) % 256 ∷ rest.0, rest.1)
