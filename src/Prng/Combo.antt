-- ===== src/Prng/Combo.antt =====
-- The generator COMBO: words of 32 bits, cut into octets, the least significant first.
pub mod Stream
use bee.Common.{
  ℕ, zero, suc, ◌+◌, ◌-◌, ◌*◌, ◌/◌, ◌%◌, List, [], ◌∷◌, ◌++◌, take, drop, bit_and, leb, ◌==◌,
  if◌then◌else◌,
}

-- `prng_combo_st`: `block` holds the octets of the union r.
pub record Combo : Type 0 where
  pub x : ℕ
  pub y : ℕ
  pub z : ℕ
  pub block : List ℕ
  pub reserved : ℕ

-- A number modulo 2^32.
abbrev pub u32 : ℕ → ℕ
u32 t = t % 4294967296

-- The octets of a word of 32 bits; on a big-endian machine `u32Rev` brings them into this order.
abbrev pub octets : ℕ → List ℕ
octets r = r % 256 ∷ r / 256 % 256 ∷ r / 65536 % 256 ∷ r / 16777216 % 256 ∷ []

-- `(s->z & 0xFFFF) * 30903 + (s->z >> 16)`
pub next_z : ℕ → ℕ
next_z z = u32 (bit_and z 65535 * 30903 + z / 65536)

-- `prngCOMBOStep`
unfoldable pub step : Combo → Combo
step s =
    let r = u32 (s.x * s.x) in
    let z = next_z s.z in record s { x = s.y; y = r; z = z; block = octets (u32 (r + z)) }

-- `prngCOMBOStart`; the block is not set by the source and not read before the first step.
pub start : ℕ → Combo
start seed =
    let z = u32 (527138749 + seed) in
    record {
      x = 4172790675;
      y = 3202594123;
      z = if z == 0 then z else u32 (z + 1);
      block = 0 ∷ 0 ∷ 0 ∷ 0 ∷ [];
      reserved = 0;
    }

-- The last block of a request gives fewer than four octets.
pub last_block : ℕ → Combo → List ℕ × Combo
last_block count s = let s' = step s in (take count s'.block, record s' { reserved = 4 - count })

-- The loop over full blocks, and the rest.
pub fill : ℕ → Combo → List ℕ × Combo
fill zero s = ([], s)
fill (suc zero) s = last_block 1 s
fill (suc (suc zero)) s = last_block 2 s
fill (suc (suc (suc zero))) s = last_block 3 s
fill (suc (suc (suc (suc count)))) s =
    let s' = step s in let rest = fill count s' in (take 4 s'.block ++ rest.0, rest.1)

-- `prngCOMBOStepR`
pub step_r : ℕ → Combo → List ℕ × Combo
step_r count s =
    let kept = drop (4 - s.reserved) s.block in
    let rest = fill (count - s.reserved) (record s { reserved = 0 }) in
    if s.reserved == 0
    then fill count s
    else if leb count s.reserved
    then (take count kept, record s { reserved = s.reserved - count })
    else (take s.reserved kept ++ rest.0, rest.1)
