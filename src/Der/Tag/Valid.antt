-- ===== src/Der/Tag/Valid.antt =====
-- Which tags `derTIsValid` accepts, octet by octet.
use bee.Common.{
  leb, ltb, if◌then◌else◌, ◌!=◌, ◌||◌, ℕ, suc, ◌+◌, ◌*◌, ◌/◌, ◌%◌, ◌^◌, ◌<◌, ◌≤◌, ◌≡◌, ◌↔◌, true,
  false, none, some, arith,
}
use bee.Der.Tag.{valid_loop, valid_end, t_is_valid}

-- A two-octet tag: the low five bits of the first octet are set, and the second is the number, from
-- 31 on.
pub t_is_valid-two :
    (a b : ℕ)
    → 0 < a
    → a < 256
    → b < 256
    → (t_is_valid (a * 256 + b) ≡ true) ↔ ((a % 32 ≡ 31) × (31 ≤ b) × (b < 128))
unfolding t_is_valid valid_loop valid_end
t_is_valid-two a b p ha hb = ground arith

-- One more round of the loop, on a tag of at least two octets, and the last one.
valid_loop_more :
    (fuel t b a o : ℕ)
    → 0 < a
    → o < 256
    → valid_loop (suc fuel) (record { t = t; b = b; tag = a * 256 + o }) ≡ (
        if ltb o 128 || t / 2 ^ 25 != 0
        then none
        else valid_loop fuel (record { t = t * 128 % 2 ^ 32 + o % 128; b = o % 128; tag = a }))
unfolding valid_loop
valid_loop_more fuel t b a o p h =
    let low : (a * 256 + o) % 128 ≡ o % 128 = omega arith in
    let high : (a * 256 + o) / 256 ≡ a = omega arith in rw (low, high) (ground arith)

valid_loop_done :
    (fuel t b tag : ℕ)
    → tag < 256
    → valid_loop (suc fuel) (record { t = t; b = b; tag = tag })
      ≡ some (record { t = t; b = b; tag = tag })
unfolding valid_loop
valid_loop_done fuel t b tag h = ground arith

t_is_valid-long :
    (a o : ℕ)
    → 0 < a
    → o < 256
    → t_is_valid (a * 256 + o) ≡ (
        if leb 128 o
        then false
        else valid_end (valid_loop 3 (record { t = o % 128; b = o % 128; tag = a })))
unfolding t_is_valid
t_is_valid-long a o p h =
    let low : (a * 256 + o) % 128 ≡ o % 128 = omega arith in
    let high : (a * 256 + o) / 256 ≡ a = omega arith in rw (low, high) (ground arith)

-- `derTIsValid` accepts a three-octet tag exactly if the low five bits of the first octet are set, the
-- second has its top bit set and is not 0x80, the third has its top bit clear, and the second octet and
-- 128 times the third add up to 159 or more. The last condition is no part of the rules: for a third
-- octet of 0 it refuses the numbers 128 h with h below 31.
pub t_is_valid-three :
    (a b c : ℕ)
    → 0 < a
    → a < 256
    → b < 256
    → c < 256
    → (t_is_valid ((a * 256 + b) * 256 + c) ≡ true)
      ↔ ((a % 32 ≡ 31) × (128 < b) × (c < 128) × (159 ≤ b + c * 128))
unfolding valid_end
t_is_valid-three a b c p ha hb hc =
    rw
      (
        t_is_valid-long (a * 256 + b) c (omega arith) hc,
        valid_loop_more 2 (c % 128) (c % 128) a b p hb,
        valid_loop_done 1 (c % 128 * 128 % 2 ^ 32 + b % 128) (b % 128) a ha,
      )
      (ground arith)

-- The same of four octets.
pub t_is_valid-four :
    (a b c d : ℕ)
    → 0 < a
    → a < 256
    → b < 256
    → c < 256
    → d < 256
    → (t_is_valid (((a * 256 + b) * 256 + c) * 256 + d) ≡ true) ↔ (
        (a % 32 ≡ 31)
        × (128 < b)
        × (128 ≤ c)
        × (d < 128)
        × (31 ≤ (d * 128 + c % 128) * 128 + b % 128))
unfolding valid_end
t_is_valid-four a b c d p ha hb hc hd =
    rw
      (
        t_is_valid-long ((a * 256 + b) * 256 + c) d (omega arith) hd,
        valid_loop_more 2 (d % 128) (d % 128) (a * 256 + b) c (omega arith) hc,
        valid_loop_more 1 (d % 128 * 128 % 2 ^ 32 + c % 128) (c % 128) a b p hb,
        valid_loop_done 0 ((d % 128 * 128 % 2 ^ 32 + c % 128) * 128 % 2 ^ 32 + b % 128) (b % 128) a
            ha,
      )
      (ground arith)
