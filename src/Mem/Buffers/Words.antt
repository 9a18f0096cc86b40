-- ===== src/Mem/Buffers/Words.antt =====
-- The words and the flags of the regular `memCmp`.
use bee.Common.{
  ℕ, zero, suc, ◌+◌, ◌-◌, ◌*◌, ◌/◌, ◌%◌, ◌^◌, ◌≤◌, ◌<◌, ◌≡◌, refl, ap, ◌∙◌, arith, bit_or, ltb,
  ◌==◌, if◌then◌else◌,
}
use bee.Common.Powers.{pow_add}
use bee.Common.BitLaws.{bit_or_low, bit_or_flags, bit_and_flag}
use bee.Mem.Buffers.{shift_in, unless}
use native.Mathlib.Nat.{
  pow-suc, mul-le-mul_right, mod-add-div, mod-lt, mod-eq_of_lt, mul-add-mod_self_left,
}

even_modulus : (k : ℕ) → 0 < k → (256 ^ k % 2 ≡ 0) × (2 ≤ 256 ^ k)
even_modulus zero h = absurd (omega arith)
even_modulus (suc zero) h = (refl, omega arith)
even_modulus (suc (suc k)) h =
    let rest = even_modulus (suc k) (omega arith) in
    (omega (arith, pow-suc 256 (suc k)), omega (arith, rest.1, pow-suc 256 (suc k)))

unless_eq :
    (k flag u v : ℕ)
    → 0 < k
    → flag ≤ 1
    → unless k flag u v ≡ (if flag == 0 then (if ltb u v then 1 else 0) else 0)
unfolding unless
unless_eq k flag u v h f =
    let m = even_modulus k h in
    let test = if ltb u v then 1 else 0 in
    let and = bit_and_flag (256 ^ k - 1 - flag) test (ground arith) in ground (arith, and, m)

-- The flags after two words have been compared.
pub marks :
    (k less greater u v : ℕ)
    → 0 < k
    → less + greater ≤ 1
    → let less' = bit_or less (unless k greater u v) in
      (less' ≡ (if greater == 0 then (if ltb u v then 1 else less) else 0))
      × (bit_or greater (unless k less' v u)
          ≡ (if less == 0 then (if ltb v u then 1 else greater) else 0))
marks k less greater u v h f =
    let first = unless k greater u v in
    let a = unless_eq k greater u v h (omega arith) in
    let c = bit_or_flags less first (omega arith) (ground arith) in
    let less' = bit_or less first in
    let e : less' ≡ (if greater == 0 then (if ltb u v then 1 else less) else 0) = ground arith in
    let second = unless k less' v u in
    let b = unless_eq k less' v u h (ground arith) in
    let d = bit_or_flags greater second (omega arith) (ground arith) in (e, ground arith)

pub pow-pos : (j : ℕ) → 0 < 256 ^ j
pow-pos zero = omega arith
pow-pos (suc j) = omega (arith, pow-pos j, pow-suc 256 j)

-- The octet is shifted into a word of which `j` octets and one more are left: the highest digit of what
-- stands in front of them is lost.
pub shift_in_lem :
    (j f h a x : ℕ)
    → h < 256 ^ suc j
    → a < 256 ^ f
    → x < 256
    → shift_in (suc j + f) (h * 256 ^ f + a) x ≡ (h % 256 ^ j) * 256 ^ suc f + (a * 256 + x)
unfolding shift_in
shift_in_lem j f h a x hh ha hx =
    let q = 256 ^ j in
    let p = 256 ^ suc f in
    let n = 256 ^ (suc j + f) in
    let r = (h % q) * p + a * 256 in
    let shift : suc j + f ≡ j + suc f = omega arith in
    let size : n ≡ q * p = ap (λ t. 256 ^ t) shift ∙ pow_add 256 j (suc f) in
    let pos : 0 < q = pow-pos j in
    let room = mul-le-mul_right p (mod-lt h pos) in
    let small : a * 256 < p = omega (arith, pow-suc 256 f, ha) in
    let fits : r < n = omega (arith, room, small, size) in
    let split : (h * 256 ^ f + a) * 256 ≡ n * (h / q) + r = omega (
      arith,
      ap (λ (t : ℕ). t * p) (mod-add-div h q),
      ap (λ (t : ℕ). h * t) (pow-suc 256 f),
      ap (λ (t : ℕ). t * (h / q)) size,
    ) in
    let rest : (h * 256 ^ f + a) * 256 % n ≡ r =
      ap (λ (t : ℕ). t % n) split ∙ mul-add-mod_self_left n (h / q) r ∙ mod-eq_of_lt fits in
    let low = (h % q) * 256 ^ f + a in
    let shifted : r ≡ 2 ^ 8 * low = omega (arith, ap (λ (t : ℕ). (h % q) * t) (pow-suc 256 f)) in
    rw (rest, shifted) (bit_or_low 8 low x hx ∙ omega (arith, shifted))
