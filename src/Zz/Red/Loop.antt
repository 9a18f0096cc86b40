-- ===== src/Zz/Red/Loop.antt =====
-- The loop of the reduction of Montgomery: after n rounds the array and its carry, times b^n, are the number
-- and a multiple of the modulus.
use bee.Common.{
  ℕ, zero, suc, ◌+◌, ◌*◌, ◌%◌, ◌^◌, ◌<◌, ◌≤◌, ◌≡◌, ◌⊎◌, inl, inr, ap, ap₂, ◌∙◌, List, [], ◌∷◌,
  length, drop, bit_or, arith,
}
use bee.Common.BitLaws.{bit_or_flags}
use bee.Common.Powers.{pow_add, pow_pos}
use bee.Zz.Value.{AreWords, value, value-lt}
use bee.Zz.Red.{Reduced, mont_word, mont_round, mont_loop}
use bee.Zz.Red.Round.{round-StandsFor, cleared}
use native.Mathlib.Nat.{mod-lt, pow-suc, pow-zero, mul-le-mul_right}

-- What the rounds make of the number `t`: the words and the carry, and how often the modulus was added.
pub record Leaves (b n i t m : ℕ) (r : Reduced) : Type 0 where
  pub are_words : AreWords b r.words
  pub size : length r.words ≡ n
  pub flag : r.carry ≤ 1
  pub last_word : r.last < b
  pub times : ℕ
  pub few : times < b ^ i
  pub total : (value b r.words + b ^ n * r.carry) * b ^ i ≡ t + times * m

-- A product with the base that is small has a small factor.
pub factor_below : (b s t : ℕ) → b * s < b * t → s < t
factor_below b s t h = elim (cases s t) [
  | inl lt ↦ lt
  | inr ge ↦ absurd (omega (arith, h, mul-le-mul_right b ge))
]
  where
    cases : (s t : ℕ) → (s < t) ⊎ (t ≤ s)
    cases s t = omega arith

module _ (b : ℕ) where
  -- One round on a number that is not far above the array: the lowest word is gone, and at most one of the
  -- carries is set.
  round_carry :
      (l v v0 m w carry hc : ℕ)
      → carry ≤ 1
      → hc ≤ 1
      → w < b
      → m < b ^ l
      → b * v + b ^ suc l * hc ≡ v0 + w * m
      → v0 + b ^ suc l * carry < b ^ suc l + m
      → let s = v + b ^ l * (carry + hc) in
        (b * s ≡ v0 + b ^ suc l * carry + w * m) × (s < b ^ l + m) × (carry + hc ≤ 1)
  round_carry l v v0 m w carry hc h1 h2 hw hm e bound =
      let p1 = ap (λ (t : ℕ). t * carry) (pow-suc b l) in
      let p2 = ap (λ (t : ℕ). t * hc) (pow-suc b l) in
      let s = v + b ^ l * (carry + hc) in
      let exact : b * s ≡ v0 + b ^ suc l * carry + w * m = omega (arith, e, p1, p2) in
      let rows : suc w * m ≤ b * m = mul-le-mul_right m hw in
      let far : b * s < b * (b ^ l + m) = omega (arith, exact, bound, rows, pow-suc b l) in
      let small = factor_below b s (b ^ l + m) far in (exact, small, one_carry carry hc h1 h2 small)
    where
      one_carry :
          (carry hc : ℕ)
          → carry ≤ 1
          → hc ≤ 1
          → v + b ^ l * (carry + hc) < b ^ l + m
          → carry + hc ≤ 1
      one_carry zero hc h k small = omega arith
      one_carry (suc carry) zero h k small = omega arith
      one_carry (suc carry) (suc hc) h k small =
          let two : suc carry + suc hc ≡ 2 = omega arith in
          let scaled = ap (λ (t : ℕ). b ^ l * t) two in absurd (omega (arith, small, scaled, hm))

  -- What a round leaves above the word that it clears.
  round_tail :
      (i m0 a0 mont : ℕ) (ms ws : List ℕ)
      → 1 < b
      → AreWords b (m0 ∷ ms)
      → AreWords b (a0 ∷ ws)
      → length (a0 ∷ ws) ≡ length (m0 ∷ ms) + suc i
      → (m0 * mont + 1) % b ≡ 0
      → let w = mont_word b (a0 ∷ ws) mont in
        let r = mont_round b w (m0 ∷ ms) (a0 ∷ ws) in
        AreWords b (drop 1 r.words)
        × (length (drop 1 r.words) ≡ length ws)
        × (r.carry ≤ 1)
        × (b * value b (drop 1 r.words) + b ^ length (a0 ∷ ws) * r.carry
            ≡ value b (a0 ∷ ws) + w * value b (m0 ∷ ms))
  unfolding mont_word
  round_tail i m0 a0 mont ms ws hb om oa e inverse =
      let w = a0 * mont % b in
      let v =
        round-StandsFor b i w (m0 ∷ ms) (a0 ∷ ws) hb (mod-lt (a0 * mont) (omega arith)) om oa e in
      let r = mont_round b w (m0 ∷ ms) (a0 ∷ ws) in
      open_up r.words r.carry v.are_words v.size v.flag v.total
    where
      open_up :
          (zs : List ℕ) (c : ℕ)
          → AreWords b zs
          → length zs ≡ suc (length ws)
          → c ≤ 1
          → value b zs + b ^ suc (length ws) * c
            ≡ value b (a0 ∷ ws) + (a0 * mont % b) * value b (m0 ∷ ms)
          → AreWords b (drop 1 zs)
            × (length (drop 1 zs) ≡ length ws)
            × (c ≤ 1)
            × (b * value b (drop 1 zs) + b ^ suc (length ws) * c
                ≡ value b (a0 ∷ ws) + (a0 * mont % b) * value b (m0 ∷ ms))
      open_up [] c o size f total = absurd (omega arith)
      open_up (z ∷ zs) c o size f total =
          let l = length ws in
          let weight = ap (λ (t : ℕ). t * c) (pow-suc b l) in
          let gone : z ≡ 0 =
            cleared b a0 m0 (value b ws) (value b ms) z (value b zs + b ^ l * c) mont o.0 inverse
              (omega (arith, total, weight)) in
          (o.1, omega arith, f, omega (arith, total, gone))

  pub mont_loop-Leaves :
      (i carry w m0 mont : ℕ) (ms ws : List ℕ)
      → 1 < b
      → carry ≤ 1
      → w < b
      → AreWords b (m0 ∷ ms)
      → AreWords b ws
      → length ws ≡ length (m0 ∷ ms) + i
      → (m0 * mont + 1) % b ≡ 0
      → value b ws + b ^ length ws * carry < b ^ length ws + value b (m0 ∷ ms)
      → Leaves b
          (length (m0 ∷ ms))
          i
          (value b ws + b ^ length ws * carry)
          (value b (m0 ∷ ms))
          (mont_loop b i carry w (m0 ∷ ms) mont ws)
  unfolding mont_loop
  mont_loop-Leaves zero carry w m0 mont ms ws hb hc hw om oa e inverse bound =
      let n = length (m0 ∷ ms) in
      let size : length ws ≡ n = omega arith in
      record {
        are_words = oa;
        size = size;
        flag = hc;
        last_word = hw;
        times = 0;
        few = omega (arith, pow-zero b);
        total = omega (
          arith,
          ap (λ (k : ℕ). b ^ k * carry) size,
          ap (λ (t : ℕ). (value b ws + b ^ n * carry) * t) (pow-zero b),
        );
      }
  mont_loop-Leaves (suc i) carry w m0 mont ms [] hb hc hw om oa e inverse bound =
      absurd (omega arith)
  mont_loop-Leaves (suc i) carry w m0 mont ms (a0 ∷ ws) hb hc hw om oa e inverse bound =
      let n = length (m0 ∷ ms) in
      let m = value b (m0 ∷ ms) in
      let w' = mont_word b (a0 ∷ ws) mont in
      let r = mont_round b w' (m0 ∷ ms) (a0 ∷ ws) in
      let tail = round_tail i m0 a0 mont ms ws hb om oa e inverse in
      let l = length ws in
      let wide : l ≡ n + i = omega arith in
      let next = drop 1 r.words in
      let word : w' < b = unfold mont_word in mod-lt (a0 * mont) (omega arith) in
      let top : m < b ^ n = value-lt b (m0 ∷ ms) om in
      let one : 1 ≤ b ^ i = pow_pos b i (omega arith) in
      let grown : 1 * b ^ n ≤ b ^ i * b ^ n = mul-le-mul_right (b ^ n) one in
      let room : m < b ^ l = omega (arith, top, grown, pow_add b n i, ap (λ (k : ℕ). b ^ k) wide) in
      let c =
        round_carry l (value b next) (value b (a0 ∷ ws)) m w' carry r.carry hc tail.2 word room
          tail.3 bound in
      let flag : bit_or carry r.carry ≡ carry + r.carry =
        bit_or_flags carry r.carry hc tail.2 ∙ omega (arith, c.2) in
      let weight = ap (λ (k : ℕ). b ^ k) tail.1 in
      let t1 : value b next + b ^ length next * bit_or carry r.carry
          ≡ value b next + b ^ l * (carry + r.carry) =
        ap₂ (λ (p : ℕ) (q : ℕ). value b next + p * q) weight flag in
      let small : value b next + b ^ length next * bit_or carry r.carry < b ^ length next + m =
        omega (arith, t1, c.1, weight) in
      let h =
        mont_loop-Leaves i (bit_or carry r.carry) w' m0 mont ms next hb (omega (arith, flag, c.2))
          word om tail.0 (omega (arith, tail.1)) inverse small in
      let q = mont_loop b i (bit_or carry r.carry) w' (m0 ∷ ms) mont next in
      let few : suc h.times * b ≤ b ^ i * b = mul-le-mul_right b h.few in
      record {
        are_words = h.are_words;
        size = h.size;
        flag = h.flag;
        last_word = h.last_word;
        times = w' + b * h.times;
        few = omega (arith, few, word, pow-suc b i);
        total = omega (
          arith,
          ap (λ (t : ℕ). (value b q.words + b ^ n * q.carry) * t) (pow-suc b i),
          ap (λ (t : ℕ). t * b) h.total,
          ap (λ (t : ℕ). b * t) t1,
          c.0,
        );
      }
