-- ===== src/Zz/Mod/Half.antt =====
-- `zzHalfMod`: the half of a residue modulo an odd number.
use bee.Common.{
  ℕ, zero, suc, ◌+◌, ◌*◌, ◌/◌, ◌%◌, ◌^◌, ◌<◌, ◌≤◌, ◌≡◌, ◌⊎◌, inl, inr, refl, sym, ap, ◌∙◌, map,
  List, [], ◌∷◌, length, bit_and, bit_or, true, false, Bool-cases, ◌==◌, arith,
}
use bee.Common.BitLaws.{bit_or_flags}
use bee.Common.Masks.{bit_or_high}
use bee.Common.Powers.{pow_two}
use bee.Zz.Value.{less01, AreWords, value}
use bee.Zz.Add.{Result, add_from, add}
use bee.Zz.Add.Words.{wrap}
use bee.Zz.Add.Laws.{StandsFor, add-StandsFor}
use bee.Zz.Sub.{minus}
use bee.Zz.Etc.{is_odd}
use bee.Zz.Etc.Masked.{masked}
use bee.Zz.Mod.Reduce.{flag_cases}
use bee.Zz.Mod.{half_from, half_mod, half_mod_fast, half_masked}
use native.Mathlib.Nat.{pow-suc, pow-zero, mod-eq_of_lt, mod-lt, add-zero}

-- `n` words below the modulus whose double leaves the residue `a`.
pub record IsHalf (b n a : ℕ) (ms words : List ℕ) : Type 0 where
  pub are_words : AreWords b words
  pub size : length words ≡ n
  pub is_below : value b words < value b ms
  pub twice : (2 * value b words) % value b ms ≡ a

-- Words and the bit that a shift by one has moved out of them.
record Shifted (b n s : ℕ) (r : Result) : Type 0 where
  are_words : AreWords b r.words
  size : length r.words ≡ n
  flag : r.carry ≤ 1
  total : 2 * value b r.words + r.carry ≡ s

module _ (b : ℕ) where
  half_from-Shifted :
      (j : ℕ) (xs : List ℕ) (carry : ℕ)
      → b ≡ 2 ^ suc j
      → b / 2 ≡ 2 ^ j
      → carry ≤ 1
      → AreWords b xs
      → Shifted b (length xs) (value b xs + b ^ length xs * carry) (half_from b carry xs)
  unfolding half_from
  half_from-Shifted j [] carry eb eh hc o = record {
    are_words = tt;
    size = refl;
    flag = hc;
    total = omega (arith, ap (λ (t : ℕ). t * carry) (pow-zero b));
  }
  half_from-Shifted j (x ∷ xs) carry eb eh hc o =
      let high = half_from-Shifted j xs carry eb eh hc o.1 in
      let r = half_from b carry xs in
      let bound : x < 2 ^ suc j = omega (arith, eb, o.0) in
      let low : x / 2 < 2 ^ j = omega (arith, bound, pow-suc 2 j) in
      let turned : r.carry * (b / 2) ≡ 2 ^ j * r.carry =
        omega (arith, ap (λ (t : ℕ). r.carry * t) eh) in
      let word : bit_or (x / 2) (r.carry * (b / 2)) ≡ x / 2 + 2 ^ j * r.carry =
        ap (bit_or (x / 2)) turned ∙ bit_or_high j (x / 2) r.carry low in
      let whole : b * r.carry ≡ 2 ^ j * r.carry + 2 ^ j * r.carry =
        omega (arith, ap (λ (t : ℕ). t * r.carry) eb, ap (λ (t : ℕ). t * r.carry) (pow-suc 2 j)) in
      record {
        are_words = (
          rw word (top r.carry (x / 2) (2 ^ j) high.flag low (omega (arith, eb, pow-suc 2 j))),
          high.are_words,
        );
        size = ap suc high.size;
        flag = omega arith;
        total = omega (
          arith,
          word,
          whole,
          ap (λ (t : ℕ). b * t) high.total,
          ap (λ (t : ℕ). t * carry) (pow-suc b (length xs)),
        );
      }
    where
      top : (c y h : ℕ) → c ≤ 1 → y < h → b ≡ h + h → y + h * c < b
      top zero y h hc hy e = omega arith
      top (suc zero) y h hc hy e = omega arith
      top (suc (suc c)) y h hc hy e = absurd (omega arith)

  -- A sum that is even is halved.
  halved-IsHalf :
      (n s a : ℕ) (ms : List ℕ) (r : Result)
      → Shifted b n s r
      → s % 2 ≡ 0
      → a < value b ms
      → (s ≡ a) ⊎ (s ≡ a + value b ms)
      → IsHalf b n a ms r.words
  halved-IsHalf n s a ms r v even h cases =
      let double : 2 * value b r.words ≡ s = omega (arith, even, v.total, v.flag) in
      record {
        are_words = v.are_words;
        size = v.size;
        is_below = elim cases [
          | inl e ↦ omega (arith, e, double)
          | inr e ↦ omega (arith, e, double)
        ];
        twice = rw double (elim cases [
          | inl e ↦ rw e (mod-eq_of_lt h)
          | inr e ↦ rw e (omega (arith, wrap (value b ms) (a + value b ms) (omega arith)))
        ]);
      }

  halves : b % 2 ≡ 0 → b ≡ 2 * (b / 2)
  halves e = omega arith

  -- The lowest word decides the parity.
  is_odd-value :
      (xs : List ℕ)
      → b % 2 ≡ 0
      → ((is_odd xs ≡ true) × (value b xs % 2 ≡ 1)) ⊎ ((is_odd xs ≡ false) × (value b xs % 2 ≡ 0))
  unfolding is_odd
  is_odd-value [] e = inr (refl, refl)
  is_odd-value (x ∷ xs) e =
      let h = b / 2 in
      let double : b * value b xs ≡ 2 * (h * value b xs) =
        omega (arith, ap (λ (t : ℕ). t * value b xs) (halves e)) in
      elim (Bool-cases (x % 2 == 1)) [
        | inl odd ↦ inl (odd, ground (arith, double, odd))
        | inr even ↦ inr (even, ground (arith, double, even))
      ]

  -- What a sum leaves when its words and its carry are shifted.
  half-sum :
      (j n s : ℕ) (r : Result)
      → b ≡ 2 ^ suc j
      → StandsFor b n s r
      → Shifted b n s (half_from b r.carry r.words)
  half-sum j n s r eb v =
      let eh : b / 2 ≡ 2 ^ j = omega (arith, eb, pow-suc 2 j) in
      let h = half_from-Shifted j r.words r.carry eb eh v.flag v.are_words in
      rw (v.size, v.total) at h

  -- The bit that leaves a sum of two words shows in either of them.
  carry_shows : (c w : ℕ) → c < b → w < b → less01 ((c + w) % b) w ≡ less01 ((c + w) % b) c
  carry_shows c w hc hw = elim (wrap b (c + w) (omega arith)) [
    | inl (low, e) ↦ ground arith
    | inr (high, e) ↦ ground arith
  ]

  half_masked-eq :
      (xs ms : List ℕ) (mask p carry : ℕ)
      → 0 < b
      → AreWords b (map (bit_and mask) ms)
      → let r = add_from b carry xs (map (bit_and mask) ms) in
        half_masked b xs ms mask (p / 2) carry ≡ (half_from b r.carry (p ∷ r.words)).words
  unfolding half_masked half_from add_from
  half_masked-eq [] [] mask p carry pos o = refl
  half_masked-eq [] (m ∷ ms) mask p carry pos o = refl
  half_masked-eq (x ∷ xs) [] mask p carry pos o = refl
  half_masked-eq (x ∷ xs) (m ∷ ms) mask p carry pos o =
      let c = (x + carry) % b in
      let w = bit_and mask m in
      let same = carry_shows c w (mod-lt (x + carry) pos) o.0 in
      rw same (
        ap (λ (t : List ℕ). bit_or (p / 2) ((c + w) % b % 2 * (b / 2)) ∷ t)
          (half_masked-eq xs ms mask ((c + w) % b)
            (bit_or (less01 c carry) (less01 ((c + w) % b) c)) pos o.1))

  half_mod-cons :
      (x m : ℕ) (xs ms : List ℕ)
      → 0 < b
      → x < b
      → let zs = map (bit_and (minus b 0 (x % 2))) (m ∷ ms) in
        AreWords b zs
        → let r = add b (x ∷ xs) zs in
          half_mod b (x ∷ xs) (m ∷ ms) ≡ (half_from b r.carry r.words).words
  unfolding half_mod add add_from
  half_mod-cons x m xs ms pos hx o =
      let mask = minus b 0 (x % 2) in
      let w = bit_and mask m in
      let d = (x + w) % b in
      let same : (x + 0) % b ≡ x = rw (add-zero x) (mod-eq_of_lt hx) in
      let flag : less01 d x ≤ 1 = ground arith in
      let zero_flag : less01 x 0 ≡ 0 = ground arith in
      let first : bit_or (less01 x 0) (less01 d x) ≡ less01 d x =
        ap (λ t. bit_or t (less01 d x)) zero_flag
        ∙ bit_or_flags 0 (less01 d x) (omega arith) flag
        ∙ omega arith in
      rw (same, first)
        (rw (carry_shows x w hx o.0) (half_masked-eq xs ms mask d (less01 d x) pos o.1))

  -- The half of an operand with the modulus added if the operand is odd.
  even_sum :
      (j f : ℕ) (xs ms : List ℕ) (r : Result)
      → b ≡ 2 ^ suc j
      → StandsFor b (length xs) (value b xs + f * value b ms) r
      → is_odd ms ≡ true
      → value b xs < value b ms
      → f ≡ value b xs % 2
      → IsHalf b (length xs) (value b xs) ms (half_from b r.carry r.words).words
  even_sum j f xs ms r eb v odd h e =
      let even : b % 2 ≡ 0 = rw (← eb) at (pow_two j).0 in
      let m_odd : value b ms % 2 ≡ 1 = elim (is_odd-value ms even) [
        | inl p ↦ p.1
        | inr p ↦ absurd (ground (arith, p, odd))
      ] in
      let a = value b xs in
      let sums : ((value b xs + f * value b ms) ≡ a)
          ⊎ ((value b xs + f * value b ms) ≡ a + value b ms) =
        elim (flag_cases f (omega arith)) [
          | inl z ↦ inl (omega (arith, ap (λ (t : ℕ). t * value b ms) z))
          | inr o ↦ inr (omega (arith, ap (λ (t : ℕ). t * value b ms) o))
        ] in
      let two : (value b xs + f * value b ms) % 2 ≡ 0 = elim (flag_cases f (omega arith)) [
        | inl z ↦ omega (arith, z, ap (λ (t : ℕ). t * value b ms) z)
        | inr o ↦ omega (arith, o, m_odd, ap (λ (t : ℕ). t * value b ms) o)
      ] in
      halved-IsHalf (length xs) _ a ms _ (half-sum j (length xs) _ r eb v) two h sums

  half_mod_fast-IsHalf :
      (j : ℕ) (xs ms : List ℕ)
      → b ≡ 2 ^ suc j
      → AreWords b xs
      → AreWords b ms
      → length xs ≡ length ms
      → is_odd ms ≡ true
      → value b xs < value b ms
      → IsHalf b (length xs) (value b xs) ms (half_mod_fast b xs ms)
  unfolding half_mod_fast
  half_mod_fast-IsHalf j xs ms eb ox om k odd h =
      let even : b % 2 ≡ 0 = rw (← eb) at (pow_two j).0 in
      let n = length xs in
      elim (is_odd-value xs even) [
        | inl (test, one) ↦
            let once : value b xs + value b ms ≡ value b xs + 1 * value b ms = omega arith in
            let v = rw once at (add-StandsFor b xs ms ox om k) in
            rw test (even_sum j 1 xs ms (add b xs ms) eb v odd h (sym one))
        | inr (test, none) ↦
            let v : StandsFor b n (value b xs + 0 * value b ms) (record { words = xs; carry = 0 }) =
              record { are_words = ox; size = refl; flag = omega arith; total = omega arith } in
            rw test (even_sum j 0 xs ms (record { words = xs; carry = 0 }) eb v odd h (sym none))
      ]

  -- For n words of B_PER_W bits each, an odd modulus and an operand below it, `zzHalfMod` in both variants
  -- gives n words that stand for a number below the modulus whose double is the operand modulo the modulus.
  pub half_mod-IsHalf :
      (j : ℕ) (xs ms : List ℕ)
      → b ≡ 2 ^ suc j
      → AreWords b xs
      → AreWords b ms
      → length xs ≡ length ms
      → is_odd ms ≡ true
      → value b xs < value b ms
      → IsHalf b (length xs) (value b xs) ms (half_mod b xs ms)
        × IsHalf b (length xs) (value b xs) ms (half_mod_fast b xs ms)
  half_mod-IsHalf j [] ms eb ox om k odd h = absurd (omega (arith, no_words ms k))
    where
      no_words : (ms : List ℕ) → 0 ≡ length ms → value b ms ≡ 0
      no_words [] k = refl
      no_words (m ∷ ms) k = absurd (omega arith)
  half_mod-IsHalf j (x ∷ xs) [] eb ox om k odd h = absurd (omega arith)
  half_mod-IsHalf j (x ∷ xs) (m ∷ ms) eb ox om k odd h =
      let even : b % 2 ≡ 0 = rw (← eb) at (pow_two j).0 in
      let pos : 0 < b = omega (arith, ox.0) in
      let f = x % 2 in
      let mask = masked b (suc j) f (m ∷ ms) eb pos (omega arith) om in
      let zs = map (bit_and (minus b 0 f)) (m ∷ ms) in
      let v = rw mask.1 at (add-StandsFor b (x ∷ xs) zs ox mask.0 (omega (arith, mask.2))) in
      let double : b * value b xs ≡ 2 * (b / 2 * value b xs) =
        omega (arith, ap (λ (t : ℕ). t * value b xs) (halves even)) in
      (
        rw (half_mod-cons x m xs ms pos ox.0 mask.0)
            (even_sum j f (x ∷ xs) (m ∷ ms) (add b (x ∷ xs) zs) eb v odd h (omega (arith, double))),
        half_mod_fast-IsHalf j (x ∷ xs) (m ∷ ms) eb ox om k odd h,
      )
