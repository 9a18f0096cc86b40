-- ===== src/Zz/Mod/Reduce.antt =====
-- What a modular operation promises, and the arithmetic behind it: one subtraction of the modulus reduces
-- a sum below twice the modulus, one addition repairs a difference with a borrow.
use bee.Common.{ℕ, ◌+◌, ◌-◌, ◌*◌, ◌%◌, ◌^◌, ◌<◌, ◌≤◌, ◌≡◌, ◌⊎◌, inl, inr, ap, List, length, arith}
use bee.Zz.Value.{AreWords, value, value-lt}
use bee.Zz.Add.{Result}
use bee.Zz.Add.Words.{wrap}
use bee.Zz.Add.Laws.{StandsFor}
use bee.Zz.Sub.Laws.{Differs}

-- `n` words that stand for the residue of `s` modulo the number of `ms`.
pub record IsResidue (b n s : ℕ) (ms words : List ℕ) : Type 0 where
  pub are_words : AreWords b words
  pub size : length words ≡ n
  pub residue : value b words ≡ s % value b ms

pub flag_cases : (c : ℕ) → c ≤ 1 → (c ≡ 0) ⊎ (c ≡ 1)
flag_cases c h = omega arith

-- Is the modulus to be subtracted?
abbrev pub Subtracts : ℕ → ℕ → ℕ → ℕ → Type 0
Subtracts f carry m v =
    ((f ≡ 1) × ((carry ≡ 1) ⊎ ((carry ≡ 0) × (m ≤ v)))) ⊎ ((f ≡ 0) × (carry ≡ 0) × (v < m))

module _ (b : ℕ) where
  -- A sum below twice the modulus, and the difference that the flag asks for.
  pub reduce :
      (n s f : ℕ) (ms : List ℕ) (sum diff : Result)
      → StandsFor b n s sum
      → Differs b n (value b sum.words) (f * value b ms) diff
      → value b ms < b ^ n
      → s < value b ms + value b ms
      → Subtracts f sum.carry (value b ms) (value b sum.words)
      → IsResidue b n s ms diff.words
  reduce n s f ms sum diff v d room small flag =
      let m = value b ms in
      let top : value b diff.words < b ^ n = rw d.size at (value-lt b diff.words d.are_words) in
      let top' : value b sum.words < b ^ n = rw v.size at (value-lt b sum.words v.are_words) in
      let borrow = flag_cases diff.carry d.flag in
      record {
        are_words = d.are_words;
        size = d.size;
        residue = elim flag [
          | inl (one, inl full) ↦
              let scaled = ap (λ (t : ℕ). b ^ n * t) full in
              let once = ap (λ (t : ℕ). t * m) one in
              elim borrow [
                | inl z ↦
                    let none = ap (λ (t : ℕ). b ^ n * t) z in
                    absurd (omega (arith, scaled, once, none, v.total, d.total))
                | inr o ↦
                    let all = ap (λ (t : ℕ). b ^ n * t) o in
                    let cases = wrap m s small in
                    omega (arith, scaled, once, all, v.total, d.total, cases)
              ]
          | inl (one, inr (empty, over)) ↦
              let scaled = ap (λ (t : ℕ). b ^ n * t) empty in
              let once = ap (λ (t : ℕ). t * m) one in
              elim borrow [
                | inl z ↦
                    let none = ap (λ (t : ℕ). b ^ n * t) z in
                    let cases = wrap m s small in
                    omega (arith, scaled, once, none, v.total, d.total, cases)
                | inr o ↦
                    let all = ap (λ (t : ℕ). b ^ n * t) o in
                    absurd (omega (arith, scaled, once, all, v.total, d.total))
              ]
          | inr (none_flag, empty, under) ↦
              let scaled = ap (λ (t : ℕ). b ^ n * t) empty in
              let never = ap (λ (t : ℕ). t * m) none_flag in
              elim borrow [
                | inl z ↦
                    let none = ap (λ (t : ℕ). b ^ n * t) z in
                    let cases = wrap m s small in
                    omega (arith, scaled, never, none, v.total, d.total, cases)
                | inr o ↦
                    let all = ap (λ (t : ℕ). b ^ n * t) o in
                    absurd (omega (arith, scaled, never, all, v.total, d.total))
              ]
        ];
      }

  -- A difference of residues, and the sum that its borrow asks for.
  pub restore :
      (n s t : ℕ) (ms : List ℕ) (diff sum : Result)
      → Differs b n s t diff
      → StandsFor b n (value b diff.words + diff.carry * value b ms) sum
      → value b ms < b ^ n
      → s < value b ms
      → t < value b ms
      → IsResidue b n (s + (value b ms - t)) ms sum.words
  restore n s t ms diff sum d v room hs ht =
      let m = value b ms in
      let top : value b diff.words < b ^ n = rw d.size at (value-lt b diff.words d.are_words) in
      let top' : value b sum.words < b ^ n = rw v.size at (value-lt b sum.words v.are_words) in
      let cases = wrap m (s + (m - t)) (omega arith) in
      record {
        are_words = v.are_words;
        size = v.size;
        residue = elim (flag_cases diff.carry d.flag) [
          | inl z ↦
              let none = ap (λ (k : ℕ). b ^ n * k) z in
              let never = ap (λ (k : ℕ). k * m) z in
              elim (flag_cases sum.carry v.flag) [
                | inl empty ↦
                    let low = ap (λ (k : ℕ). b ^ n * k) empty in
                    omega (arith, none, never, low, v.total, d.total, cases)
                | inr full ↦
                    let high = ap (λ (k : ℕ). b ^ n * k) full in
                    absurd (omega (arith, none, never, high, v.total, d.total))
              ]
          | inr o ↦
              let all = ap (λ (k : ℕ). b ^ n * k) o in
              let once = ap (λ (k : ℕ). k * m) o in
              elim (flag_cases sum.carry v.flag) [
                | inl empty ↦
                    let low = ap (λ (k : ℕ). b ^ n * k) empty in
                    absurd (omega (arith, all, once, low, v.total, d.total))
                | inr full ↦
                    let high = ap (λ (k : ℕ). b ^ n * k) full in
                    omega (arith, all, once, high, v.total, d.total, cases)
              ]
        ];
      }
