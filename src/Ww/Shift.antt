-- ===== src/Ww/Shift.antt =====
-- Shifts and trims of src/math/ww.c on words of `bits` bits, B_PER_W in the source.
-- The source works in place: wwShLo runs upwards and reads the words above, wwShHi runs downwards and reads
-- the words below, so that a word is read before it is written.
pub mod Low
pub mod High
pub mod Trim
mod Tests
use bee.Common.{
  ℕ, zero, suc, ◌+◌, ◌-◌, ◌*◌, ◌/◌, ◌%◌, ◌^◌, List, [], ◌∷◌, ◌++◌, length, take, drop, replicate,
  bit_or, ltb, ◌==◌, if◌then◌else◌,
}

module _ (bits : ℕ) where
  -- `w << s`
  pub left : ℕ → ℕ → ℕ
  left w s = w * 2 ^ s % 2 ^ bits

  -- The words of `wwShLo` where the shift is not a multiple of the word.
  pub low_words : ℕ → List ℕ → List ℕ
  low_words s [] = []
  low_words s (x ∷ []) = x / 2 ^ s ∷ []
  low_words s (x ∷ y ∷ xs) = bit_or (x / 2 ^ s) (left y (bits - s)) ∷ low_words s (y ∷ xs)

  -- `wwShLo`
  pub sh_lo : List ℕ → ℕ → List ℕ
  sh_lo xs shift =
      let w = shift / bits in
      let s = shift % bits in
      let kept = drop w xs in
      if ltb shift (bits * length xs)
      then (if s == 0 then kept else low_words s kept) ++ replicate w 0
      else replicate (length xs) 0

  -- The words of `wwShHi` above the first one; `prev` is the word below.
  pub high_words : ℕ → ℕ → List ℕ → List ℕ
  high_words s prev [] = []
  high_words s prev (x ∷ xs) = bit_or (left x s) (prev / 2 ^ (bits - s)) ∷ high_words s x xs

  pub high_first : ℕ → List ℕ → List ℕ
  high_first s [] = []
  high_first s (x ∷ xs) = left x s ∷ high_words s x xs

  -- `wwShHi`
  pub sh_hi : List ℕ → ℕ → List ℕ
  sh_hi xs shift =
      let n = length xs in
      let w = shift / bits in
      let s = shift % bits in
      let kept = take (n - w) xs in
      if ltb shift (bits * n)
      then replicate w 0 ++ (if s == 0 then kept else high_first s kept)
      else replicate n 0

  -- The words from the place of `wwTrimLo` on.
  pub trim_lo_from : ℕ → List ℕ → List ℕ
  trim_lo_from p [] = []
  trim_lo_from p (x ∷ xs) = (if p == 0 then x else left (x / 2 ^ p) p) ∷ xs

  -- `wwTrimLo`
  pub trim_lo : List ℕ → ℕ → List ℕ
  trim_lo xs pos =
      let n = length xs in
      let i = pos / bits in
      if ltb i n
      then replicate i 0 ++ trim_lo_from (pos % bits) (drop i xs)
      else replicate (if ltb n i then n else i) 0

  -- The word at the place of `wwTrimHi`, and the words above it.
  pub trim_hi_from : ℕ → List ℕ → List ℕ
  trim_hi_from p [] = []
  trim_hi_from p (x ∷ xs) = (if p == bits then 0 else left x p / 2 ^ p) ∷ replicate (length xs) 0

  -- `wwTrimHi`
  pub trim_hi : List ℕ → ℕ → List ℕ
  trim_hi xs pos =
      let i = pos / bits in
      if ltb i (length xs) then take i xs ++ trim_hi_from (bits - pos % bits) (drop i xs) else xs
