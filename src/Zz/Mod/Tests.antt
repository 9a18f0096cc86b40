-- ===== src/Zz/Mod/Tests.antt =====
-- Concrete runs of the modular operations on octets as words.
use bee.Common.{ℕ, ◌+◌, ◌-◌, ◌*◌, ◌≡◌, ◌≢◌, ◌⊎◌, inl, inr, true, List, [], ◌∷◌, refl, arith}
use bee.Zz.Value.{AreWords, value}
use bee.Zz.Etc.{is_odd}
use bee.Zz.Mod.{
  add_mod, add_mod_fast, add_w_mod_fast, sub_mod, sub_mod_fast, neg_mod, neg_mod_fast, double_mod,
  double_mod_fast, half_mod, half_mod_fast,
}
use bee.Zz.Mod.Reduce.{IsResidue}
use bee.Zz.Mod.Sum.{add_mod-IsResidue, add_w_mod_fast-cases}
use bee.Zz.Mod.Difference.{sub_mod-IsResidue, neg_mod-IsResidue}
use bee.Zz.Mod.Double.{double_mod-IsResidue}
use bee.Zz.Mod.Half.{IsHalf, half_mod-IsHalf}

-- 261, 263 and the modulus 265.
abbrev small_words : List ℕ
small_words = 5 ∷ 1 ∷ []

abbrev large_words : List ℕ
large_words = 7 ∷ 1 ∷ []

abbrev modulus_words : List ℕ
modulus_words = 9 ∷ 1 ∷ []

small_words-AreWords : AreWords 256 small_words
small_words-AreWords = (omega arith, (omega arith, tt))

large_words-AreWords : AreWords 256 large_words
large_words-AreWords = (omega arith, (omega arith, tt))

modulus_words-AreWords : AreWords 256 modulus_words
modulus_words-AreWords = (omega arith, (omega arith, tt))

modulus_is_odd : is_odd modulus_words ≡ true
unfolding is_odd
modulus_is_odd = refl

add_mod-IsResidue_example :
    IsResidue 256 2 (261 + 263) modulus_words (add_mod 256 small_words large_words modulus_words)
    × IsResidue 256 2
        (261 + 263)
        modulus_words
        (add_mod_fast 256 small_words large_words modulus_words)
add_mod-IsResidue_example =
    add_mod-IsResidue 256 7 small_words large_words modulus_words refl small_words-AreWords
      large_words-AreWords modulus_words-AreWords refl refl (omega arith) (omega arith)

add_w_mod_fast-cases_example :
    ((value 256 small_words + 4 ≢ value 256 modulus_words)
      × IsResidue 256 2
          (value 256 small_words + 4)
          modulus_words
          (add_w_mod_fast 256 small_words 4 modulus_words))
    ⊎ ((value 256 small_words + 4 ≡ value 256 modulus_words)
        × (add_w_mod_fast 256 small_words 4 modulus_words ≡ modulus_words))
add_w_mod_fast-cases_example =
    add_w_mod_fast-cases 256 7 small_words 4 modulus_words refl small_words-AreWords (omega arith)
      modulus_words-AreWords refl (omega arith) (omega arith)

-- The sum is the modulus: the fast variant leaves it, the regular one gives zero.
sum_is_modulus : add_w_mod_fast 256 small_words 4 modulus_words ≡ 9 ∷ 1 ∷ []
sum_is_modulus =
    elim (add_w_mod_fast-cases 256 7 small_words 4 modulus_words refl small_words-AreWords
      (omega arith) modulus_words-AreWords refl (omega arith) (omega arith)) [
        | inl (ne, _) ↦ absurd (ne refl)
        | inr (_, e) ↦ e
      ]

sub_mod-IsResidue_example :
    IsResidue 256 2
      (261 + (265 - 263))
      modulus_words
      (sub_mod 256 small_words large_words modulus_words)
    × IsResidue 256 2
        (261 + (265 - 263))
        modulus_words
        (sub_mod_fast 256 small_words large_words modulus_words)
sub_mod-IsResidue_example =
    sub_mod-IsResidue 256 7 small_words large_words modulus_words refl small_words-AreWords
      large_words-AreWords modulus_words-AreWords refl refl (omega arith) (omega arith)

neg_mod-IsResidue_example :
    IsResidue 256 2 (265 - 261) modulus_words (neg_mod 256 small_words modulus_words)
    × IsResidue 256 2 (265 - 261) modulus_words (neg_mod_fast 256 small_words modulus_words)
neg_mod-IsResidue_example =
    neg_mod-IsResidue 256 7 small_words modulus_words refl small_words-AreWords
      modulus_words-AreWords refl (omega arith)

double_mod-IsResidue_example :
    IsResidue 256 2 (2 * 261) modulus_words (double_mod 256 small_words modulus_words)
    × IsResidue 256 2 (2 * 261) modulus_words (double_mod_fast 256 small_words modulus_words)
double_mod-IsResidue_example =
    double_mod-IsResidue 256 7 small_words modulus_words refl small_words-AreWords
      modulus_words-AreWords refl (omega arith)

half_mod-IsHalf_example :
    IsHalf 256 2 261 modulus_words (half_mod 256 small_words modulus_words)
    × IsHalf 256 2 261 modulus_words (half_mod_fast 256 small_words modulus_words)
half_mod-IsHalf_example =
    half_mod-IsHalf 256 7 small_words modulus_words refl small_words-AreWords modulus_words-AreWords
      refl modulus_is_odd (omega arith)
