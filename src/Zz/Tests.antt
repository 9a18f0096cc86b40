-- ===== src/Zz/Tests.antt =====
-- Concrete runs on octets as words.
use bee.Common.{ℕ, ◌≡◌, List, [], ◌∷◌, arith}
use bee.Zz.Value.{AreWords}
use bee.Zz.Add.{add, add_fast, add2, add2_fast}
use bee.Zz.Add.Laws.{add_variants}

abbrev high_words : List ℕ
high_words = 255 ∷ 255 ∷ []

abbrev low_words : List ℕ
low_words = 2 ∷ 255 ∷ []

high_words-AreWords : AreWords 256 high_words
high_words-AreWords = (omega arith, (omega arith, tt))

low_words-AreWords : AreWords 256 low_words
low_words-AreWords = (omega arith, (omega arith, tt))

add_variants_example :
    (add_fast 256 high_words low_words ≡ add 256 high_words low_words)
    × (add2 256 low_words high_words ≡ add 256 high_words low_words)
    × (add2_fast 256 low_words high_words ≡ add 256 high_words low_words)
add_variants_example = add_variants 256 high_words low_words high_words-AreWords low_words-AreWords
