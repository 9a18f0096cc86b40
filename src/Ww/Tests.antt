-- ===== src/Ww/Tests.antt =====
-- Concrete runs on octets as words.
use bee.Common.{ℕ, ◌≡◌, List, [], ◌∷◌, refl, arith}
use bee.Mem.Buffers.Order.{order}
use bee.Zz.Value.{AreWords}
use bee.Ww.{cmp2, cmp2_fast}
use bee.Ww.Lengths.{cmp2_lem}

abbrev longer_words : List ℕ
longer_words = 5 ∷ 7 ∷ 0 ∷ []

abbrev shorter_words : List ℕ
shorter_words = 6 ∷ 7 ∷ []

longer_words-AreWords : AreWords 256 longer_words
longer_words-AreWords = (omega arith, (omega arith, (omega arith, tt)))

shorter_words-AreWords : AreWords 256 shorter_words
shorter_words-AreWords = (omega arith, (omega arith, tt))

cmp2_lem_example :
    (cmp2 256 longer_words shorter_words ≡ order 1797 1798)
    × (cmp2_fast longer_words shorter_words ≡ order 1797 1798)
cmp2_lem_example =
    cmp2_lem 256 longer_words shorter_words refl (omega arith) longer_words-AreWords
      shorter_words-AreWords
