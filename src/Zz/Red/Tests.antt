-- ===== src/Zz/Red/Tests.antt =====
-- A concrete run on octets as words: 265 has the parameter 199, 9 * 199 + 1 is 7 * 256.
use bee.Common.{ℕ, ◌%◌, ◌≡◌, ◌⊎◌, List, [], ◌∷◌, refl, arith}
use bee.Zz.Value.{AreWords, value}
use bee.Zz.Red.{red_mont, red_mont_fast}
use bee.Zz.Red.Mont.{IsMontgomery, red_mont-IsMontgomery}

abbrev product_words : List ℕ
product_words = 1 ∷ 2 ∷ 3 ∷ 0 ∷ []

abbrev modulus_words : List ℕ
modulus_words = 9 ∷ 1 ∷ []

product_words-AreWords : AreWords 256 product_words
product_words-AreWords = (omega arith, (omega arith, (omega arith, (omega arith, tt))))

modulus_words-AreWords : AreWords 256 modulus_words
modulus_words-AreWords = (omega arith, (omega arith, tt))

red_mont-IsMontgomery_example :
    IsMontgomery 256
      (value 256 product_words)
      modulus_words
      (red_mont_fast 256 product_words modulus_words 199)
    × (IsMontgomery 256
          (value 256 product_words)
          modulus_words
          (red_mont 256 product_words modulus_words 199)
        ⊎ ((value 256 product_words % value 256 modulus_words ≡ 0)
            × (red_mont 256 product_words modulus_words 199 ≡ modulus_words)))
red_mont-IsMontgomery_example =
    red_mont-IsMontgomery 256 7 9 199 (1 ∷ []) product_words refl modulus_words-AreWords
      product_words-AreWords refl refl (omega arith)
