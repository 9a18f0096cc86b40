-- ===== src/Zz/Mul/Tests.antt =====
-- Concrete runs of products and divisions on octets as words.
use bee.Common.{ℕ, ◌*◌, ◌%◌, ◌≡◌, some, List, [], ◌∷◌, length, refl, arith}
use bee.Zz.Value.{AreWords, value}
use bee.Zz.Mul.{mul, div_w, mod_w2, mod_w2_fast}
use bee.Zz.Mul.Product.{mul-Holds}
use bee.Zz.Mul.Divide.{Divides, div_w-Divides}
use bee.Zz.Mul.Remainder.{mod_w2_lem}

abbrev three_words : List ℕ
three_words = 5 ∷ 255 ∷ 254 ∷ []

abbrev two_words : List ℕ
two_words = 250 ∷ 3 ∷ []

three_words-AreWords : AreWords 256 three_words
three_words-AreWords = (omega arith, (omega arith, (omega arith, tt)))

two_words-AreWords : AreWords 256 two_words
two_words-AreWords = (omega arith, (omega arith, tt))

mul-Holds_example :
    AreWords 256 (mul 256 three_words two_words)
    × (length (mul 256 three_words two_words) ≡ 5)
    × (value 256 (mul 256 three_words two_words) ≡ value 256 three_words * value 256 two_words)
mul-Holds_example =
    mul-Holds 256 three_words two_words (omega arith) three_words-AreWords two_words-AreWords

div_w-Divides_example : Divides 256 3 (value 256 three_words) 7 (div_w 256 three_words 7)
div_w-Divides_example =
    div_w-Divides 256 8 three_words 7 refl (omega arith) (omega arith) three_words-AreWords

mod_w2_lem_example :
    (mod_w2_fast 256 2 three_words 16 ≡ some (value 256 three_words % 16))
    × (mod_w2 256 three_words 16 ≡ value 256 three_words % 16)
mod_w2_lem_example =
    mod_w2_lem 256 16 three_words (omega arith) (omega arith) (omega arith) three_words-AreWords
