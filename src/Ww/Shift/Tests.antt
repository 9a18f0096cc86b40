-- ===== src/Ww/Shift/Tests.antt =====
-- Concrete runs of shifts and trims on three octets as words.
use bee.Common.{ℕ, ◌≡◌, ◌%◌, ◌/◌, ◌*◌, ◌+◌, ◌^◌, List, [], ◌∷◌, arith, length}
use bee.Zz.Value.{AreWords, value}
use bee.Ww.Shift.{sh_lo, sh_hi, trim_lo, trim_hi}
use bee.Ww.Shift.Low.{sh_lo-value}
use bee.Ww.Shift.High.{sh_hi-value}
use bee.Ww.Shift.Trim.{trim_lo-value, trim_hi-value}

abbrev octets : List ℕ
octets = 171 ∷ 205 ∷ 18 ∷ []

octets-AreWords : AreWords 256 octets
octets-AreWords = (omega arith, (omega arith, (omega arith, tt)))

sh_lo-value_example :
    AreWords 256 (sh_lo 8 octets 11)
    × (length (sh_lo 8 octets 11) ≡ 3)
    × (value 256 (sh_lo 8 octets 11) ≡ 1232299 / 2 ^ 11)
sh_lo-value_example = sh_lo-value 8 (omega arith) octets 11 octets-AreWords

sh_hi-value_example :
    AreWords 256 (sh_hi 8 octets 11)
    × (length (sh_hi 8 octets 11) ≡ 3)
    × (value 256 (sh_hi 8 octets 11) ≡ 2 ^ 11 * 1232299 % 2 ^ 24)
sh_hi-value_example = sh_hi-value 8 (omega arith) octets 11 octets-AreWords

trim_lo-value_example :
    AreWords 256 (trim_lo 8 octets 11)
    × (length (trim_lo 8 octets 11) ≡ 3)
    × (value 256 (trim_lo 8 octets 11) + 1232299 % 2 ^ 11 ≡ 1232299)
trim_lo-value_example = trim_lo-value 8 (omega arith) octets 11 octets-AreWords

trim_hi-value_example :
    AreWords 256 (trim_hi 8 octets 11)
    × (length (trim_hi 8 octets 11) ≡ 3)
    × (value 256 (trim_hi 8 octets 11) ≡ 1232299 % 2 ^ 11)
trim_hi-value_example = trim_hi-value 8 (omega arith) octets 11 octets-AreWords
