-- ===== src/B64/Blocks.antt =====
-- The blocks of a few octets, and the letters of the alphabet.
use bee.Common.{
  ℕ, ◌+◌, ◌*◌, ◌/◌, ◌%◌, ◌^◌, ◌<◌, ◌≡◌, refl, ap, Bool, true, false, ◌&&◌, not, arith, bit_and,
  bit_or, ltb, ◌==◌,
}
use bee.Common.Bits.{passes, by_table}
use bee.Common.BitLaws.{bit_or_low, bit_and_mask}
use bee.B64.{
  alphabet, dec_table, letter, lookup, pad, block3, block2, block_of4, block_of3, block_of2,
}

letter_test : ℕ → Bool
letter_test n = lookup (letter n) == n && (not (letter n == pad) && ltb (letter n) 256)

letter_test_all : passes letter_test 64 ≡ true
unfolding passes letter_test alphabet dec_table
letter_test_all = refl

-- Six bits are read back from their letter, which is not the padding.
pub letter_lem : (n : ℕ) → n < 64 → (lookup (letter n) ≡ n) × ((letter n == pad) ≡ false)
unfolding letter_test
letter_lem n h = let test = by_table letter_test 64 n h letter_test_all in ground (arith, test)

-- `|` behind a shift.
or_shift : (j p u v : ℕ) → p ≡ 2 ^ j → v < p → bit_or (u * p) v ≡ u * p + v
or_shift j p u v e h =
    let swap : u * p ≡ 2 ^ j * u = omega (arith, ap (λ (t : ℕ). u * t) e) in
    rw swap (bit_or_low j u v (omega (arith, e)))

pub block3_eq : (x y z : ℕ) → y < 256 → z < 256 → block3 x y z ≡ (x * 256 + y) * 256 + z
unfolding block3
block3_eq x y z hy hz = rw (or_shift 8 256 x y refl hy) (or_shift 8 256 (x * 256 + y) z refl hz)

pub block2_eq : (x y : ℕ) → y < 256 → block2 x y ≡ (x * 256 + y) * 4
unfolding block2
block2_eq x y hy = rw (or_shift 8 256 x y refl hy) refl

pub mask6 : (n : ℕ) → bit_and n 63 ≡ n % 64
mask6 n = bit_and_mask 6 n 63 refl

pub mask8 : (n : ℕ) → bit_and n 255 ≡ n % 256
mask8 n = bit_and_mask 8 n 255 refl

module _ (a b m n : ℕ) (ha : lookup a ≡ m) (hb : lookup b ≡ n) (hn : n < 64) where
  pub block_of2_eq : block_of2 a b ≡ (m * 64 + n) / 16
  unfolding block_of2
  block_of2_eq = rw (ha, hb) (rw (or_shift 6 64 m n refl hn) refl)

  module _ (c o : ℕ) (hc : lookup c ≡ o) (ho : o < 64) where
    pub block_of3_eq : block_of3 a b c ≡ ((m * 64 + n) * 64 + o) / 4
    unfolding block_of3
    block_of3_eq =
        rw (ha, hb, hc)
          (rw (or_shift 6 64 m n refl hn) (rw (or_shift 6 64 (m * 64 + n) o refl ho) refl))

    pub block_of4_eq :
        (d p : ℕ) → lookup d ≡ p → p < 64 → block_of4 a b c d ≡ ((m * 64 + n) * 64 + o) * 64 + p
    unfolding block_of4
    block_of4_eq d p hd hp =
        rw (ha, hb, hc, hd)
          (rw (or_shift 6 64 m n refl hn) (
            rw (or_shift 6 64 (m * 64 + n) o refl ho)
              (or_shift 6 64 ((m * 64 + n) * 64 + o) p refl hp)))
