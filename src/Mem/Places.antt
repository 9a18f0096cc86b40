-- ===== src/Mem/Places.antt =====
-- Where buffers stand: `memIsDisjoint` and its companions on addresses.
use bee.Common.{
  ℕ, ◌+◌, ◌≤◌, ◌<◌, ◌≡◌, ◌↔◌, Bool, true, ◌&&◌, ◌||◌, leb, ◌==◌, Bool-cases, inl, inr, arith,
}

pub is_disjoint : ℕ → ℕ → ℕ → Bool
is_disjoint buf1 buf2 count = count == 0 || leb (buf1 + count) buf2 || leb (buf2 + count) buf1

pub is_same_or_disjoint : ℕ → ℕ → ℕ → Bool
is_same_or_disjoint buf1 buf2 count =
    buf1 == buf2 || count == 0 || leb (buf1 + count) buf2 || leb (buf2 + count) buf1

unfoldable pub is_disjoint2 : ℕ → ℕ → ℕ → ℕ → Bool
is_disjoint2 buf1 count1 buf2 count2 =
    count1 == 0 || count2 == 0 || leb (buf1 + count1) buf2 || leb (buf2 + count2) buf1

pub is_disjoint3 : ℕ → ℕ → ℕ → ℕ → ℕ → ℕ → Bool
is_disjoint3 buf1 count1 buf2 count2 buf3 count3 =
    is_disjoint2 buf1 count1 buf2 count2
    && is_disjoint2 buf1 count1 buf3 count3
    && is_disjoint2 buf2 count2 buf3 count3

pub is_disjoint4 : ℕ → ℕ → ℕ → ℕ → ℕ → ℕ → ℕ → ℕ → Bool
is_disjoint4 buf1 count1 buf2 count2 buf3 count3 buf4 count4 =
    is_disjoint2 buf1 count1 buf2 count2
    && is_disjoint2 buf1 count1 buf3 count3
    && is_disjoint2 buf1 count1 buf4 count4
    && is_disjoint3 buf2 count2 buf3 count3 buf4 count4

-- The addresses of a buffer.
abbrev pub InBuffer : ℕ → ℕ → ℕ → Type 0
InBuffer buf count a = (buf ≤ a) × (a < buf + count)

-- No address is in both buffers.
pub Apart : ℕ → ℕ → ℕ → ℕ → Type 0
Apart buf1 count1 buf2 count2 = (a : ℕ) → InBuffer buf1 count1 a → InBuffer buf2 count2 a → ⊥

-- `memIsDisjoint2` answers whether no address is in both buffers.
pub is_disjoint2_iff :
    (buf1 count1 buf2 count2 : ℕ)
    → (is_disjoint2 buf1 count1 buf2 count2 ≡ true) ↔ Apart buf1 count1 buf2 count2
unfolding is_disjoint2 Apart
is_disjoint2_iff buf1 count1 buf2 count2 = (
  λ h a i j. ground (arith, h),
  λ apart. elim (Bool-cases (leb buf1 buf2)) [
    | inl le ↦ let first = apart buf2 in ground (arith, first)
    | inr gt ↦ let first = apart buf1 in ground (arith, first)
  ],
)
