-- ===== src/Mem/Store.antt =====
-- `memJoin`: two buffers, which may overlap the destination, are put one behind the other. The store
-- gives the octet at each address.
pub mod Moves
pub mod Join
use bee.Common.{ℕ, zero, suc, ◌+◌, ◌-◌, Bool, true, false, ◌&&◌, leb, ltb, ◌==◌, if◌then◌else◌}
use bee.Mem.Places.{is_disjoint2}

abbrev pub Store : Type 0
Store = ℕ → ℕ

-- One octet is written.
abbrev pub put : Store → ℕ → ℕ → Store
put s p o = λ a. if a == p then o else s a

-- `memMove(dest, src, count)`
abbrev pub move : Store → ℕ → ℕ → ℕ → Store
move s dest src count =
    λ a. if leb dest a && ltb a (dest + count) then s (src + (a - dest)) else s a

-- The loop `dest <- dest <<< k` on `n` octets.
pub rotate : Store → ℕ → ℕ → ℕ → Store
rotate s dest n zero = s
rotate s dest n (suc k) =
    let o = s dest in
    let moved = move s dest (dest + 1) (n - 1) in rotate (put moved (dest + n - 1) o) dest n k

-- One pass of `memJoin`, with what it does behind `else` as its last argument.
pub join_once : Store → ℕ → ℕ → ℕ → ℕ → ℕ → Store → Store
join_once s dest src1 count1 src2 count2 again =
    if is_disjoint2 dest count1 src2 count2
    then move (move s dest src1 count1) (dest + count1) src2 count2
    else if is_disjoint2 (dest + count1) count2 src1 count1
    then move (move s (dest + count1) src2 count2) dest src1 count1
    else if is_disjoint2 dest count2 src1 count1
    then rotate (move (move s dest src2 count2) (dest + count2) src1 count1) dest (count1 + count2)
        count2
    else if is_disjoint2 (dest + count2) count1 src2 count2
    then rotate (move (move s (dest + count2) src1 count1) dest src2 count2) dest (count1 + count2)
        count2
    else again

-- The first and the last octet of the destination are written.
pub put_ends : Store → ℕ → ℕ → ℕ → ℕ → ℕ → Store
put_ends s dest src1 count1 src2 count2 =
    let first = put s dest (s src1) in
    put first (dest + count1 + count2 - 1) (first (src2 + count2 - 1))

-- The passes of `memJoin`; `fuel` bounds their number.
pub join_from : ℕ → Store → ℕ → ℕ → ℕ → ℕ → ℕ → Store
join_from zero s dest src1 count1 src2 count2 = join_once s dest src1 count1 src2 count2 s
join_from (suc fuel) s dest src1 count1 src2 count2 = join_once s dest src1 count1 src2 count2 (
    join_from fuel (put_ends s dest src1 count1 src2 count2) (dest + 1) (src1 + 1) (count1 - 1) src2
      (count2 - 1))

-- `memJoin`: each repetition takes an octet off the first buffer.
pub join : Store → ℕ → ℕ → ℕ → ℕ → ℕ → Store
join s dest src1 count1 src2 count2 = join_from count1 s dest src1 count1 src2 count2
