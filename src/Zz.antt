-- ===== src/Zz.antt =====
-- src/math/zz: natural numbers of many machine words, the least significant first. A word is a number
-- below `b`, which stands for 2^B_PER_W (B_PER_W is 16, 32 or 64); sums and differences of words are
-- taken modulo `b`. An array is the list of its `n` words. The loops read the words of index i of all
-- arrays before they write that of the result, so a result may share its array with an operand, as the
-- source allows. Where the source has a regular (SAFE) and a fast (FAST, or SAFE_FAST defined) variant,
-- both are modelled.
pub mod Value
pub mod Add
pub mod Sub
pub mod Etc
pub mod Mod
pub mod Mul
pub mod Red
mod Tests
