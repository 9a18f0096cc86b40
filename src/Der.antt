-- ===== src/Der.antt =====
-- src/core/der.c: the Distinguished Encoding Rules. Octet strings are lists; a pointer into the code
-- is the list from there on, and `count` its length. `none` stands for SIZE_MAX. `size_t` has 64 bits
-- (O_PER_S is 8). `x << k`, `x >> k`, `x & (2^k - 1)` and the test of bit k are written
-- `x * 2 ^ k`, `x / 2 ^ k`, `x % 2 ^ k` and `x / 2 ^ k % 2`, with `% 2 ^ w` where a w-bit integer
-- can wrap; `|` joins disjoint fields and is their sum.
pub mod Len
pub mod Tag
pub mod Tlv
pub mod Size
pub mod Bits
mod Tests
