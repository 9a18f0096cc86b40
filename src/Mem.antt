-- ===== src/Mem.antt =====
-- Memory, src/core/mem.c: the children model the tests of buffers, the positions of buffers and the
-- joining of overlapping buffers.
pub mod Buffers
pub mod Places
pub mod Store
mod Tests
