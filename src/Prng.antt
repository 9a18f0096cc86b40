-- ===== src/Prng.antt =====
-- src/core/prng.c: the generators COMBO, Echo and STB. A request returns the octets and the new state.
pub mod Combo
pub mod Echo
pub mod Stb
mod Tests
