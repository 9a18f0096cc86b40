-- ===== src/Lib.antt =====
-- Bee2, a cryptographic library in C: the encodings and the arithmetic at its bottom.
--
-- The parts and how they interact. src/core holds the services that the rest of the library stands on:
-- memory (mem.c), strings (str.c, hex.c, dec.c, b64.c), dates (tm.c), the Distinguished Encoding Rules
-- (der.c), identifiers (oid.c), units of smart cards (apdu.c). src/core/prng.c holds generators for tests. src/math holds
-- the arithmetic of arrays of words: comparison (ww.c), sums and differences (zz/zz_add.c), products
-- (zz/zz_mul.c), modular operations (zz/zz_mod.c) and reductions (zz/zz_red.c), each calling those before
-- it; the rings, the curves and the signatures of src/crypto stand on them. der.c and apdu.c compare and copy
-- with mem.c; oid.c encodes with der.c.
--
-- Which file models which part:
--   Common      the shared notions: comparisons of C as Booleans, lists measured by native numbers, octets,
--               chains of calls that may fail (`none` is SIZE_MAX), big-endian numbers, `|`, `&`, `^`
--   Mem         src/core/mem.c. Places: memIsDisjoint and its companions on addresses. Buffers: memEq,
--               memCmp, memCmpRev, memIsZero, memIsRep, memNonZeroSize. Store: memMove and memJoin, where
--               the store is a function from addresses to octets, so that buffers may overlap
--   Str         src/core/str.c: strIsNumeric, strIsAlphanumeric, strStartsWith, strEndsWith
--   Hex         src/core/hex.c: all functions
--   Decimal     src/core/dec.c: all functions
--   B64         src/core/b64.c: all functions
--   Tm          src/core/tm.c: tmDateIsValid, tmDateIsValid2
--   Oid         src/core/oid.c: oidIsValid
--   Der         src/core/der.c: Tag (derT...), Len (derL...), Tlv (derTL..., derEnc, derDec, derDec2, derDec3,
--               derDec4, derIsValid, derIsValid2, derStartsWith), Size (derTSIZEEnc, derTSIZEDec,
--               derTSIZEDec2), Bits (derTBITEnc, derTBITDec, derTBITDec2)
--   Apdu        src/core/apdu.c: apduCmdIsValid, apduCmdEnc, apduCmdDec, apduRespIsValid, apduRespEnc,
--               apduRespDec
--   Prng        src/core/prng.c: Combo (prngCOMBOStart, prngCOMBOStepR), Echo (prngEchoStart,
--               prngEchoStepR), Stb (prngSTBStart, prngSTBStepR)
--   Ww          src/math/ww.c: wwEq, wwIsZero, wwIsW, wwCmp, wwCmp2, wwCmpW, wwWordSize;
--               Shift: wwShLo, wwShHi, wwTrimLo, wwTrimHi
--   Zz          src/math/zz: Value (the number of an array), Add and Sub (zz_add.c: all functions), Etc
--               (zz_etc.c: zzIsEven, zzIsOdd, zzAddAndW, zzSubAndW), Mod (zz_mod.c: zzAddMod, zzAddWMod,
--               zzSubMod, zzSubWMod, zzNegMod, zzDoubleMod, zzHalfMod), Mul (zz_mul.c: zzMulW, zzAddMulW,
--               zzSubMulW, zzMul, zzDivW, zzModW, zzModW2), Red (zz_red.c: zzRedMont)
-- A module holds the definitions of a part, its children what is proved of them, and its Tests the concrete
-- runs.
--
-- How the code is written here. An array is a list, and a pointer into it the list from there on; a string is
-- the list of the codes of its characters in front of the zero. A function that writes an array returns it.
-- Where the C function works in place or lets its arguments be the same array (zzAdd, zzSub), each round
-- reads the words of its own place only, before it writes there, so that the lists say the same. The
-- loops are recursion on the list or on the number of rounds left; memJoin repeats itself with shorter buffers, and
-- the length of the first one is a bound on the repetitions that is never exceeded. The
-- loop of the fast zzModW2 has fuel, and two rounds are enough; the octets of a size are counted with fuel for the
-- eight octets of size_t. `SAFE(f)` and `FAST(f)`
-- are the regular and the fast variant of a function f; both are modelled. Words
-- have any modulus `b` (Zz, Ww, Decimal; where masks or bits matter the theorems ask that it is a power of two
-- or even) or any number `k` of octets (Mem); size_t has 64 bits in Der.
-- Unsigned arithmetic wraps where it is written `% b`. ASSERT and the checks of null
-- pointers are left out: the assertions are hypotheses of the theorems where they matter.
--
-- Not modelled: the other typed codes of der.c, the rest of mem.c, str.c, tm.c and word.c, fixed-width words
-- (u16.c, u32.c, u64.c), the bits and the shifts with carries of ww.c, general division and what calls it (zzDiv, zzMod,
-- zz_gcd.c, zz_pow.c, products modulo a number), the other reductions, the remaining arithmetic of src/math and
-- all of src/crypto, which stand on the parts above; allocation, threads, files, entropy and
-- the program in cmd, which are calls of the system.
pub mod Common
pub mod Mem
pub mod Apdu
pub mod Der
pub mod Zz
pub mod Ww
pub mod Prng
pub mod Hex
pub mod Decimal
pub mod B64
pub mod Str
pub mod Tm
pub mod Oid
