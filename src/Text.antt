-- ===== src/Text.antt =====
-- lib/string.c: strings and blocks of bytes in memory.
--
-- Memory is a function from addresses to bytes. A `char` is its 8-bit pattern.
pub mod Strings
pub mod Blocks
pub mod Moving
pub mod Filling
pub mod Numbers
pub mod Format
pub mod Printf
pub mod Chunks
pub mod Output
pub mod Parse
pub mod Bounded
pub mod Signed
