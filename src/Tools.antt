-- ===== src/Tools.antt =====
-- The host tools of tools/: mti2hex and vsim2cmd, which turn memory images into hex files and C arrays,
-- and aql2mem, which writes packets into a memory image.
pub mod Text
pub mod Prefix
pub mod Numbers
pub mod Result
pub mod Tokenize
pub mod Image
pub mod HexFile
pub mod Segments
pub mod AqlToMem
pub mod Items
mod Tests
