-- ===== src/Tools/AqlToMem.antt =====
-- tools/packet_tools/src/aql2mem.cpp: packets for simulations. The memory of the packets begins at
-- address 0 of the model.
pub mod Structs
pub mod Formats
pub mod Header
pub mod Queue
pub mod Dialog
pub mod MemFile
pub mod Answers
pub mod Pasids
pub mod Defaults
pub mod Printed
pub mod Input
pub mod Scripts
pub mod Endless
mod Tests
use lib_hsa.Base.{ℕ}
