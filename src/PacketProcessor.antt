-- ===== src/PacketProcessor.antt =====
-- lib/packet_processor/sw/core: the AQL packet processor.
pub mod Addresses
pub mod Queue
pub mod State
pub mod Masks
pub mod Issue
pub mod Interrupts
pub mod Aql
pub mod Loop
pub mod Tokens
pub mod Invariant
pub mod Safety
mod Tests
