-- ===== src/FpgaCmd.antt =====
-- lib/fpga_cmd_processor/sw: the processor that stands for the host. It builds AQL packets, starts
-- the other processors and serves the packet processor's requests for transfers and decrements.
pub mod Structs
pub mod Header
pub mod Transfer
pub mod Host
pub mod Submit
pub mod Effects
mod Tests
