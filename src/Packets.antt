-- ===== src/Packets.antt =====
-- hsa_packets.h: the types and the header fields of AQL packets, and where the fields of the
-- kernel dispatch and barrier packets lie (HSA_LARGE_MODEL). The header words that the FPGA command
-- processor builds (`header` and `setup` of fpga_cmd_processor.h) and what the packet processor
-- reads out of them.

pub mod KernelDispatch
pub mod Barrier
pub mod Layout
pub mod Structs
use lib_hsa.Base.{ℕ}

-- `hsa_packet_type_t`
pub data PacketType : Type 0 where
  vendor_specific invalid kernel_dispatch barrier_and agent_dispatch barrier_or : PacketType

-- The number that the enumeration gives a type.
abbrev pub packet_type_code : PacketType → ℕ
packet_type_code vendor_specific = 0
packet_type_code invalid = 1
packet_type_code kernel_dispatch = 2
packet_type_code barrier_and = 3
packet_type_code agent_dispatch = 4
packet_type_code barrier_or = 5

-- `hsa_fence_scope_t`
pub data FenceScope : Type 0 where
  scope_none scope_agent scope_system : FenceScope

abbrev pub fence_scope_code : FenceScope → ℕ
fence_scope_code scope_none = 0
fence_scope_code scope_agent = 1
fence_scope_code scope_system = 2

-- `hsa_packet_header_t`: the first bit of each field of the header.
abbrev pub header_type : ℕ
header_type = 0

abbrev pub header_barrier : ℕ
header_barrier = 8

abbrev pub header_scacquire_fence_scope : ℕ
header_scacquire_fence_scope = 9

abbrev pub header_screlease_fence_scope : ℕ
header_screlease_fence_scope = 11

-- `hsa_packet_header_width_t`
abbrev pub header_width_type : ℕ
header_width_type = 8

abbrev pub header_width_barrier : ℕ
header_width_barrier = 1

-- PACKETSIZE
abbrev pub packet_size : ℕ
packet_size = 64
