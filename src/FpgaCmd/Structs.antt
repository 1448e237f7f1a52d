-- ===== src/FpgaCmd/Structs.antt =====
-- The enumerations and packets of hsa_packets.h of the FPGA command processor, with HSA_LARGE_MODEL. Signals are their handles.
use mathlib.Core.List.{List, [], ◌∷◌}
use lib_hsa.Packets.Layout.{
  Enumeration, Member, member, Format, kernel_dispatch_format, agent_dispatch_format,
  barrier_and_format, barrier_or_format,
}
use lib_hsa.Base.{codes}

-- `hsa_packet_type_t`
abbrev pub packet_types : Enumeration
packet_types =
    (codes "HSA_PACKET_TYPE_VENDOR_SPECIFIC", 0)
    ∷ (codes "HSA_PACKET_TYPE_INVALID", 1)
    ∷ (codes "HSA_PACKET_TYPE_KERNEL_DISPATCH", 2)
    ∷ (codes "HSA_PACKET_TYPE_BARRIER_AND", 3)
    ∷ (codes "HSA_PACKET_TYPE_AGENT_DISPATCH", 4)
    ∷ (codes "HSA_PACKET_TYPE_BARRIER_OR", 5)
    ∷ []

-- `hsa_packet_header_t`
abbrev pub header_bits : Enumeration
header_bits =
    (codes "HSA_PACKET_HEADER_TYPE", 0)
    ∷ (codes "HSA_PACKET_HEADER_BARRIER", 8)
    ∷ (codes "HSA_PACKET_HEADER_SCACQUIRE_FENCE_SCOPE", 9)
    ∷ (codes "HSA_PACKET_HEADER_ACQUIRE_FENCE_SCOPE", 9)
    ∷ (codes "HSA_PACKET_HEADER_SCRELEASE_FENCE_SCOPE", 11)
    ∷ (codes "HSA_PACKET_HEADER_RELEASE_FENCE_SCOPE", 11)
    ∷ []

-- `hsa_packet_header_width_t`
abbrev pub header_widths : Enumeration
header_widths =
    (codes "HSA_PACKET_HEADER_WIDTH_TYPE", 8)
    ∷ (codes "HSA_PACKET_HEADER_WIDTH_BARRIER", 1)
    ∷ (codes "HSA_PACKET_HEADER_WIDTH_SCACQUIRE_FENCE_SCOPE", 2)
    ∷ (codes "HSA_PACKET_HEADER_WIDTH_ACQUIRE_FENCE_SCOPE", 2)
    ∷ (codes "HSA_PACKET_HEADER_WIDTH_SCRELEASE_FENCE_SCOPE", 2)
    ∷ (codes "HSA_PACKET_HEADER_WIDTH_RELEASE_FENCE_SCOPE", 2)
    ∷ []

-- `hsa_fence_scope_t`
abbrev pub fence_scopes : Enumeration
fence_scopes =
    (codes "HSA_FENCE_SCOPE_NONE", 0)
    ∷ (codes "HSA_FENCE_SCOPE_AGENT", 1)
    ∷ (codes "HSA_FENCE_SCOPE_SYSTEM", 2)
    ∷ []

-- `hsa_kernel_dispatch_packet_setup_t`
abbrev pub setup_bits : Enumeration
setup_bits = (codes "HSA_KERNEL_DISPATCH_PACKET_SETUP_DIMENSIONS", 0) ∷ []

-- `hsa_kernel_dispatch_packet_setup_width_t`
abbrev pub setup_widths : Enumeration
setup_widths = (codes "HSA_KERNEL_DISPATCH_PACKET_SETUP_WIDTH_DIMENSIONS", 2) ∷ []

-- `hsa_kernel_dispatch_packet_t`
abbrev pub kernel_dispatch_packet : List Member
kernel_dispatch_packet =
    member "header" 2 1
    ∷ member "setup" 2 1
    ∷ member "workgroup_size_x" 2 1
    ∷ member "workgroup_size_y" 2 1
    ∷ member "workgroup_size_z" 2 1
    ∷ member "reserved0" 2 1
    ∷ member "grid_size_x" 4 1
    ∷ member "grid_size_y" 4 1
    ∷ member "grid_size_z" 4 1
    ∷ member "private_segment_size" 4 1
    ∷ member "group_segment_size" 4 1
    ∷ member "kernel_object" 8 1
    ∷ member "kernarg_address" 8 1
    ∷ member "reserved2" 8 1
    ∷ member "completion_signal" 8 1
    ∷ []

-- `hsa_agent_dispatch_packet_t`
abbrev pub agent_dispatch_packet : List Member
agent_dispatch_packet =
    member "header" 2 1
    ∷ member "type" 2 1
    ∷ member "reserved0" 4 1
    ∷ member "return_address" 8 1
    ∷ member "arg" 8 4
    ∷ member "reserved2" 8 1
    ∷ member "completion_signal" 8 1
    ∷ []

-- `hsa_barrier_and_packet_t`
abbrev pub barrier_and_packet : List Member
barrier_and_packet =
    member "header" 2 1
    ∷ member "reserved0" 2 1
    ∷ member "reserved1" 4 1
    ∷ member "dep_signal" 8 5
    ∷ member "reserved2" 8 1
    ∷ member "completion_signal" 8 1
    ∷ []

-- `hsa_barrier_or_packet_t`
abbrev pub barrier_or_packet : List Member
barrier_or_packet =
    member "header" 2 1
    ∷ member "reserved0" 2 1
    ∷ member "reserved1" 4 1
    ∷ member "dep_signal" 8 5
    ∷ member "reserved2" 8 1
    ∷ member "completion_signal" 8 1
    ∷ []

-- `hsa_agent_info_t`
abbrev pub agent_info : Enumeration
agent_info =
    (codes "HSA_AGENT_INFO_NAME", 0)
    ∷ (codes "HSA_AGENT_INFO_VENDOR_NAME", 1)
    ∷ (codes "HSA_AGENT_INFO_FEATURE", 2)
    ∷ (codes "HSA_AGENT_INFO_MACHINE_MODEL", 3)
    ∷ (codes "HSA_AGENT_INFO_PROFILE", 4)
    ∷ (codes "HSA_AGENT_INFO_DEFAULT_FLOAT_ROUNDING_MODE", 5)
    ∷ (codes "HSA_AGENT_INFO_BASE_PROFILE_DEFAULT_FLOAT_ROUNDING_MODES", 23)
    ∷ (codes "HSA_AGENT_INFO_FAST_F16_OPERATION", 24)
    ∷ (codes "HSA_AGENT_INFO_WAVEFRONT_SIZE", 6)
    ∷ (codes "HSA_AGENT_INFO_WORKGROUP_MAX_DIM", 7)
    ∷ (codes "HSA_AGENT_INFO_WORKGROUP_MAX_SIZE", 8)
    ∷ (codes "HSA_AGENT_INFO_GRID_MAX_DIM", 9)
    ∷ (codes "HSA_AGENT_INFO_GRID_MAX_SIZE", 10)
    ∷ (codes "HSA_AGENT_INFO_FBARRIER_MAX_SIZE", 11)
    ∷ (codes "HSA_AGENT_INFO_QUEUES_MAX", 12)
    ∷ (codes "HSA_AGENT_INFO_QUEUE_MIN_SIZE", 13)
    ∷ (codes "HSA_AGENT_INFO_QUEUE_MAX_SIZE", 14)
    ∷ (codes "HSA_AGENT_INFO_QUEUE_TYPE", 15)
    ∷ (codes "HSA_AGENT_INFO_NODE", 16)
    ∷ (codes "HSA_AGENT_INFO_DEVICE", 17)
    ∷ (codes "HSA_AGENT_INFO_CACHE_SIZE", 18)
    ∷ (codes "HSA_AGENT_INFO_ISA", 19)
    ∷ (codes "HSA_AGENT_INFO_EXTENSIONS", 20)
    ∷ (codes "HSA_AGENT_INFO_VERSION_MAJOR", 21)
    ∷ (codes "HSA_AGENT_INFO_VERSION_MINOR", 22)
    ∷ []

abbrev pub members : Format → List Member
members kernel_dispatch_format = kernel_dispatch_packet
members agent_dispatch_format = agent_dispatch_packet
members barrier_and_format = barrier_and_packet
members barrier_or_format = barrier_or_packet

abbrev pub enumerations : List Enumeration
enumerations =
    packet_types ∷ header_bits ∷ header_widths ∷ fence_scopes ∷ setup_bits ∷ setup_widths
    ∷ agent_info ∷ []
