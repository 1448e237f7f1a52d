-- ===== src/Tools/AqlToMem/Header.antt =====
-- The answers of the user as numbers, and the header words of packets. An `int` is its pattern of
-- 32 bits.
use lib_hsa.Base.{ℕ, ◌-◌, ◌^◌, u16, ◌<<<◌, bit_and, bit_or, if◌then◌else◌, Text, codes, same_text}
use lib_hsa.Packets.{
  PacketType, packet_type_code, vendor_specific, invalid, kernel_dispatch, barrier_and,
  agent_dispatch, barrier_or, FenceScope, fence_scope_code, scope_none, header_type, header_barrier,
  header_scacquire_fence_scope, header_screlease_fence_scope, header_width_barrier,
}

-- MAX_QUEUE_LENGTH
abbrev pub max_queue_length : ℕ
max_queue_length = 128

abbrev pub minus_one : ℕ
minus_one = 2 ^ 32 - 1

abbrev pub get_ptype_int_representation : Text → ℕ
get_ptype_int_representation s =
    if same_text s (codes "AGENT_DISPATCH")
    then packet_type_code agent_dispatch
    else if same_text s (codes "VENDOR_SPECIFIC")
    then packet_type_code vendor_specific
    else if same_text s (codes "KERNEL_DISPATCH")
    then packet_type_code kernel_dispatch
    else if same_text s (codes "BARRIER_AND")
    then packet_type_code barrier_and
    else if same_text s (codes "BARRIER_OR")
    then packet_type_code barrier_or
    else if same_text s (codes "INVALID")
    then packet_type_code invalid
    else minus_one

abbrev pub get_barrier_int_representation : Text → ℕ
get_barrier_int_representation s =
    if same_text s (codes "y") then 1 else if same_text s (codes "n") then 0 else minus_one

-- The three functions `header`, by their parameters; `|=` converts back to 16 bits.
unfoldable pub type_header : PacketType → ℕ
type_header type =
    let h0 = u16 (packet_type_code type <<< header_type) in
    let h1 = u16 (bit_or h0 (0 <<< header_barrier)) in
    let h2 = u16 (bit_or h1 (fence_scope_code scope_none <<< header_scacquire_fence_scope)) in
    u16 (bit_or h2 (fence_scope_code scope_none <<< header_screlease_fence_scope))

unfoldable pub barrier_header : PacketType → ℕ → ℕ
barrier_header type barrier =
    let h0 = u16 (packet_type_code type <<< header_type) in
    let h1 = u16 (bit_or h0 (bit_and barrier (2 ^ header_width_barrier - 1) <<< header_barrier)) in
    let h2 = u16 (bit_or h1 (fence_scope_code scope_none <<< header_scacquire_fence_scope)) in
    u16 (bit_or h2 (fence_scope_code scope_none <<< header_screlease_fence_scope))

unfoldable pub fence_header : PacketType → ℕ → FenceScope → FenceScope → ℕ
fence_header type barrier acquire release =
    let h0 = u16 (packet_type_code type <<< header_type) in
    let h1 = u16 (bit_or h0 (bit_and barrier (2 ^ header_width_barrier - 1) <<< header_barrier)) in
    let h2 = u16 (bit_or h1 (fence_scope_code acquire <<< header_scacquire_fence_scope)) in
    u16 (bit_or h2 (fence_scope_code release <<< header_screlease_fence_scope))

-- HSA_KERNEL_DISPATCH_PACKET_SETUP_DIMENSIONS is 0 and its width 2.
unfoldable pub setup : ℕ → ℕ
setup dims = u16 (bit_and dims (2 ^ 2 - 1) <<< 0)
