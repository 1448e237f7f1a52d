-- ===== src/FpgaCmd/Header.antt =====
-- `header` and `setup` of fpga_cmd_processor.h: the first two halfwords of a packet, and what the
-- packet processor reads out of the first.
use lib_hsa.Base.{
  ℕ, ◌+◌, ◌-◌, ◌*◌, ◌/◌, ◌%◌, ◌^◌, ◌<◌, ◌≡◌, arith, u16, u32, ◌<<<◌, ◌>>>◌, bit_and, bit_or,
  bit_and_mask, bit_or_split_right,
}
use lib_hsa.Packets.{
  PacketType, packet_type_code, FenceScope, fence_scope_code, header_type, header_barrier,
  header_scacquire_fence_scope, header_screlease_fence_scope, header_width_barrier, scope_none,
  vendor_specific, scope_agent, invalid, kernel_dispatch, scope_system, barrier_and, agent_dispatch,
  barrier_or,
}
use lib_hsa.PacketProcessor.Aql.{type_field, barrier_field}

-- The words are 16 bits wide; `|=` converts back to them.
unfoldable pub header : PacketType → ℕ → FenceScope → FenceScope → ℕ
header type barrier acquire release =
    let h0 = u16 (packet_type_code type <<< header_type) in
    let h1 = u16 (bit_or h0 (bit_and barrier (2 ^ header_width_barrier - 1) <<< header_barrier)) in
    let h2 = u16 (bit_or h1 (fence_scope_code acquire <<< header_scacquire_fence_scope)) in
    u16 (bit_or h2 (fence_scope_code release <<< header_screlease_fence_scope))

-- HSA_KERNEL_DISPATCH_PACKET_SETUP_DIMENSIONS is 0 and its width 2.
unfoldable pub setup : ℕ → ℕ
setup dims = u16 (bit_and dims (2 ^ 2 - 1) <<< 0)

-- `(setup(2) << 16) | header(...)`: the word that hands a packet over.
unfoldable pub first_word : ℕ → PacketType → ℕ → FenceScope → FenceScope → ℕ
unfolding header setup
first_word dims type barrier acquire release =
    u32 (bit_or (setup dims <<< 16) (header type barrier acquire release))

packet_type_code-bound : (type : PacketType) → packet_type_code type < 8
packet_type_code-bound vendor_specific = omega arith
packet_type_code-bound invalid = omega arith
packet_type_code-bound kernel_dispatch = omega arith
packet_type_code-bound barrier_and = omega arith
packet_type_code-bound agent_dispatch = omega arith
packet_type_code-bound barrier_or = omega arith

fence_scope_code-bound : (scope : FenceScope) → fence_scope_code scope < 3
fence_scope_code-bound scope_none = omega arith
fence_scope_code-bound scope_agent = omega arith
fence_scope_code-bound scope_system = omega arith

-- The parts of a header do not overlap, so `|` adds them.
join_fields :
    (t b a r : ℕ)
    → t < 8
    → b < 2
    → a < 3
    → r < 3
    → u16 (bit_or (u16 (bit_or (u16 (bit_or (u16 (t * 1)) (b <<< 8))) (a <<< 9))) (r <<< 11))
      ≡ t + b * 256 + a * 512 + r * 2048
join_fields t b a r ht hb ha hr =
    let e1 : bit_or (u16 (t * 1)) (b * 2 ^ 8) ≡ u16 (t * 1) + b * 2 ^ 8 =
      bit_or_split_right 8 b (u16 (t * 1)) (omega arith) in
    let e2 : bit_or (t + b * 256) (a * 2 ^ 9) ≡ t + b * 256 + a * 2 ^ 9 =
      bit_or_split_right 9 a (t + b * 256) (omega arith) in
    let e3 : bit_or (t + b * 256 + a * 512) (r * 2 ^ 11) ≡ t + b * 256 + a * 512 + r * 2 ^ 11 =
      bit_or_split_right 11 r (t + b * 256 + a * 512) (omega arith) in
    let s1 : u16 (bit_or (u16 (t * 1)) (b * 2 ^ 8)) ≡ t + b * 256 = omega (arith, e1) in
    let s2 : u16 (bit_or (t + b * 256) (a * 2 ^ 9)) ≡ t + b * 256 + a * 512 = omega (arith, e2) in
    rw (s1, s2) (omega (arith, e3))

abbrev word : PacketType → ℕ → FenceScope → FenceScope → ℕ
word type barrier acquire release =
    packet_type_code type
    + barrier % 2 * 256
    + fence_scope_code acquire * 512
    + fence_scope_code release * 2048

header-word :
    (type : PacketType) (barrier : ℕ) (acquire release : FenceScope)
    → header type barrier acquire release ≡ word type barrier acquire release
unfolding header
header-word type barrier acquire release = rw (bit_and_mask 1 barrier) (
    join_fields (packet_type_code type) (barrier % 2) (fence_scope_code acquire)
      (fence_scope_code release) (packet_type_code-bound type) (omega arith)
      (fence_scope_code-bound acquire) (fence_scope_code-bound release))

-- The packet processor reads back the type of a header, and the lowest bit of the barrier argument;
-- the fence scopes stand in the bits above, with nothing else.
pub header_fields :
    (type : PacketType) (barrier : ℕ) (acquire release : FenceScope)
    → let h = header type barrier acquire release in
      (type_field h ≡ packet_type_code type)
      × (barrier_field h ≡ barrier % 2)
      × ((h >>> 9) % 4 ≡ fence_scope_code acquire)
      × (h >>> 11 ≡ fence_scope_code release)
header_fields type barrier acquire release =
    let bt : packet_type_code type < 8 = packet_type_code-bound type in
    let ba : fence_scope_code acquire < 3 = fence_scope_code-bound acquire in
    let br : fence_scope_code release < 3 = fence_scope_code-bound release in
    rw (header-word type barrier acquire release) (
      (omega (arith, bit_and_mask 8 (word type barrier acquire release / 1))),
      omega (arith, bit_and_mask 1 (word type barrier acquire release / 256)),
      omega arith,
      omega arith,
    )
