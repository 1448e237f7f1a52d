-- ===== src/PacketProcessor/Aql.antt =====
-- `process_aql_packets`: the main program takes the next packet of the AQL queue. Its busy waits
-- change nothing, so a call either spins (and is made again), or returns the new state, or faults.
use lib_hsa.Base.{
  ℕ, ◌+◌, ◌*◌, ◌-◌, ◌^◌, Bool, ◌&&◌, ◌||◌, not, [], ◌∷◌, ◌++◌, Option, none, some, Memory, load,
  get_elem?, ltb, ◌==◌, if◌then◌else◌, u64, ◌>>>◌, bit_and,
}
use lib_hsa.Packets.{
  packet_size, packet_type_code, invalid, kernel_dispatch, barrier_and, barrier_or, header_type,
  header_barrier, header_width_type, header_width_barrier,
}
use lib_hsa.Packets.KernelDispatch
use lib_hsa.Packets.Barrier
use lib_hsa.Filters.{load_data, operation_code, custom_filter3x3, custom_filter5x5}
use lib_hsa.PacketProcessor.Addresses.{max_queue_length, base_aql_pkt_addr, base_pasid_buf_addr}
use lib_hsa.PacketProcessor.Queue.{push}
use lib_hsa.PacketProcessor.State.{
  get_kernarg, DmaRequest, Malloc, PacketProcessor, ◌>>=◌, set?, malloced,
}
use lib_hsa.PacketProcessor.Interrupts.{retire_packet}

pub data Poll : Type 0 where
  spins fault : Poll
  returns : PacketProcessor → Poll

abbrev pub returned : Option PacketProcessor → Poll
returned none = fault
returned (some s) = returns s

-- `current_packet_number & (MAX_QUEUE_LENGTH-1)`
abbrev pub packet_index : PacketProcessor → ℕ
packet_index s = bit_and s.current_packet_number (max_queue_length - 1)

abbrev pub current_packet_address : PacketProcessor → ℕ
current_packet_address s = base_aql_pkt_addr + packet_size * packet_index s

abbrev pub packet_header : PacketProcessor → ℕ
packet_header s = load 2 s.mem (current_packet_address s)

-- `(header >> HSA_PACKET_HEADER_TYPE) & ((1 << HSA_PACKET_HEADER_WIDTH_TYPE)-1)`
abbrev pub type_field : ℕ → ℕ
type_field header = bit_and (header >>> header_type) (2 ^ header_width_type - 1)

-- `(header >> HSA_PACKET_HEADER_BARRIER) & ((1 << HSA_PACKET_HEADER_WIDTH_BARRIER)-1)`
abbrev pub barrier_field : ℕ → ℕ
barrier_field header = bit_and (header >>> header_barrier) (2 ^ header_width_barrier - 1)

-- The test of the wait for earlier packets.
abbrev pub waits_for_earlier : PacketProcessor → Bool
waits_for_earlier s =
    not (barrier_field (packet_header s) == 0) && not (s.current_packet_number == s.read_index)

-- `kernarg_mem_size`
unfoldable pub kernarg_mem_size : ℕ → ℕ
kernarg_mem_size kernel_object =
    if kernel_object == operation_code custom_filter3x3
    then 60
    else if kernel_object == operation_code custom_filter5x5
    then 124
    else 20

abbrev pub packet_pasid : PacketProcessor → ℕ
packet_pasid s = load 4 s.mem (base_pasid_buf_addr + 4 * packet_index s)

-- The request for the kernel arguments of the packet at `kp`.
abbrev pub kernarg_request : PacketProcessor → ℕ → ℕ → ℕ → ℕ → DmaRequest
kernarg_request s kp slot size local_kernargs = record {
  packet_id = slot;
  host_address = load 8 s.mem (kp + KernelDispatch.kernarg_address);
  device_address = local_kernargs;
  payload_size = size;
  ldst = load_data;
  pasid = packet_pasid s;
}

-- Case HSA_PACKET_TYPE_KERNEL_DISPATCH, for the packet at `kp`; a slot is left.
unfoldable pub dispatch_kernel : Malloc → ℕ → PacketProcessor → Option PacketProcessor
dispatch_kernel malloc kp s = do
  let size = kernarg_mem_size (load 8 s.mem (kp + KernelDispatch.kernel_object))
  let local_kernargs = malloc s.heap size
  let remaining = s.remaining_dispatch_slots - 1
  slot ← get_elem? s.free_slots remaining
  info ← get_elem? s.pending_packets slot
  pending ← set? s.pending_packets slot (record info {
    kp_addr = kp;
    status = get_kernarg;
    pasid = packet_pasid s;
    local_kernarg_address = local_kernargs;
  })
  some (record s {
    pending_packets = pending;
    remaining_dispatch_slots = remaining;
    dma_queue = push s.dma_queue (kernarg_request s kp slot size local_kernargs);
    heap = s.heap ++ (malloced size local_kernargs ∷ []);
  })

-- The dependency `i` of the barrier packet at `bp`: a handle, and the value of the signal.
abbrev pub dep_handle : Memory → ℕ → ℕ → ℕ
dep_handle mem bp i = load 8 mem (bp + Barrier.dep_signal i)

abbrev pub dep_value : Memory → ℕ → ℕ → ℕ
dep_value mem bp i = load 8 mem (dep_handle mem bp i)

-- A dependency that is set and whose signal is not 0, or is 0.
abbrev pub dep_open : Memory → ℕ → ℕ → Bool
dep_open mem bp i = not (dep_handle mem bp i == 0) && not (dep_value mem bp i == 0)

abbrev pub dep_done : Memory → ℕ → ℕ → Bool
dep_done mem bp i = not (dep_handle mem bp i == 0) && (dep_value mem bp i == 0)

-- The `for` loops over the five dependencies.
unfoldable pub not_ready : Memory → ℕ → Bool
not_ready mem bp =
    dep_open mem bp 0
    || dep_open mem bp 1
    || dep_open mem bp 2
    || dep_open mem bp 3
    || dep_open mem bp 4

unfoldable pub is_set : Memory → ℕ → Bool
is_set mem bp = not (
    dep_done mem bp 0
    || dep_done mem bp 1
    || dep_done mem bp 2
    || dep_done mem bp 3
    || dep_done mem bp 4)

abbrev pub barrier_signal : Memory → ℕ → ℕ
barrier_signal mem bp = load 8 mem (bp + Barrier.completion_signal)

-- The end of both barrier cases, for the packet at `bp`. The decrement request carries the index of
-- the packet in the AQL queue, where that of a kernel dispatch carries its dispatch slot.
unfoldable pub barrier_passed : ℕ → PacketProcessor → PacketProcessor
barrier_passed bp s = if barrier_signal s.mem bp == 0 then retire_packet bp s else record s {
  dec_queue = push s.dec_queue (record {
    packet_id = packet_index s;
    signal_handle = barrier_signal s.mem bp;
    pasid = packet_pasid s;
  });
}

-- `++current_packet_number`, and AQL_LEFT is cleared at the end of the queue.
unfoldable pub next_packet : PacketProcessor → PacketProcessor
next_packet s =
    let number = u64 (s.current_packet_number + 1) in
    record s {
      current_packet_number = number;
      aql_left = if number == s.write_index then 0 else s.aql_left;
    }

abbrev pub then_next : Option PacketProcessor → Poll
then_next none = fault
then_next (some s) = returns (next_packet s)

-- The `switch` over the type of the packet at `kp`.
unfoldable pub process_packet : Malloc → ℕ → ℕ → PacketProcessor → Poll
process_packet malloc type kp s =
    if type == packet_type_code invalid
    then returns s
    else if type == packet_type_code kernel_dispatch
    then then_next (dispatch_kernel malloc kp s)
    else if type == packet_type_code barrier_and
    then (if not_ready s.mem kp then spins else returns (next_packet (barrier_passed kp s)))
    else if type == packet_type_code barrier_or
    then (if is_set s.mem kp then spins else returns (next_packet (barrier_passed kp s)))
    else returns (next_packet s)

unfoldable pub process_aql_packets : Malloc → PacketProcessor → Poll
process_aql_packets malloc s =
    if not (s.aql_left == 0) && ltb 0 s.remaining_dispatch_slots
    then (if waits_for_earlier s
        then spins
        else process_packet malloc (type_field (packet_header s)) (current_packet_address s) s)
    else returns s
