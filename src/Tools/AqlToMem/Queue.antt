-- ===== src/Tools/AqlToMem/Queue.antt =====
-- The packets and PASIDs of aql2mem. `new` places the objects of a packet where the caller says; a
-- packet with the index MAX_QUEUE_LENGTH or more lies outside the arrays.
use lib_hsa.Packets.KernelDispatch
use lib_hsa.Packets.Barrier
use lib_hsa.Base.{
  ℕ, zero, suc, ◌+◌, ◌*◌, ltb, ◌==◌, if◌then◌else◌, u16, Memory, Store, deliver, Text, codes,
  same_text,
}
use mathlib.Core.List.{List, [], ◌∷◌, ◌++◌}
use lib_hsa.PacketProcessor.State.{store_at}
use lib_hsa.Packets.{packet_size, kernel_dispatch}
use lib_hsa.Tools.Numbers.{atoi}
use lib_hsa.Tools.Result.{Result, ok, fail, exit_failure, undefined, ◌>>=◌, defined}
use lib_hsa.Tools.AqlToMem.Header.{type_header, setup, max_queue_length}

-- The memory at `packet_begin`, the PASIDs, and the number of packets.
pub record Alloc : Type 0 where
  pub memory : Memory
  pub pasid : ℕ → ℕ
  pub packet_queue_end_idx : ℕ

-- Where `new` places the objects of the packet with an index.
pub record Heap : Type 0 where
  pub signal_value : ℕ → ℕ
  pub kernargs : ℕ → ℕ
  pub signal_values : ℕ → ℕ → ℕ

-- What the user chooses for a kernel dispatch.
pub record Dispatch : Type 0 where
  pub op : ℕ
  pub dim : ℕ
  pub sizex : ℕ
  pub sizey : ℕ
  pub sizez : ℕ
  pub wgsizex : ℕ
  pub wgsizey : ℕ
  pub wgsizez : ℕ

-- `(char*)packet_begin+PACKETSIZE*packet_queue_end_idx`
abbrev pub packet_at : ℕ → ℕ
packet_at index = packet_size * index

-- The stores into a kernel dispatch packet, the header first.
abbrev pub dispatch_stores : (heap : Heap) → (header_word : ℕ) → Dispatch → (index : ℕ) → List Store
dispatch_stores heap header_word d index =
    let packet = packet_at index in
    store_at (packet + KernelDispatch.header) 2 header_word
    ∷ store_at (packet + 2) 2 (setup (u16 d.dim))
    ∷ store_at (packet + KernelDispatch.kernel_object) 8 d.op
    ∷ store_at (packet + KernelDispatch.kernarg_address) 8 (heap.kernargs index)
    ∷ store_at (packet + KernelDispatch.grid_size_x) 4 d.sizex
    ∷ store_at (packet + KernelDispatch.grid_size_y) 4 d.sizey
    ∷ store_at (packet + 20) 4 d.sizez
    ∷ store_at (packet + 4) 2 d.wgsizex
    ∷ store_at (packet + 6) 2 d.wgsizey
    ∷ store_at (packet + 8) 2 d.wgsizez
    ∷ store_at (packet + KernelDispatch.completion_signal) 8 (heap.signal_value index)
    ∷ []

-- A packet of the queue: its stores, and the index of the next.
unfoldable pub add_packet : List Store → Alloc → Result Alloc
add_packet stores a =
    if ltb a.packet_queue_end_idx max_queue_length
    then ok (record a {
      memory = deliver stores a.memory;
      packet_queue_end_idx = a.packet_queue_end_idx + 1;
    })
    else fail undefined

-- `pasid[packet_queue_end_idx] = pid`
unfoldable pub set_pasid : ℕ → Alloc → Result Alloc
set_pasid pid a =
    if ltb a.packet_queue_end_idx max_queue_length
    then ok (record a { pasid = λ i. if i == a.packet_queue_end_idx then pid else a.pasid i })
    else fail undefined

-- The cleared memory; `new uint32_t[]` leaves the PASIDs as they are.
abbrev pub cleared : (ℕ → ℕ) → Alloc
cleared pasid = record { memory = λ a. 0; pasid = pasid; packet_queue_end_idx = 0 }

abbrev pub default_op : ℕ
default_op = 0x0001_0000_0000_FFFF

abbrev pub default_dispatch : Dispatch
default_dispatch = record {
  op = default_op;
  dim = 1;
  sizex = 1024;
  sizey = 1;
  sizez = 1;
  wgsizex = 64;
  wgsizey = 1;
  wgsizez = 1;
}

-- One round of the loop for default packets: the PASID is written before the index moves.
unfoldable pub default_packet : Heap → Alloc → Result Alloc
unfolding add_packet set_pasid
default_packet heap a = do
  named ← set_pasid 15 a
  add_packet
      (dispatch_stores heap (type_header kernel_dispatch) default_dispatch a.packet_queue_end_idx)
      named

unfoldable pub default_packets : Heap → (num_packets : ℕ) → Alloc → Result Alloc
unfolding default_packet
default_packets heap zero a = ok a
default_packets heap (suc num_packets) a = do
  a' ← default_packet heap a
  default_packets heap num_packets a'

abbrev pub number_of_packets : Text → Result ℕ
number_of_packets arg2 = if same_text arg2 (codes "default") then ok 1 else defined (atoi arg2)

-- The branch of `main` for a second argument.
unfoldable pub default_queue : Heap → (pasid : ℕ → ℕ) → (arg2 : Text) → Result Alloc
unfolding default_packets
default_queue heap pasid arg2 = do
  num_packets ← number_of_packets arg2
  if ltb max_queue_length num_packets
      then fail exit_failure
      else default_packets heap num_packets (cleared pasid)

-- The stores into a barrier packet: the signals below `numsig`, zeros, and the completion signal.
abbrev pub dep_signal_stores : Heap → (numsig index : ℕ) → (i rounds : ℕ) → List Store
dep_signal_stores heap numsig index i zero = []
dep_signal_stores heap numsig index i (suc rounds) =
    store_at (packet_at index + Barrier.dep_signal i) 8
      (if ltb i numsig then heap.signal_values index i else 0)
    ∷ dep_signal_stores heap numsig index (i + 1) rounds

abbrev pub barrier_stores : Heap → (header_word numsig index : ℕ) → List Store
barrier_stores heap header_word numsig index =
    store_at (packet_at index) 2 header_word
    ∷ (dep_signal_stores heap numsig index 0 5
        ++ store_at (packet_at index + Barrier.completion_signal) 8 (heap.signal_value index) ∷ [])
