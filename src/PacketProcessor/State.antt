-- ===== src/PacketProcessor/State.antt =====
-- The global data of packet_processor.c, and what its functions do to the world: stores into the
-- configuration space, calls of malloc and free.
use lib_hsa.Base.{
  ℕ, ◌+◌, Bool, List, [], ◌∷◌, ◌++◌, Option, none, some, Memory, Store, length, set, ltb,
  if◌then◌else◌,
}
use lib_hsa.PacketProcessor.Addresses.{snd_int}
use lib_hsa.PacketProcessor.Queue.{Queue}

-- `kernel_status_t`
pub data KernelStatus : Type 0 where
  get_kernarg get_image processing store_image completion : KernelStatus

-- `struct core_info_t`
pub record CoreInfo : Type 0 where
  pub running : Bool
  pub packet_id : ℕ  -- uint32_t

-- `struct kernel_info_t`; `kp_addr` is the address of the packet in the AQL queue.
pub record KernelInfo : Type 0 where
  pub kp_addr : ℕ
  pub status : KernelStatus
  pub pasid : ℕ
  pub local_kernarg_address : ℕ
  pub local_image_address : ℕ

-- `struct dma_request_t`
pub record DmaRequest : Type 0 where
  pub packet_id : ℕ
  pub host_address : ℕ
  pub device_address : ℕ
  pub payload_size : ℕ
  pub ldst : ℕ
  pub pasid : ℕ

-- `struct launch_request_t`; a `custom_mask` of 0 is NULL.
pub record LaunchRequest : Type 0 where
  pub packet_id : ℕ
  pub kernel : ℕ
  pub normalization : ℕ
  pub threshold : ℕ
  pub colormodel : ℕ
  pub borderhandling : ℕ
  pub sizex : ℕ
  pub sizey : ℕ
  pub src_address : ℕ
  pub dst_address : ℕ
  pub custom_mask : ℕ

-- `struct decrement_request_t`
pub record DecrementRequest : Type 0 where
  pub packet_id : ℕ
  pub signal_handle : ℕ
  pub pasid : ℕ

-- The calls of the C library's allocator, in order.
pub data HeapCall : Type 0 where
  malloced : (size address : ℕ) → HeapCall
  freed : (address : ℕ) → HeapCall

-- The allocator is not part of the sources: the address that `malloc` returns may depend on all
-- calls so far and on the size.
abbrev pub Malloc : Type 0
Malloc = List HeapCall → ℕ → ℕ

-- The globals, `*READ_INDEX`, `*WRITE_INDEX` and `*AQL_LEFT`, all other memory, the stores made into
-- the configuration space (oldest first) and the calls of the allocator.
pub record PacketProcessor : Type 0 where
  pub pending_packets : List KernelInfo
  pub core_usage : List CoreInfo
  pub free_slots : List ℕ
  pub remaining_dispatch_slots : ℕ
  pub current_dma_packet_id : ℕ
  pub current_cmpl_packet_id : ℕ
  pub current_packet_number : ℕ
  pub dma_queue : Queue DmaRequest
  pub launch_queue : Queue LaunchRequest
  pub dec_queue : Queue DecrementRequest
  pub read_index : ℕ
  pub write_index : ℕ
  pub aql_left : ℕ
  pub mem : Memory
  pub stores : List Store
  pub heap : List HeapCall

-- An access outside an array is a fault, `none`: C leaves it undefined.
infixl 5 ◌>>=◌
abbrev pub ◌>>=◌ {ℓ κ} : {A : Type ℓ} {B : Type κ} → Option A → (A → Option B) → Option B
none >>= f = none
some a >>= f = f a

-- A write to an array element.
abbrev pub set? {ℓ} : {A : Type ℓ} → List A → ℕ → A → Option (List A)
set? xs i v = if ltb i (length xs) then some (set xs i v) else none

-- Stores into the configuration space.
abbrev pub emit : PacketProcessor → List Store → PacketProcessor
emit s new = record s { stores = s.stores ++ new }

abbrev pub store_at : ℕ → ℕ → ℕ → Store
store_at address width value = record { address = address; width = width; value = value }

-- `malloc` and `free`.
abbrev pub malloc_call : ℕ → ℕ → PacketProcessor → PacketProcessor
malloc_call size address s = record s { heap = s.heap ++ (malloced size address ∷ []) }

abbrev pub free_call : ℕ → PacketProcessor → PacketProcessor
free_call address s = record s { heap = s.heap ++ (freed address ∷ []) }

-- The interrupts of packet_processor.h, as the store into SND_INT.
module _ (available_cores : ℕ) where
  abbrev pub send_dma_interrupt : Store
  send_dma_interrupt = store_at snd_int 8 (available_cores + 3)

  abbrev pub send_completion_interrupt : Store
  send_completion_interrupt = store_at snd_int 8 (available_cores + 2)

  abbrev pub send_added_core_interrupt : Store
  send_added_core_interrupt = store_at snd_int 8 (available_cores + 1)

  abbrev pub send_removed_core_interrupt : Store
  send_removed_core_interrupt = store_at snd_int 8 available_cores

abbrev pub send_interrupt_to_core : ℕ → Store
send_interrupt_to_core number = store_at snd_int 8 number
