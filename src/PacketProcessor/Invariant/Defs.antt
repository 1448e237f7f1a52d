-- ===== src/PacketProcessor/Invariant/Defs.antt =====
-- The invariant of the packet processor: each of the eight dispatch slots is in exactly one place,
-- and the status of its packet fits that place.
use lib_hsa.Base.{
  ℕ, ◌+◌, ◌<◌, ◌≡◌, Bool, true, false, length, get_or, ltb, if◌then◌else◌, Option, some, Memory,
  List, Store,
}
use lib_hsa.PacketProcessor.Queue.Fifo.{IsValid, queued}
use lib_hsa.PacketProcessor.State.{
  KernelStatus, get_kernarg, get_image, processing, store_image, completion, DmaRequest,
  LaunchRequest, DecrementRequest, PacketProcessor, HeapCall,
}
use lib_hsa.PacketProcessor.Loop.{no_kernel, no_dma, no_launch, no_decrement}
use lib_hsa.PacketProcessor.Tokens.{tokens, held, engaged, running, running_cores, free}

abbrev pub dma_id : DmaRequest → ℕ
dma_id r = r.packet_id

abbrev pub launch_id : LaunchRequest → ℕ
launch_id r = r.packet_id

abbrev pub dec_id : DecrementRequest → ℕ
dec_id r = r.packet_id

-- The mentions of slot `a` in each stage: transfer, execution, completion.
abbrev pub in_dma : PacketProcessor → ℕ → ℕ
in_dma s a = tokens no_dma dma_id s.dma_queue a + held s.current_dma_packet_id a

abbrev pub in_launch : PacketProcessor → ℕ → ℕ
in_launch s a = tokens no_launch launch_id s.launch_queue a + running s.core_usage a

abbrev pub in_dec : PacketProcessor → ℕ → ℕ
in_dec s a = tokens no_decrement dec_id s.dec_queue a + held s.current_cmpl_packet_id a

abbrev pub is_free : PacketProcessor → ℕ → ℕ
is_free s a = free s.free_slots s.remaining_dispatch_slots a

-- The statuses for which `interrupt_transfer` does something.
abbrev pub transferring : KernelStatus → Bool
transferring get_kernarg = true
transferring get_image = true
transferring store_image = true
transferring _ = false

abbrev pub status_at : PacketProcessor → ℕ → KernelStatus
status_at s a = (get_or s.pending_packets a no_kernel).status

pub record Inv (s : PacketProcessor) : Type 0 where
  pub pending_size : length s.pending_packets ≡ 8
  pub slots_size : length s.free_slots ≡ 8
  pub dma : IsValid s.dma_queue
  pub launch : IsValid s.launch_queue
  pub dec : IsValid s.dec_queue
  pub total :
      s.remaining_dispatch_slots
        + (queued s.dma_queue + engaged s.current_dma_packet_id)
        + (queued s.launch_queue + running_cores s.core_usage)
        + (queued s.dec_queue + engaged s.current_cmpl_packet_id)
      ≡ 8
  pub once :
      (a : ℕ) → is_free s a + in_dma s a + in_launch s a + in_dec s a ≡ (if ltb a 8 then 1 else 0)
  pub dma_status : (a : ℕ) → 0 < in_dma s a → transferring (status_at s a) ≡ true
  pub launch_status : (a : ℕ) → 0 < in_launch s a → status_at s a ≡ processing
  pub dec_status : (a : ℕ) → 0 < in_dec s a → status_at s a ≡ completion

-- The result of a call that does not fault, with the invariant.
pub record Kept (result : Option PacketProcessor) : Type 0 where
  pub state : PacketProcessor
  pub returns : result ≡ some state
  pub inv : Inv state

-- The invariant speaks of no memory outside the globals, of no store and of no call of the heap.
pub Inv-world :
    {s : PacketProcessor} (mem : Memory) (number read write left : ℕ) (stores : List Store)
    (heap : List HeapCall)
    → Inv s
    → Inv (record s {
      mem = mem;
      current_packet_number = number;
      read_index = read;
      write_index = write;
      aql_left = left;
      stores = stores;
      heap = heap;
    })
Inv-world mem number read write left stores heap inv = record {
  pending_size = inv.pending_size;
  slots_size = inv.slots_size;
  dma = inv.dma;
  launch = inv.launch;
  dec = inv.dec;
  total = inv.total;
  once = inv.once;
  dma_status = inv.dma_status;
  launch_status = inv.launch_status;
  dec_status = inv.dec_status;
}
