-- ===== src/PacketProcessor/Issue.antt =====
-- `process_dma_queue`, `process_launch_queue` and `process_dec_queue`: the main program hands queued
-- requests to the DMA engine, to an idle core and to the signal unit. Each body runs with interrupts
-- disabled.
use lib_hsa.Base.{
  ℕ, ◌+◌, true, ◌&&◌, List, [], ◌∷◌, ◌++◌, Option, some, Store, set, ltb, ◌==◌, if◌then◌else◌, u32,
  uint32_max, length,
}
use lib_hsa.PacketProcessor.Addresses.{
  dma_host_addr, dma_device_addr, dma_payload_size_addr, dma_ldst_addr, dma_pasid_addr,
  cmpl_sig_addr, cmpl_sig_pasid_addr, task_offset, normalization_offset, threshold_offset,
  color_model_offset, border_handling_offset, img_width_offset, img_height_offset, src_addr_offset,
  dst_addr_offset,
}
use lib_hsa.PacketProcessor.Queue.{has_request, front, advance}
use lib_hsa.PacketProcessor.State.{
  CoreInfo, DmaRequest, LaunchRequest, DecrementRequest, PacketProcessor, ◌>>=◌, store_at,
  send_dma_interrupt, send_completion_interrupt, send_interrupt_to_core,
}
use lib_hsa.PacketProcessor.Masks.{core_base_addr, write_mask_to_core}

-- The register stores for one DMA request, the interrupt included.
abbrev pub dma_stores : ℕ → DmaRequest → List Store
dma_stores available_cores r =
    store_at dma_host_addr 8 r.host_address
    ∷ store_at dma_device_addr 8 r.device_address
    ∷ store_at dma_payload_size_addr 8 r.payload_size
    ∷ store_at dma_ldst_addr 4 r.ldst
    ∷ store_at dma_pasid_addr 4 r.pasid
    ∷ send_dma_interrupt available_cores
    ∷ []

-- The state once request `r` has been handed to the DMA engine.
abbrev pub start_dma : ℕ → PacketProcessor → DmaRequest → PacketProcessor
start_dma available_cores s r = record s {
  current_dma_packet_id = u32 r.packet_id;
  dma_queue = advance s.dma_queue;
  stores = s.stores ++ dma_stores available_cores r;
}

unfoldable pub process_dma_queue : ℕ → PacketProcessor → Option PacketProcessor
process_dma_queue available_cores s =
    if has_request s.dma_queue && (s.current_dma_packet_id == uint32_max)
    then front s.dma_queue >>= (λ r. some (start_dma available_cores s r))
    else some s

-- The first core, from `next_core` on, that is not running; the number of cores if all run.
unfoldable pub next_free_core : ℕ → List CoreInfo → ℕ
next_free_core next_core [] = next_core
next_free_core next_core (c ∷ cs) =
    if c.running then next_free_core (next_core + 1) cs else next_core

-- The configuration stores for one launch, without the masks and the interrupt.
abbrev pub launch_stores : ℕ → LaunchRequest → List Store
launch_stores base r =
    store_at (base + task_offset) 2 r.kernel
    ∷ store_at (base + normalization_offset) 2 r.normalization
    ∷ store_at (base + threshold_offset) 2 r.threshold
    ∷ store_at (base + color_model_offset) 1 r.colormodel
    ∷ store_at (base + border_handling_offset) 1 r.borderhandling
    ∷ store_at (base + img_width_offset) 4 r.sizex
    ∷ store_at (base + img_height_offset) 4 r.sizey
    ∷ store_at (base + src_addr_offset) 8 r.src_address
    ∷ store_at (base + dst_addr_offset) 8 r.dst_address
    ∷ []

-- All the stores of a launch.
abbrev pub all_launch_stores : PacketProcessor → (core : ℕ) → LaunchRequest → List Store
all_launch_stores s core r =
    launch_stores (core_base_addr core) r
    ++ (write_mask_to_core s.mem core r.kernel r.custom_mask ++ (send_interrupt_to_core core ∷ []))

-- The state once request `r` runs on core `next_core`.
abbrev pub start_kernel : PacketProcessor → ℕ → LaunchRequest → PacketProcessor
start_kernel s next_core r = record s {
  core_usage = set s.core_usage next_core (record { running = true; packet_id = u32 r.packet_id });
  launch_queue = advance s.launch_queue;
  stores = s.stores ++ all_launch_stores s next_core r;
}

-- The array `core_usage` has AVAILABLE_CORES elements.
unfoldable pub process_launch_queue : PacketProcessor → Option PacketProcessor
process_launch_queue s =
    let next_core = next_free_core 0 s.core_usage in
    if has_request s.launch_queue && ltb next_core (length s.core_usage)
    then front s.launch_queue >>= (λ r. some (start_kernel s next_core r))
    else some s

-- The register stores for one decrement request, the interrupt included.
abbrev pub dec_stores : ℕ → DecrementRequest → List Store
dec_stores available_cores r =
    store_at cmpl_sig_addr 8 r.signal_handle
    ∷ store_at cmpl_sig_pasid_addr 4 r.pasid
    ∷ send_completion_interrupt available_cores
    ∷ []

-- The state once request `r` has been handed to the signal unit.
abbrev pub start_decrement : ℕ → PacketProcessor → DecrementRequest → PacketProcessor
start_decrement available_cores s r = record s {
  current_cmpl_packet_id = u32 r.packet_id;
  dec_queue = advance s.dec_queue;
  stores = s.stores ++ dec_stores available_cores r;
}

unfoldable pub process_dec_queue : ℕ → PacketProcessor → Option PacketProcessor
process_dec_queue available_cores s =
    if has_request s.dec_queue && (s.current_cmpl_packet_id == uint32_max)
    then front s.dec_queue >>= (λ r. some (start_decrement available_cores s r))
    else some s
