-- ===== src/PacketProcessor/Interrupts.antt =====
-- The interrupt handlers of packet_processor.c. An index outside an array is a fault, `none`.
use lib_hsa.Base.{
  ℕ, ◌+◌, ◌*◌, Bool, false, ◌||◌, [], ◌∷◌, ◌++◌, Option, some, Memory, load, store, get_elem?, ◌==◌,
  if◌then◌else◌, u16, u32, u64, uint32_max, int_to_u64,
}
use lib_hsa.Packets.{packet_type_code, invalid}
use lib_hsa.Packets.KernelDispatch
use lib_hsa.Filters.{
  load_data, store_data, operation_code, gauss3x3, gauss5x5, custom_filter3x3, custom_filter5x5,
  get_pixel_storage, gauss_3x3_normalization, gauss_5x5_normalization,
}
use lib_hsa.PacketProcessor.Queue.{push}
use lib_hsa.PacketProcessor.State.{
  KernelStatus, get_kernarg, get_image, processing, store_image, completion, CoreInfo, KernelInfo,
  DmaRequest, LaunchRequest, Malloc, PacketProcessor, ◌>>=◌, set?, emit, malloced, freed,
  send_added_core_interrupt, send_removed_core_interrupt,
}

-- The `int` grid_size_x * grid_size_y * get_pixel_storage(colormodel) of the packet at `kp`, with
-- the kernel arguments at `kernargs`, as converted to 64 bits. The products are 32 bits wide.
unfoldable pub image_storage : Memory → ℕ → ℕ → ℕ
image_storage mem kp kernargs =
    let x = load 4 mem (kp + KernelDispatch.grid_size_x) in
    let y = load 4 mem (kp + KernelDispatch.grid_size_y) in
    int_to_u64 (u32 (u32 (x * y) * get_pixel_storage (load 1 mem (kernargs + 16))))

-- `packet->header = HSA_PACKET_TYPE_INVALID` for the packet at `kp`, and `++(*READ_INDEX)`.
abbrev pub retire_packet : ℕ → PacketProcessor → PacketProcessor
retire_packet kp s = record s {
  mem = store 2 s.mem (kp + KernelDispatch.header) (packet_type_code invalid);
  read_index = u64 (s.read_index + 1);
}

-- `free` of both addresses, and `free_slots[remaining_dispatch_slots] = id;
-- ++remaining_dispatch_slots`.
unfoldable pub release_slot : ℕ → KernelInfo → PacketProcessor → Option PacketProcessor
release_slot id info s = do
  slots ← set? s.free_slots s.remaining_dispatch_slots (u16 id)
  some (record s {
    free_slots = slots;
    remaining_dispatch_slots = u32 (s.remaining_dispatch_slots + 1);
    heap = s.heap ++ (freed info.local_kernarg_address ∷ freed info.local_image_address ∷ []);
  })

-- `current_dma_packet_id = UINT32_MAX`
abbrev pub clear_dma : PacketProcessor → PacketProcessor
clear_dma s = record s { current_dma_packet_id = uint32_max }

-- The request for the source image, once the kernel arguments have arrived.
abbrev pub image_request : PacketProcessor → ℕ → KernelInfo → ℕ → DmaRequest
image_request s id info dram_dest = record {
  packet_id = id;
  host_address = load 8 s.mem info.local_kernarg_address;
  device_address = dram_dest;
  payload_size = image_storage s.mem info.kp_addr info.local_kernarg_address;
  ldst = load_data;
  pasid = info.pasid;
}

-- Case GET_KERNARG of `interrupt_transfer`.
unfoldable pub kernarg_arrived : Malloc → PacketProcessor → ℕ → KernelInfo → Option PacketProcessor
kernarg_arrived malloc s id info = do
  let storage = image_storage s.mem info.kp_addr info.local_kernarg_address
  let dram_dest = malloc s.heap storage
  pending ←
      set? s.pending_packets id
        (record info { local_image_address = dram_dest; status = get_image })
  some (record s {
    pending_packets = pending;
    dma_queue = push s.dma_queue (image_request s id info dram_dest);
    heap = s.heap ++ (malloced storage dram_dest ∷ []);
  })

-- `kernel == CUSTOM_FILTER3x3 || kernel == CUSTOM_FILTER5x5`
abbrev pub is_custom : ℕ → Bool
is_custom kernel =
    (kernel == operation_code custom_filter3x3) || (kernel == operation_code custom_filter5x5)

-- What `interrupt_transfer` puts into `normalization`.
unfoldable pub normalization_of : Memory → ℕ → ℕ → ℕ
normalization_of mem kernargs kernel =
    if is_custom kernel
    then load 2 mem (kernargs + 20)
    else if kernel == operation_code gauss3x3
    then gauss_3x3_normalization
    else if kernel == operation_code gauss5x5
    then gauss_5x5_normalization
    else 0

-- The request to run the kernel, once the image has arrived.
unfoldable pub launch_request : PacketProcessor → ℕ → KernelInfo → LaunchRequest
unfolding normalization_of
launch_request s id info =
    let kernel = u16 (load 8 s.mem (info.kp_addr + KernelDispatch.kernel_object)) in
    let kernargs = info.local_kernarg_address in
    record {
      packet_id = id;
      kernel = kernel;
      normalization = normalization_of s.mem kernargs kernel;
      threshold = load 2 s.mem (kernargs + 18);
      colormodel = load 1 s.mem (kernargs + 16);
      borderhandling = load 1 s.mem (kernargs + 17);
      sizex = load 4 s.mem (info.kp_addr + KernelDispatch.grid_size_x);
      sizey = load 4 s.mem (info.kp_addr + KernelDispatch.grid_size_y);
      src_address = info.local_image_address;
      dst_address = info.local_image_address;
      custom_mask = if is_custom kernel then kernargs + 20 else 0;
    }

-- Case GET_IMAGE of `interrupt_transfer`.
unfoldable pub image_arrived : PacketProcessor → ℕ → KernelInfo → Option PacketProcessor
image_arrived s id info = do
  pending ← set? s.pending_packets id (record info { status = processing })
  some (record s {
    pending_packets = pending;
    launch_queue = push s.launch_queue (launch_request s id info);
  })

-- `kp->completion_signal.handle`
abbrev pub signal_of : PacketProcessor → KernelInfo → ℕ
signal_of s info = load 8 s.mem (info.kp_addr + KernelDispatch.completion_signal)

-- The branch of case STORE_IMAGE that queues the decrement of the completion signal.
unfoldable pub request_decrement : PacketProcessor → ℕ → KernelInfo → Option PacketProcessor
request_decrement s id info = do
  pending ← set? s.pending_packets id (record info { status = completion })
  some (record s {
    pending_packets = pending;
    dec_queue =
        push s.dec_queue
          (record { packet_id = id; signal_handle = signal_of s info; pasid = info.pasid });
  })

-- The other branch, for a packet with no signal.
unfoldable pub finish_packet : PacketProcessor → ℕ → KernelInfo → Option PacketProcessor
finish_packet s id info = do s' ← release_slot id info s; some (retire_packet info.kp_addr s')

-- Case STORE_IMAGE of `interrupt_transfer`.
unfoldable pub image_stored : PacketProcessor → ℕ → KernelInfo → Option PacketProcessor
image_stored s id info =
    if signal_of s info == 0 then finish_packet s id info else request_decrement s id info

-- The `switch` over the status of the packet that the DMA engine worked for.
unfoldable pub transferred :
    Malloc → KernelStatus → PacketProcessor → ℕ → KernelInfo → Option PacketProcessor
transferred malloc get_kernarg s id info = kernarg_arrived malloc s id info
transferred malloc get_image s id info = image_arrived s id info
transferred malloc store_image s id info = image_stored s id info
transferred malloc _ s id info = some s

unfoldable pub interrupt_transfer : Malloc → PacketProcessor → Option PacketProcessor
interrupt_transfer malloc s = do
  info ← get_elem? s.pending_packets s.current_dma_packet_id
  s' ← transferred malloc info.status s s.current_dma_packet_id info
  some (clear_dma s')

-- The request to copy the result to the host.
abbrev pub store_request : PacketProcessor → ℕ → KernelInfo → DmaRequest
store_request s id info = record {
  packet_id = id;
  host_address = load 8 s.mem (info.local_kernarg_address + 8);
  device_address = info.local_image_address;
  payload_size = image_storage s.mem info.kp_addr info.local_kernarg_address;
  ldst = store_data;
  pasid = info.pasid;
}

abbrev pub idle_core : CoreInfo
idle_core = record { running = false; packet_id = uint32_max }

-- `rcv_int` is what `*RCV_INT_ADDR` reads: the core that sent the interrupt.
unfoldable pub interrupt_kernel : ℕ → PacketProcessor → Option PacketProcessor
interrupt_kernel rcv_int s = do
  core ← get_elem? s.core_usage rcv_int
  info ← get_elem? s.pending_packets core.packet_id
  pending ← set? s.pending_packets core.packet_id (record info { status = store_image })
  cores ← set? s.core_usage rcv_int idle_core
  some (record s {
    pending_packets = pending;
    core_usage = cores;
    dma_queue = push s.dma_queue (store_request s core.packet_id info);
  })

unfoldable pub interrupt_completion : PacketProcessor → Option PacketProcessor
interrupt_completion s = do
  info ← get_elem? s.pending_packets s.current_cmpl_packet_id
  s' ← release_slot s.current_cmpl_packet_id info s
  some (record (retire_packet info.kp_addr s') { current_cmpl_packet_id = uint32_max })

unfoldable pub interrupt_add_core : ℕ → PacketProcessor → PacketProcessor
interrupt_add_core available_cores s = emit s (send_added_core_interrupt available_cores ∷ [])

unfoldable pub interrupt_remove_core : ℕ → PacketProcessor → PacketProcessor
interrupt_remove_core available_cores s = emit s (send_removed_core_interrupt available_cores ∷ [])
