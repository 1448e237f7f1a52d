-- ===== src/PacketProcessor/Invariant/Interrupts.antt =====
-- The interrupt handlers never fault when the hardware has a reason to interrupt, and keep the
-- invariant: a slot moves from one stage to the next.
use lib_hsa.Base.{
  ℕ, ◌<◌, ◌≡◌, ◌≢◌, some, arith, ◌==◌, uint32_max, length, if◌then◌else◌, get_or, set, length-set,
  ◌++◌, ◌∷◌, [], u16, ◌+◌, u32, ◌%◌, ◌^◌, suc, get_elem?-eq-get_or, Bool-cases, get_elem?, true,
  get_or_of_get_elem?, inl, inr,
}
use lib_hsa.PacketProcessor.Queue.{push}
use lib_hsa.PacketProcessor.Queue.Fifo.{queued}
use lib_hsa.PacketProcessor.State.{
  get_image, KernelInfo, Malloc, PacketProcessor, ◌>>=◌, malloced, completion, processing, freed,
  DecrementRequest, KernelStatus, CoreInfo, store_image, get_kernarg,
}
use lib_hsa.PacketProcessor.Loop.{no_kernel, no_dma, no_launch, no_decrement}
use lib_hsa.PacketProcessor.Interrupts.{
  image_storage, image_request, kernarg_arrived, clear_dma, image_arrived, interrupt_transfer,
  request_decrement, finish_packet, release_slot, launch_request, retire_packet, signal_of,
  interrupt_completion, image_stored, transferred, interrupt_kernel, idle_core, store_request,
}
use lib_hsa.PacketProcessor.Tokens.{
  joined_request, Pushed, mentions, free-release, running, running_cores, running-stop, status-set,
  set?-some,
}
use lib_hsa.PacketProcessor.Invariant.Defs.{
  dma_id, status_at, Inv, Kept, is_free, launch_id, dec_id, transferring,
}

-- What `release_slot` makes of the state.
abbrev released : ℕ → KernelInfo → PacketProcessor → PacketProcessor
released id info s = record s {
  free_slots = set s.free_slots s.remaining_dispatch_slots (u16 id);
  remaining_dispatch_slots = u32 (s.remaining_dispatch_slots + 1);
  heap = s.heap ++ (freed info.local_kernarg_address ∷ freed info.local_image_address ∷ []);
}

released-free :
    (s : PacketProcessor) (id : ℕ) (info : KernelInfo) (a : ℕ)
    → id < 8
    → s.remaining_dispatch_slots < 8
    → s.remaining_dispatch_slots < length s.free_slots
    → is_free (released id info s) a ≡ is_free s a + mentions id a
released-free s id info a id_fits few room =
    rw (counter, fits) (free-release s.free_slots s.remaining_dispatch_slots id a room)
  where
    counter : (s.remaining_dispatch_slots + 1) % 2 ^ 32 ≡ suc s.remaining_dispatch_slots
    counter = omega (arith, few)

    fits : id % 2 ^ 16 ≡ id
    fits = omega (arith, id_fits)

module _ {s : PacketProcessor} (inv : Inv s) (malloc : Malloc) where
  abbrev id : ℕ
  id = s.current_dma_packet_id

  abbrev info : KernelInfo
  info = get_or s.pending_packets id no_kernel

  module _ (engaged : id ≢ uint32_max) where
    id-lt : id < 8
    id-lt = ground (arith, inv.once id)

    in_pending : id < length s.pending_packets
    in_pending = omega (arith, inv.pending_size, id-lt)

    -- The kernel arguments have arrived: the slot stays in the transfer stage.
    kernarg_arrived-Inv : Kept (kernarg_arrived malloc s id info >>= (λ s'. some (clear_dma s')))
    unfolding kernarg_arrived
    kernarg_arrived-Inv = record {
      state = after;
      returns = rw (set?-some s.pending_packets id moved in_pending);
      inv = record {
        pending_size = rw length-set inv.pending_size;
        slots_size = inv.slots_size;
        dma = pushed.valid;
        launch = inv.launch;
        dec = inv.dec;
        total = ground (arith, inv.total, pushed.more);
        once = λ a. ground (arith, inv.once a, pushed.split a);
        dma_status = λ a h. ground (arith, inv.dma_status a, pushed.split a, status a);
        launch_status = λ a h. ground (arith, inv.launch_status a h, inv.once a, status a);
        dec_status = λ a h. ground (arith, inv.dec_status a h, inv.once a, status a);
      };
    }
      where
        storage : ℕ
        storage = image_storage s.mem info.kp_addr info.local_kernarg_address

        dram_dest : ℕ
        dram_dest = malloc s.heap storage

        moved : KernelInfo
        moved = record info { local_image_address = dram_dest; status = get_image }

        after : PacketProcessor
        after = record s {
          pending_packets = set s.pending_packets id moved;
          dma_queue = push s.dma_queue (image_request s id info dram_dest);
          heap = s.heap ++ (malloced storage dram_dest ∷ []);
          current_dma_packet_id = uint32_max;
        }

        room : queued s.dma_queue < 8
        room = ground (arith, inv.total)

        pushed : Pushed no_dma dma_id s.dma_queue (image_request s id info dram_dest)
        pushed = joined_request no_dma dma_id s.dma_queue _ inv.dma room

        status : (a : ℕ) → status_at after a ≡ (if id == a then get_image else status_at s a)
        status a = status-set s.pending_packets id a moved in_pending

    -- The image has arrived: the slot goes to the launch queue.
    image_arrived-Inv : Kept (image_arrived s id info >>= (λ s'. some (clear_dma s')))
    unfolding image_arrived launch_request
    image_arrived-Inv = record {
      state = after;
      returns = rw (set?-some s.pending_packets id moved in_pending);
      inv = record {
        pending_size = rw length-set inv.pending_size;
        slots_size = inv.slots_size;
        dma = inv.dma;
        launch = pushed.valid;
        dec = inv.dec;
        total = ground (arith, inv.total, pushed.more);
        once = λ a. ground (arith, inv.once a, pushed.split a);
        dma_status = λ a h. ground (arith, inv.dma_status a, inv.once a, status a);
        launch_status = λ a h. ground (arith, inv.launch_status a, pushed.split a, status a);
        dec_status = λ a h. ground (arith, inv.dec_status a h, inv.once a, status a);
      };
    }
      where
        moved : KernelInfo
        moved = record info { status = processing }

        after : PacketProcessor
        after = record s {
          pending_packets = set s.pending_packets id moved;
          launch_queue = push s.launch_queue (launch_request s id info);
          current_dma_packet_id = uint32_max;
        }

        pushed : Pushed no_launch launch_id s.launch_queue (launch_request s id info)
        pushed =
            joined_request no_launch launch_id s.launch_queue _ inv.launch
              (ground (arith, inv.total))

        status : (a : ℕ) → status_at after a ≡ (if id == a then processing else status_at s a)
        status a = status-set s.pending_packets id a moved in_pending

    -- The image has been stored, and the packet has a signal: the slot goes to the decrement queue.
    request_decrement-Inv : Kept (request_decrement s id info >>= (λ s'. some (clear_dma s')))
    unfolding request_decrement
    request_decrement-Inv = record {
      state = after;
      returns = rw (set?-some s.pending_packets id moved in_pending);
      inv = record {
        pending_size = rw length-set inv.pending_size;
        slots_size = inv.slots_size;
        dma = inv.dma;
        launch = inv.launch;
        dec = pushed.valid;
        total = ground (arith, inv.total, pushed.more);
        once = λ a. ground (arith, inv.once a, pushed.split a);
        dma_status = λ a h. ground (arith, inv.dma_status a, inv.once a, status a);
        launch_status = λ a h. ground (arith, inv.launch_status a h, inv.once a, status a);
        dec_status = λ a h. ground (arith, inv.dec_status a, pushed.split a, status a);
      };
    }
      where
        moved : KernelInfo
        moved = record info { status = completion }

        request : DecrementRequest
        request = record { packet_id = id; signal_handle = signal_of s info; pasid = info.pasid }

        after : PacketProcessor
        after = record s {
          pending_packets = set s.pending_packets id moved;
          dec_queue = push s.dec_queue request;
          current_dma_packet_id = uint32_max;
        }

        pushed : Pushed no_decrement dec_id s.dec_queue request
        pushed =
            joined_request no_decrement dec_id s.dec_queue _ inv.dec (ground (arith, inv.total))

        status : (a : ℕ) → status_at after a ≡ (if id == a then completion else status_at s a)
        status a = status-set s.pending_packets id a moved in_pending

    -- The image has been stored, and the packet has no signal: the slot becomes free.
    finish_packet-Inv : Kept (finish_packet s id info >>= (λ s'. some (clear_dma s')))
    unfolding finish_packet release_slot
    finish_packet-Inv = record {
      state = after;
      returns = rw (set?-some s.free_slots s.remaining_dispatch_slots (u16 id) room);
      inv = record {
        pending_size = inv.pending_size;
        slots_size = rw length-set inv.slots_size;
        dma = inv.dma;
        launch = inv.launch;
        dec = inv.dec;
        total = ground (arith, inv.total);
        once = λ a. ground (arith, inv.once a, freed_once a);
        dma_status = λ a h. ground (arith, inv.dma_status a);
        launch_status = inv.launch_status;
        dec_status = inv.dec_status;
      };
    }
      where
        few : s.remaining_dispatch_slots < 8
        few = ground (arith, inv.total)

        room : s.remaining_dispatch_slots < length s.free_slots
        room = omega (arith, few, inv.slots_size)

        after : PacketProcessor
        after = clear_dma (retire_packet info.kp_addr (released id info s))

        freed_once : (a : ℕ) → is_free after a ≡ is_free s a + mentions id a
        freed_once a = released-free s id info a id-lt few room

    image_stored-Inv : Kept (image_stored s id info >>= (λ s'. some (clear_dma s')))
    unfolding image_stored
    image_stored-Inv = elim (Bool-cases (signal_of s info == 0)) [
      | inl unset ↦ rw unset finish_packet-Inv
      | inr is_set ↦ rw is_set request_decrement-Inv
    ]

    transferred-Inv :
        (status : KernelStatus)
        → transferring status ≡ true
        → Kept (transferred malloc status s id info >>= (λ s'. some (clear_dma s')))
    unfolding transferred
    transferred-Inv get_kernarg h = kernarg_arrived-Inv
    transferred-Inv get_image h = image_arrived-Inv
    transferred-Inv store_image h = image_stored-Inv
    transferred-Inv processing h = cc
    transferred-Inv completion h = cc

    pub interrupt_transfer-Inv : Kept (interrupt_transfer malloc s)
    unfolding interrupt_transfer
    interrupt_transfer-Inv =
        rw (get_elem?-eq-get_or s.pending_packets id no_kernel in_pending)
          (transferred-Inv info.status (inv.dma_status id (ground arith)))

module _ {s : PacketProcessor} (inv : Inv s) where
  -- A core has run its kernel: the slot goes back to the transfer stage.
  pub interrupt_kernel-Inv :
      (core : ℕ) {c : CoreInfo}
      → get_elem? s.core_usage core ≡ some c
      → c.running ≡ true
      → Kept (interrupt_kernel core s)
  unfolding interrupt_kernel
  interrupt_kernel-Inv core {c} at_core busy = record {
    state = after;
    returns = rw (
      at_core,
      get_elem?-eq-get_or s.pending_packets c.packet_id no_kernel in_pending,
      set?-some s.pending_packets c.packet_id moved in_pending,
      set?-some s.core_usage core idle_core found.0,
    );
    inv = record {
      pending_size = rw length-set inv.pending_size;
      slots_size = inv.slots_size;
      dma = pushed.valid;
      launch = inv.launch;
      dec = inv.dec;
      total = ground (arith, inv.total, pushed.more, stopped 0);
      once = λ a. ground (arith, inv.once a, pushed.split a, stopped a);
      dma_status = λ a h. ground (arith, inv.dma_status a, pushed.split a, status a);
      launch_status = λ a h. ground (arith, inv.launch_status a, inv.once a, stopped a, status a);
      dec_status = λ a h. ground (arith, inv.dec_status a h, inv.once a, stopped a, status a);
    };
  }
    where
      found : (core < length s.core_usage) × (get_or s.core_usage core idle_core ≡ c)
      found = get_or_of_get_elem? s.core_usage core idle_core at_core

      stopped :
          (a : ℕ)
          → (running s.core_usage a
              ≡ running (set s.core_usage core idle_core) a + mentions c.packet_id a)
            × (running_cores s.core_usage ≡ running_cores (set s.core_usage core idle_core) + 1)
      stopped a = rw (found.1) at (running-stop s.core_usage core a found.0 (rw (found.1) busy))

      id_lt : c.packet_id < 8
      id_lt = ground (arith, inv.once c.packet_id, stopped c.packet_id)

      in_pending : c.packet_id < length s.pending_packets
      in_pending = omega (arith, id_lt, inv.pending_size)

      info : KernelInfo
      info = get_or s.pending_packets c.packet_id no_kernel

      moved : KernelInfo
      moved = record info { status = store_image }

      after : PacketProcessor
      after = record s {
        pending_packets = set s.pending_packets c.packet_id moved;
        core_usage = set s.core_usage core idle_core;
        dma_queue = push s.dma_queue (store_request s c.packet_id info);
      }

      pushed : Pushed no_dma dma_id s.dma_queue (store_request s c.packet_id info)
      pushed =
          joined_request no_dma dma_id s.dma_queue _ inv.dma (ground (arith, inv.total, stopped 0))

      status :
          (a : ℕ) → status_at after a ≡ (if c.packet_id == a then store_image else status_at s a)
      status a = status-set s.pending_packets c.packet_id a moved in_pending

  -- A signal has been decremented: the slot becomes free.
  pub interrupt_completion-Inv :
      s.current_cmpl_packet_id ≢ uint32_max → Kept (interrupt_completion s)
  unfolding interrupt_completion release_slot
  interrupt_completion-Inv engaged = record {
    state = after;
    returns = rw (
      get_elem?-eq-get_or s.pending_packets id no_kernel in_pending,
      set?-some s.free_slots s.remaining_dispatch_slots (u16 id) room,
    );
    inv = record {
      pending_size = inv.pending_size;
      slots_size = rw length-set inv.slots_size;
      dma = inv.dma;
      launch = inv.launch;
      dec = inv.dec;
      total = ground (arith, inv.total);
      once = λ a. ground (arith, inv.once a, freed_once a);
      dma_status = inv.dma_status;
      launch_status = inv.launch_status;
      dec_status = λ a h. ground (arith, inv.dec_status a);
    };
  }
    where
      id : ℕ
      id = s.current_cmpl_packet_id

      id_lt : id < 8
      id_lt = ground (arith, inv.once id)

      in_pending : id < length s.pending_packets
      in_pending = omega (arith, inv.pending_size, id_lt)

      info : KernelInfo
      info = get_or s.pending_packets id no_kernel

      few : s.remaining_dispatch_slots < 8
      few = ground (arith, inv.total)

      room : s.remaining_dispatch_slots < length s.free_slots
      room = omega (arith, few, inv.slots_size)

      after : PacketProcessor
      after = record (retire_packet info.kp_addr (released id info s)) {
        current_cmpl_packet_id = uint32_max;
      }

      freed_once : (a : ℕ) → is_free after a ≡ is_free s a + mentions id a
      freed_once a = released-free s id info a id_lt few room
