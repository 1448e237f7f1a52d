-- ===== src/PacketProcessor/Invariant/Issue.antt =====
-- The three functions that hand on queued requests never fault and keep the invariant.
use lib_hsa.Base.{
  ℕ, ◌<◌, ◌≡◌, ◌&&◌, arith, inl, inr, Bool-cases, ◌==◌, uint32_max, ltb, length, set, u32, refl,
  ◌+◌,
}
use lib_hsa.PacketProcessor.Queue.{has_request}
use lib_hsa.PacketProcessor.State.{PacketProcessor}
use lib_hsa.PacketProcessor.Loop.{no_dma, no_launch, no_decrement}
use lib_hsa.PacketProcessor.Issue.{
  start_dma, process_dma_queue, process_launch_queue, process_dec_queue, start_decrement,
  next_free_core, start_kernel,
}
use lib_hsa.PacketProcessor.Tokens.{
  Front, oldest_request, running, busy_core, mentions, running_cores, running-start,
  next_free_core-idle,
}
use lib_hsa.PacketProcessor.Invariant.Defs.{dma_id, Inv, launch_id, dec_id, Kept}

module _ {s : PacketProcessor} (inv : Inv s) (available_cores : ℕ) where
  start_dma-Inv :
      (f : Front no_dma dma_id s.dma_queue)
      → s.current_dma_packet_id ≡ uint32_max
      → Inv (start_dma available_cores s f.request)
  start_dma-Inv f idle = record {
    pending_size = inv.pending_size;
    slots_size = inv.slots_size;
    dma = f.valid;
    launch = inv.launch;
    dec = inv.dec;
    total = ground (arith, small, inv.total, f.fewer);
    once = λ a. ground (arith, small, inv.once a, f.split a);
    dma_status = λ a h. inv.dma_status a (ground (arith, small, f.split a));
    launch_status = inv.launch_status;
    dec_status = inv.dec_status;
  }
    where
      small : f.request.packet_id < 8
      small = ground (arith, inv.once f.request.packet_id, f.split f.request.packet_id)

  pub process_dma_queue-Inv : Kept (process_dma_queue available_cores s)
  unfolding process_dma_queue
  process_dma_queue-Inv =
      elim (Bool-cases (has_request s.dma_queue && (s.current_dma_packet_id == uint32_max))) [
        | inr skip ↦ record { state = s; returns = rw skip; inv = inv }
        | inl go ↦
            let f = oldest_request no_dma dma_id s.dma_queue inv.dma (ground arith) in
            record {
              state = start_dma available_cores s f.request;
              returns = rw (go, f.found);
              inv = start_dma-Inv f (ground arith);
            }
      ]

  start_decrement-Inv :
      (f : Front no_decrement dec_id s.dec_queue)
      → s.current_cmpl_packet_id ≡ uint32_max
      → Inv (start_decrement available_cores s f.request)
  start_decrement-Inv f idle = record {
    pending_size = inv.pending_size;
    slots_size = inv.slots_size;
    dma = inv.dma;
    launch = inv.launch;
    dec = f.valid;
    total = ground (arith, small, inv.total, f.fewer);
    once = λ a. ground (arith, small, inv.once a, f.split a);
    dma_status = inv.dma_status;
    launch_status = inv.launch_status;
    dec_status = λ a h. inv.dec_status a (ground (arith, small, f.split a));
  }
    where
      small : f.request.packet_id < 8
      small = ground (arith, inv.once f.request.packet_id, f.split f.request.packet_id)

  pub process_dec_queue-Inv : Kept (process_dec_queue available_cores s)
  unfolding process_dec_queue
  process_dec_queue-Inv =
      elim (Bool-cases (has_request s.dec_queue && (s.current_cmpl_packet_id == uint32_max))) [
        | inr skip ↦ record { state = s; returns = rw skip; inv = inv }
        | inl go ↦
            let f = oldest_request no_decrement dec_id s.dec_queue inv.dec (ground arith) in
            record {
              state = start_decrement available_cores s f.request;
              returns = rw (go, f.found);
              inv = start_decrement-Inv f (ground arith);
            }
      ]

  start_kernel-Inv :
      (f : Front no_launch launch_id s.launch_queue) (core : ℕ)
      → next_free_core 0 s.core_usage ≡ core
      → core < length s.core_usage
      → Inv (start_kernel s core f.request)
  start_kernel-Inv f core e h = record {
    pending_size = inv.pending_size;
    slots_size = inv.slots_size;
    dma = inv.dma;
    launch = f.valid;
    dec = inv.dec;
    total = ground (arith, small, inv.total, f.fewer, started f.request.packet_id);
    once = λ a. ground (arith, small, inv.once a, f.split a, started a);
    dma_status = inv.dma_status;
    launch_status = λ a p. inv.launch_status a (ground (arith, small, f.split a, started a));
    dec_status = inv.dec_status;
  }
    where
      small : f.request.packet_id < 8
      small = ground (arith, inv.once f.request.packet_id, f.split f.request.packet_id)

      started :
          (a : ℕ)
          → (running (set s.core_usage core (busy_core (u32 f.request.packet_id))) a
              ≡ running s.core_usage a + mentions (u32 f.request.packet_id) a)
            × (running_cores (set s.core_usage core (busy_core (u32 f.request.packet_id)))
                ≡ running_cores s.core_usage + 1)
      started a =
          running-start s.core_usage core (u32 f.request.packet_id) a h
            (next_free_core-idle 0 core s.core_usage (omega (arith, e)) h)

  pub process_launch_queue-Inv : Kept (process_launch_queue s)
  unfolding process_launch_queue
  process_launch_queue-Inv =
      elim (Bool-cases
        (has_request s.launch_queue && ltb (next_free_core 0 s.core_usage) (length s.core_usage))) [
          | inr skip ↦ record { state = s; returns = rw skip; inv = inv }
          | inl go ↦
              let f = oldest_request no_launch launch_id s.launch_queue inv.launch (ground arith) in
              record {
                state = start_kernel s (next_free_core 0 s.core_usage) f.request;
                returns = rw (go, f.found);
                inv = start_kernel-Inv f (next_free_core 0 s.core_usage) refl (ground arith);
              }
        ]
