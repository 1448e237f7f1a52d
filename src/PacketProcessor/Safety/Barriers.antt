-- ===== src/PacketProcessor/Safety/Barriers.antt =====
-- A barrier packet with a completion signal is queued for the signal unit under its index in the
-- AQL queue. It owns no dispatch slot, but `interrupt_completion` releases one.
use lib_hsa.Base.{
  ℕ, ◌≡◌, true, none, arith, length, ◌<◌, ◌==◌, ◌≢◌, uint32_max, false, Option-cases, some,
  get_elem?, refl, inl, inr, bit_and_mask, get_elem?-eq-get_or, set, length-set, ◌∙◌, ap,
  get_or-set_self,
}
use lib_hsa.PacketProcessor.State.{Malloc, PacketProcessor, KernelInfo, DecrementRequest}
use lib_hsa.PacketProcessor.Interrupts.{release_slot, interrupt_completion}
use lib_hsa.PacketProcessor.Aql.{
  process_aql_packets, process_packet, barrier_passed, next_packet, returns, packet_index,
  barrier_signal, current_packet_address, packet_pasid,
}
use lib_hsa.PacketProcessor.Loop.{
  signalling_barrier, handle, Reach, at_turn, aql, Quiet, Cause, Irq, later, Step,
}
use lib_hsa.PacketProcessor.Queue.{Queue, push, has_request, front, slot_of}
use lib_hsa.PacketProcessor.Tokens.{engaged}
use lib_hsa.PacketProcessor.Queue.Fifo.{IsValid, queued, slot_of-mod}
use lib_hsa.PacketProcessor.Issue.{
  process_launch_queue, process_dma_queue, process_dec_queue, start_decrement,
}
use lib_hsa.PacketProcessor.Invariant.{Inv, Reach-Inv}

idle-has_request : {A : Type 0} (q : Queue A) → IsValid q → queued q ≡ 0 → has_request q ≡ false
idle-has_request q v h = ground (arith, v.read_fits, v.write_fits)

engaged-idle : (current : ℕ) → engaged current ≡ 0 → (current == uint32_max) ≡ true
engaged-idle current h = ground arith

-- What the barrier packet at the front of the AQL queue asks of the signal unit.
abbrev barrier_request : PacketProcessor → DecrementRequest
barrier_request s = record {
  packet_id = packet_index s;
  signal_handle = barrier_signal s.mem (current_packet_address s);
  pasid = packet_pasid s;
}

-- Only the request is added, and no slot is taken.
record BarrierTaken (s t : PacketProcessor) : Type 0 where
  remaining : t.remaining_dispatch_slots ≡ s.remaining_dispatch_slots
  slots : t.free_slots ≡ s.free_slots
  dma : t.dma_queue ≡ s.dma_queue
  launch : t.launch_queue ≡ s.launch_queue
  dec : t.dec_queue ≡ push s.dec_queue (barrier_request s)
  current : t.current_cmpl_packet_id ≡ s.current_cmpl_packet_id

take_barrier :
    (malloc : Malloc) {s t : PacketProcessor}
    → 0 < s.remaining_dispatch_slots
    → signalling_barrier s ≡ true
    → process_aql_packets malloc s ≡ returns t
    → s.aql_left ≢ 0
    → BarrierTaken s t
unfolding process_aql_packets process_packet signalling_barrier barrier_passed next_packet
take_barrier malloc free b h left = ground arith

release_slot-full :
    (id : ℕ) (info : KernelInfo) (s : PacketProcessor)
    → length s.free_slots ≡ s.remaining_dispatch_slots
    → release_slot id info s ≡ none
unfolding release_slot
release_slot-full id info s full = ground arith

-- A request pushed onto an empty queue is at its front.
front-push :
    {A : Type 0} (q : Queue A) (x : A)
    → IsValid q
    → queued q ≡ 0
    → (has_request (push q x) ≡ true) × (front (push q x) ≡ some x)
unfolding push front
front-push q x v h =
    let same : q.read_index ≡ q.write_index = omega (arith, v.read_fits, v.write_fits) in
    let inside : slot_of q.write_index < length q.slots =
      omega (arith, slot_of-mod q.write_index, v.size) in
    (
      ground (arith, v.write_fits),
      rw same (
          get_elem?-eq-get_or (set q.slots (slot_of q.write_index) x) (slot_of q.write_index) x
            (omega (arith, inside, length-set q.slots (slot_of q.write_index) x))
          ∙ ap some (get_or-set_self q.slots (slot_of q.write_index) x x inside)),
    )

idle_dma :
    (n : ℕ) {t : PacketProcessor} → has_request t.dma_queue ≡ false → process_dma_queue n t ≡ some t
unfolding process_dma_queue
idle_dma n h = rw h refl

idle_launch :
    {t : PacketProcessor} → has_request t.launch_queue ≡ false → process_launch_queue t ≡ some t
unfolding process_launch_queue
idle_launch h = rw h refl

decrement_started :
    (n : ℕ) (t : PacketProcessor) (r : DecrementRequest)
    → has_request t.dec_queue ≡ true
    → front t.dec_queue ≡ some r
    → (t.current_cmpl_packet_id == uint32_max) ≡ true
    → process_dec_queue n t ≡ some (start_decrement n t r)
unfolding process_dec_queue
decrement_started n t r h f idle = rw (h, idle, f) refl

completion_faults :
    (u : PacketProcessor)
    → length u.free_slots ≡ u.remaining_dispatch_slots
    → interrupt_completion u ≡ none
unfolding interrupt_completion
completion_faults u full =
    elim (Option-cases (get_elem? u.pending_packets u.current_cmpl_packet_id)) [
      | inl missing ↦ rw missing
      | inr (info, found) ↦ rw (found, release_slot-full u.current_cmpl_packet_id info u full)
    ]

-- If a run in which no barrier packet with a completion signal was taken takes one, while no kernel
-- dispatch is in flight, it goes on to a state where the signal unit works for that packet, named by
-- its index in the AQL queue, and the interrupt that ends this work, which has its cause, makes an
-- access outside an array.
pub barrier_completion_faults :
    (n : ℕ) (malloc : Malloc) (s t : PacketProcessor) (r : Reach n malloc (at_turn aql s))
    → Quiet r
    → s.remaining_dispatch_slots ≡ 8
    → s.aql_left ≢ 0
    → signalling_barrier s ≡ true
    → process_aql_packets malloc s ≡ returns t
    → (u : PacketProcessor) × Reach n malloc (at_turn aql u)
      × (u.current_cmpl_packet_id ≡ packet_index s)
      × Cause u Irq.decremented
      × (handle n malloc Irq.decremented u ≡ none)
unfolding handle
barrier_completion_faults n malloc s t r q all_free left b e = (
  start_decrement n t (barrier_request s),
  later
      (later (later (later r (Step.take_packet e)) (Step.issue_dma dma)) (Step.issue_launch launch))
      (Step.issue_dec dec),
  omega (arith, small),
  omega (arith, small),
  completion_faults _ (omega (arith, taken.remaining, slots, all_free)),
)
  where
    inv : Inv s
    inv = Reach-Inv r q

    taken : BarrierTaken s t
    taken = take_barrier malloc (omega arith) b e left

    small : packet_index s < 128
    small = omega (arith, bit_and_mask 7 s.current_packet_number)

    slots : length t.free_slots ≡ 8
    slots = rw (taken.slots) inv.slots_size

    front_is : (has_request t.dec_queue ≡ true) × (front t.dec_queue ≡ some (barrier_request s))
    front_is =
        rw (taken.dec)
          (front-push s.dec_queue (barrier_request s) inv.dec (omega (arith, inv.total, all_free)))

    dma : process_dma_queue n t ≡ some t
    dma =
        idle_dma n (
          rw (taken.dma)
            (idle-has_request s.dma_queue inv.dma (omega (arith, inv.total, all_free))))

    launch : process_launch_queue t ≡ some t
    launch = idle_launch (
        rw (taken.launch)
          (idle-has_request s.launch_queue inv.launch (omega (arith, inv.total, all_free))))

    dec : process_dec_queue n t ≡ some (start_decrement n t (barrier_request s))
    dec = decrement_started n t (barrier_request s) front_is.0 front_is.1 (
        rw (taken.current)
          (engaged-idle s.current_cmpl_packet_id (omega (arith, inv.total, all_free))))
