-- ===== src/PacketProcessor/Invariant/Aql.antt =====
-- Taking a packet never faults and keeps the invariant, unless the packet is a barrier with a
-- completion signal.
use lib_hsa.Base.{
  ℕ, ◌+◌, ◌-◌, ◌<◌, ◌≡◌, arith, ◌==◌, if◌then◌else◌, ◌≤◌, length, get_or, load, set, ◌++◌, ◌∷◌, [],
  get_elem?-eq-get_or, length-set, Option, Bool, Bool-cases, false, inl, inr, refl, not, ==→eq, ltb,
}
use mathlib.Core.Bool.{◌&&◌}
use lib_hsa.Packets.KernelDispatch
use lib_hsa.PacketProcessor.Aql.{
  Poll, spins, returns, dispatch_kernel, kernarg_mem_size, kernarg_request, next_packet,
  barrier_passed, barrier_signal, packet_pasid, process_packet, process_aql_packets, then_next,
  not_ready, is_set, waits_for_earlier, type_field, packet_header, current_packet_address,
}
use lib_hsa.PacketProcessor.State.{PacketProcessor, Malloc, KernelInfo, get_kernarg, malloced}
use lib_hsa.PacketProcessor.Invariant.Defs.{Inv, Inv-world, Kept, is_free, dma_id, status_at}
use lib_hsa.PacketProcessor.Tokens.{
  free, mentions, free-take, Pushed, joined_request, status-set, set?-some,
}
use lib_hsa.PacketProcessor.Loop.{no_kernel, no_dma, signalling_barrier}
use lib_hsa.PacketProcessor.Queue.{push}
use mathlib.Core.Bool.{true, false}

-- A poll that spins, or returns a state with the invariant.
pub data KeptPoll (poll : Poll) : Type 0 where
  spun : poll ≡ spins → KeptPoll poll
  kept : (s : PacketProcessor) → poll ≡ returns s → Inv s → KeptPoll poll

next_packet-Inv : {s : PacketProcessor} → Inv s → Inv (next_packet s)
unfolding next_packet
next_packet-Inv inv = Inv-world _ _ _ _ _ _ _ inv

-- A barrier packet with no signal only retires.
barrier_passed-Inv :
    {s : PacketProcessor} (bp : ℕ) → Inv s → barrier_signal s.mem bp ≡ 0 → Inv (barrier_passed bp s)
unfolding barrier_passed
barrier_passed-Inv bp inv unset = rw (unset, if◌then◌else◌) (Inv-world _ _ _ _ _ _ _ inv)

module _ {s : PacketProcessor} (inv : Inv s) (malloc : Malloc) where
  -- A kernel dispatch: a free slot goes to the transfer stage.
  dispatch_kernel-Inv :
      (kp : ℕ) → 0 < s.remaining_dispatch_slots → Kept (dispatch_kernel malloc kp s)
  unfolding dispatch_kernel
  dispatch_kernel-Inv kp some_left = record {
    state = after;
    returns = rw (
      get_elem?-eq-get_or s.free_slots remaining 0 in_slots,
      get_elem?-eq-get_or s.pending_packets slot no_kernel in_pending,
      set?-some s.pending_packets slot moved in_pending,
    );
    inv = record {
      pending_size = rw length-set inv.pending_size;
      slots_size = inv.slots_size;
      dma = pushed.valid;
      launch = inv.launch;
      dec = inv.dec;
      total = ground (arith, inv.total, pushed.more);
      once = λ a. ground (arith, inv.once a, pushed.split a, taken a);
      dma_status = λ a h. ground (arith, inv.dma_status a, pushed.split a, status a);
      launch_status = λ a h. ground (arith, inv.launch_status a h, inv.once a, taken a, status a);
      dec_status = λ a h. ground (arith, inv.dec_status a h, inv.once a, taken a, status a);
    };
  }
    where
      remaining : ℕ
      remaining = s.remaining_dispatch_slots - 1

      all_in : s.remaining_dispatch_slots ≤ length s.free_slots
      all_in = ground (arith, inv.total, inv.slots_size)

      in_slots : remaining < length s.free_slots
      in_slots = omega (arith, all_in, some_left)

      slot : ℕ
      slot = get_or s.free_slots remaining 0

      taken : (a : ℕ) → is_free s a ≡ free s.free_slots remaining a + mentions slot a
      taken a = free-take s.free_slots s.remaining_dispatch_slots a some_left all_in

      slot_lt : slot < 8
      slot_lt = ground (arith, inv.once slot, taken slot)

      in_pending : slot < length s.pending_packets
      in_pending = omega (arith, slot_lt, inv.pending_size)

      size : ℕ
      size = kernarg_mem_size (load 8 s.mem (kp + KernelDispatch.kernel_object))

      local_kernargs : ℕ
      local_kernargs = malloc s.heap size

      moved : KernelInfo
      moved = record (get_or s.pending_packets slot no_kernel) {
        kp_addr = kp;
        status = get_kernarg;
        pasid = packet_pasid s;
        local_kernarg_address = local_kernargs;
      }

      after : PacketProcessor
      after = record s {
        pending_packets = set s.pending_packets slot moved;
        remaining_dispatch_slots = remaining;
        dma_queue = push s.dma_queue (kernarg_request s kp slot size local_kernargs);
        heap = s.heap ++ (malloced size local_kernargs ∷ []);
      }

      pushed : Pushed no_dma dma_id s.dma_queue (kernarg_request s kp slot size local_kernargs)
      pushed = joined_request no_dma dma_id s.dma_queue _ inv.dma (ground (arith, inv.total))

      status : (a : ℕ) → status_at after a ≡ (if slot == a then get_kernarg else status_at s a)
      status a = status-set s.pending_packets slot a moved in_pending

  then_next-KeptPoll : {result : Option PacketProcessor} → Kept result → KeptPoll (then_next result)
  then_next-KeptPoll k = kept (next_packet k.state) (rw (k.returns)) (next_packet-Inv k.inv)

  -- The end of a barrier case whose test is `waiting`.
  barrier-KeptPoll :
      (waiting : Bool) (bp : ℕ)
      → barrier_signal s.mem bp ≡ 0
      → KeptPoll (if waiting then spins else returns (next_packet (barrier_passed bp s)))
  barrier-KeptPoll true bp unset = spun refl
  barrier-KeptPoll false bp unset =
      kept (next_packet (barrier_passed bp s)) refl
        (next_packet-Inv (barrier_passed-Inv bp inv unset))

  process_packet-KeptPoll :
      (type kp : ℕ)
      → 0 < s.remaining_dispatch_slots
      → (type ≡ 3 → barrier_signal s.mem kp ≡ 0)
      → (type ≡ 5 → barrier_signal s.mem kp ≡ 0)
      → KeptPoll (process_packet malloc type kp s)
  unfolding process_packet
  process_packet-KeptPoll type kp some_left unset_and unset_or = elim (Bool-cases (type == 1)) [
    | inl e ↦ rw e (kept s refl inv)
    | inr n1 ↦ elim (Bool-cases (type == 2)) [
      | inl e ↦ rw (n1, e) (then_next-KeptPoll (dispatch_kernel-Inv kp some_left))
      | inr n2 ↦ elim (Bool-cases (type == 3)) [
        | inl e ↦
            rw (n1, n2, e) (barrier-KeptPoll (not_ready s.mem kp) kp (unset_and (==→eq type 3 e)))
        | inr n3 ↦ elim (Bool-cases (type == 5)) [
          | inl e ↦
              rw (n1, n2, n3, e) (barrier-KeptPoll (is_set s.mem kp) kp (unset_or (==→eq type 5 e)))
          | inr n5 ↦ rw (n1, n2, n3, n5) (kept (next_packet s) refl (next_packet-Inv inv))
        ]
      ]
    ]
  ]

  pub process_aql_packets-KeptPoll :
      signalling_barrier s ≡ false → KeptPoll (process_aql_packets malloc s)
  unfolding process_aql_packets signalling_barrier
  process_aql_packets-KeptPoll quiet =
      elim (Bool-cases (not (s.aql_left == 0) && ltb 0 s.remaining_dispatch_slots)) [
        | inr skip ↦ rw skip (kept s refl inv)
        | inl go ↦ elim (Bool-cases (waits_for_earlier s)) [
          | inl wait ↦ rw (go, wait) (spun refl)
          | inr ready ↦
              rw (go, ready)
                (process_packet-KeptPoll (type_field (packet_header s)) (current_packet_address s)
                  (ground arith) (λ e. ground arith) (λ e. ground arith))
        ]
      ]
