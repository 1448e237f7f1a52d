-- ===== src/PacketProcessor/Tests.antt =====
-- Runs of the packet processor on concrete packets, and the theorems at such runs.
use lib_hsa.Base.{
  ◌+◌, refl, none, some, Memory, ◌==◌, if◌then◌else◌, ◌*◌, Option, length, load, ◌≢◌, ◌<◌,
  uint32_max, arith, ◌≡◌, ◌∷◌, true, ◌≤◌, [],
}
use lib_hsa.PacketProcessor.Addresses.{base_aql_pkt_addr}
use lib_hsa.PacketProcessor.State.{Malloc, PacketProcessor, DmaRequest}
use lib_hsa.PacketProcessor.Loop.{
  initial, Turn, at_turn, Step, Reach, start, later, signalling_barrier, idle_cores, handle, no_dma,
  Irq, no_requests, Quiet, Cause,
}
use lib_hsa.PacketProcessor.Issue.{process_dma_queue}
use lib_hsa.PacketProcessor.Aql.{
  process_aql_packets, Poll, process_packet, dispatch_kernel, next_packet, kernarg_mem_size,
  returns, barrier_passed, not_ready,
}
use lib_hsa.PacketProcessor.Queue.{front, push, advance}
use lib_hsa.PacketProcessor.Queue.Fifo.{queued, contents, IsValid, push_fifo, front_fifo}
use lib_hsa.PacketProcessor.Invariant.{
  is_free, transferring, Reach-Inv, status_at, in_dma, in_launch, in_dec, no_requests-IsValid,
}
use lib_hsa.PacketProcessor.Tokens.{engaged, running_cores}
use lib_hsa.PacketProcessor.Safety.{
  interrupts_never_fault, queues_bounded, status_fits_stage, slots_conserved, Stage,
}
use lib_hsa.PacketProcessor.Safety.Barriers.{barrier_completion_faults}

-- An allocator that hands out one fresh page a call.
abbrev pages : Malloc
pages calls size = 4096 + 4096 * length calls

-- One kernel dispatch packet in the first slot of the queue: operation SOBELX3x3, one pixel.
abbrev one_dispatch : Memory
one_dispatch a =
    if a == base_aql_pkt_addr
    then 2
    else if a == base_aql_pkt_addr + 12
    then 1
    else if a == base_aql_pkt_addr + 16
    then 1
    else if a == base_aql_pkt_addr + 32
    then 1
    else 0

-- The state after `f`, or the one before if `f` does not return.
abbrev after : Option PacketProcessor → PacketProcessor → PacketProcessor
after none s = s
after (some t) s = t

abbrev polled : Poll → PacketProcessor → PacketProcessor
polled (returns t) s = t
polled _ s = s

abbrev queued_packet : PacketProcessor
queued_packet = record (initial 1 one_dispatch) { write_index = 1; aql_left = 1 }

abbrev taken_packet : PacketProcessor
taken_packet = polled (process_aql_packets pages queued_packet) queued_packet

abbrev started_dma : PacketProcessor
started_dma = after (process_dma_queue 1 taken_packet) taken_packet

taken_Reach : Reach 1 pages (at_turn Turn.dma taken_packet)
unfolding process_aql_packets process_packet dispatch_kernel next_packet initial signalling_barrier
    load
taken_Reach =
    later (later (start one_dispatch) (Step.host one_dispatch 1 1)) (Step.take_packet refl)

taken_Quiet : Quiet taken_Reach
unfolding taken_Reach signalling_barrier load initial
taken_Quiet = ((tt, tt), refl)

started_Reach : Reach 1 pages (at_turn Turn.launch started_dma)
unfolding process_aql_packets process_packet dispatch_kernel next_packet initial load
    process_dma_queue front push advance kernarg_mem_size idle_cores
started_Reach = later taken_Reach (Step.issue_dma refl)

started_Quiet : Quiet started_Reach
unfolding started_Reach
started_Quiet = (taken_Quiet, tt)

slots_conserved_example :
    is_free started_dma 7 + in_dma started_dma 7 + in_launch started_dma 7 + in_dec started_dma 7
    ≡ 1
slots_conserved_example = slots_conserved started_Reach started_Quiet 7

queues_bounded_example :
    (started_dma.remaining_dispatch_slots
        + (queued started_dma.dma_queue + engaged started_dma.current_dma_packet_id)
        + (queued started_dma.launch_queue + running_cores started_dma.core_usage)
        + (queued started_dma.dec_queue + engaged started_dma.current_cmpl_packet_id)
      ≡ 8)
    × (queued started_dma.dma_queue ≤ 8)
    × (queued started_dma.launch_queue ≤ 8)
    × (queued started_dma.dec_queue ≤ 8)
queues_bounded_example = queues_bounded started_Reach started_Quiet

queued_Reach : Reach 1 pages (at_turn Turn.aql queued_packet)
unfolding initial
queued_Reach = later (start one_dispatch) (Step.host one_dispatch 1 1)

engaged_dma : started_dma.current_dma_packet_id ≢ uint32_max
unfolding process_aql_packets process_packet dispatch_kernel next_packet initial load
    process_dma_queue front push advance kernarg_mem_size idle_cores
engaged_dma = omega arith

interrupts_never_fault_example : handle 1 pages Irq.transfer started_dma ≢ none
interrupts_never_fault_example =
    interrupts_never_fault started_Reach started_Quiet Irq.transfer engaged_dma

transfer_of_seven : 0 < in_dma started_dma 7
unfolding process_aql_packets process_packet dispatch_kernel next_packet initial load
    process_dma_queue front push advance kernarg_mem_size idle_cores
transfer_of_seven = omega arith

status_fits_stage_example : transferring (status_at started_dma 7) ≡ true
status_fits_stage_example =
    status_fits_stage started_Reach started_Quiet Stage.transfer 7 transfer_of_seven

-- A barrier-and packet with no dependencies and the completion signal 256.
abbrev one_barrier : Memory
one_barrier a = if a == base_aql_pkt_addr then 3 else if a == base_aql_pkt_addr + 57 then 1 else 0

abbrev queued_barrier : PacketProcessor
queued_barrier = record (initial 1 one_barrier) { write_index = 1; aql_left = 1 }

abbrev taken_barrier : PacketProcessor
taken_barrier = polled (process_aql_packets pages queued_barrier) queued_barrier

barrier_Reach : Reach 1 pages (at_turn Turn.aql queued_barrier)
unfolding initial
barrier_Reach = later (start one_barrier) (Step.host one_barrier 1 1)

barrier_completion_faults_example :
    (u : PacketProcessor) × Reach 1 pages (at_turn Turn.aql u)
    × (u.current_cmpl_packet_id ≡ 0)
    × Cause u Irq.decremented
    × (handle 1 pages Irq.decremented u ≡ none)
unfolding process_aql_packets process_packet barrier_passed not_ready next_packet initial load push
    signalling_barrier barrier_Reach
barrier_completion_faults_example =
    barrier_completion_faults 1 pages queued_barrier taken_barrier barrier_Reach (tt, tt) refl
      (omega arith) refl refl

push_fifo_example :
    (contents no_dma (push (no_requests no_dma) (record no_dma { packet_id = 5 }))
      ≡ record no_dma { packet_id = 5 } ∷ [])
    × (queued (push (no_requests no_dma) (record no_dma { packet_id = 5 })) ≡ 1)
    × IsValid (push (no_requests no_dma) (record no_dma { packet_id = 5 }))
push_fifo_example =
    push_fifo no_dma (no_requests no_dma) (record no_dma { packet_id = 5 })
      (no_requests-IsValid no_dma) (omega arith)

front_fifo_example :
    (x : DmaRequest) × (front taken_packet.dma_queue ≡ some x)
    × (contents no_dma taken_packet.dma_queue
        ≡ x ∷ contents no_dma (advance taken_packet.dma_queue))
    × (queued taken_packet.dma_queue ≡ queued (advance taken_packet.dma_queue) + 1)
    × IsValid (advance taken_packet.dma_queue)
unfolding process_aql_packets process_packet dispatch_kernel next_packet initial load push
    kernarg_mem_size
front_fifo_example =
    front_fifo no_dma taken_packet.dma_queue (Reach-Inv taken_Reach taken_Quiet).dma refl
