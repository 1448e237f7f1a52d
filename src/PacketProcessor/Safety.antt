-- ===== src/PacketProcessor/Safety.antt =====
-- What holds in every state that the packet processor reaches by a run in which no barrier packet
-- with a completion signal is taken, whatever the interleaving of its main loop, the interrupts and
-- the host; and what such a packet does.
pub mod Barriers
use lib_hsa.Base.{
  ℕ, ◌+◌, ◌≤◌, ◌≡◌, ◌≢◌, true, false, none, some, arith, get_elem?, ltb, if◌then◌else◌, uint32_max,
  Option, ◌<◌, Bool,
}
use lib_hsa.PacketProcessor.Queue.Fifo.{queued}
use lib_hsa.PacketProcessor.State.{KernelStatus, processing, completion, Malloc, PacketProcessor}
use lib_hsa.PacketProcessor.Loop.{System, Reach, Irq, Cause, handle, Quiet}
use lib_hsa.PacketProcessor.Aql.{spins, returns}
use lib_hsa.PacketProcessor.Issue.{process_dma_queue, process_launch_queue, process_dec_queue}
use lib_hsa.PacketProcessor.Interrupts.{interrupt_transfer, interrupt_kernel, interrupt_completion}
use lib_hsa.PacketProcessor.Tokens.{running_cores, engaged}
use lib_hsa.PacketProcessor.Invariant.{
  Inv, Kept, is_free, in_dma, in_launch, in_dec, transferring, status_at, process_dma_queue-Inv,
  process_launch_queue-Inv, process_dec_queue-Inv, interrupt_transfer-Inv, interrupt_kernel-Inv,
  interrupt_completion-Inv, Reach-Inv, handle-Inv,
}

Kept-ne-none : {r : Option PacketProcessor} → Kept r → r ≢ none
Kept-ne-none k e = cc (k.returns)

-- The stages of a kernel dispatch.
pub data Stage : Type 0 where
  transfer execution completing : Stage

abbrev pub in_stage : Stage → PacketProcessor → ℕ → ℕ
in_stage transfer s a = in_dma s a
in_stage execution s a = in_launch s a
in_stage completing s a = in_dec s a

abbrev pub fits : Stage → KernelStatus → Bool
fits transfer status = transferring status
fits execution processing = true
fits completing completion = true
fits _ _ = false

module _ {n : ℕ} {malloc : Malloc} {s : System} (r : Reach n malloc s) (q : Quiet r) where
  -- In every state that is reached by a run in which no barrier packet with a completion signal was
  -- taken, each of the slots 0 to 7 is in exactly one place: free, or in the transfer stage (a DMA
  -- request or the running transfer), or in the execution stage (a launch request or a running
  -- core), or in the completion stage (a decrement request or the running decrement). No other
  -- number is in any of these places.
  pub slots_conserved :
      (a : ℕ)
      → is_free s.pp a + in_dma s.pp a + in_launch s.pp a + in_dec s.pp a
        ≡ (if ltb a 8 then 1 else 0)
  slots_conserved = (Reach-Inv r q).once

  -- In every state that is reached by a run in which no barrier packet with a completion signal was
  -- taken, the free slots, the waiting requests of the three queues and the requests being served
  -- number eight together, so each queue holds at most eight requests.
  pub queues_bounded :
      (s.pp.remaining_dispatch_slots
          + (queued s.pp.dma_queue + engaged s.pp.current_dma_packet_id)
          + (queued s.pp.launch_queue + running_cores s.pp.core_usage)
          + (queued s.pp.dec_queue + engaged s.pp.current_cmpl_packet_id)
        ≡ 8)
      × (queued s.pp.dma_queue ≤ 8)
      × (queued s.pp.launch_queue ≤ 8)
      × (queued s.pp.dec_queue ≤ 8)
  queues_bounded = let inv = Reach-Inv r q in (inv.total, inv.dma.few, inv.launch.few, inv.dec.few)

  -- In every state that is reached by a run in which no barrier packet with a completion signal was
  -- taken, the three functions that hand on requests return.
  issue_never_faults :
      (process_dma_queue n s.pp ≢ none)
      × (process_launch_queue s.pp ≢ none)
      × (process_dec_queue n s.pp ≢ none)
  issue_never_faults =
      let inv = Reach-Inv r q in
      (
        Kept-ne-none (process_dma_queue-Inv inv n),
        Kept-ne-none (process_launch_queue-Inv inv n),
        Kept-ne-none (process_dec_queue-Inv inv n),
      )

  -- In every state that is reached by a run in which no barrier packet with a completion signal was
  -- taken, an interrupt that has its cause is served with no access outside an array.
  pub interrupts_never_fault : (irq : Irq) → Cause s.pp irq → handle n malloc irq s.pp ≢ none
  interrupts_never_fault irq cause = Kept-ne-none (handle-Inv n malloc irq (Reach-Inv r q) cause)

  -- In every state that is reached by a run in which no barrier packet with a completion signal was
  -- taken, the status of a packet fits each stage that mentions its slot: in the transfer stage `interrupt_transfer` has a case for it, in the execution stage it is PROCESSING
  -- and in the completion stage COMPLETION.
  pub status_fits_stage :
      (stage : Stage) (a : ℕ) → 0 < in_stage stage s.pp a → fits stage (status_at s.pp a) ≡ true
  status_fits_stage transfer a h = (Reach-Inv r q).dma_status a h
  status_fits_stage execution a h = ground (arith, (Reach-Inv r q).launch_status a h)
  status_fits_stage completing a h = ground (arith, (Reach-Inv r q).dec_status a h)
