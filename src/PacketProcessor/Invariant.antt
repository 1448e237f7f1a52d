-- ===== src/PacketProcessor/Invariant.antt =====
-- The invariant of the packet processor: from `main`'s initialization on, under every interleaving of
-- the main loop with interrupts and with writes of the host, as long as no barrier packet with a
-- completion signal is taken.
mod Defs
mod Issue
mod Interrupts
mod Aql
pub use Defs.{Inv, Kept, is_free, in_dma, in_launch, in_dec, transferring, status_at}
pub use Issue.{process_dma_queue-Inv, process_launch_queue-Inv, process_dec_queue-Inv}
pub use Interrupts.{interrupt_transfer-Inv, interrupt_kernel-Inv, interrupt_completion-Inv}
pub use Aql.{KeptPoll, spun, kept, process_aql_packets-KeptPoll}
use lib_hsa.Base.{ℕ, ◌≡◌, false, Memory, Option, arith, some, refl, sym, suc}
use mathlib.Core.Path.{◌∙◌, subst}
use lib_hsa.PacketProcessor.Aql.{spins, returns}
use mathlib.Core.Option.{some-injective}
use lib_hsa.PacketProcessor.Loop.{
  initial, Step, Reach, start, later, System, idle_cores, no_dma, no_launch, no_requests,
  no_decrement, handle, Irq, Cause, Quiet, QuietStep,
}
use lib_hsa.PacketProcessor.Interrupts.{interrupt_add_core, interrupt_remove_core}
use lib_hsa.PacketProcessor.State.{Malloc, PacketProcessor}
use lib_hsa.PacketProcessor.Tokens.{running, running_cores}
use lib_hsa.PacketProcessor.Aql.{Poll}
use lib_hsa.PacketProcessor.Queue.Fifo.{IsValid}
use Prim.Native.Nat.{zero}
use lib_hsa.PacketProcessor.Invariant.Defs.{Inv-world}

running-idle_cores : (n a : ℕ) → (running (idle_cores n) a ≡ 0) × (running_cores (idle_cores n) ≡ 0)
unfolding running running_cores idle_cores
running-idle_cores zero a = omega arith
running-idle_cores (suc n) a = omega (arith, running-idle_cores n a)

pub no_requests-IsValid : {A : Type 0} (d : A) → IsValid (no_requests d)
no_requests-IsValid d = record {
  size = refl;
  read_fits = omega arith;
  write_fits = omega arith;
  few = omega arith;
}

initial-Inv : (n : ℕ) (mem : Memory) → Inv (initial n mem)
unfolding initial
initial-Inv n mem = record {
  pending_size = refl;
  slots_size = refl;
  dma = no_requests-IsValid no_dma;
  launch = no_requests-IsValid no_launch;
  dec = no_requests-IsValid no_decrement;
  total = omega (arith, running-idle_cores n 0);
  once = λ a. ground (arith, running-idle_cores n a);
  dma_status = λ a h. absurd (omega arith);
  launch_status = λ a h. absurd (omega (arith, running-idle_cores n a));
  dec_status = λ a h. absurd (omega arith);
}

-- What a call returned is what a kept call returns.
Kept-Inv : {r : Option PacketProcessor} {s : PacketProcessor} → Kept r → r ≡ some s → Inv s
Kept-Inv {s} k e = let same : k.state ≡ s = cc (k.returns) in subst Inv same k.inv

KeptPoll-Inv : {r : Poll} {s : PacketProcessor} → KeptPoll r → r ≡ returns s → Inv s
KeptPoll-Inv (spun spins_eq) e = cc
KeptPoll-Inv {s} (kept t returns_eq inv) e = let same : t ≡ s = cc in subst Inv same inv

pub handle-Inv :
    {s : PacketProcessor} (n : ℕ) (malloc : Malloc) (irq : Irq)
    → Inv s
    → Cause s irq
    → Kept (handle n malloc irq s)
unfolding handle interrupt_add_core interrupt_remove_core
handle-Inv n malloc Irq.transfer inv engaged = interrupt_transfer-Inv inv malloc engaged
handle-Inv n malloc (Irq.kernel core) inv (c, at_core, busy) =
    interrupt_kernel-Inv inv core at_core busy
handle-Inv n malloc Irq.decremented inv engaged = interrupt_completion-Inv inv engaged
handle-Inv n malloc Irq.core_added inv cause = record {
  state = _;
  returns = refl;
  inv = Inv-world _ _ _ _ _ _ _ inv;
}
handle-Inv n malloc Irq.core_removed inv cause = record {
  state = _;
  returns = refl;
  inv = Inv-world _ _ _ _ _ _ _ inv;
}

pub Step-Inv :
    {n : ℕ} {malloc : Malloc} {s t : System} (st : Step n malloc s t)
    → QuietStep st
    → Inv s.pp
    → Inv t.pp
Step-Inv (Step.spin e) quiet inv = inv
Step-Inv {malloc} (Step.take_packet e) quiet inv =
    KeptPoll-Inv (process_aql_packets-KeptPoll inv malloc quiet) e
Step-Inv {n} (Step.issue_dma e) quiet inv = Kept-Inv (process_dma_queue-Inv inv n) e
Step-Inv {n} (Step.issue_launch e) quiet inv = Kept-Inv (process_launch_queue-Inv inv n) e
Step-Inv {n} (Step.issue_dec e) quiet inv = Kept-Inv (process_dec_queue-Inv inv n) e
Step-Inv {n} {malloc} (Step.interrupt irq cause e) quiet inv =
    Kept-Inv (handle-Inv n malloc irq inv cause) e
Step-Inv (Step.host mem write left) quiet inv = Inv-world mem _ _ write left _ _ inv

pub Reach-Inv : {n : ℕ} {malloc : Malloc} {s : System} (r : Reach n malloc s) → Quiet r → Inv s.pp
Reach-Inv {n} (start mem) quiet = initial-Inv n mem
Reach-Inv (later r st) quiet = Step-Inv st quiet.1 (Reach-Inv r quiet.0)
