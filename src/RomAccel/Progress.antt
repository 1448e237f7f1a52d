-- ===== src/RomAccel/Progress.antt =====
-- What becomes of a start of the image accelerator: how the flags and the counts of starts and
-- completions agree at each place of `main`.
use mathlib.Core.Bool.{true, false}
use lib_hsa.Base.{ℕ, Memory, Bool, List, ◌≡◌, Store, suc, ◌⊎◌, arith, ◌≢◌, inr, inl, refl, ◌≤◌}
use lib_hsa.RomAccel.Main.{
  RomAccel, Phase, advance_main, testing, waiting, configuring, clearing, signalling, resetting,
  handle_interrupt_from_packetprocessor, DatamoverBusy, handle_interrupt_from_datamover, main_step,
  next, datamover_step, packetprocessor_step, start, Reach, Step,
}

-- How the flags and the counts agree at each place of `main`.
abbrev Coherent :
    Phase → (start_execution execution_done : Bool) → (started moved signalled : ℕ) → Type 0
Coherent testing true false n m k = (n ≡ suc k) × (m ≡ k)
Coherent testing false false n m k = (n ≡ k) × (m ≡ k)
Coherent resetting true false n m k = (n ≡ suc k) × (m ≡ k)
Coherent configuring false false n m k = (n ≡ suc k) × (m ≡ k)
Coherent waiting false false n m k = (n ≡ suc k) × (m ≡ k)
Coherent waiting false true n m k = (n ≡ suc k) × (m ≡ suc k)
Coherent clearing false true n m k = (n ≡ suc k) × (m ≡ suc k)
Coherent signalling false false n m k = (n ≡ suc k) × (m ≡ suc k)
Coherent _ _ _ n m k = ⊥

abbrev IsCoherent : RomAccel → Type 0
IsCoherent s = Coherent s.phase s.start_execution s.execution_done s.started s.moved s.signalled

module _ (cfg : Memory) (log : List Store) where
  abbrev state_of : Phase → Bool → Bool → ℕ → ℕ → ℕ → RomAccel
  state_of p a d n m k = record {
    phase = p;
    start_execution = a;
    execution_done = d;
    stores = log;
    started = n;
    moved = m;
    signalled = k;
  }

  advance_main-Coherent :
      (p : Phase) (a d : Bool) (n m k : ℕ)
      → Coherent p a d n m k
      → IsCoherent (advance_main cfg (state_of p a d n m k))
  unfolding advance_main
  advance_main-Coherent testing true false n m k c = c
  advance_main-Coherent testing false false n m k c = c
  advance_main-Coherent resetting true false n m k c = c
  advance_main-Coherent configuring false false n m k c = c
  advance_main-Coherent waiting false false n m k c = c
  advance_main-Coherent waiting false true n m k c = c
  advance_main-Coherent clearing false true n m k c = c
  advance_main-Coherent signalling false false n m k c = c
  advance_main-Coherent testing true true n m k c = elim c [ ]
  advance_main-Coherent testing false true n m k c = elim c [ ]
  advance_main-Coherent resetting false d n m k c = elim c [ ]
  advance_main-Coherent resetting true true n m k c = elim c [ ]
  advance_main-Coherent configuring false true n m k c = elim c [ ]
  advance_main-Coherent configuring true d n m k c = elim c [ ]
  advance_main-Coherent waiting true d n m k c = elim c [ ]
  advance_main-Coherent clearing false false n m k c = elim c [ ]
  advance_main-Coherent clearing true d n m k c = elim c [ ]
  advance_main-Coherent signalling false true n m k c = elim c [ ]
  advance_main-Coherent signalling true d n m k c = elim c [ ]

  datamover-Coherent :
      (p : Phase) (a d : Bool) (n m k : ℕ)
      → Coherent p a d n m k
      → DatamoverBusy (state_of p a d n m k)
      → IsCoherent (handle_interrupt_from_datamover (state_of p a d n m k))
  datamover-Coherent waiting false false n m k c busy = (c.0, omega arith)
  datamover-Coherent waiting false true n m k c busy = absurd (omega arith)
  datamover-Coherent waiting true d n m k c busy = elim c [ ]
  datamover-Coherent testing a d n m k c busy = absurd (cc (busy.0))
  datamover-Coherent resetting a d n m k c busy = absurd (cc (busy.0))
  datamover-Coherent configuring a d n m k c busy = absurd (cc (busy.0))
  datamover-Coherent clearing a d n m k c busy = absurd (cc (busy.0))
  datamover-Coherent signalling a d n m k c busy = absurd (cc (busy.0))

  packetprocessor-Coherent :
      (p : Phase) (a d : Bool) (n m k : ℕ)
      → Coherent p a d n m k
      → n ≡ k
      → IsCoherent (handle_interrupt_from_packetprocessor (state_of p a d n m k))
  packetprocessor-Coherent testing false false n m k c e = (omega arith, c.1)
  packetprocessor-Coherent testing true false n m k c e = absurd (omega arith)
  packetprocessor-Coherent resetting true false n m k c e = absurd (omega arith)
  packetprocessor-Coherent configuring false false n m k c e = absurd (omega arith)
  packetprocessor-Coherent waiting false false n m k c e = absurd (omega arith)
  packetprocessor-Coherent waiting false true n m k c e = absurd (omega arith)
  packetprocessor-Coherent clearing false true n m k c e = absurd (omega arith)
  packetprocessor-Coherent signalling false false n m k c e = absurd (omega arith)
  packetprocessor-Coherent testing true true n m k c e = elim c [ ]
  packetprocessor-Coherent testing false true n m k c e = elim c [ ]
  packetprocessor-Coherent resetting false d n m k c e = elim c [ ]
  packetprocessor-Coherent resetting true true n m k c e = elim c [ ]
  packetprocessor-Coherent configuring false true n m k c e = elim c [ ]
  packetprocessor-Coherent configuring true d n m k c e = elim c [ ]
  packetprocessor-Coherent waiting true d n m k c e = elim c [ ]
  packetprocessor-Coherent clearing false false n m k c e = elim c [ ]
  packetprocessor-Coherent clearing true d n m k c e = elim c [ ]
  packetprocessor-Coherent signalling false true n m k c e = elim c [ ]
  packetprocessor-Coherent signalling true d n m k c e = elim c [ ]

  enabled :
      (p : Phase) (a d : Bool) (n m k : ℕ)
      → Coherent p a d n m k
      → let s = state_of p a d n m k in (n ≡ k) ⊎ ((advance_main cfg s).phase ≢ p) ⊎ DatamoverBusy s
  unfolding advance_main
  enabled testing true false n m k c = inr (inl (ground arith))
  enabled testing false false n m k c = inl (c.0)
  enabled resetting true false n m k c = inr (inl (ground arith))
  enabled configuring false false n m k c = inr (inl (ground arith))
  enabled waiting false false n m k c = inr (inr (refl, omega arith))
  enabled waiting false true n m k c = inr (inl (ground arith))
  enabled clearing false true n m k c = inr (inl (ground arith))
  enabled signalling false false n m k c = inr (inl (ground arith))
  enabled testing true true n m k c = elim c [ ]
  enabled testing false true n m k c = elim c [ ]
  enabled resetting false d n m k c = elim c [ ]
  enabled resetting true true n m k c = elim c [ ]
  enabled configuring false true n m k c = elim c [ ]
  enabled configuring true d n m k c = elim c [ ]
  enabled waiting true d n m k c = elim c [ ]
  enabled clearing false false n m k c = elim c [ ]
  enabled clearing true d n m k c = elim c [ ]
  enabled signalling false true n m k c = elim c [ ]
  enabled signalling true d n m k c = elim c [ ]

  counts :
      (p : Phase) (a d : Bool) (n m k : ℕ) → Coherent p a d n m k → (k ≤ m) × (m ≤ n) × (n ≤ suc k)
  counts testing true false n m k c = (omega arith, omega arith, omega arith)
  counts testing false false n m k c = (omega arith, omega arith, omega arith)
  counts resetting true false n m k c = (omega arith, omega arith, omega arith)
  counts configuring false false n m k c = (omega arith, omega arith, omega arith)
  counts waiting false false n m k c = (omega arith, omega arith, omega arith)
  counts waiting false true n m k c = (omega arith, omega arith, omega arith)
  counts clearing false true n m k c = (omega arith, omega arith, omega arith)
  counts signalling false false n m k c = (omega arith, omega arith, omega arith)
  counts testing true true n m k c = elim c [ ]
  counts testing false true n m k c = elim c [ ]
  counts resetting false d n m k c = elim c [ ]
  counts resetting true true n m k c = elim c [ ]
  counts configuring false true n m k c = elim c [ ]
  counts configuring true d n m k c = elim c [ ]
  counts waiting true d n m k c = elim c [ ]
  counts clearing false false n m k c = elim c [ ]
  counts clearing true d n m k c = elim c [ ]
  counts signalling false true n m k c = elim c [ ]
  counts signalling true d n m k c = elim c [ ]

Step-IsCoherent : {s t : RomAccel} → Step s t → IsCoherent s → IsCoherent t
Step-IsCoherent {s} (main_step cfg) c =
    advance_main-Coherent cfg s.stores s.phase s.start_execution s.execution_done s.started s.moved
      s.signalled c
Step-IsCoherent {s} (datamover_step busy) c =
    datamover-Coherent (λ a. 0) s.stores s.phase s.start_execution s.execution_done s.started
      s.moved s.signalled c busy
Step-IsCoherent {s} (packetprocessor_step e) c =
    packetprocessor-Coherent (λ a. 0) s.stores s.phase s.start_execution s.execution_done s.started
      s.moved s.signalled c e

Reach-IsCoherent : {s : RomAccel} → Reach s → IsCoherent s
Reach-IsCoherent start = (refl, refl)
Reach-IsCoherent (next r step) = Step-IsCoherent step (Reach-IsCoherent r)

-- A completion is signalled only for a start whose data have been moved, and at most one start is
-- open.
pub signals_follow_moves :
    (s : RomAccel)
    → Reach s
    → (s.signalled ≤ s.moved) × (s.moved ≤ s.started) × (s.started ≤ suc s.signalled)
signals_follow_moves s r =
    counts (λ a. 0) s.stores s.phase s.start_execution s.execution_done s.started s.moved
      s.signalled (Reach-IsCoherent r)

-- No start is lost: in every reachable state, either every start has been signalled, or the next
-- access of `main` takes it further, or the data mover is at work.
pub no_lost_start :
    (cfg : Memory) (s : RomAccel)
    → Reach s
    → (s.started ≡ s.signalled) ⊎ ((advance_main cfg s).phase ≢ s.phase) ⊎ DatamoverBusy s
no_lost_start cfg s r =
    enabled cfg s.stores s.phase s.start_execution s.execution_done s.started s.moved s.signalled
      (Reach-IsCoherent r)
