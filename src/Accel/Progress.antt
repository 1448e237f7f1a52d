-- ===== src/Accel/Progress.antt =====
-- The flag, the counts and the stores of the accelerator's command processor.
use mathlib.Core.List.{append-nil, append_assoc}
use lib_hsa.Base.{
  ℕ, Bool, true, false, suc, List, ◌∷◌, [], ◌++◌, Store, ◌≡◌, ◌≤◌, ◌<◌, arith, refl, ap, ◌∙◌, sym,
}
use lib_hsa.Accel.Main.{
  Accel, Phase, testing, resetting, starting, signalling, advance_main, main_step,
  packetprocessor_step, Reach, start, next, handle_interrupt_from_packetprocessor, fire_interrupt,
  interrupt_to_accelerator, interrupt_to_packetprocessor,
}
use Prim.Native.Nat.{zero}

-- The stores of `n` computations.
abbrev pub computations : ℕ → List Store
computations zero = []
computations (suc n) =
    computations n
    ++ (fire_interrupt interrupt_to_accelerator ∷ fire_interrupt interrupt_to_packetprocessor ∷ [])

-- The stores of a computation that is under way.
abbrev pub under_way : Phase → List Store
under_way testing = []
under_way resetting = []
under_way starting = []
under_way signalling = fire_interrupt interrupt_to_accelerator ∷ []

-- How the flag and the counts agree at each place of `main`.
abbrev Coherent : Phase → (start_execution : Bool) → (requested started signalled : ℕ) → Type 0
Coherent testing false r n k = (n ≡ k) × (n ≤ r)
Coherent testing true r n k = (n ≡ k) × (n < r)
Coherent resetting false r n k = ⊥
Coherent resetting true r n k = (n ≡ k) × (n < r)
Coherent starting false r n k = (n ≡ k) × (n < r)
Coherent starting true r n k = (n ≡ k) × (suc n < r)
Coherent signalling false r n k = (n ≡ suc k) × (n ≤ r)
Coherent signalling true r n k = (n ≡ suc k) × (n < r)

abbrev IsCoherent : Accel → Type 0
IsCoherent s =
    Coherent s.phase s.start_execution s.requested s.started s.signalled
    × (s.stores ≡ computations s.signalled ++ under_way s.phase)

abbrev state_of : Phase → Bool → List Store → ℕ → ℕ → ℕ → Accel
state_of p a log r n k = record {
  phase = p;
  start_execution = a;
  stores = log;
  requested = r;
  started = n;
  signalled = k;
}

started_log :
    (done log : List Store)
    → log ≡ done ++ []
    → log ++ (fire_interrupt interrupt_to_accelerator ∷ [])
      ≡ done ++ (fire_interrupt interrupt_to_accelerator ∷ [])
started_log done log e =
    ap (λ (l : List Store). l ++ (fire_interrupt interrupt_to_accelerator ∷ []))
      (e ∙ append-nil done)

signalled_log :
    (done log : List Store)
    → log ≡ done ++ (fire_interrupt interrupt_to_accelerator ∷ [])
    → log ++ (fire_interrupt interrupt_to_packetprocessor ∷ [])
      ≡ (done
          ++ (fire_interrupt interrupt_to_accelerator
              ∷ fire_interrupt interrupt_to_packetprocessor
              ∷ []))
        ++ []
signalled_log done log e =
    ap (λ (l : List Store). l ++ (fire_interrupt interrupt_to_packetprocessor ∷ [])) e
    ∙ append_assoc done (fire_interrupt interrupt_to_accelerator ∷ [])
        (fire_interrupt interrupt_to_packetprocessor ∷ [])
    ∙ sym (append-nil _)

advance_main-Coherent :
    (p : Phase) (a : Bool) (log : List Store) (r n k : ℕ)
    → IsCoherent (state_of p a log r n k)
    → IsCoherent (advance_main (state_of p a log r n k))
unfolding advance_main
advance_main-Coherent testing false log r n k c = c
advance_main-Coherent testing true log r n k c = c
advance_main-Coherent resetting false log r n k c = elim (c.0) [ ]
advance_main-Coherent resetting true log r n k c = c
advance_main-Coherent starting false log r n k (c, e) =
    ((omega arith, omega arith), started_log (computations k) log e)
advance_main-Coherent starting true log r n k (c, e) =
    ((omega arith, omega arith), started_log (computations k) log e)
advance_main-Coherent signalling false log r n k (c, e) =
    ((c.0, c.1), signalled_log (computations k) log e)
advance_main-Coherent signalling true log r n k (c, e) =
    ((c.0, c.1), signalled_log (computations k) log e)

packetprocessor-Coherent :
    (p : Phase) (a : Bool) (log : List Store) (r n k : ℕ)
    → IsCoherent (state_of p a log r n k)
    → IsCoherent (handle_interrupt_from_packetprocessor (state_of p a log r n k))
packetprocessor-Coherent testing false log r n k (c, e) = ((c.0, omega arith), e)
packetprocessor-Coherent testing true log r n k (c, e) = ((c.0, omega arith), e)
packetprocessor-Coherent resetting false log r n k c = elim (c.0) [ ]
packetprocessor-Coherent resetting true log r n k (c, e) = ((c.0, omega arith), e)
packetprocessor-Coherent starting false log r n k (c, e) = ((c.0, omega arith), e)
packetprocessor-Coherent starting true log r n k (c, e) = ((c.0, omega arith), e)
packetprocessor-Coherent signalling false log r n k (c, e) = ((c.0, omega arith), e)
packetprocessor-Coherent signalling true log r n k (c, e) = ((c.0, omega arith), e)

coherent : {s : Accel} → Reach s → IsCoherent s
coherent start = ((refl, omega arith), refl)
coherent (next {s} reach main_step) =
    advance_main-Coherent s.phase s.start_execution s.stores s.requested s.started s.signalled
      (coherent reach)
coherent (next {s} reach packetprocessor_step) =
    packetprocessor-Coherent s.phase s.start_execution s.stores s.requested s.started s.signalled
      (coherent reach)

-- In every reachable state the stores are those of the signalled computations, each a start of the
-- accelerator and a signal to the packet processor, and of the one that is under way; and there are
-- no more starts than the packet processor has requested.
pub starts_follow_requests :
    {s : Accel}
    → Reach s
    → (s.stores ≡ computations s.signalled ++ under_way s.phase) × (s.started ≤ s.requested)
starts_follow_requests {s} reach =
    ((coherent reach).1, few s.phase s.start_execution ((coherent reach).0))
  where
    few :
        (p : Phase) (a : Bool)
        → Coherent p a s.requested s.started s.signalled
        → s.started ≤ s.requested
    few testing false c = c.1
    few testing true c = omega (arith, c.1)
    few resetting false c = elim c [ ]
    few resetting true c = omega (arith, c.1)
    few starting false c = omega (arith, c.1)
    few starting true c = omega (arith, c.1)
    few signalling false c = c.1
    few signalling true c = omega (arith, c.1)

-- `main` alone, for a number of accesses.
abbrev pub run_main : ℕ → Accel → Accel
run_main zero s = s
run_main (suc k) s = run_main k (advance_main s)

-- The accelerator is started next, and the flag has been reset.
abbrev pub StartsNext : Accel → Type 0
StartsNext s = (s.phase ≡ starting) × (s.start_execution ≡ false)

-- No request of the packet processor is forgotten: whatever `main` does when the interrupt comes, and
-- if no other comes, within four accesses it has reset the flag and starts the accelerator next.
pub request_is_served :
    (s : Accel)
    → (k : ℕ) × (k ≤ 4) × StartsNext (run_main k (handle_interrupt_from_packetprocessor s))
unfolding advance_main
request_is_served s = by_phase s.phase s.stores (suc s.requested) s.started s.signalled
  where
    by_phase :
        (p : Phase) (log : List Store) (r n k : ℕ)
        → (j : ℕ) × (j ≤ 4) × StartsNext (run_main j (state_of p true log r n k))
    by_phase testing log r n k = (2, omega arith, (refl, refl))
    by_phase resetting log r n k = (1, omega arith, (refl, refl))
    by_phase starting log r n k = (4, omega arith, (refl, refl))
    by_phase signalling log r n k = (3, omega arith, (refl, refl))
