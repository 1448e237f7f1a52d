-- ===== src/Accel/Main.antt =====
-- `main` and the interrupt handler as a transition system: an interrupt may come between any two
-- accesses to the flag.
use lib_hsa.Base.{ℕ, Bool, true, false, suc, List, ◌∷◌, [], ◌++◌, if◌then◌else◌, Store}
use lib_hsa.PacketProcessor.State.{store_at}

-- SEND_INTERRUPT of address_config.h
abbrev pub send_interrupt_addr : ℕ
send_interrupt_addr = 0xF000_0000

abbrev pub interrupt_to_packetprocessor : ℕ
interrupt_to_packetprocessor = 0

abbrev pub interrupt_to_accelerator : ℕ
interrupt_to_accelerator = 1

abbrev pub fire_interrupt : ℕ → Store
fire_interrupt target = store_at send_interrupt_addr 4 target

-- The places of `main` between its accesses.
pub data Phase : Type 0 where
  testing resetting starting signalling : Phase

-- The flag, the stores made (oldest first), and three counts that no code reads: the interrupts of
-- the packet processor, the accelerator's starts and the signals to the packet processor.
pub record Accel : Type 0 where
  pub phase : Phase
  pub start_execution : Bool
  pub stores : List Store
  pub requested : ℕ
  pub started : ℕ
  pub signalled : ℕ

abbrev pub initial : Accel
initial = record {
  phase = testing;
  start_execution = false;
  stores = [];
  requested = 0;
  started = 0;
  signalled = 0;
}

abbrev pub handle_interrupt_from_packetprocessor : Accel → Accel
handle_interrupt_from_packetprocessor s = record s {
  start_execution = true;
  requested = suc s.requested;
}

-- The next access of `main`: the two last ones are `run_computation`.
unfoldable pub advance_main : Accel → Accel
advance_main s = elim (s.phase) [
  | testing ↦ if s.start_execution then record s { phase = resetting } else s
  | resetting ↦ record s { phase = starting; start_execution = false }
  | starting ↦ record s {
    phase = signalling;
    stores = s.stores ++ (fire_interrupt interrupt_to_accelerator ∷ []);
    started = suc s.started;
  }
  | signalling ↦ record s {
    phase = testing;
    stores = s.stores ++ (fire_interrupt interrupt_to_packetprocessor ∷ []);
    signalled = suc s.signalled;
  }
]

-- The packet processor may interrupt at any time.
pub data Step : Accel → Accel → Type 0 where
  main_step : {s : Accel} → Step s (advance_main s)
  packetprocessor_step : {s : Accel} → Step s (handle_interrupt_from_packetprocessor s)

pub data Reach : Accel → Type 0 where
  start : Reach initial
  next : {s t : Accel} → Reach s → Step s t → Reach t
