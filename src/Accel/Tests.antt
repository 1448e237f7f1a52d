-- ===== src/Accel/Tests.antt =====
-- The accelerator's command processor at concrete inputs, and the instances of its theorems there.
use lib_hsa.Base.{ℕ, ◌≡◌, ◌≤◌, ◌++◌}
use lib_hsa.Accel.Main.{
  Accel, Reach, start, next, main_step, packetprocessor_step, initial,
  handle_interrupt_from_packetprocessor,
}
use lib_hsa.Accel.Progress.{
  starts_follow_requests, request_is_served, run_main, StartsNext, computations, under_way,
}

-- A request comes, and the accelerator has been started for it when a second one comes.
abbrev requested_twice : Accel
requested_twice =
    handle_interrupt_from_packetprocessor
      (run_main 3 (handle_interrupt_from_packetprocessor initial))

requested_twice-Reach : Reach requested_twice
requested_twice-Reach =
    next (next (next (next (next start packetprocessor_step) main_step) main_step) main_step)
      packetprocessor_step

starts_follow_requests_example :
    (requested_twice.stores
      ≡ computations requested_twice.signalled ++ under_way requested_twice.phase)
    × (requested_twice.started ≤ requested_twice.requested)
starts_follow_requests_example = starts_follow_requests requested_twice-Reach

request_is_served_example : (k : ℕ) × (k ≤ 4) × StartsNext (run_main k requested_twice)
request_is_served_example =
    request_is_served (run_main 3 (handle_interrupt_from_packetprocessor initial))
