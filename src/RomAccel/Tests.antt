-- ===== src/RomAccel/Tests.antt =====
-- Runs of the image accelerator's command processor at concrete inputs, and the instances of its
-- theorems there.
use lib_hsa.RomAccel.Main.{
  RomAccel, initial, Reach, start, next, packetprocessor_step, advance_main, DatamoverBusy,
  handle_interrupt_from_packetprocessor,
}
use lib_hsa.Base.{◌≤◌, refl, ◌≡◌, Memory, ◌%◌, suc, ◌⊎◌, ◌≢◌, true}
use lib_hsa.RomAccel.Encoding.{pe_encode_op, pe_encode_op_lem}
use lib_hsa.RomAccel.Bounds.{all_in_pe, config_stays_in_pe}
use lib_hsa.RomAccel.Config.{write_task_config_to_pe}
use lib_hsa.RomAccel.Progress.{signals_follow_moves, no_lost_start}

abbrev memory : Memory
memory a = a % 7

pe_encode_op_lem_example : pe_encode_op 1 2 4 3 ≡ 105
pe_encode_op_lem_example = pe_encode_op_lem 1 2 4 3

config_stays_in_pe_example : all_in_pe (write_task_config_to_pe memory 0x31 1 0 16 3) ≡ true
config_stays_in_pe_example = config_stays_in_pe memory 0x31 1 0 16 3

-- A core that has been started once.
abbrev started_once : RomAccel
started_once = handle_interrupt_from_packetprocessor initial

started_once-Reach : Reach started_once
started_once-Reach = next start (packetprocessor_step refl)

signals_follow_moves_example :
    (started_once.signalled ≤ started_once.moved)
    × (started_once.moved ≤ started_once.started)
    × (started_once.started ≤ suc started_once.signalled)
signals_follow_moves_example = signals_follow_moves started_once started_once-Reach

no_lost_start_example :
    (started_once.started ≡ started_once.signalled)
    ⊎ ((advance_main memory started_once).phase ≢ started_once.phase)
    ⊎ DatamoverBusy started_once
no_lost_start_example = no_lost_start memory started_once started_once-Reach
