-- ===== src/Tools/AqlToMem/Tests.antt =====
-- Runs of aql2mem at concrete inputs, and the instances of its theorems there.
use lib_hsa.Base.{ℕ, ◌≡◌, refl, ◌*◌, ◌<◌, arith, length, codes, Text, ◌+◌, ◌%◌, load, store, ◌≢◌}
use mathlib.Core.List.{List, [], ◌∷◌}
use lib_hsa.Tools.Result.{ok, fail, Result}
use lib_hsa.Tools.AqlToMem.Queue.{Alloc, Heap, cleared, default_queue, set_pasid, add_packet}
use lib_hsa.Tools.AqlToMem.Input.{ready, read_text, read_number}
use lib_hsa.Tools.AqlToMem.Dialog.{
  dialog, ask_barrier, add_round, ask_type, ask_pasid, add_typed, add_barrier, ask_numsig,
}
use lib_hsa.Tools.AqlToMem.Printed.{packet_entries, hex_values, loaded_words, packet_lines_lem}
use lib_hsa.Tools.AqlToMem.MemFile.{pasid_lines, lines_to_write, packet_lines, pasid_start}
use lib_hsa.Tools.Image.{entry_lines, IsEntry, image_words}
use lib_hsa.Tools.Text.{All}
use lib_hsa.Tools.AqlToMem.Header.{barrier_header}
use lib_hsa.Tools.AqlToMem.Defaults.{IsDefault, default_queue_lem}
use lib_hsa.PacketProcessor.Aql.{barrier_field}
use lib_hsa.Tools.AqlToMem.Pasids.{pasids_missing}
use lib_hsa.Packets.{barrier_and}
use lib_hsa.Tools.AqlToMem.Answers.{any_answer_taken}
use lib_hsa.Tools.AqlToMem.Endless.{without_end_no_result}
use lib_hsa.Tools.AqlToMem.Scripts.{
  script, put_all, dispatch_entry, script_lem, and_entry, PacketAnswers,
}

abbrev heap : Heap
heap = record {
  signal_value = λ i. 0x1000 + 8 * i;
  kernargs = λ i. 0x2000 + 32 * i;
  signal_values = λ i j. 0x3000 + 64 * i + 8 * j;
}

abbrev zeros : ℕ → ℕ
zeros i = 0

-- A wrong type, a barrier packet with a wrong number of signals first, and the end.
abbrev answers : List Text
answers =
    codes "BARRIER"
    ∷ codes "BARRIER_AND"
    ∷ codes "9"
    ∷ codes "maybe"
    ∷ codes "6"
    ∷ codes "2"
    ∷ codes "END"
    ∷ codes "n"
    ∷ []

-- The barrier bit is set, the second signal is there, and the third is not.
abbrev packet_words : Result Alloc → List ℕ
packet_words (ok a) = load 2 a.memory 0 ∷ load 8 a.memory 16 ∷ load 8 a.memory 24 ∷ a.pasid 0 ∷ []
packet_words (fail e) = []

dialog_run :
    packet_words (dialog heap 9 9 (ready answers) (cleared zeros)) ≡ 259 ∷ 0x3008 ∷ 0 ∷ 9 ∷ []
unfolding dialog add_round ask_type ask_pasid read_number read_text set_pasid ask_barrier add_typed
    add_barrier ask_numsig add_packet barrier_header load store
dialog_run = refl

default_queue_lem_example :
    (a : Alloc) × ((default_queue heap zeros (codes "3") ≡ ok a)
      × (a.packet_queue_end_idx ≡ 3)
      × IsDefault heap a.memory 1
      × (a.pasid 1 ≡ 15))
default_queue_lem_example =
    default_queue_lem heap zeros (codes "3") 3 1 refl (omega arith) (omega arith)

pasids_missing_example :
    (lines : List Text) × ((pasid_lines
          (λ i. i + 1)
          (lines_to_write 12)
          (lines_to_write 12)
          0
          pasid_start
        ≡ ok lines)
      × (length lines * 4 < 12))
pasids_missing_example = pasids_missing (λ i. i + 1) 12 (omega arith) (omega arith)

any_answer_taken_example :
    (ask_barrier 1 [] (ready (codes "maybe" ∷ [])) ≡ ok (65535, ready []))
    × (barrier_field (barrier_header barrier_and 65535) ≡ 1)
any_answer_taken_example = any_answer_taken barrier_and 0 [] (codes "maybe") []

packet_lines_lem_example :
    let es = packet_entries (λ a. a % 7) 0 4 in
    (packet_lines (λ a. a % 7) 0 4 ≡ entry_lines es)
    × All IsEntry es
    × (hex_values (image_words (codes "00") 0 es) ≡ loaded_words (λ a. a % 7) 0 8)
packet_lines_lem_example = packet_lines_lem (codes "00") (λ a. a % 7) 4 (omega arith)

without_end_no_result_example :
    dialog heap 20 10
      (ready (codes "BARRIER_AND" ∷ codes "9" ∷ codes "y" ∷ codes "2x" ∷ []))
      (cleared zeros)
    ≢ ok (cleared zeros)
without_end_no_result_example =
    without_end_no_result heap 20 10 (codes "BARRIER_AND" ∷ codes "9" ∷ codes "y" ∷ codes "2x" ∷ [])
      (cleared zeros) (cleared zeros)
      (
        (refl, (refl, (refl, (refl, (refl, (refl, (refl, (refl, (refl, (refl, (refl, tt))))))))))),
        ((refl, tt), ((refl, tt), ((refl, (refl, tt)), tt))),
      )

-- A kernel dispatch, and a barrier packet with two signals.
abbrev entries : List PacketAnswers
entries =
    dispatch_entry (codes "7") (codes "n") (codes "281474976776191") (codes "1") (codes "64")
      (codes "8") (codes "1") (codes "1") (codes "1") (codes "1")
    ∷ and_entry (codes "9") (codes "y") (codes "2")
    ∷ []

script_lem_example :
    dialog heap 1 3 (ready (script entries (codes "END" ∷ codes "n" ∷ []))) (cleared zeros)
    ≡ put_all heap entries (cleared zeros)
script_lem_example =
    script_lem heap 0 3 entries (codes "n") [] (cleared zeros)
      (
        ((((refl, refl), (refl, refl)), ((refl, refl), (refl, refl))), (refl, refl)),
        (((refl, refl), refl), tt),
      )
      (omega arith)
