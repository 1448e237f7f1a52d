-- ===== src/Tools/AqlToMem/MemFile.antt =====
-- `printfile` of aql2mem: the memory image for the simulator, and `main`.
use lib_hsa.Base.{
  ℕ, zero, suc, ◌+◌, ◌-◌, ◌*◌, ◌/◌, ltb, if◌then◌else◌, Memory, load, Text, codes, bit_and, ◌>>>◌,
  u32, length,
}
use mathlib.Core.List.{List, [], ◌∷◌, ◌++◌}
use lib_hsa.Packets.{packet_size}
use lib_hsa.Tools.Numbers.{printed, padded}
use lib_hsa.Tools.Result.{Result, ok, fail, undefined, out_of_fuel, ◌>>=◌}
use lib_hsa.Tools.AqlToMem.Header.{max_queue_length}
use lib_hsa.Tools.AqlToMem.Queue.{Alloc, Heap, default_queue, cleared}
use lib_hsa.Tools.AqlToMem.Dialog.{dialog}
use lib_hsa.Tools.AqlToMem.Input.{ready}

-- A number in hexadecimal digits, with zeros up to a width.
abbrev pub hex : (width : ℕ) → ℕ → Text
hex width n = padded width (printed 16 n)

-- An address, a colon and two words, without the newline.
abbrev pub word_line : (line : ℕ) → (first second : Text) → Text
word_line line first second = printed 10 line ++ codes ": " ++ first ++ codes " " ++ second

-- The loop over the packets: `line` counts words of eight bytes.
unfoldable pub packet_lines : Memory → (line rounds : ℕ) → List Text
packet_lines memory line zero = []
packet_lines memory line (suc rounds) =
    word_line line (hex 16 (load 8 memory (8 * line))) (hex 16 (load 8 memory (8 * (line + 1))))
    ∷ packet_lines memory (line + 2) rounds

abbrev pub lines_to_write : ℕ → ℕ
lines_to_write length = u32 (length + (4 - bit_and length 3)) >>> 2

-- The line for four PASIDs.
abbrev pub pasid_line : (ℕ → ℕ) → (i line : ℕ) → Text
pasid_line pasid i line =
    word_line line (hex 8 (pasid (i + 1)) ++ hex 8 (pasid i))
      (hex 8 (pasid (i + 3)) ++ hex 8 (pasid (i + 2)))

-- The loop over the PASIDs, whose index moves by four.
unfoldable pub pasid_lines : (ℕ → ℕ) → (bound fuel i line : ℕ) → Result (List Text)
pasid_lines pasid bound zero i line = if ltb i bound then fail out_of_fuel else ok []
pasid_lines pasid bound (suc fuel) i line =
    let rest = pasid_lines pasid bound fuel (i + 4) (line + 2) in
    if ltb i bound then rest >>= (λ lines. ok (pasid_line pasid i line ∷ lines)) else ok []

-- The first words of the PASIDs, and of the read and write index.
abbrev pub pasid_start : ℕ
pasid_start = max_queue_length * (packet_size / 8)

abbrev pub index_start : ℕ
index_start = max_queue_length * (packet_size / 8) + max_queue_length * 4 / 8

-- All lines of the file.
unfoldable pub file_lines : Alloc → Result (List Text)
unfolding packet_lines pasid_lines
file_lines a = do
  let length = a.packet_queue_end_idx
  pasids ← pasid_lines a.pasid (lines_to_write length) (lines_to_write length) 0 pasid_start
  ok (
      codes "// instance=/tb_packet_processor_top/inst_dram/bram"
      ∷ codes "// format=mti addressradix=d dataradix=h version=1.0 wordsperline=2"
      ∷ (packet_lines a.memory 0 (length * (packet_size / 8) / 2)
          ++ pasids
          ++ word_line index_start (hex 16 0) (hex 16 length) ∷ []))

-- `std::endl` behind each line.
abbrev pub ended : List Text → Text
ended [] = []
ended (line ∷ lines) = line ++ b'\n' ∷ ended lines

unfoldable pub printfile : Alloc → Result Text
unfolding file_lines
printfile a = do lines ← file_lines a; ok (ended lines)

module _ (heap : Heap) (pasid : ℕ → ℕ) (rounds : ℕ) (answers : List Text) where
  -- The packets: default ones for a second argument, and those of the dialog for any other number
  -- of arguments, since the message about the usage does not end the tool. Each loop of the dialog
  -- has at most `rounds` rounds.
  unfoldable pub make_queue : (arguments : List Text) → Result Alloc
  unfolding default_queue dialog
  make_queue (filename ∷ arg2 ∷ []) = default_queue heap pasid arg2
  make_queue arguments = dialog heap rounds rounds (ready answers) (cleared pasid)

  -- The arguments of `main` behind the name of the program; the name and contents of the file. There
  -- is no name without an argument.
  unfoldable pub main : (arguments : List Text) → Result (Text × Text)
  unfolding make_queue printfile
  main [] = do a ← make_queue []; fail undefined
  main (filename ∷ others) = do
    a ← make_queue (filename ∷ others)
    text ← printfile a
    ok (filename, text)
