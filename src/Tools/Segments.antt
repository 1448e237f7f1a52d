-- ===== src/Tools/Segments.antt =====
-- tools/prepare_segments/src/vsim2cmd.cpp: the code and data of the processors as C arrays. An
-- output file stands for its contents at the end. Sizes of memories are not negative.
pub mod Dump
pub mod Words
pub mod Rows
pub mod Arrays
use lib_hsa.Base.{
  ℕ, zero, suc, ◌+◌, ◌-◌, ◌*◌, ◌/◌, ◌^◌, Bool, true, false, not, ◌&&◌, ◌||◌, Option, none, some,
  ltb, leb, ◌==◌, if◌then◌else◌, length, get_elem?,
}
use mathlib.Core.List.{List, [], ◌∷◌, ◌++◌}
use lib_hsa.Tools.Text.{Text, codes, same_text, lines_of}
use lib_hsa.Tools.Numbers.{stoi, printed}
use lib_hsa.Tools.Result.{Result, ok, fail, exit_failure, undefined, ◌>>=◌, defined}
use lib_hsa.Tools.Segments.Dump.{tokenize, dump_two, dump_four}

-- `std::getline`: the line, and what is left unless the end of the file was reached. At the end of
-- the file it leaves the line as it is.
abbrev pub getline : Text → Option Text → Text × Option Text
getline line none = (line, none)
getline line (some []) = ([], none)
getline line (some (c ∷ t)) =
    let (rest, left) = getline [] (some t) in if c == b'\n' then ([], some t) else (c ∷ rest, left)

-- One entry of the header of a memory image, after the number read so far.
unfoldable pub header_item : List Text → ℕ → Result ℕ
header_item [] n = fail undefined
header_item (key ∷ []) n = if same_text key (codes "wordsperline") then fail undefined else ok n
header_item (key ∷ value ∷ _) n =
    if same_text key (codes "wordsperline")
    then (do
      words ← defined (stoi value)
      (if words == 2 || words == 4 then ok words else fail exit_failure))
    else ok n

-- The loop over the entries of the header.
unfoldable pub words_per_line : List Text → ℕ → Result ℕ
unfolding header_item tokenize
words_per_line [] n = ok n
words_per_line (item ∷ items) n = do
  n' ← header_item (tokenize item b'=') n
  words_per_line items n'

-- `std::stoi(...) * 4096 / 8` as an `int`
abbrev pub block_size : Text → Result ℕ
block_size size = do
  blocks ← defined (stoi size)
  (if ltb (blocks * 4096) (2 ^ 31) then ok (blocks * 4096 / 8) else fail undefined)

-- The array of one memory: its declaration, its words, and the end.
unfoldable pub array_text :
    (fuel : ℕ) → (var_name : Text) → (words blocksize : ℕ) → List Text → Text → Result Text
unfolding dump_two dump_four
array_text fuel var_name words blocksize lines out = do
  let declared =
      out ++ codes "uint64_t " ++ var_name ++ b'[' ∷ printed 10 blocksize ++ codes "] = {\n    "
  s ←
      (if words == 2
        then dump_two fuel blocksize lines declared
        else if words == 4
        then dump_four fuel blocksize lines declared
        else fail exit_failure)
  ok (s.out ++ codes "};\n\n")

-- The arrays written so far: their names, the sizes of code and data memories, and the text.
pub record Generated : Type 0 where
  pub generated_variables : List Text
  pub imem_sizes : List ℕ
  pub dmem_sizes : List ℕ
  pub out : Text

abbrev open_file : (contents : Text → Option Text) → Text → Result Text
open_file contents filename = elim (contents filename) [
  | none ↦ fail exit_failure
  | some text ↦ ok text
]

-- The second line of a memory image, and the lines behind it.
abbrev read_image : Text → Text × List Text
read_image text =
    let (first, left) = getline [] (some text) in
    let (header, left') = getline first left in
    (header, elim left' [ none ↦ [] | some rest ↦ lines_of rest ])

module _ (contents : Text → Option Text) (fuel : ℕ) where
  -- One memory of a processor: code for `is_data` false, data for true.
  unfoldable pub segment :
      (is_data : Bool) → (index : ℕ) → (path size : Text) → Generated → Result Generated
  unfolding words_per_line tokenize array_text
  segment is_data index path size g = do
    text ← open_file contents (path ++ (if is_data then codes "data.mem" else codes "instr.mem"))
    let (header, lines) = read_image text
    words ← words_per_line (tokenize header b' ') 0
    let var_name =
        (if is_data then codes "data_segment" else codes "text_segment") ++ printed 10 index
    blocksize ← block_size size
    out ← array_text fuel var_name words blocksize lines g.out
    ok (record {
      generated_variables = g.generated_variables ++ var_name ∷ [];
      imem_sizes = g.imem_sizes ++ (if is_data then [] else blocksize ∷ []);
      dmem_sizes = g.dmem_sizes ++ (if is_data then blocksize ∷ [] else []);
      out = out;
    })

  -- The loop over the processors: a path and two sizes each.
  unfoldable pub segments : (index : ℕ) → List (List Text) → Generated → Result Generated
  unfolding segment
  segments index [] g = ok g
  segments index ((path ∷ code_size ∷ data_size ∷ _) ∷ system) g = do
    coded ← segment false index path code_size g
    filled ← segment true index path data_size coded
    segments (index + 1) system filled
  segments index (_ ∷ system) g = fail undefined

-- The lines of the configuration: three items each.
unfoldable pub system_strings : List Text → Result (List (List Text))
unfolding tokenize
system_strings [] = ok []
system_strings (line ∷ lines) = do
  let items = tokenize line b' '
  three ← (if length items == 3 then ok items else fail exit_failure)
  system ← system_strings lines
  ok (three ∷ system)

-- What stands before the arrays.
abbrev pub prologue : Text
prologue =
    codes "// this file is machine generated by vsim2cmd, do not edit below!!!\n"
    ++ codes "#ifndef CODE_SEGMENTS_H_\n"
    ++ codes "#define CODE_SEGMENTS_H_\n\n"
    ++ codes "#include <stdint.h>\n\n"
    ++ codes "typedef struct code_segment_s{\n"
    ++ codes "    uint64_t *instructions;\n"
    ++ codes "    uint64_t *data;\n"
    ++ codes "    uint64_t imem_length;\n"
    ++ codes "    uint64_t dmem_length;\n"
    ++ codes "} code_segment_t;\n\n"

-- The element of the vector for one entry of the header; a program that is not there has none.
unfoldable pub vector_element : Generated → Text → Result Text
vector_element g entry =
    if same_text entry (codes "-") then ok (codes "    {NULL,NULL,0,0}") else (do
      program_index ← defined (stoi entry)
      text ← defined (get_elem? g.generated_variables (program_index * 2))
      data_name ← defined (get_elem? g.generated_variables (program_index * 2 + 1))
      imem_size ← defined (get_elem? g.imem_sizes program_index)
      dmem_size ← defined (get_elem? g.dmem_sizes program_index)
      ok (
          codes "    {"
          ++ text
          ++ b',' ∷ data_name
          ++ b',' ∷ printed 10 imem_size
          ++ b',' ∷ printed 10 dmem_size
          ++ codes "}"))

-- The elements, with a comma behind each but the last.
unfoldable pub vector_elements : Generated → List Text → Result Text
unfolding vector_element
vector_elements g [] = ok []
vector_elements g (entry ∷ entries) = do
  element ← vector_element g entry
  later ← vector_elements g entries
  let comma = if length entries == 0 then [] else codes ","
  ok (element ++ comma ++ b'\n' ∷ later)

unfoldable pub code_vector : Generated → List Text → Result Text
unfolding vector_elements
code_vector g header_strings = do
  elements ← vector_elements g header_strings
  ok (
      codes "code_segment_t code_vector["
      ++ printed 10 (length header_strings)
      ++ codes "] = {\n"
      ++ elements
      ++ codes "};\n\n"
      ++ codes "#endif\n")

module _ (contents : Text → Option Text) (fuel : ℕ) where
  -- The lines of the configuration: the header, then the processors.
  unfoldable pub generate : List Text → Result Text
  unfolding tokenize system_strings segments code_vector
  generate [] = fail exit_failure
  generate (header ∷ lines) = do
    system ← system_strings lines
    g ←
        segments contents fuel 0 system
          (record { generated_variables = []; imem_sizes = []; dmem_sizes = []; out = prologue })
    vector ← code_vector g (tokenize header b' ')
    ok (g.out ++ vector)

  -- The arguments of `main` behind the name of the program; the contents of code_segments.h.
  unfoldable pub main : List Text → Result Text
  unfolding generate
  main (config ∷ []) = do text ← open_file contents config; generate (lines_of text)
  main _ = fail exit_failure
