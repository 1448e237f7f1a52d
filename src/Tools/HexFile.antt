-- ===== src/Tools/HexFile.antt =====
-- tools/hex_tools/src/mti2hex.cpp: the words of a ModelSim memory image, each group of them on a
-- line of the hex file. An output file stands for its contents at the end.
pub mod Groups
pub mod Image
use lib_hsa.Base.{
  ℕ, zero, suc, ◌+◌, ◌-◌, ◌/◌, ◌%◌, Bool, true, false, not, Option, none, some, ltb, ◌==◌,
  if◌then◌else◌, length, u32, bit_and, take,
}
use mathlib.Core.List.{List, [], ◌∷◌, ◌++◌}
use lib_hsa.Tools.Text.{Text, codes, replicate, lines_of, substr}
use lib_hsa.Tools.Numbers.{stoi}
use lib_hsa.Tools.Result.{Result, ok, fail, exit_failure, undefined, out_of_fuel, ◌>>=◌, defined}
use lib_hsa.Tools.Tokenize.{finish, scan_line}

-- The last item is taken from lines of more than one character.
unfoldable pub tokenize : Text → ℕ → List Text
unfolding finish scan_line
tokenize line separator = finish line separator (ltb 1 (length line)) (scan_line line separator)

-- `stack`, its top first, `index`, and what is written to the file.
pub record Hex : Type 0 where
  pub stack : List Text
  pub index : ℕ
  pub out : Text

abbrev pub hex_start : Hex
hex_start = record { stack = []; index = 0; out = [] }

-- The words in the order in which they are popped.
abbrev pub popped : List Text → Text
popped [] = []
popped (top ∷ stack) = top ++ popped stack

-- `while(!stack.empty())`
abbrev pub pop_all : Hex → Hex
pop_all s = record { stack = []; index = s.index; out = s.out ++ popped s.stack }

-- A comparison as a number.
abbrev truth : Bool → ℕ
truth true = 1
truth false = 0

-- `index&1 == 0` is `index & (1 == 0)`.
abbrev pub pops_early : ℕ → Bool
pops_early index = not (bit_and index (truth (1 == 0)) == 0)

-- One word: pushed, then written with those below it at the end of a group of `ratio`.
unfoldable pub push_word : (ratio : ℕ) → Text → Hex → Hex
push_word ratio word s =
    let pushed : Hex = record { stack = word ∷ s.stack; index = u32 (s.index + 1); out = s.out } in
    let early : Hex = if pops_early pushed.index then pop_all pushed else pushed in
    if early.index % ratio == 0
    then record { stack = []; index = early.index; out = (pop_all early).out ++ b'\n' ∷ [] }
    else early

module _ (ratio : ℕ) where
  -- `while(index < mti_index)`
  unfoldable pub fill : (fuel : ℕ) → (filler : Text) → (mti_index : ℕ) → Hex → Result Hex
  unfolding push_word
  fill zero filler mti_index s = if ltb s.index mti_index then fail out_of_fuel else ok s
  fill (suc fuel) filler mti_index s =
      let rest = fill fuel filler mti_index (push_word ratio filler s) in
      if ltb s.index mti_index then rest else ok s

  -- The loop over the entries of a line.
  unfoldable pub push_words : List Text → Hex → Hex
  unfolding push_word
  push_words [] s = s
  push_words (word ∷ words) s = push_words words (push_word ratio word s)

  -- One line: an address with a colon, and words.
  unfoldable pub convert_items : (filler : Text) → List Text → Hex → Result Hex
  unfolding fill push_words
  convert_items filler [] s = fail undefined
  convert_items filler (address ∷ words) s = do
    mti_index ← defined (stoi (substr address 0 (length address - 1)))
    filled ← fill mti_index filler mti_index s
    ok (push_words words filled)

  -- The loop over the lines.
  unfoldable pub convert_lines : (filler : Text) → List Text → Hex → Result Hex
  unfolding convert_items tokenize
  convert_lines filler [] s = ok s
  convert_lines filler (line ∷ lines) s = do
    s' ← convert_items filler (tokenize line b' ') s
    convert_lines filler lines s'

abbrev check_width : (mtidata_width hexdata_width : ℕ) → Result ℕ
check_width mtidata_width hexdata_width =
    if mtidata_width == 0
    then fail undefined
    else if hexdata_width % mtidata_width == 0
    then ok hexdata_width
    else fail exit_failure

-- The number of digits of a word in the hex file: that of the image, or a quarter of the argument.
abbrev pub hex_width : (mtidata_width : ℕ) → Option Text → Result ℕ
hex_width mtidata_width none = ok mtidata_width
hex_width mtidata_width (some argument) = do
  bits ← defined (stoi argument)
  check_width mtidata_width (bits / 4)

-- A division by zero has no result.
abbrev pub divide : ℕ → ℕ → Result ℕ
divide n d = if d == 0 then fail undefined else ok (n / d)

-- The contents of the hex file for the third line of the image, with its items, and the later lines.
unfoldable pub convert_data : Option Text → (header : List Text) → List Text → Result Text
unfolding convert_lines
convert_data argument [] lines = fail exit_failure
convert_data argument (address ∷ []) lines = fail exit_failure
convert_data argument (address ∷ word ∷ words) lines = do
  hexdata_width ← hex_width (length word) argument
  ratio ← divide hexdata_width (length word)
  positive ← (if ratio == 0 then fail undefined else ok ratio)
  s ← convert_lines positive (replicate (length word) b'0') lines hex_start
  ok (pop_all s).out

-- The image: two lines of header, then data.
unfoldable pub convert_image : Option Text → List Text → Result Text
unfolding convert_data tokenize
convert_image argument [] = fail exit_failure
convert_image argument (l ∷ []) = fail exit_failure
convert_image argument (l ∷ l' ∷ []) = fail exit_failure
convert_image argument (l ∷ l' ∷ line ∷ lines) =
    convert_data argument (tokenize line b' ') (line ∷ lines)

-- `outfilename.replace(outfilename.length()-3,3,"hex")`
abbrev pub hex_name : Text → Result Text
hex_name filename =
    if ltb (length filename) 3
    then fail undefined
    else ok (take (length filename - 3) filename ++ codes "hex")

module _ (contents : Text → Option Text) where
  abbrev open_image : Text → Result Text
  open_image filename = elim (contents filename) [ none ↦ fail exit_failure | some text ↦ ok text ]

  -- The arguments of `main` behind the name of the program; the name and contents of the hex file.
  unfoldable pub main : List Text → Result (Text × Text)
  unfolding convert_image
  main [] = fail exit_failure
  main (filename ∷ []) = do
    text ← open_image filename
    hex ← hex_name filename
    image ← convert_image none (lines_of text)
    ok (hex, image)
  main (filename ∷ width ∷ []) = do
    text ← open_image filename
    hex ← hex_name filename
    image ← convert_image (some width) (lines_of text)
    ok (hex, image)
  main (filename ∷ width ∷ _ ∷ _) = fail exit_failure
