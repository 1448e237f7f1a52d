-- ===== src/Tools/Segments/Dump.antt =====
-- The loops of vsim2cmd that write the words of a memory image into an array.
use lib_hsa.Base.{ℕ, zero, suc, ◌+◌, ◌-◌, ◌*◌, ltb, leb, ◌==◌, if◌then◌else◌, length, bit_and}
use mathlib.Core.List.{List, [], ◌∷◌, ◌++◌}
use lib_hsa.Tools.Text.{Text, codes, substr}
use lib_hsa.Tools.Numbers.{stoi}
use lib_hsa.Tools.Result.{Result, ok, fail, undefined, out_of_fuel, ◌>>=◌, defined}
use lib_hsa.Tools.Tokenize.{finish, scan_line}

-- The last item is taken from lines of at least one character.
unfoldable pub tokenize : Text → ℕ → List Text
unfolding finish scan_line
tokenize line separator = finish line separator (leb 1 (length line)) (scan_line line separator)

-- `index`, `last_value` (of the loop for four words), and what is written to the file. The index
-- stays below a bound that is a number of 32 bits.
pub record Dump : Type 0 where
  pub index : ℕ
  pub last_value : Text
  pub out : Text

-- Two words a line: each word is an entry.
unfoldable pub put_two : (max_index : ℕ) → Text → Dump → Dump
put_two max_index word s = record {
  index = s.index + 1;
  last_value = s.last_value;
  out =
      (((s.out ++ codes "0x") ++ word) ++ (if s.index == max_index - 1 then [] else codes ", "))
      ++ (if bit_and s.index 1 == 1 then codes "\n    " else []);
}

-- Four words a line: each second word is an entry with the word before it.
unfoldable pub put_four : (max_index : ℕ) → Text → Dump → Dump
put_four max_index word s = record {
  index = s.index + 1;
  last_value = word;
  out =
      (if bit_and s.index 1 == 1
        then ((s.out ++ codes "0x") ++ (word ++ s.last_value))
          ++ (if s.index == max_index - 1 then [] else codes ", ")
        else s.out)
      ++ (if bit_and s.index 3 == 3 then codes "\n    " else []);
}

-- The loops, for the body that writes a word, the word for an absent one, and their bounds.
module _ (put : Text → Dump → Dump) (filler : Text) (blocksize max_index : ℕ) where
  -- `while(index < mti_index)`
  unfoldable pub fill : (fuel mti_index : ℕ) → Dump → Result Dump
  fill zero mti_index s = if ltb s.index mti_index then fail out_of_fuel else ok s
  fill (suc fuel) mti_index s =
      let rest = fill fuel mti_index (put filler s) in if ltb s.index mti_index then rest else ok s

  -- The loop over the entries of a line.
  unfoldable pub put_words : List Text → Dump → Dump
  put_words [] s = s
  put_words (word ∷ words) s =
      let rest = put_words words (put word s) in if ltb s.index max_index then rest else s

  -- A round with a line.
  unfoldable pub line_round : List Text → Dump → Result Dump
  unfolding fill put_words
  line_round [] s = fail undefined
  line_round (address ∷ words) s = do
    mti_index ← defined (stoi (substr address 0 (length address - 1)))
    filled ← fill mti_index mti_index s
    ok (put_words words filled)

  -- The rounds after the end of the file.
  unfoldable pub end_rounds : (fuel : ℕ) → Dump → Result Dump
  unfolding fill
  end_rounds zero s = if ltb s.index max_index then fail out_of_fuel else ok s
  end_rounds (suc fuel) s =
      let round = fill blocksize blocksize s >>= end_rounds fuel in
      if ltb s.index max_index then round else ok s

  -- `while(index<max_index)`
  unfoldable pub dump : (fuel : ℕ) → List Text → Dump → Result Dump
  unfolding line_round tokenize end_rounds
  dump fuel [] s = end_rounds fuel s
  dump fuel (line ∷ lines) s =
      let round = line_round (tokenize line b' ') s >>= dump fuel lines in
      if ltb s.index max_index then round else ok s

abbrev pub dump_start : Text → Dump
dump_start out = record { index = 0; last_value = []; out = out }

unfoldable pub dump_two : (fuel blocksize : ℕ) → List Text → Text → Result Dump
unfolding dump put_two
dump_two fuel blocksize lines out =
    dump (put_two blocksize) (codes "0000000000000000") blocksize blocksize fuel lines
      (dump_start out)

unfoldable pub dump_four : (fuel blocksize : ℕ) → List Text → Text → Result Dump
unfolding dump put_four
dump_four fuel blocksize lines out =
    dump (put_four (blocksize * 2)) (codes "00000000") blocksize (blocksize * 2) fuel lines
      (dump_start out)
