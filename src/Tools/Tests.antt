-- ===== src/Tools/Tests.antt =====
-- Runs of the host tools at concrete inputs, and the instances of their theorems there.
use lib_hsa.Tools.Segments.Arrays.{zeros_two, zeros_four, dump_two_lem, dump_four_lem}
use lib_hsa.Base.{
  refl, ◌≡◌, some, ◌∷◌, [], arith, Option, if◌then◌else◌, ◌++◌, take, length, same_text,
}
use lib_hsa.Tools.Text.{codes, lines_of, Text}
use lib_hsa.Tools.Result.{ok, fail, out_of_fuel}
use lib_hsa.Tools.Tokenize.{scan, scan_line, finish}
use lib_hsa.Tools.HexFile
use lib_hsa.Tools.Segments.{
  generate, segments, segment, words_per_line, header_item, array_text, code_vector,
  vector_elements, vector_element, system_strings, prologue,
}
use lib_hsa.Tools.Segments
use lib_hsa.Tools.Segments.Dump.{
  dump_two, dump, put_two, end_rounds, line_round, put_words, dump_four, Dump,
}
use lib_hsa.Tools.HexFile.{
  convert_image, convert_data, convert_lines, convert_items, tokenize, fill, push_words, push_word,
}
use lib_hsa.Tools.HexFile.Image.{convert_image_lem}
use lib_hsa.Tools.Image.{Entry, entry_lines, IsEntry, image_words}
use lib_hsa.Tools.Segments.Arrays.{memory_words, dump_four_endless}
use lib_hsa.Tools.Items.{tokenize-terminated}
use lib_hsa.Tools.Segments.Rows.{paired, array_rows}
use lib_hsa.Tools.Numbers.{printed}

-- Two words of two digits a line, the second and third absent.
convert_image_run :
    convert_image (some (codes "16")) (lines_of (codes "a\nb\n0: 12\n3: 34 56\nlast"))
    ≡ ok (codes "0012\n3400\n56")
unfolding convert_image convert_data convert_lines convert_items tokenize fill push_words push_word
    scan scan_line finish
convert_image_run = refl

abbrev first_entry : Entry
first_entry = record { label = codes "0"; address = 0; words = codes "12" ∷ []; final = [] }

abbrev second_entry : Entry
second_entry = record {
  label = codes "3";
  address = 3;
  words = codes "34" ∷ [];
  final = codes "56";
}

first_entry-IsEntry : IsEntry first_entry
first_entry-IsEntry = record { spells = refl; plain = omega arith; plain_final = omega arith }

second_entry-IsEntry : IsEntry second_entry
second_entry-IsEntry = record { spells = refl; plain = omega arith; plain_final = omega arith }

convert_image_lem_example :
    convert_image
      (some (codes "16"))
      (codes "a" ∷ codes "b" ∷ entry_lines (first_entry ∷ second_entry ∷ []))
    ≡ ok (codes "0012\n3400\n56")
convert_image_lem_example =
    convert_image_lem (some (codes "16")) (codes "a") (codes "b") first_entry (second_entry ∷ [])
      (codes "12") [] 2 ((codes "12" ∷ codes "00" ∷ []) ∷ (codes "00" ∷ codes "34" ∷ []) ∷ [])
      (codes "56" ∷ []) (first_entry-IsEntry, (second_entry-IsEntry, tt)) refl (omega arith) refl
      refl (refl, (refl, tt)) (omega arith) (omega arith)

-- One processor with a code memory of 0 blocks.
abbrev disk : Text → Option Text
disk name =
    if same_text name (codes "c.txt")
    then some (codes "0 -\np/ 0 0\n")
    else some (codes "// instance\n// format=mti wordsperline=2\n")

segments_run :
    generate disk 1 (codes "0 -" ∷ codes "p/ 0 0" ∷ [])
    ≡ ok (
        prologue
        ++ codes
            "uint64_t text_segment0[0] = {\n    };\n\nuint64_t data_segment0[0] = {\n    };\n\n"
        ++ codes "code_segment_t code_vector[2] = {\n    {text_segment0,data_segment0,0,0},\n"
        ++ codes "    {NULL,NULL,0,0}\n};\n\n#endif\n")
unfolding printed generate segments segment words_per_line header_item array_text dump_two dump
    put_two end_rounds Segments.Dump.fill code_vector vector_elements vector_element system_strings
    Segments.Dump.tokenize scan scan_line finish
segments_run = refl

dump_two_run :
    dump_two 1 3 (codes "1: 12 34" ∷ []) []
    ≡ ok (record { index = 3; last_value = []; out = codes "0x0000000000000000, 0x12, \n    0x34" })
unfolding dump_two dump put_two end_rounds line_round put_words Segments.Dump.fill
    Segments.Dump.tokenize scan scan_line finish
dump_two_run = refl

tokenize-terminated_example :
    (HexFile.tokenize (codes "ab,,c") b',' ≡ codes "ab" ∷ [] ∷ codes "c" ∷ [])
    × (Segments.Dump.tokenize (codes "ab,,c") b',' ≡ codes "ab" ∷ [] ∷ codes "c" ∷ [])
tokenize-terminated_example =
    tokenize-terminated b',' (codes "ab" ∷ [] ∷ []) (codes "c") (omega arith) (omega arith)
      (omega arith)

abbrev second_at_one : Entry
second_at_one = record {
  label = codes "1";
  address = 1;
  words = codes "12" ∷ [];
  final = codes "34";
}

second_at_one-IsEntry : IsEntry second_at_one
second_at_one-IsEntry = record { spells = refl; plain = omega arith; plain_final = omega arith }

-- An array of three words, and the image gives two of them.
dump_two_lem_example :
    let words = memory_words zeros_two 3 (second_at_one ∷ []) in
    (length words ≡ 3)
    × ((s : Dump) × ((dump_two 1 3 (entry_lines (second_at_one ∷ [])) [] ≡ ok s)
          × (s.out ≡ array_rows words)))
dump_two_lem_example =
    dump_two_lem 0 3 (second_at_one ∷ []) [] (second_at_one-IsEntry, tt) (omega arith, tt)

dump_four_lem_example :
    let words = take 4 (image_words zeros_four 0 (second_at_one ∷ second_entry ∷ [])) in
    (length (paired words) ≡ 2)
    × ((s : Dump) × ((dump_four 0 2 (entry_lines (second_at_one ∷ second_entry ∷ [])) [] ≡ ok s)
          × (s.out ≡ array_rows (paired words))))
dump_four_lem_example =
    dump_four_lem 0 2 (second_at_one ∷ second_entry ∷ []) []
      (second_at_one-IsEntry, (second_entry-IsEntry, tt)) (omega arith, (omega arith, tt))
      (omega arith)

dump_four_endless_example :
    dump_four 1000 2 (entry_lines (second_at_one ∷ [])) [] ≡ fail out_of_fuel
dump_four_endless_example =
    dump_four_endless 1000 2 (second_at_one ∷ []) [] (second_at_one-IsEntry, tt) (omega arith)
