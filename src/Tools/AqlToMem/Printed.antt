-- ===== src/Tools/AqlToMem/Printed.antt =====
-- The lines of the packets as a memory image.
use lib_hsa.Base.{
  ℕ, zero, suc, ◌+◌, ◌-◌, ◌*◌, ◌^◌, ◌<◌, ◌≡◌, ◌≢◌, refl, arith, Text, codes, Memory, load,
  load-bound, ap,
}
use mathlib.Core.List.{List, [], ◌∷◌, ◌++◌, append_assoc}
use lib_hsa.Tools.Text.{All, Lacks, All-append}
use lib_hsa.Tools.Tokenize.{with_final}
use lib_hsa.Tools.Numbers.{printed}
use lib_hsa.Tools.Numbers.Printing.{
  hex_value, Visible-Lacks, stoi-printed, printed-ne-nil, printed-Visible, padded-Visible,
  padded-ne-nil, hex_value-padded,
}
use lib_hsa.Tools.Image.{Entry, entry_lines, entry_words, IsEntry, image_words}
use lib_hsa.Tools.AqlToMem.MemFile.{hex, packet_lines}

-- The word of the memory with an index, in hexadecimal digits.
abbrev pub word_text : Memory → ℕ → Text
word_text memory k = hex 16 (load 8 memory (8 * k))

-- A line of the file, and those of the loop over the packets.
abbrev packet_entry : Memory → ℕ → Entry
packet_entry memory line = record {
  label = printed 10 line;
  address = line;
  words = word_text memory line ∷ [];
  final = word_text memory (line + 1);
}

abbrev pub packet_entries : Memory → (line rounds : ℕ) → List Entry
packet_entries memory line zero = []
packet_entries memory line (suc rounds) =
    packet_entry memory line ∷ packet_entries memory (line + 2) rounds

-- The values that texts of hexadecimal digits stand for, and words of the memory.
abbrev pub hex_values : List Text → List ℕ
hex_values [] = []
hex_values (word ∷ words) = hex_value word ∷ hex_values words

abbrev pub loaded_words : Memory → (index count : ℕ) → List ℕ
loaded_words memory index zero = []
loaded_words memory index (suc count) =
    load 8 memory (8 * index) ∷ loaded_words memory (index + 1) count

word_text-Lacks : (memory : Memory) (k : ℕ) → Lacks b' ' (word_text memory k)
word_text-Lacks memory k =
    let n = load 8 memory (8 * k) in
    Visible-Lacks (hex 16 n) (padded-Visible 16 (printed 16 n) (printed-Visible 16 n))

word_text-value : (memory : Memory) (k : ℕ) → hex_value (word_text memory k) ≡ load 8 memory (8 * k)
word_text-value memory k =
    hex_value-padded 16 (load 8 memory (8 * k)) (omega (arith, load-bound 8 memory (8 * k)))

with_final-ne-nil :
    (ts : List Text) (final : Text) → final ≢ [] → with_final ts final ≡ ts ++ final ∷ []
with_final-ne-nil ts [] h = absurd (h refl)
with_final-ne-nil ts (c ∷ s) h = refl

packet_entry-words :
    (memory : Memory) (line : ℕ)
    → entry_words (packet_entry memory line)
      ≡ word_text memory line ∷ word_text memory (line + 1) ∷ []
packet_entry-words memory line =
    let n = load 8 memory (8 * (line + 1)) in
    with_final-ne-nil (word_text memory line ∷ []) (word_text memory (line + 1))
      (padded-ne-nil 16 (printed 16 n) (printed-ne-nil 16 n))

label_plain : (line : ℕ) → Lacks b' ' (printed 10 line ++ b':' ∷ [])
label_plain line =
    All-append (λ (c : ℕ). c ≢ b' ') (printed 10 line) (b':' ∷ [])
      (Visible-Lacks (printed 10 line) (printed-Visible 10 line)) (omega arith, tt)

packet_entry-IsEntry :
    (memory : Memory) (line : ℕ) → line < 2 ^ 31 → IsEntry (packet_entry memory line)
packet_entry-IsEntry memory line h = record {
  spells = stoi-printed line h;
  plain = (label_plain line, (word_text-Lacks memory line, tt));
  plain_final = word_text-Lacks memory (line + 1);
}

line-entry_line :
    (label first second : Text)
    → label ++ codes ": " ++ first ++ codes " " ++ second
      ≡ ((label ++ b':' ∷ []) ++ b' ' ∷ (first ++ b' ' ∷ [])) ++ second
line-entry_line label first second = simp append_assoc

packet_entries-IsEntry :
    (memory : Memory) (line rounds : ℕ)
    → line + rounds * 2 < 2 ^ 31
    → All IsEntry (packet_entries memory line rounds)
packet_entries-IsEntry memory line zero h = tt
packet_entries-IsEntry memory line (suc rounds) h = (
  packet_entry-IsEntry memory line (omega arith),
  packet_entries-IsEntry memory (line + 2) rounds (omega arith),
)

packet_lines-entry_lines :
    (memory : Memory) (line rounds : ℕ)
    → packet_lines memory line rounds ≡ entry_lines (packet_entries memory line rounds)
unfolding packet_lines
packet_lines-entry_lines memory line zero = refl
packet_lines-entry_lines memory line (suc rounds) = λ i.
    line-entry_line (printed 10 line) (word_text memory line) (word_text memory (line + 1)) i
    ∷ packet_lines-entry_lines memory (line + 2) rounds i

packet_entries-words :
    (filler : Text) (memory : Memory) (line rounds : ℕ)
    → hex_values (image_words filler line (packet_entries memory line rounds))
      ≡ loaded_words memory line (rounds * 2)
packet_entries-words filler memory line zero = refl
packet_entries-words filler memory line (suc rounds) =
    let z : line - line ≡ 0 = omega arith in
    let next : line + 0 + 2 ≡ line + 2 = omega arith in
    let two : suc rounds * 2 ≡ suc (suc (rounds * 2)) = omega arith in
    let later : line + 1 + 1 ≡ line + 2 = omega arith in
    rw (z, packet_entry-words memory line, next, two, later)
      (rw (word_text-value memory line, word_text-value memory (line + 1))
        (ap (λ (l : List ℕ). load 8 memory (8 * line) ∷ load 8 memory (8 * (line + 1)) ∷ l)
          (packet_entries-words filler memory (line + 2) rounds)))

-- The lines of the packets are those of a memory image with an address and two words each, which
-- std::stoi and the values of the hexadecimal digits give back: the words of the memory from the
-- first packet on. The addresses fit an `int`.
pub packet_lines_lem :
    (filler : Text) (memory : Memory) (rounds : ℕ)
    → rounds * 2 < 2 ^ 31
    → let es = packet_entries memory 0 rounds in
      (packet_lines memory 0 rounds ≡ entry_lines es)
      × All IsEntry es
      × (hex_values (image_words filler 0 es) ≡ loaded_words memory 0 (rounds * 2))
packet_lines_lem filler memory rounds h = (
  packet_lines-entry_lines memory 0 rounds,
  packet_entries-IsEntry memory 0 rounds (omega arith),
  packet_entries-words filler memory 0 rounds,
)
