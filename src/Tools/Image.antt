-- ===== src/Tools/Image.antt =====
-- Memory images as ModelSim writes them: each line an address and words.
use lib_hsa.Base.{
  ℕ, zero, suc, ◌+◌, ◌-◌, ◌≤◌, length, refl, ◌≡◌, arith, ap, ◌∙◌, length-append, some, leb,
}
use mathlib.Core.List.{List, [], ◌∷◌, ◌++◌}
use lib_hsa.Tools.Text.{Text, All, Lacks, replicate, substr, take-append}
use lib_hsa.Tools.Numbers.{stoi}
use lib_hsa.Tools.Tokenize.{finish, scan_line, terminated, with_final, finish_lem}

-- A line of the image: the text of an address, a colon, words with a blank behind each, and what
-- follows the last blank.
pub record Entry : Type 0 where
  pub label : Text
  pub address : ℕ
  pub words : List Text
  pub final : Text

abbrev pub entry_items : Entry → List Text
entry_items e = (e.label ++ b':' ∷ []) ∷ e.words

abbrev pub entry_line : Entry → Text
entry_line e = terminated b' ' (entry_items e) ++ e.final

abbrev pub entry_lines : List Entry → List Text
entry_lines [] = []
entry_lines (e ∷ es) = entry_line e ∷ entry_lines es

abbrev pub entry_words : Entry → List Text
entry_words e = with_final e.words e.final

-- The label spells the address, and blanks stand only between the items.
pub record IsEntry (e : Entry) : Type 0 where
  pub spells : stoi e.label ≡ some e.address
  pub plain : All (Lacks b' ') (entry_items e)
  pub plain_final : Lacks b' ' e.final

-- The words of a memory from an index on: zeros up to the address of each line, then its words.
abbrev pub image_words : (filler : Text) → ℕ → List Entry → List Text
image_words filler index [] = []
image_words filler index (e ∷ es) =
    replicate (e.address - index) filler
    ++ (entry_words e
        ++ image_words filler (index + (e.address - index) + length (entry_words e)) es)

pub length-replicate : (n : ℕ) (t : Text) → length (replicate n t) ≡ n
length-replicate zero t = refl
length-replicate (suc n) t = ap suc (length-replicate n t)

with_final-cons :
    (t : Text) (ts : List Text) (final : Text) → with_final (t ∷ ts) final ≡ t ∷ with_final ts final
with_final-cons t ts [] = refl
with_final-cons t ts (c ∷ s) = refl

pub entry_line-length : (e : Entry) → 2 ≤ length (entry_line e)
entry_line-length e = omega (
  arith,
  length-append (e.label ++ b':' ∷ []) (b' ' ∷ terminated b' ' e.words),
  length-append (terminated b' ' (entry_items e)) e.final,
  length-append e.label (b':' ∷ []),
)

-- The items of a line are its address and its words.
pub finish-entry_line :
    (e : Entry)
    → IsEntry e
    → finish (entry_line e) b' ' (leb 1 (length (entry_line e))) (scan_line (entry_line e) b' ')
      ≡ (e.label ++ b':' ∷ []) ∷ entry_words e
finish-entry_line e h =
    finish_lem b' ' (entry_items e) e.final h.plain h.plain_final
    ∙ with_final-cons (e.label ++ b':' ∷ []) e.words e.final

-- The address that is read from the first item.
pub label_read :
    (e : Entry)
    → IsEntry e
    → stoi (substr (e.label ++ b':' ∷ []) 0 (length (e.label ++ b':' ∷ []) - 1)) ≡ some e.address
label_read e h =
    let n : length (e.label ++ b':' ∷ []) - 1 ≡ length e.label =
      omega (arith, length-append e.label (b':' ∷ [])) in
    rw (n, take-append e.label (b':' ∷ [])) h.spells
