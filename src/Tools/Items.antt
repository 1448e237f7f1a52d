-- ===== src/Tools/Items.antt =====
-- The items of a line, for the two copies of `tokenize`.
use lib_hsa.Base.{ℕ, ◌<◌, ◌≡◌, ◌≢◌, refl, ap, sym, ◌∙◌, arith, Bool, length, lt→ltb, le→leb, ne→==}
use mathlib.Core.List.{List, [], ◌∷◌, ◌++◌}
use lib_hsa.Tools.Text.{Text, Lacks, All}
use lib_hsa.Tools.Tokenize.{terminated, with_final, finish, scan, scan_line, finish_lem}
use lib_hsa.Tools.HexFile
use lib_hsa.Tools.Segments.Dump

-- Items that hold no separator are read back by both tools from a line of more than one character
-- that has each item but the last with a separator behind it; the last is left out if it is empty.
pub tokenize-terminated :
    (separator : ℕ) (ts : List Text) (final : Text)
    → All (Lacks separator) ts
    → Lacks separator final
    → let line = terminated separator ts ++ final in
      1 < length line
      → (HexFile.tokenize line separator ≡ with_final ts final)
        × (Dump.tokenize line separator ≡ with_final ts final)
unfolding HexFile.tokenize Dump.tokenize
tokenize-terminated separator ts final hs h n =
    let line = terminated separator ts ++ final in
    let e = finish_lem separator ts final hs h in
    (
      ap (λ (b : Bool). finish line separator b (scan_line line separator))
            (lt→ltb 1 (length line) n ∙ sym (le→leb 1 (length line) (omega arith)))
          ∙ e,
      e,
    )

-- A line of one character that is no separator has an item for vsim2cmd, and none for mti2hex.
pub one_character :
    (c separator : ℕ)
    → c ≢ separator
    → (HexFile.tokenize (c ∷ []) separator ≡ [])
      × (Dump.tokenize (c ∷ []) separator ≡ (c ∷ []) ∷ [])
unfolding HexFile.tokenize Dump.tokenize finish scan_line scan
one_character c separator h = rw (ne→== c separator h) (refl, refl)
