-- ===== src/Tools/HexFile/Image.antt =====
-- What mti2hex writes for a memory image whose lines hold an address and words.
use lib_hsa.Base.{
  ℕ, zero, suc, ◌+◌, ◌-◌, ◌*◌, ◌/◌, ◌^◌, ◌≤◌, ◌<◌, ◌==◌, length, refl, ◌≡◌, arith, sym, ap, ◌∙◌,
  ne→==, length-append, false, Bool-cases, inl, inr, ltb, Option, le→ltb, lt→ltb, le→leb, ltb→lt,
  ltb→le, Bool,
}
use mathlib.Core.Path.{subst}
use mathlib.Core.List.{List, [], ◌∷◌, ◌++◌, append_assoc}
use native.Mathlib.Nat.{mod-eq_of_lt, zero-mod, mul-div_cancel}
use lib_hsa.Tools.Text.{Text, All, replicate}
use lib_hsa.Tools.Result.{ok}
use lib_hsa.Tools.Tokenize.{finish, scan_line}
use lib_hsa.Tools.HexFile.{
  Hex, hex_start, hex_width, push_word, push_words, fill, convert_items, convert_lines,
  convert_data, convert_image, tokenize,
}
use lib_hsa.Tools.Image.{
  Entry, entry_line, entry_lines, entry_words, IsEntry, image_words, length-replicate, label_read,
  entry_line-length, finish-entry_line,
}
use lib_hsa.Tools.HexFile.Groups.{
  in_order, hex_text, push_words-hex_text, push_words-append, push_word-index, push_words-index,
}

-- The items of a line are its address and its words.
tokenize-entry_line :
    (e : Entry) → IsEntry e → tokenize (entry_line e) b' ' ≡ (e.label ++ b':' ∷ []) ∷ entry_words e
unfolding tokenize
tokenize-entry_line e h =
    let m = entry_line-length e in
    ap (λ (b : Bool). finish (entry_line e) b' ' b (scan_line (entry_line e) b' '))
      (lt→ltb 1 (length (entry_line e)) m
        ∙ sym (le→leb 1 (length (entry_line e)) (omega (arith, m))))
    ∙ finish-entry_line e h

module _ (ratio : ℕ) where
  -- The loop pushes a filler for each index below the address, and ends.
  fill_lem :
      (fuel : ℕ) (filler : Text) (address : ℕ) (s : Hex)
      → address - s.index ≤ fuel
      → address < 2 ^ 32
      → fill ratio fuel filler address s
        ≡ ok (push_words ratio (replicate (address - s.index) filler) s)
  unfolding fill push_words
  fill_lem zero filler address s h b =
      let e : address - s.index ≡ 0 = omega arith in
      rw (le→ltb s.index address (omega arith), e) refl
  fill_lem (suc fuel) filler address s h b = elim (Bool-cases (ltb s.index address)) [
    | inl q ↦
        let n : (push_word ratio filler s).index ≡ s.index + 1 =
          push_word-index ratio filler s ∙ mod-eq_of_lt (omega (arith, ltb→lt s.index address q)) in
        let e : address - s.index ≡ suc (address - (s.index + 1)) =
          omega (arith, ltb→lt s.index address q) in
        rw (q, e)
          (subst
            (λ (k : ℕ).
              fill ratio fuel filler address (push_word ratio filler s)
              ≡ ok (push_words ratio (replicate (address - k) filler) (push_word ratio filler s)))
            n (fill_lem fuel filler address (push_word ratio filler s) (omega (arith, n)) b))
    | inr q ↦
        let e : address - s.index ≡ 0 = omega (arith, ltb→le s.index address q) in rw (q, e) refl
  ]

  convert_items_lem :
      (filler : Text) (e : Entry) (s : Hex)
      → IsEntry e
      → e.address < 2 ^ 32
      → convert_items ratio filler (tokenize (entry_line e) b' ') s
        ≡ ok (push_words ratio (replicate (e.address - s.index) filler ++ entry_words e) s)
  unfolding convert_items
  convert_items_lem filler e s h b =
      rw
        (
          tokenize-entry_line e h,
          label_read e h,
          fill_lem e.address filler e.address s (omega arith) b,
          push_words-append ratio (replicate (e.address - s.index) filler) (entry_words e) s,
        )
        refl

  convert_lines_lem :
      (filler : Text) (es : List Entry) (s : Hex)
      → All IsEntry es
      → s.index + length (image_words filler s.index es) < 2 ^ 32
      → convert_lines ratio filler (entry_lines es) s
        ≡ ok (push_words ratio (image_words filler s.index es) s)
  unfolding convert_lines
  convert_lines_lem filler [] s _ b = unfold push_words in refl
  convert_lines_lem filler (e ∷ es) s (h, hs) b =
      let words = replicate (e.address - s.index) filler ++ entry_words e in
      let s' = push_words ratio words s in
      let later =
        image_words filler (s.index + (e.address - s.index) + length (entry_words e)) es in
      let n : length words ≡ e.address - s.index + length (entry_words e) = omega (
        arith,
        length-append (replicate (e.address - s.index) filler) (entry_words e),
        length-replicate (e.address - s.index) filler,
      ) in
      let a : replicate (e.address - s.index) filler ++ (entry_words e ++ later) ≡ words ++ later =
        sym (append_assoc (replicate (e.address - s.index) filler) (entry_words e) later) in
      let m : length (image_words filler s.index (e ∷ es)) ≡ length words + length later =
        ap length a ∙ length-append words later in
      let i : s'.index ≡ s.index + (e.address - s.index) + length (entry_words e) =
        push_words-index ratio words s (omega (arith, m)) ∙ omega (arith, n) in
      rw
        (
          convert_items_lem filler e s h (omega (arith, m, n)),
          a,
          push_words-append ratio words later s,
          sym i,
        )
        (convert_lines_lem filler es s' hs (rw i (omega (arith, m, n))))

-- For an image of addresses and words whose first line has a word of `digits` digits, the hex file
-- holds the words of the memory, with zeros for the addresses that no line gives, in groups of
-- `ratio` words: each group is a line, its last word first, and the words that do not fill a group
-- follow the last line likewise. The width of the hex file is `ratio` times that of a word, `ratio`
-- is not 0, the words have digits and are fewer than 2^32.
pub convert_image_lem :
    (argument : Option Text) (first second : Text) (e : Entry) (es : List Entry)
    → (word : Text) (words : List Text) (ratio : ℕ) → (groups : List (List Text)) (rest : List Text)
    → All IsEntry (e ∷ es)
    → entry_words e ≡ word ∷ words
    → 0 < length word
    → hex_width (length word) argument ≡ ok (ratio * length word)
    → let filler : Text = replicate (length word) b'0' in
      in_order groups rest ≡ image_words filler 0 (e ∷ es)
      → All (λ (group : List Text). length group ≡ ratio) groups
      → length rest < ratio
      → length (in_order groups rest) < 2 ^ 32
      → convert_image argument (first ∷ second ∷ entry_lines (e ∷ es)) ≡ ok (hex_text groups rest)
unfolding convert_image convert_data
convert_image_lem argument first second e es word words ratio groups rest (h, hs) w p width split
      full short b =
    let filler : Text = replicate (length word) b'0' in
    let n : (length word == 0) ≡ false = ne→== (length word) 0 (omega arith) in
    let d : ratio * length word / length word ≡ ratio = mul-div_cancel ratio p in
    let r : (ratio == 0) ≡ false = ne→== ratio 0 (omega arith) in
    let lines : convert_lines ratio filler (entry_lines (e ∷ es)) hex_start
        ≡ ok (push_words ratio (in_order groups rest) hex_start) =
      rw split (
        convert_lines_lem ratio filler (e ∷ es) hex_start (h, hs) (rw (sym split) (omega arith))) in
    rw (tokenize-entry_line e h, w, width, n, d, r, lines)
      (ap ok (
        push_words-hex_text ratio groups rest hex_start full short refl (zero-mod ratio)
          (omega arith)))
