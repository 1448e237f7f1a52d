-- ===== src/Tools/Segments/Words.antt =====
-- Which words of a memory image the loops of vsim2cmd write, for a body that counts the words.
use lib_hsa.Base.{
  ℕ, zero, suc, ◌+◌, ◌-◌, ◌≤◌, ◌<◌, length, refl, ◌≡◌, arith, ap, sym, ◌∙◌, length-append, take,
  ltb, Bool-cases, inl, inr, ltb→lt, ltb→le, lt→ltb, le→ltb,
}
use mathlib.Core.Path.{subst}
use mathlib.Core.List.{List, [], ◌∷◌, ◌++◌}
use lib_hsa.Tools.Text.{Text, All, replicate}
use lib_hsa.Tools.Prefix.{take-append_long, take-append_short, take_all, length-take}
use lib_hsa.Tools.Result.{ok}
use lib_hsa.Tools.Image.{
  Entry, entry_lines, entry_line, entry_words, IsEntry, image_words, length-replicate, label_read,
  finish-entry_line,
}
use lib_hsa.Tools.Segments.Dump.{Dump, fill, put_words, line_round, end_rounds, dump, tokenize}

tokenize-entry_line :
    (e : Entry) → IsEntry e → tokenize (entry_line e) b' ' ≡ (e.label ++ b':' ∷ []) ∷ entry_words e
unfolding tokenize
tokenize-entry_line e h = finish-entry_line e h

-- Every word is written.
abbrev pub puts : (put : Text → Dump → Dump) → List Text → Dump → Dump
puts put [] s = s
puts put (word ∷ words) s = puts put words (put word s)

module _ (put : Text → Dump → Dump)
    (counts : (word : Text) (s : Dump) → (put word s).index ≡ s.index + 1) where
  pub puts-index :
      (words : List Text) (s : Dump) → (puts put words s).index ≡ s.index + length words
  puts-index [] s = omega arith
  puts-index (word ∷ words) s = omega (arith, puts-index words (put word s), counts word s)

  pub puts-append :
      (xs ys : List Text) (s : Dump) → puts put (xs ++ ys) s ≡ puts put ys (puts put xs s)
  puts-append [] ys s = refl
  puts-append (x ∷ xs) ys s = puts-append xs ys (put x s)

  module _ (filler : Text) (blocksize max_index : ℕ) where
    -- The loop pushes a filler for each index below the address, and ends.
    pub fill_lem :
        (fuel address : ℕ) (s : Dump)
        → address - s.index ≤ fuel
        → fill put filler blocksize max_index fuel address s
          ≡ ok (puts put (replicate (address - s.index) filler) s)
    unfolding fill
    fill_lem zero address s h =
        let e : address - s.index ≡ 0 = omega arith in
        rw (le→ltb s.index address (omega arith), e) refl
    fill_lem (suc fuel) address s h = elim (Bool-cases (ltb s.index address)) [
      | inl q ↦
          let n = counts filler s in
          let e : address - s.index ≡ suc (address - (s.index + 1)) =
            omega (arith, ltb→lt s.index address q) in
          rw (q, e)
            (subst
              (λ (k : ℕ).
                fill put filler blocksize max_index fuel address (put filler s)
                ≡ ok (puts put (replicate (address - k) filler) (put filler s)))
              n (fill_lem fuel address (put filler s) (omega (arith, n))))
      | inr q ↦
          let e : address - s.index ≡ 0 = omega (arith, ltb→le s.index address q) in rw (q, e) refl
    ]

    -- The words of a line are written up to the bound.
    put_words_lem :
        (words : List Text) (s : Dump)
        → put_words put filler blocksize max_index words s
          ≡ puts put (take (max_index - s.index) words) s
    unfolding put_words
    put_words_lem [] s = rw (take_all {A = Text} (max_index - s.index) [] (omega arith)) refl
    put_words_lem (word ∷ words) s = elim (Bool-cases (ltb s.index max_index)) [
      | inl q ↦
          let n = counts word s in
          let e : max_index - s.index ≡ suc (max_index - (s.index + 1)) =
            omega (arith, ltb→lt s.index max_index q) in
          rw (q, e)
            (subst
              (λ (k : ℕ).
                put_words put filler blocksize max_index words (put word s)
                ≡ puts put (take (max_index - k) words) (put word s))
              n (put_words_lem words (put word s)))
      | inr q ↦
          let e : max_index - s.index ≡ 0 = omega (arith, ltb→le s.index max_index q) in
          rw (q, e) refl
    ]

    -- A round with a line writes the fillers up to its address, and its words up to the bound.
    line_round_lem :
        (e : Entry) (s : Dump)
        → IsEntry e
        → let filled = puts put (replicate (e.address - s.index) filler) s in
          line_round put filler blocksize max_index (tokenize (entry_line e) b' ') s
          ≡ ok (puts put (take (max_index - filled.index) (entry_words e)) filled)
    unfolding line_round
    line_round_lem e s h =
        rw (tokenize-entry_line e h, label_read e h, fill_lem e.address e.address s (omega arith))
          (ap ok (put_words_lem (entry_words e) _))

    dump_full :
        (fuel : ℕ) (es : List Entry) (s : Dump)
        → max_index ≤ s.index
        → dump put filler blocksize max_index fuel (entry_lines es) s ≡ ok s
    unfolding dump end_rounds
    dump_full zero [] s h = rw (le→ltb s.index max_index h) refl
    dump_full (suc fuel) [] s h = rw (le→ltb s.index max_index h) refl
    dump_full fuel (e ∷ es) s h = rw (le→ltb s.index max_index h) refl

    -- A round in which the bound is not reached yet.
    dump_next :
        (fuel : ℕ) (e : Entry) (es : List Entry) (s : Dump)
        → IsEntry e
        → s.index < max_index
        → let filled = puts put (replicate (e.address - s.index) filler) s in
          dump put filler blocksize max_index fuel (entry_lines (e ∷ es)) s
          ≡ dump put filler blocksize max_index fuel
              (entry_lines es)
              (puts put (take (max_index - filled.index) (entry_words e)) filled)
    unfolding dump
    dump_next fuel e es s h lt = rw (lt→ltb s.index max_index lt, line_round_lem e s h) refl

    -- Lines with fewer words than the bound are written whole, and the file ends.
    pub dump_short :
        (fuel : ℕ) (es : List Entry) (s : Dump)
        → All IsEntry es
        → s.index + length (image_words filler s.index es) < max_index
        → dump put filler blocksize max_index fuel (entry_lines es) s
          ≡ end_rounds put filler blocksize max_index fuel
              (puts put (image_words filler s.index es) s)
    dump_short fuel [] s _ b = unfold dump in refl
    dump_short fuel (e ∷ es) s (h, hs) b =
        let gap = replicate (e.address - s.index) filler in
        let filled = puts put gap s in
        let words = entry_words e in
        let next = puts put words filled in
        let later = image_words filler (s.index + (e.address - s.index) + length words) es in
        let i : filled.index ≡ s.index + (e.address - s.index) =
          omega (arith, puts-index gap s, length-replicate (e.address - s.index) filler) in
        let k : next.index ≡ s.index + (e.address - s.index) + length words =
          omega (arith, puts-index words filled, i) in
        let total : length (gap ++ (words ++ later))
            ≡ e.address - s.index + (length words + length later) =
          omega (
            arith,
            length-append gap (words ++ later),
            length-append words later,
            length-replicate (e.address - s.index) filler,
          ) in
        rw
          (
            dump_next fuel e es s h (omega arith),
            take_all (max_index - filled.index) words (omega (arith, i, total)),
            puts-append gap (words ++ later) s,
            puts-append words later filled,
            sym k,
          )
          (dump_short fuel es next hs (rw k (omega (arith, total))))

    -- The prefix of the words from a line on: its fillers, and as many of the other words as fit.
    prefix_split :
        (room gap : ℕ) (words later : List Text)
        → gap ≤ room
        → take room (replicate gap filler ++ (words ++ later))
          ≡ replicate gap filler ++ take (room - gap) (words ++ later)
    prefix_split room gap words later h =
        let n = length-replicate gap filler in
        take-append_long room (replicate gap filler) (words ++ later) (omega (arith, n))
        ∙ ap (λ (k : ℕ). replicate gap filler ++ take (room - k) (words ++ later)) n

    -- The words of a line behind its fillers either reach the bound or leave room for later lines.
    room_left :
        (fuel room : ℕ) (words later : List Text) (es : List Entry) (filled : Dump)
        → filled.index + room ≡ max_index
        → (length words ≤ room
            → let next = puts put words filled in
              dump put filler blocksize max_index fuel (entry_lines es) next
              ≡ ok (puts put (take (room - length words) later) next))
        → dump put filler blocksize max_index fuel
            (entry_lines es)
            (puts put (take room words) filled)
          ≡ ok (puts put (take room (words ++ later)) filled)
    room_left fuel room words later es filled r go = elim (Bool-cases (ltb room (length words))) [
      | inl cut ↦
          let c = ltb→lt room (length words) cut in
          let next = puts put (take room words) filled in
          let k : max_index ≤ next.index = omega (
            arith,
            puts-index (take room words) filled,
            length-take room words (omega (arith, c)),
          ) in
          rw (take-append_short room words later (omega (arith, c))) (dump_full fuel es next k)
      | inr whole ↦
          let c = ltb→le room (length words) whole in
          rw
            (
              take_all room words c,
              take-append_long room words later c,
              puts-append words (take (room - length words) later) filled,
            )
            (go c)
    ]

    -- Lines with as many words as the bound are written up to it.
    pub dump_long :
        (fuel : ℕ) (es : List Entry) (s : Dump)
        → All IsEntry es
        → max_index ≤ s.index + length (image_words filler s.index es)
        → All (λ (e : Entry). e.address ≤ max_index) es
        → dump put filler blocksize max_index fuel (entry_lines es) s
          ≡ ok (puts put (take (max_index - s.index) (image_words filler s.index es)) s)
    dump_long fuel [] s _ b _ =
        rw (take_all {A = Text} (max_index - s.index) [] (omega arith))
          (dump_full fuel [] s (omega arith))
    dump_long fuel (e ∷ es) s (h, hs) b (a, as') = elim (Bool-cases (ltb s.index max_index)) [
      | inl q ↦
          let lt = ltb→lt s.index max_index q in
          let room = max_index - s.index in
          let gap = e.address - s.index in
          let filled = puts put (replicate gap filler) s in
          let words = entry_words e in
          let next = puts put words filled in
          let later = image_words filler (s.index + gap + length words) es in
          let n = length-replicate gap filler in
          let i : filled.index ≡ s.index + gap =
            omega (arith, puts-index (replicate gap filler) s, n) in
          let r : max_index - filled.index ≡ room - gap = omega (arith, i) in
          let k : next.index ≡ s.index + gap + length words =
            omega (arith, puts-index words filled, i) in
          let total : max_index ≤ next.index + length later = omega (
            arith,
            k,
            length-append (replicate gap filler) (words ++ later),
            length-append words later,
            n,
          ) in
          let d : max_index - next.index ≡ room - gap - length words = omega (arith, k, i) in
          rw
            (
              dump_next fuel e es s h lt,
              prefix_split room gap words later (omega arith),
              puts-append (replicate gap filler) (take (room - gap) (words ++ later)) s,
              r,
            )
            (room_left fuel (room - gap) words later es filled (omega (arith, i))
              λ _. rw (sym d, sym k) (dump_long fuel es next hs (rw k (omega (arith, total))) as'))
      | inr q ↦
          let z : max_index - s.index ≡ 0 = omega (arith, ltb→le s.index max_index q) in
          rw z (dump_full fuel (e ∷ es) s (ltb→le s.index max_index q))
    ]
