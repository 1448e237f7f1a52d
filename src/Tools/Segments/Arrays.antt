-- ===== src/Tools/Segments/Arrays.antt =====
-- What vsim2cmd writes for a memory image whose lines hold an address and words.
use lib_hsa.Base.{
  ℕ, zero, suc, ◌+◌, ◌-◌, ◌*◌, ◌≤◌, ◌<◌, length, refl, ◌≡◌, arith, ap, sym, ◌∙◌, length-append,
  take, ltb, lt→ltb, le→ltb, Bool-cases, inl, inr, ltb→lt, ltb→le,
}
use mathlib.Core.List.{List, [], ◌∷◌, ◌++◌}
use lib_hsa.Tools.Text.{Text, All, replicate, codes}
use lib_hsa.Tools.Result.{ok, fail, out_of_fuel}
use lib_hsa.Tools.Image.{Entry, entry_lines, IsEntry, image_words, length-replicate}
use lib_hsa.Tools.Segments.Dump.{
  Dump, end_rounds, put_two, put_four, dump_two, dump_four, dump_start,
}
use lib_hsa.Tools.Segments.Words.{puts, puts-index, puts-append, dump_short, dump_long, fill_lem}
use lib_hsa.Tools.Prefix.{length-take, take-append_short, take-append_long}
use lib_hsa.Tools.Segments.Rows.{
  array_rows, paired, put_two-index, put_four-index, puts_two, puts_four,
}

take-replicate : (n m : ℕ) (t : Text) → n ≤ m → take n (replicate m t) ≡ replicate n t
take-replicate zero m t h = refl
take-replicate (suc n) zero t h = absurd (omega arith)
take-replicate (suc n) (suc m) t h =
    ap (λ (l : List Text). t ∷ l) (take-replicate n m t (omega arith))

-- A memory of `size` words: those of the image, then zeros.
abbrev pub memory_words : (zeros : Text) → (size : ℕ) → List Entry → List Text
memory_words zeros size es = take size (image_words zeros 0 es ++ replicate size zeros)

pub length-memory_words :
    (zeros : Text) (size : ℕ) (es : List Entry) → length (memory_words zeros size es) ≡ size
length-memory_words zeros size es =
    length-take size (image_words zeros 0 es ++ replicate size zeros) (
      omega (
        arith,
        length-append (image_words zeros 0 es) (replicate size zeros),
        length-replicate size zeros,
      ))

abbrev pub zeros_two : Text
zeros_two = codes "0000000000000000"

abbrev pub zeros_four : Text
zeros_four = codes "00000000"

module _ (blocksize : ℕ) where
  end_rounds_full :
      (fuel : ℕ) (s : Dump)
      → blocksize ≤ s.index
      → end_rounds (put_two blocksize) zeros_two blocksize blocksize fuel s ≡ ok s
  unfolding end_rounds
  end_rounds_full zero s h = rw (le→ltb s.index blocksize h) refl
  end_rounds_full (suc fuel) s h = rw (le→ltb s.index blocksize h) refl

  -- One round after the end of the file fills the array.
  end_rounds_two :
      (fuel : ℕ) (s : Dump)
      → s.index < blocksize
      → end_rounds (put_two blocksize) zeros_two blocksize blocksize (suc fuel) s
        ≡ ok (puts (put_two blocksize) (replicate (blocksize - s.index) zeros_two) s)
  unfolding end_rounds
  end_rounds_two fuel s h =
      let s' = puts (put_two blocksize) (replicate (blocksize - s.index) zeros_two) s in
      let i : blocksize ≤ s'.index = omega (
        arith,
        puts-index (put_two blocksize) (put_two-index blocksize)
            (replicate (blocksize - s.index) zeros_two) s,
        length-replicate (blocksize - s.index) zeros_two,
      ) in
      rw
        (
          lt→ltb s.index blocksize h,
          fill_lem (put_two blocksize) (put_two-index blocksize) zeros_two blocksize blocksize
              blocksize blocksize s (omega arith),
        )
        (end_rounds_full fuel s' i)

  dump_two-puts :
      (fuel : ℕ) (es : List Entry) (out : Text)
      → All IsEntry es
      → All (λ (e : Entry). e.address ≤ blocksize) es
      → dump_two (suc fuel) blocksize (entry_lines es) out
        ≡ ok (puts (put_two blocksize) (memory_words zeros_two blocksize es) (dump_start out))
  unfolding dump_two
  dump_two-puts fuel es out h a =
      let words = image_words zeros_two 0 es in
      let first = dump_start out in
      elim (Bool-cases (ltb (length words) blocksize)) [
        | inl q ↦
            let lt = ltb→lt (length words) blocksize q in
            let s = puts (put_two blocksize) words first in
            let i : s.index ≡ length words =
              omega (arith, puts-index (put_two blocksize) (put_two-index blocksize) words first) in
            let rest = replicate (blocksize - length words) zeros_two in
            let m : memory_words zeros_two blocksize es ≡ words ++ rest =
              take-append_long blocksize words (replicate blocksize zeros_two) (omega (arith, lt))
              ∙ ap (λ (l : List Text). words ++ l)
                  (take-replicate (blocksize - length words) blocksize zeros_two (omega arith)) in
            rw
              (m, puts-append (put_two blocksize) (put_two-index blocksize) words rest first, sym i)
              (dump_short (put_two blocksize) (put_two-index blocksize) zeros_two blocksize
                  blocksize (suc fuel) es first h (omega (arith, lt))
                ∙ end_rounds_two fuel s (omega (arith, i, lt)))
        | inr q ↦
            let le = ltb→le (length words) blocksize q in
            let z : blocksize - 0 ≡ blocksize = omega arith in
            rw (take-append_short blocksize words (replicate blocksize zeros_two) le) (
              dump_long (put_two blocksize) (put_two-index blocksize) zeros_two blocksize blocksize
                (suc fuel) es first h (omega (arith, le)) a
              ∙ ap (λ (k : ℕ). ok (puts (put_two blocksize) (take k words) first)) z)
      ]

-- For an image of two words a line, with no address behind the array, one round after the end of
-- the file is enough: the array has `blocksize` entries, which are the words of the memory, with
-- zeros where the image gives none.
pub dump_two_lem :
    (fuel blocksize : ℕ) (es : List Entry) (out : Text)
    → All IsEntry es
    → All (λ (e : Entry). e.address ≤ blocksize) es
    → let words = memory_words zeros_two blocksize es in
      (length words ≡ blocksize)
      × ((s : Dump) × ((dump_two (suc fuel) blocksize (entry_lines es) out ≡ ok s)
            × (s.out ≡ out ++ array_rows words)))
dump_two_lem fuel blocksize es out h a =
    let words = memory_words zeros_two blocksize es in
    let n = length-memory_words zeros_two blocksize es in
    (
      n,
      (
        puts (put_two blocksize) words (dump_start out),
        (
          dump_two-puts blocksize fuel es out h a,
          puts_two blocksize words (dump_start out) refl (omega (arith, n)),
        ),
      ),
    )

length-paired : (n : ℕ) (words : List Text) → length words ≡ n * 2 → length (paired words) ≡ n
length-paired zero [] h = refl
length-paired zero (a ∷ words) h = absurd (omega arith)
length-paired (suc n) [] h = absurd (omega arith)
length-paired (suc n) (a ∷ []) h = absurd (omega arith)
length-paired (suc n) (a ∷ b ∷ words) h = ap suc (length-paired n words (omega arith))

-- The rounds after the end of the file fill half of the array and then change nothing.
end_rounds_endless :
    (blocksize fuel : ℕ) (s : Dump)
    → s.index < blocksize * 2
    → end_rounds (put_four (blocksize * 2)) zeros_four blocksize (blocksize * 2) fuel s
      ≡ fail out_of_fuel
unfolding end_rounds
end_rounds_endless blocksize zero s h = rw (lt→ltb s.index (blocksize * 2) h) refl
end_rounds_endless blocksize (suc fuel) s h =
    let put = put_four (blocksize * 2) in
    let gap = blocksize - s.index in
    let s' = puts put (replicate gap zeros_four) s in
    let i : s'.index ≡ s.index + gap = omega (
      arith,
      puts-index put (put_four-index (blocksize * 2)) (replicate gap zeros_four) s,
      length-replicate gap zeros_four,
    ) in
    rw
      (
        lt→ltb s.index (blocksize * 2) h,
        fill_lem put (put_four-index (blocksize * 2)) zeros_four blocksize (blocksize * 2) blocksize
            blocksize s (omega arith),
      )
      (end_rounds_endless blocksize fuel s' (omega (arith, i)))

-- For an image of four words a line that gives all the words, with no address behind them, the
-- array has `blocksize` entries, each a word behind the one that follows it in the image.
pub dump_four_lem :
    (fuel blocksize : ℕ) (es : List Entry) (out : Text)
    → All IsEntry es
    → All (λ (e : Entry). e.address ≤ blocksize * 2) es
    → blocksize * 2 ≤ length (image_words zeros_four 0 es)
    → let words = take (blocksize * 2) (image_words zeros_four 0 es) in
      (length (paired words) ≡ blocksize)
      × ((s : Dump) × ((dump_four fuel blocksize (entry_lines es) out ≡ ok s)
            × (s.out ≡ out ++ array_rows (paired words))))
unfolding dump_four
dump_four_lem fuel blocksize es out h a b =
    let size = blocksize * 2 in
    let words = take size (image_words zeros_four 0 es) in
    let n : length words ≡ size = length-take size (image_words zeros_four 0 es) b in
    let z : size - 0 ≡ size = omega arith in
    let first = dump_start out in
    let e : dump_four fuel blocksize (entry_lines es) out ≡ ok (puts (put_four size) words first) =
      dump_long (put_four size) (put_four-index size) zeros_four blocksize size fuel es first h
        (omega (arith, b)) a
      ∙ ap (λ (k : ℕ). ok (puts (put_four size) (take k (image_words zeros_four 0 es)) first)) z in
    (
      length-paired blocksize words n,
      (
        puts (put_four size) words first,
        (e, puts_four size words first refl (omega (arith, n)) (omega (arith, n))),
      ),
    )

-- For an image of four words a line with fewer words than the array holds, the tool never ends:
-- no number of rounds after the end of the file is enough.
pub dump_four_endless :
    (fuel blocksize : ℕ) (es : List Entry) (out : Text)
    → All IsEntry es
    → length (image_words zeros_four 0 es) < blocksize * 2
    → dump_four fuel blocksize (entry_lines es) out ≡ fail out_of_fuel
unfolding dump_four
dump_four_endless fuel blocksize es out h b =
    let size = blocksize * 2 in
    let words = image_words zeros_four 0 es in
    let first = dump_start out in
    dump_short (put_four size) (put_four-index size) zeros_four blocksize size fuel es first h
      (omega (arith, b))
    ∙ end_rounds_endless blocksize fuel (puts (put_four size) words first)
        (omega (arith, puts-index (put_four size) (put_four-index size) words first, b))
