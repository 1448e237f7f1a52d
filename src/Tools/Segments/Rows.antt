-- ===== src/Tools/Segments/Rows.antt =====
-- The arrays that vsim2cmd writes, entry by entry.
use lib_hsa.Base.{
  ℕ, ◌+◌, ◌-◌, ◌%◌, ◌≤◌, ◌==◌, if◌then◌else◌, length, refl, ◌≡◌, arith, ap, sym, ◌∙◌, bit_and_mask,
  eq→==, ne→==, Bool, true, false,
}
use mathlib.Core.List.{List, [], ◌∷◌, ◌++◌, append_assoc, append-nil}
use lib_hsa.Tools.Text.{Text, codes}
use lib_hsa.Tools.Segments.Dump.{Dump, put_two, put_four}
use lib_hsa.Tools.Segments.Words.{puts, puts-index}
use mathlib.Core.Bool.{true, false}

-- The entries of an array, two on a line, with a comma behind each but the last.
abbrev pub array_rows : List Text → Text
array_rows [] = []
array_rows (a ∷ []) = codes "0x" ++ a
array_rows (a ∷ b ∷ []) = codes "0x" ++ (a ++ (codes ", 0x" ++ (b ++ codes "\n    ")))
array_rows (a ∷ b ∷ c ∷ words) =
    codes "0x" ++ (a ++ (codes ", 0x" ++ (b ++ (codes ", \n    " ++ array_rows (c ∷ words)))))

-- Each second word in front of the one before it.
abbrev pub paired : List Text → List Text
paired [] = []
paired (a ∷ []) = []
paired (a ∷ b ∷ words) = (b ++ a) ∷ paired words

pub put_two-index :
    (max_index : ℕ) (word : Text) (s : Dump) → (put_two max_index word s).index ≡ s.index + 1
unfolding put_two
put_two-index max_index word s = refl

pub put_four-index :
    (max_index : ℕ) (word : Text) (s : Dump) → (put_four max_index word s).index ≡ s.index + 1
unfolding put_four
put_four-index max_index word s = refl

abbrev comma : (is_last : Bool) → Text
comma true = []
comma false = codes ", "

abbrev line_end : (ends_line : Bool) → Text
line_end true = codes "\n    "
line_end false = []

-- What is written for a word.
abbrev entry_text : (is_last ends_line : Bool) → Text → Text
entry_text is_last ends_line word = codes "0x" ++ (word ++ (comma is_last ++ line_end ends_line))

append_entry :
    (is_last ends_line : Bool) (word out : Text)
    → (((out ++ codes "0x") ++ word) ++ (if is_last then [] else codes ", "))
        ++ (if ends_line then codes "\n    " else [])
      ≡ out ++ entry_text is_last ends_line word
append_entry true true word out = simp append_assoc
append_entry true false word out = simp append_assoc
append_entry false true word out = simp append_assoc
append_entry false false word out = simp append_assoc

module _ (max_index : ℕ) where
  put_two-out :
      (word : Text) (s : Dump) (l b : Bool)
      → (s.index == max_index - 1) ≡ l
      → (s.index % 2 == 1) ≡ b
      → (put_two max_index word s).out ≡ s.out ++ entry_text l b word
  unfolding put_two
  put_two-out word s l b hl hb = rw (bit_and_mask 1 s.index, hl, hb) (append_entry l b word s.out)

  -- Two words, of which the second may be the last.
  pair_two :
      (a b : Text) (s : Dump) (l : Bool)
      → s.index % 2 ≡ 0
      → s.index + 2 ≤ max_index
      → (s.index + 1 == max_index - 1) ≡ l
      → (put_two max_index b (put_two max_index a s)).out
        ≡ s.out ++ (codes "0x" ++ (a ++ (codes ", 0x" ++ (b ++ (comma l ++ codes "\n    ")))))
  pair_two a b s l e h hl =
      let s' = put_two max_index a s in
      let i : s'.index ≡ s.index + 1 = put_two-index max_index a s in
      put_two-out b s' l true (rw i hl) (rw i (eq→== ((s.index + 1) % 2) 1 (omega arith)))
      ∙ ap (λ (t : Text). t ++ entry_text l true b)
          (put_two-out a s false false (ne→== s.index (max_index - 1) (omega arith))
            (ne→== (s.index % 2) 1 (omega arith)))
      ∙ simp append_assoc

  pub puts_two :
      (words : List Text) (s : Dump)
      → s.index % 2 ≡ 0
      → s.index + length words ≡ max_index
      → (puts (put_two max_index) words s).out ≡ s.out ++ array_rows words
  puts_two [] s e h = sym (append-nil s.out)
  puts_two (a ∷ []) s e h =
      put_two-out a s true false (eq→== s.index (max_index - 1) (omega arith))
        (ne→== (s.index % 2) 1 (omega arith))
      ∙ simp append-nil
  puts_two (a ∷ b ∷ []) s e h =
      pair_two a b s true e (omega arith) (eq→== (s.index + 1) (max_index - 1) (omega arith))
  puts_two (a ∷ b ∷ c ∷ words) s e h =
      let s' = put_two max_index b (put_two max_index a s) in
      let i : s'.index ≡ s.index + 2 =
        omega
          (arith, put_two-index max_index a s, put_two-index max_index b (put_two max_index a s)) in
      puts_two (c ∷ words) s' (omega (arith, i)) (omega (arith, i))
      ∙ ap (λ (t : Text). t ++ array_rows (c ∷ words))
          (pair_two a b s false e (omega arith) (ne→== (s.index + 1) (max_index - 1) (omega arith)))
      ∙ simp append_assoc

  put_four-first :
      (word : Text) (s : Dump)
      → s.index % 2 ≡ 0
      → ((put_four max_index word s).out ≡ s.out) × ((put_four max_index word s).last_value ≡ word)
  unfolding put_four
  put_four-first word s e =
      let n : (s.index % 2 == 1) ≡ false = ne→== (s.index % 2) 1 (omega arith) in
      let m : (s.index % 4 == 3) ≡ false = ne→== (s.index % 4) 3 (omega arith) in
      rw (bit_and_mask 1 s.index, bit_and_mask 2 s.index, n, m) (append-nil s.out, refl)

  put_four-second :
      (word : Text) (s : Dump) (l b : Bool)
      → s.index % 2 ≡ 1
      → (s.index == max_index - 1) ≡ l
      → (s.index % 4 == 3) ≡ b
      → (put_four max_index word s).out ≡ s.out ++ entry_text l b (word ++ s.last_value)
  unfolding put_four
  put_four-second word s l b e hl hb =
      let n : (s.index % 2 == 1) ≡ true = eq→== (s.index % 2) 1 e in
      rw (bit_and_mask 1 s.index, bit_and_mask 2 s.index, n, hl, hb)
        (append_entry l b (word ++ s.last_value) s.out)

  -- Two words make an entry.
  pair_four :
      (a b : Text) (s : Dump) (l n : Bool)
      → s.index % 2 ≡ 0
      → (s.index + 1 == max_index - 1) ≡ l
      → ((s.index + 1) % 4 == 3) ≡ n
      → (put_four max_index b (put_four max_index a s)).out ≡ s.out ++ entry_text l n (b ++ a)
  pair_four a b s l n e hl hn =
      let s' = put_four max_index a s in
      let i : s'.index ≡ s.index + 1 = put_four-index max_index a s in
      let (o, v) = put_four-first a s e in
      put_four-second b s' l n (omega (arith, i)) (rw i hl) (rw i hn) ∙ rw (o, v) refl

  -- Four words make two entries, the second at the end of a line.
  quad_four :
      (a b c d : Text) (s : Dump) (l : Bool)
      → s.index % 4 ≡ 0
      → s.index + 4 ≤ max_index
      → (s.index + 3 == max_index - 1) ≡ l
      → (puts (put_four max_index) (a ∷ b ∷ c ∷ d ∷ []) s).out
        ≡ s.out
          ++ (codes "0x"
              ++ ((b ++ a) ++ (codes ", 0x" ++ ((d ++ c) ++ (comma l ++ codes "\n    ")))))
  quad_four a b c d s l e h hl =
      let s' = puts (put_four max_index) (a ∷ b ∷ []) s in
      let i : s'.index ≡ s.index + 2 =
        puts-index (put_four max_index) (put_four-index max_index) (a ∷ b ∷ []) s in
      let j : s'.index + 1 ≡ s.index + 3 = omega (arith, i) in
      pair_four c d s' l true (omega (arith, i)) (rw j hl)
        (rw j (eq→== ((s.index + 3) % 4) 3 (omega arith)))
      ∙ ap (λ (t : Text). t ++ entry_text l true (d ++ c))
          (pair_four a b s false false (omega arith)
            (ne→== (s.index + 1) (max_index - 1) (omega arith))
            (ne→== ((s.index + 1) % 4) 3 (omega arith)))
      ∙ simp append_assoc

  pub puts_four :
      (words : List Text) (s : Dump)
      → s.index % 4 ≡ 0
      → length words % 2 ≡ 0
      → s.index + length words ≡ max_index
      → (puts (put_four max_index) words s).out ≡ s.out ++ array_rows (paired words)
  puts_four [] s e even h = sym (append-nil s.out)
  puts_four (a ∷ []) s e even h = absurd (omega arith)
  puts_four (a ∷ b ∷ []) s e even h =
      pair_four a b s true false (omega arith) (eq→== (s.index + 1) (max_index - 1) (omega arith))
        (ne→== ((s.index + 1) % 4) 3 (omega arith))
      ∙ simp append-nil
  puts_four (a ∷ b ∷ c ∷ []) s e even h = absurd (omega arith)
  puts_four (a ∷ b ∷ c ∷ d ∷ []) s e even h =
      quad_four a b c d s true e (omega arith) (eq→== (s.index + 3) (max_index - 1) (omega arith))
  puts_four (a ∷ b ∷ c ∷ d ∷ f ∷ []) s e even h = absurd (omega arith)
  puts_four (a ∷ b ∷ c ∷ d ∷ f ∷ g ∷ words) s e even h =
      let s' = puts (put_four max_index) (a ∷ b ∷ c ∷ d ∷ []) s in
      let i : s'.index ≡ s.index + 4 =
        puts-index (put_four max_index) (put_four-index max_index) (a ∷ b ∷ c ∷ d ∷ []) s in
      puts_four (f ∷ g ∷ words) s' (omega (arith, i)) (omega arith) (omega (arith, i))
      ∙ ap (λ (t : Text). t ++ array_rows (paired (f ∷ g ∷ words)))
          (quad_four a b c d s false e (omega arith)
            (ne→== (s.index + 3) (max_index - 1) (omega arith)))
      ∙ simp append_assoc
