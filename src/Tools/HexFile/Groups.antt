-- ===== src/Tools/HexFile/Groups.antt =====
-- The words that mti2hex pushes, group by group: each group is on a line, its last word first.
use lib_hsa.Base.{
  ℕ, suc, ◌+◌, ◌*◌, ◌/◌, ◌%◌, ◌^◌, ◌<◌, length, refl, ◌≡◌, ◌≢◌, u32, bit_and-zero, arith, sym, ap,
  ◌∙◌, ne→==, length-append, false,
}
use mathlib.Core.Path.{subst}
use mathlib.Core.List.{List, [], ◌∷◌, ◌++◌, reverse, reverse_aux, append_assoc}
use native.Mathlib.Nat.{div-add-mod, mul-add-mod_self_left, mod-eq_of_lt, mod_self}
use lib_hsa.Tools.Text.{Text, All}
use lib_hsa.Tools.HexFile.{Hex, popped, pop_all, pops_early, push_word, push_words}

pops_early_never : (index : ℕ) → pops_early index ≡ false
pops_early_never index = rw (bit_and-zero index) refl

-- The next number is one more modulo a number, or begins a new round.
mod_next : (n m r : ℕ) → n % m ≡ r → suc r < m → (n + 1) % m ≡ suc r
mod_next n m r e h =
    let s : n + 1 ≡ m * (n / m) + suc r = omega (arith, div-add-mod n m) in
    rw s (rw (mul-add-mod_self_left m (n / m) (suc r)) (mod-eq_of_lt h))

mod_wrap : (n m r : ℕ) → n % m ≡ r → suc r ≡ m → (n + 1) % m ≡ 0
mod_wrap n m r e h =
    let s : n + 1 ≡ m * (n / m) + m = omega (arith, div-add-mod n m) in
    rw s (rw (mul-add-mod_self_left m (n / m) m) (mod_self m))

mod_period : (n m : ℕ) → n % m ≡ 0 → (n + m) % m ≡ 0
mod_period n m e =
    let s : n + m ≡ m * (n / m) + m = omega (arith, div-add-mod n m) in
    rw s (rw (mul-add-mod_self_left m (n / m) m) (mod_self m))

abbrev hex : List Text → ℕ → Text → Hex
hex words n text = record { stack = words; index = n; out = text }

module _ (ratio : ℕ) where
  push_word_inside :
      (word : Text) (s : Hex)
      → s.index + 1 < 2 ^ 32
      → (s.index + 1) % ratio ≢ 0
      → push_word ratio word s ≡ record { stack = word ∷ s.stack; index = s.index + 1; out = s.out }
  unfolding push_word
  push_word_inside word s h n =
      rw (pops_early_never (u32 (s.index + 1)), mod-eq_of_lt h, ne→== ((s.index + 1) % ratio) 0 n)
        refl

  push_word_last :
      (word : Text) (s : Hex)
      → s.index + 1 < 2 ^ 32
      → (s.index + 1) % ratio ≡ 0
      → push_word ratio word s ≡ record {
        stack = [];
        index = s.index + 1;
        out = (s.out ++ popped (word ∷ s.stack)) ++ b'\n' ∷ [];
      }
  unfolding push_word
  push_word_last word s h e = rw (pops_early_never (u32 (s.index + 1)), mod-eq_of_lt h, e) refl

  pub push_word-index : (word : Text) (s : Hex) → (push_word ratio word s).index ≡ u32 (s.index + 1)
  unfolding push_word
  push_word-index word s = rw (pops_early_never (u32 (s.index + 1))) (ground arith)

  pub push_words-index :
      (words : List Text) (s : Hex)
      → s.index + length words < 2 ^ 32
      → (push_words ratio words s).index ≡ s.index + length words
  unfolding push_words
  push_words-index [] s h = omega arith
  push_words-index (word ∷ words) s h =
      let n : (push_word ratio word s).index ≡ s.index + 1 =
        push_word-index word s ∙ mod-eq_of_lt (omega arith) in
      omega (arith, n, push_words-index words (push_word ratio word s) (omega (arith, n)))

  -- Words that do not fill a group stay on the stack.
  push_words_open :
      (words : List Text) (s : Hex)
      → s.index % ratio + length words < ratio
      → s.index + length words < 2 ^ 32
      → push_words ratio words s
        ≡ record { stack = reverse_aux words s.stack; index = s.index + length words; out = s.out }
  unfolding push_words
  push_words_open [] s h b =
      let e : s.index ≡ s.index + 0 = omega arith in ap (λ (n : ℕ). hex s.stack n s.out) e
  push_words_open (word ∷ words) s h b =
      let e : (s.index + 1) % ratio ≡ suc (s.index % ratio) =
        mod_next s.index ratio (s.index % ratio) refl (omega arith) in
      let s' : Hex = record { stack = word ∷ s.stack; index = s.index + 1; out = s.out } in
      let n : s.index + 1 + length words ≡ s.index + suc (length words) = omega arith in
      rw (push_word_inside word s (omega arith) (omega (arith, e))) (
        push_words_open words s' (omega (arith, e)) (omega arith)
        ∙ ap (λ (n : ℕ). hex (reverse_aux words (word ∷ s.stack)) n s.out) n)

  -- Words that fill the group are written.
  push_words_group :
      (word : Text) (words : List Text) (s : Hex)
      → s.index % ratio + suc (length words) ≡ ratio
      → s.index + suc (length words) < 2 ^ 32
      → push_words ratio (word ∷ words) s ≡ record {
        stack = [];
        index = s.index + suc (length words);
        out = (s.out ++ popped (reverse_aux (word ∷ words) s.stack)) ++ b'\n' ∷ [];
      }
  unfolding push_words
  push_words_group word [] s h b =
      rw
        (push_word_last word s (omega arith)
          (mod_wrap s.index ratio (s.index % ratio) refl (omega arith)))
        refl
  push_words_group word (word' ∷ words) s h b =
      let e : (s.index + 1) % ratio ≡ suc (s.index % ratio) =
        mod_next s.index ratio (s.index % ratio) refl (omega arith) in
      let s' : Hex = record { stack = word ∷ s.stack; index = s.index + 1; out = s.out } in
      let n : s.index + 1 + suc (length words) ≡ s.index + suc (suc (length words)) = omega arith in
      rw (push_word_inside word s (omega arith) (omega (arith, e))) (
        push_words_group word' words s' (omega (arith, e)) (omega arith)
        ∙ ap
            (λ (n : ℕ).
              hex [] n
                ((s.out ++ popped (reverse_aux words (word' ∷ word ∷ s.stack))) ++ b'\n' ∷ []))
            n)

  pub push_words-append :
      (xs ys : List Text) (s : Hex)
      → push_words ratio (xs ++ ys) s ≡ push_words ratio ys (push_words ratio xs s)
  unfolding push_words
  push_words-append [] ys s = refl
  push_words-append (x ∷ xs) ys s = push_words-append xs ys (push_word ratio x s)

-- The words in the order of the image: those of the groups, then the rest.
abbrev pub in_order : List (List Text) → List Text → List Text
in_order [] rest = rest
in_order (group ∷ groups) rest = group ++ in_order groups rest

-- The hex file: each group on a line from its last word to its first, and the rest likewise on a
-- line that does not end.
abbrev pub hex_text : List (List Text) → List Text → Text
hex_text [] rest = popped (reverse rest)
hex_text (group ∷ groups) rest = popped (reverse group) ++ b'\n' ∷ hex_text groups rest

pub push_words-hex_text :
    (ratio : ℕ) (groups : List (List Text)) (rest : List Text) (s : Hex)
    → All (λ (group : List Text). length group ≡ ratio) groups
    → length rest < ratio
    → s.stack ≡ []
    → s.index % ratio ≡ 0
    → s.index + length (in_order groups rest) < 2 ^ 32
    → (pop_all (push_words ratio (in_order groups rest) s)).out ≡ s.out ++ hex_text groups rest
push_words-hex_text ratio [] rest s _ h st e b =
    rw (push_words_open ratio rest s (omega (arith, e)) b, st) refl
push_words-hex_text ratio ([] ∷ groups) rest s (hg, _) h st e b = absurd (omega arith)
push_words-hex_text ratio ((word ∷ words) ∷ groups) rest s (hg, hs) h st e b =
    let n : s.index + suc (length words) + length (in_order groups rest) < 2 ^ 32 =
      omega (arith, length-append words (in_order groups rest)) in
    let m : (s.index + suc (length words)) % ratio ≡ 0 =
      subst (λ (k : ℕ). (s.index + k) % ratio ≡ 0) (sym hg) (mod_period s.index ratio e) in
    let text = (s.out ++ popped (reverse (word ∷ words))) ++ b'\n' ∷ [] in
    rw
      (
        push_words-append ratio (word ∷ words) (in_order groups rest) s,
        push_words_group ratio word words s (omega (arith, e)) (omega arith),
        st,
      )
      (push_words-hex_text ratio groups rest (hex [] (s.index + suc (length words)) text) hs h refl
          m n
        ∙ append_assoc (s.out ++ popped (reverse (word ∷ words))) (b'\n' ∷ [])
            (hex_text groups rest)
        ∙ append_assoc s.out (popped (reverse (word ∷ words))) (b'\n' ∷ hex_text groups rest))
