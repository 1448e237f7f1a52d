-- ===== src/Tools/Text.antt =====
-- Texts of the host tools as lists of character codes: the operations of std::string and the reading
-- of lines with std::getline.
use lib_hsa.Base.{
  ℕ, zero, suc, ◌-◌, ◌≡◌, ◌≢◌, refl, ap, arith, get_or, length, take, length-append, ◌∙◌,
  if◌then◌else◌, ◌==◌,
}
pub use lib_hsa.Base.{Text, codes, same_text}
use mathlib.Core.List.{List, [], ◌∷◌, ◌++◌}

module _ {ℓ} {A : Type ℓ} where
  abbrev pub drop : ℕ → List A → List A
  drop zero xs = xs
  drop (suc n) [] = []
  drop (suc n) (x ∷ xs) = drop n xs

  abbrev pub replicate : ℕ → A → List A
  replicate zero x = []
  replicate (suc n) x = x ∷ replicate n x

  pub drop-append : (xs ys : List A) → drop (length xs) (xs ++ ys) ≡ ys
  drop-append [] ys = refl
  drop-append (x ∷ xs) ys = drop-append xs ys

  pub take-append : (xs ys : List A) → take (length xs) (xs ++ ys) ≡ xs
  take-append [] ys = refl
  take-append (x ∷ xs) ys = ap (λ l. x ∷ l) (take-append xs ys)

  -- The last element of a list that ends with a list that is not empty.
  pub last-append :
      (xs : List A) (y : A) (ys : List A) (d : A)
      → get_or (xs ++ y ∷ ys) (length (xs ++ y ∷ ys) - 1) d ≡ get_or (y ∷ ys) (length ys) d
  last-append [] y ys d =
      let e : suc (length ys) - 1 ≡ length ys = omega arith in ap (λ (n : ℕ). get_or (y ∷ ys) n d) e
  last-append (x ∷ xs) y ys d =
      let n = length (xs ++ y ∷ ys) in
      let e : suc n - 1 ≡ suc (n - 1) = omega (arith, length-append xs (y ∷ ys)) in
      ap (λ (k : ℕ). get_or (x ∷ (xs ++ y ∷ ys)) k d) e ∙ last-append xs y ys d

-- `s.substr(from, count)` for a position in the text.
abbrev pub substr : Text → (from count : ℕ) → Text
substr s from count = take count (drop from s)

abbrev pub All {ℓ κ} : {A : Type ℓ} (P : A → Type κ) → List A → Type κ
All P [] = Unit
All P (x ∷ xs) = P x × All P xs

pub All-last {ℓ κ} :
    {A : Type ℓ} (P : A → Type κ) (x : A) (xs : List A) (d : A)
    → All P (x ∷ xs)
    → P (get_or (x ∷ xs) (length xs) d)
All-last P x [] d (h, _) = h
All-last P x (y ∷ ys) d (_, h) = All-last P y ys d h

-- No character of the text is the separator.
abbrev pub Lacks : ℕ → Text → Type 0
Lacks sep = All (λ c. c ≢ sep)

-- The lines that end with a newline, in order: what `while(!file.eof())` reads with std::getline
-- when it stops at the line that ends with the file.
abbrev pub read_lines : Text → Text → List Text
read_lines cur [] = []
read_lines cur (c ∷ s) =
    let at_end = read_lines [] s in
    let longer = read_lines (cur ++ c ∷ []) s in if c == b'\n' then cur ∷ at_end else longer

abbrev pub lines_of : Text → List Text
lines_of = read_lines []

pub All-append {ℓ κ} :
    {A : Type ℓ} (P : A → Type κ) (xs ys : List A) → All P xs → All P ys → All P (xs ++ ys)
All-append P [] ys _ h = h
All-append P (x ∷ xs) ys (px, hx) h = (px, All-append P xs ys hx h)
