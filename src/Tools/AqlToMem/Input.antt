-- ===== src/Tools/AqlToMem/Input.antt =====
-- The standard input of aql2mem, and what `std::cin >>` does with it: once a read has failed, every
-- later one fails too and leaves its variable alone.
use lib_hsa.Base.{ℕ, Bool, true, false, ltb, ◌==◌, if◌then◌else◌, Text, ◌-◌, ◌%◌, ◌^◌, ◌≡◌, refl}
use mathlib.Core.List.{List, [], ◌∷◌}
use lib_hsa.Tools.Numbers.{is_digit, decimal}

-- The words that are still to be read, or a stream that has failed.
pub data Input : Type 0 where
  ready : (words : List Text) → Input
  failed : Input

-- `std::cin >>` into a string that holds `old`.
unfoldable pub read_text : (old : Text) → Input → Text × Input
read_text old failed = (old, failed)
read_text old (ready []) = (old, failed)
read_text old (ready (s ∷ later)) = (s, ready later)

-- The integer types of the variables, a value being its pattern of bits.
pub record IntType : Type 0 where
  pub modulus : ℕ
  pub greatest : ℕ
  pub least_magnitude : ℕ
  pub too_small : ℕ

-- `uint32_t` and `uint64_t`: a minus sign wraps around, and the greatest value stands for all numbers
-- that do not fit.
abbrev pub uint : (bits : ℕ) → IntType
uint bits = record {
  modulus = 2 ^ bits;
  greatest = 2 ^ bits - 1;
  least_magnitude = 2 ^ bits - 1;
  too_small = 2 ^ bits - 1;
}

abbrev pub int32 : IntType
int32 = record {
  modulus = 2 ^ 32;
  greatest = 2 ^ 31 - 1;
  least_magnitude = 2 ^ 31;
  too_small = 2 ^ 31;
}

-- A value with the rest of the word, or the value that a failed conversion stores.
pub data Extracted : Type 0 where
  extracted : (value : ℕ) (rest : Text) → Extracted
  rejected : (value : ℕ) → Extracted

abbrev pub behind_digits : Text → Text
behind_digits [] = []
behind_digits (c ∷ s) = let rest = behind_digits s in if is_digit c then rest else c ∷ s

abbrev positive : IntType → ℕ → Text → Extracted
positive type n rest = if ltb type.greatest n then rejected type.greatest else extracted n rest

abbrev negative : IntType → ℕ → Text → Extracted
negative type n rest =
    if ltb type.least_magnitude n
    then rejected type.too_small
    else extracted ((type.modulus - n) % type.modulus) rest

-- The digits behind the sign; 0 is stored where there are none.
abbrev pub digits_of : (is_negative : Bool) → IntType → Text → Extracted
digits_of is_negative type [] = rejected 0
digits_of is_negative type (c ∷ s) =
    let n = decimal (c ∷ s) 0 in
    let rest = behind_digits (c ∷ s) in
    if is_digit c
    then if is_negative then negative type n rest else positive type n rest
    else rejected 0

abbrev pub extract : IntType → Text → Extracted
extract type [] = rejected 0
extract type (c ∷ s) =
    if c == b'-'
    then digits_of true type s
    else if c == b'+'
    then digits_of false type s
    else digits_of false type (c ∷ s)

-- What is left of a word is the next word.
abbrev pub left_over : Text → List Text → List Text
left_over [] later = later
left_over (c ∷ s) later = (c ∷ s) ∷ later

abbrev pub stored : Extracted → List Text → ℕ × Input
stored (extracted value rest) later = (value, ready (left_over rest later))
stored (rejected value) later = (value, failed)

-- `std::cin >>` into an integer variable that holds `old`.
unfoldable pub read_number : IntType → (old : ℕ) → Input → ℕ × Input
read_number type old failed = (old, failed)
read_number type old (ready []) = (old, failed)
read_number type old (ready (s ∷ later)) = stored (extract type s) later

abbrev both : ℕ × Input → ℕ × ℕ × Input
both (n, i) = let (m, later) = read_number (uint 32) 7 i in (n, m, later)

-- A number in front of letters, one that does not fit, and the end of the input.
read_number_runs :
    (both (read_number (uint 32) 1 (ready ((b'4' ∷ b'2' ∷ b'x' ∷ []) ∷ []))) ≡ (42, 0, failed))
    × (both (read_number int32 0 (ready ((b'-' ∷ b'1' ∷ []) ∷ []))) ≡ (2 ^ 32 - 1, 7, failed))
unfolding read_number
read_number_runs = (refl, refl)
