-- ===== src/Tools/Numbers.antt =====
-- Numbers in texts: std::stoi, and what std::ostream prints of an unsigned number.
pub mod Printing
use lib_hsa.Base.{
  ℕ, zero, suc, ◌+◌, ◌-◌, ◌*◌, ◌/◌, ◌%◌, ◌^◌, Bool, true, false, ◌&&◌, ◌||◌, Option, none, some,
  ltb, leb, ◌==◌, if◌then◌else◌, length, refl, ◌≡◌, u32,
}
use mathlib.Core.List.{[], ◌∷◌, ◌++◌}
use lib_hsa.Tools.Text.{Text, codes, replicate}

-- `std::isspace` in the C locale.
abbrev pub is_space : ℕ → Bool
is_space c = c == b' ' || (leb 9 c && leb c 13)

abbrev pub is_digit : ℕ → Bool
is_digit c = leb b'0' c && leb c b'9'

-- The number that the digits at the front spell, after a number that is already read.
abbrev pub decimal : Text → ℕ → ℕ
decimal [] n = n
decimal (c ∷ s) n = let rest = decimal s (n * 10 + (c - b'0')) in if is_digit c then rest else n

-- The magnitude behind the sign; there is none without a digit.
abbrev magnitude : Text → Option ℕ
magnitude [] = none
magnitude (c ∷ s) = if is_digit c then some (decimal (c ∷ s) 0) else none

-- An `int` as its pattern of 32 bits; a number that does not fit raises an exception.
abbrev int_of : (is_negative : Bool) → Option ℕ → Option ℕ
int_of is_negative none = none
int_of true (some n) = if leb n (2 ^ 31) then some (u32 (2 ^ 32 - n)) else none
int_of false (some n) = if ltb n (2 ^ 31) then some n else none

abbrev signed : Text → Option ℕ
signed [] = none
signed (c ∷ s) =
    if c == b'-'
    then int_of true (magnitude s)
    else if c == b'+'
    then int_of false (magnitude s)
    else int_of false (magnitude (c ∷ s))

-- `std::stoi` to base 10: blanks, a sign, digits, and anything behind them; `none` is an exception.
abbrev pub stoi : Text → Option ℕ
stoi [] = none
stoi (c ∷ s) = let later = stoi s in if is_space c then later else signed (c ∷ s)

-- Whether digits stand behind blanks and a sign.
abbrev has_digit : Text → Bool
has_digit [] = false
has_digit (c ∷ s) = is_digit c

abbrev has_number : Text → Bool
has_number [] = false
has_number (c ∷ s) =
    let later = has_number s in
    if is_space c then later else if c == b'-' || c == b'+' then has_digit s else is_digit c

-- `std::atoi`: 0 for a text without digits; a number that does not fit is undefined.
abbrev pub atoi : Text → Option ℕ
atoi s = if has_number s then stoi s else some 0

-- The digit of a number below 16.
abbrev pub digit : ℕ → ℕ
digit d = if ltb d 10 then b'0' + d else b'a' + (d - 10)

-- The digits before those already made; a number below 2^fuel needs no more rounds.
abbrev pub digits : (base fuel : ℕ) → ℕ → Text → Text
digits base zero n out = out
digits base (suc fuel) n out =
    let longer = digits base fuel (n / base) (digit (n % base) ∷ out) in
    if n == 0 then out else longer

-- What `<<` prints of a number below 2^64 to the base 10 or 16.
unfoldable pub printed : (base : ℕ) → ℕ → Text
printed base n = if n == 0 then b'0' ∷ [] else digits base 64 n []

-- `width(w)` with the fill character 0.
unfoldable pub padded : (width : ℕ) → Text → Text
padded width s = replicate (width - length s) b'0' ++ s

stoi_runs :
    (stoi (codes " -12:") ≡ some (2 ^ 32 - 12))
    × (stoi (codes "0042") ≡ some 42)
    × (stoi (codes ":") ≡ none)
    × (stoi (codes "2147483648") ≡ none)
stoi_runs = (refl, refl, refl, refl)

printed_runs : (padded 8 (printed 16 48879) ≡ codes "0000beef") × (printed 10 1040 ≡ codes "1040")
unfolding printed padded
printed_runs = (refl, refl)
