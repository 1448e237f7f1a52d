-- ===== src/Tools/Numbers/Printing.antt =====
-- Printed numbers are read back: to the base 10 by std::stoi, to the base 16 by their value.
use lib_hsa.Base.{
  ℕ, zero, suc, ◌+◌, ◌-◌, ◌*◌, ◌/◌, ◌%◌, ◌^◌, ◌≤◌, ◌<◌, ◌==◌, ◌≡◌, ◌≢◌, refl, arith, if◌then◌else◌,
  Text, ltb, Bool-cases, inl, inr, ==→eq, ◌∙◌, some, length, ap, sym, Bool, ne→==, lt→ltb,
}
use mathlib.Core.List.{[], ◌∷◌, ◌++◌, cons-ne-nil}
use native.Mathlib.Nat.{pow-suc}
use lib_hsa.Tools.Text.{All, Lacks, replicate}
use lib_hsa.Tools.Numbers.{stoi, is_space, is_digit, decimal, digit, digits, printed, padded}
use mathlib.Core.Bool.{true, false}

-- The digits from the left, after a number that is already read.
abbrev pub hex_digit_value : ℕ → ℕ
hex_digit_value c = if ltb c b'a' then c - b'0' else c - b'a' + 10

abbrev pub hexadecimal : Text → ℕ → ℕ
hexadecimal [] n = n
hexadecimal (c ∷ s) n = hexadecimal s (n * 16 + hex_digit_value c)

-- What a hexadecimal text stands for.
abbrev pub hex_value : Text → ℕ
hex_value s = hexadecimal s 0

decimal-digits :
    (fuel n : ℕ) (out : Text) → n < 2 ^ fuel → decimal (digits 10 fuel n out) 0 ≡ decimal out n
decimal-digits zero n out h = ap (decimal out) (omega arith)
decimal-digits (suc fuel) n out h = elim (Bool-cases (n == 0)) [
  | inl q ↦ rw q (ap (decimal out) (omega (arith, ==→eq n 0 q)))
  | inr q ↦ rw q (
      decimal-digits fuel (n / 10) (digit (n % 10) ∷ out) (omega (arith, pow-suc 2 fuel))
      ∙ last_digit)
]
  where
    last_digit : decimal (digit (n % 10) ∷ out) (n / 10) ≡ decimal out n
    last_digit = ground arith

hexadecimal-digits :
    (fuel n : ℕ) (out : Text)
    → n < 2 ^ fuel
    → hexadecimal (digits 16 fuel n out) 0 ≡ hexadecimal out n
hexadecimal-digits zero n out h = ap (hexadecimal out) (omega arith)
hexadecimal-digits (suc fuel) n out h = elim (Bool-cases (n == 0)) [
  | inl q ↦ rw q (ap (hexadecimal out) (omega (arith, ==→eq n 0 q)))
  | inr q ↦
      let e : n / 16 * 16 + hex_digit_value (digit (n % 16)) ≡ n = ground arith in
      rw q (
        hexadecimal-digits fuel (n / 16) (digit (n % 16) ∷ out) (omega (arith, pow-suc 2 fuel))
        ∙ ap (hexadecimal out) e)
]

-- Characters that are no blanks.
abbrev pub Visible : Text → Type 0
Visible = All (λ c. b'0' ≤ c)

abbrev Decimal : Text → Type 0
Decimal = All (λ c. (b'0' ≤ c) × (c ≤ b'9'))

-- What both branches of a test have.
if_both : (P : Text → Type 0) (b : Bool) (x y : Text) → P x → P y → P (if b then x else y)
if_both P true x y hx hy = hx
if_both P false x y hx hy = hy

digits-Visible : (base fuel n : ℕ) (out : Text) → Visible out → Visible (digits base fuel n out)
digits-Visible base zero n out h = h
digits-Visible base (suc fuel) n out h =
    if_both Visible (n == 0) out _ h
      (digits-Visible base fuel (n / base) (digit (n % base) ∷ out) (ground arith, h))

digits-Decimal : (fuel n : ℕ) (out : Text) → Decimal out → Decimal (digits 10 fuel n out)
digits-Decimal zero n out h = h
digits-Decimal (suc fuel) n out h =
    if_both Decimal (n == 0) out _ h
      (digits-Decimal fuel (n / 10) (digit (n % 10) ∷ out) (ground arith, h))

digits-ne-nil : (base fuel n : ℕ) (out : Text) → out ≢ [] → digits base fuel n out ≢ []
digits-ne-nil base zero n out h = h
digits-ne-nil base (suc fuel) n out h =
    if_both (λ t. t ≢ []) (n == 0) out _ h
      (digits-ne-nil base fuel (n / base) (digit (n % base) ∷ out)
        (cons-ne-nil (digit (n % base)) out))

-- What is printed, for any fuel of the digits.
abbrev zero_or_digits : (base fuel n : ℕ) → Text
zero_or_digits base fuel n = if n == 0 then b'0' ∷ [] else digits base fuel n []

zero_or_digits-ne-nil : (base fuel n : ℕ) → zero_or_digits base (suc fuel) n ≢ []
zero_or_digits-ne-nil base fuel n = elim (Bool-cases (n == 0)) [
  | inl q ↦ rw q (cons-ne-nil b'0' [])
  | inr q ↦ rw q (
      digits-ne-nil base fuel (n / base) (digit (n % base) ∷ [])
        (cons-ne-nil (digit (n % base)) []))
]

zero_or_digits-decimal : (fuel n : ℕ) → n < 2 ^ fuel → decimal (zero_or_digits 10 fuel n) 0 ≡ n
zero_or_digits-decimal fuel n h = elim (Bool-cases (n == 0)) [
  | inl q ↦ rw q (sym (==→eq n 0 q))
  | inr q ↦ rw q (decimal-digits fuel n [] h)
]

zero_or_digits-hexadecimal :
    (fuel n : ℕ) → n < 2 ^ fuel → hexadecimal (zero_or_digits 16 fuel n) 0 ≡ n
zero_or_digits-hexadecimal fuel n h = elim (Bool-cases (n == 0)) [
  | inl q ↦ rw q (sym (==→eq n 0 q))
  | inr q ↦ rw q (hexadecimal-digits fuel n [] h)
]

pub printed-ne-nil : (base n : ℕ) → printed base n ≢ []
unfolding printed
printed-ne-nil base = zero_or_digits-ne-nil base 63

pub printed-Visible : (base n : ℕ) → Visible (printed base n)
unfolding printed
printed-Visible base n =
    if_both Visible (n == 0) (b'0' ∷ []) _ (omega arith) (digits-Visible base 64 n [] tt)

stoi-Decimal : (s : Text) → s ≢ [] → Decimal s → decimal s 0 < 2 ^ 31 → stoi s ≡ some (decimal s 0)
stoi-Decimal [] h d b = absurd (h refl)
stoi-Decimal (c ∷ s) h (d, _) b =
    let space : is_space c ≡ false = ground arith in
    let minus : (c == b'-') ≡ false = ne→== c b'-' (omega arith) in
    let plus : (c == b'+') ≡ false = ne→== c b'+' (omega arith) in
    let number : is_digit c ≡ true = ground arith in
    let value : decimal (c ∷ s) 0 ≡ decimal s (0 + (c - b'0')) = rw number refl in
    let fits : ltb (decimal s (0 + (c - b'0'))) (2 ^ 31) ≡ true =
      lt→ltb (decimal s (0 + (c - b'0'))) (2 ^ 31) (rw value at b) in
    rw (space, minus, plus, number, fits) refl

-- std::stoi reads an `int` that is printed.
pub stoi-printed : (n : ℕ) → n < 2 ^ 31 → stoi (printed 10 n) ≡ some n
unfolding printed
stoi-printed n h =
    let e : decimal (printed 10 n) 0 ≡ n = zero_or_digits-decimal 64 n (omega arith) in
    stoi-Decimal (printed 10 n) (printed-ne-nil 10 n)
      (if_both Decimal (n == 0) (b'0' ∷ []) _ (omega arith) (digits-Decimal 64 n [] tt))
      (omega (arith, e))
    ∙ ap some e

padding-Visible : (k : ℕ) (s : Text) → Visible s → Visible (replicate k b'0' ++ s)
padding-Visible zero s h = h
padding-Visible (suc k) s h = (omega arith, padding-Visible k s h)

padding-value : (k : ℕ) (s : Text) → hexadecimal (replicate k b'0' ++ s) 0 ≡ hexadecimal s 0
padding-value zero s = refl
padding-value (suc k) s = padding-value k s

padding-ne-nil : (k : ℕ) (s : Text) → s ≢ [] → replicate k b'0' ++ s ≢ []
padding-ne-nil zero s h = h
padding-ne-nil (suc k) s h = cons-ne-nil b'0' (replicate k b'0' ++ s)

pub padded-Visible : (width : ℕ) (s : Text) → Visible s → Visible (padded width s)
unfolding padded
padded-Visible width s h = padding-Visible (width - length s) s h

pub padded-ne-nil : (width : ℕ) (s : Text) → s ≢ [] → padded width s ≢ []
unfolding padded
padded-ne-nil width s h = padding-ne-nil (width - length s) s h

-- A number of 64 bits is the value of its hexadecimal print, with zeros up to any width.
pub hex_value-padded : (width n : ℕ) → n < 2 ^ 64 → hex_value (padded width (printed 16 n)) ≡ n
unfolding padded printed
hex_value-padded width n h =
    padding-value (width - length (printed 16 n)) (printed 16 n) ∙ zero_or_digits-hexadecimal 64 n h

pub Visible-Lacks : (s : Text) → Visible s → Lacks b' ' s
Visible-Lacks [] h = tt
Visible-Lacks (c ∷ s) (h, hs) = (omega arith, Visible-Lacks s hs)
