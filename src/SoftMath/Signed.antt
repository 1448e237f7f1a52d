-- ===== src/SoftMath/Signed.antt =====
-- The division of signed numbers: `__divsi3`.
use lib_hsa.Base.{
  ℕ, Bool, ◌<◌, bit_xor, shift_right_signed, if◌then◌else◌, ◌^◌, leb, ◌-◌, ◌+◌, suc, ◌%◌, ◌≡◌,
  bit_xor-ones, bit_xor-zero, Bool-cases, ap, inl, ◌∙◌, arith, inr, true, not, ◌≤◌, ◌==◌, ◌/◌, refl,
  sym,
}
use mathlib.Core.Bool.{true, false}
use lib_hsa.SoftMath.Round.{sign_set, sign_clear}
use lib_hsa.SoftMath.Unsigned.{udivsi3, udivsi3_lem, CountsZeros}
use native.Mathlib.Nat.{add-mod_right, mod-eq_of_lt, one-le-pow, div-le_self}

-- `(x ^ s) - s`: negates where `s` is -1.
abbrev pub negate_by : (bits s x : ℕ) → ℕ
negate_by bits s x = (bit_xor x s + 2 ^ bits - s) % 2 ^ bits

-- The signed division by an unsigned division of the magnitudes.
abbrev pub divide_signed : (bits : ℕ) → (divide : ℕ → ℕ → ℕ) → (a b : ℕ) → ℕ
divide_signed bits divide a b =
    let s_a = shift_right_signed bits a (bits - 1) in
    let s_b = shift_right_signed bits b (bits - 1) in
    negate_by bits (bit_xor s_a s_b) (divide (negate_by bits s_a a) (negate_by bits s_b b))

unfoldable pub divsi3 : (clz : ℕ → ℕ) → (a b : ℕ) → ℕ
divsi3 clz a b = divide_signed 32 (udivsi3 clz) a b

-- The sign and the magnitude of a pattern of `bits` bits.
abbrev pub negative : (bits v : ℕ) → Bool
negative bits v = leb (2 ^ (bits - 1)) v

abbrev pub magnitude : (bits v : ℕ) → ℕ
magnitude bits v = if negative bits v then 2 ^ bits - v else v

abbrev pub unlike : Bool → Bool → Bool
unlike s t = if s then not t else t

-- The pattern of a number with a sign.
abbrev pub pattern_of : (bits : ℕ) → (sign : Bool) → ℕ → ℕ
pattern_of bits sign q = if sign then (2 ^ bits - q) % 2 ^ bits else q

module _ (h : ℕ) where
  sign_of :
      (v : ℕ)
      → v < 2 ^ suc h
      → shift_right_signed (suc h) v (suc h - 1) ≡ (if negative (suc h) v then 2 ^ suc h - 1 else 0)
  sign_of v small = elim (Bool-cases (negative (suc h) v)) [
    | inl n ↦ rw n (sign_set h v (ground arith) small)
    | inr n ↦ rw n (sign_clear h v (ground arith))
  ]

  ones_positive : 1 ≤ 2 ^ suc h
  ones_positive = one-le-pow (suc h) 2 (omega arith)

  positive : (v : ℕ) → negative (suc h) v ≡ true → 0 < v
  positive v n = ground (arith, one-le-pow h 2)

  negated :
      (x : ℕ) → x < 2 ^ suc h → negate_by (suc h) (2 ^ suc h - 1) x ≡ (2 ^ suc h - x) % 2 ^ suc h
  negated x small =
      rw (bit_xor-ones (suc h) x small)
        (ap (λ (y : ℕ). y % 2 ^ suc h) (omega (arith, ones_positive)))

  not_negated : (x : ℕ) → x < 2 ^ suc h → negate_by (suc h) 0 x ≡ x
  not_negated x small =
      rw (bit_xor-zero x)
        (ap (λ (y : ℕ). y % 2 ^ suc h) same ∙ add-mod_right x (2 ^ suc h) ∙ mod-eq_of_lt small)
    where
      same : x + 2 ^ suc h - 0 ≡ x + 2 ^ suc h
      same = omega arith

  negate_magnitude :
      (v : ℕ)
      → v < 2 ^ suc h
      → negate_by (suc h) (if negative (suc h) v then 2 ^ suc h - 1 else 0) v ≡ magnitude (suc h) v
  negate_magnitude v small = elim (Bool-cases (negative (suc h) v)) [
    | inl n ↦ rw n (negated v small ∙ mod-eq_of_lt (omega (arith, positive v n)))
    | inr n ↦ rw n (not_negated v small)
  ]

  negate_sign :
      (s t : Bool) (q : ℕ)
      → q < 2 ^ suc h
      → negate_by
          (suc h)
          (bit_xor (if s then 2 ^ suc h - 1 else 0) (if t then 2 ^ suc h - 1 else 0))
          q
        ≡ pattern_of (suc h) (unlike s t) q
  negate_sign true true q small =
      rw (bit_xor-ones (suc h) (2 ^ suc h - 1) (omega (arith, ones_positive)), none_left)
        (not_negated q small)
    where
      none_left : 2 ^ suc h - 1 - (2 ^ suc h - 1) ≡ 0
      none_left = omega arith
  negate_sign true false q small = rw (bit_xor-zero (2 ^ suc h - 1)) (negated q small)
  negate_sign false true q small =
      rw (bit_xor-ones (suc h) 0 (omega (arith, ones_positive)), all_ones) (negated q small)
    where
      all_ones : 2 ^ suc h - 1 - 0 ≡ 2 ^ suc h - 1
      all_ones = omega arith
  negate_sign false false q small = not_negated q small

  pub magnitude_word : (v : ℕ) → v < 2 ^ suc h → magnitude (suc h) v < 2 ^ suc h
  magnitude_word v small = elim (Bool-cases (negative (suc h) v)) [
    | inl n ↦ rw n (omega (arith, positive v n))
    | inr n ↦ rw n small
  ]

  -- The signed division, from what the division of the magnitudes gives.
  pub divide_signed_lem :
      (divide : ℕ → ℕ → ℕ) (a b q : ℕ)
      → a < 2 ^ suc h
      → b < 2 ^ suc h
      → divide (magnitude (suc h) a) (magnitude (suc h) b) ≡ q
      → q < 2 ^ suc h
      → divide_signed (suc h) divide a b
        ≡ pattern_of (suc h) (unlike (negative (suc h) a) (negative (suc h) b)) q
  divide_signed_lem divide a b q a_word b_word e small =
      rw
        (
          sign_of a a_word,
          sign_of b b_word,
          negate_magnitude a a_word,
          negate_magnitude b b_word,
          e,
        )
        (negate_sign (negative (suc h) a) (negative (suc h) b) q small)

-- The quotient of the magnitudes.
abbrev pub magnitude_quotient : (bits a b : ℕ) → ℕ
magnitude_quotient bits a b = if b == 0 then 0 else magnitude bits a / magnitude bits b

module _ (h a b : ℕ) (a_word : a < 2 ^ suc h) (b_word : b < 2 ^ suc h) where
  pub magnitude_quotient_word : magnitude_quotient (suc h) a b < 2 ^ suc h
  magnitude_quotient_word = elim (Bool-cases (b == 0)) [
    | inl none ↦ rw none (omega (arith, ones_positive h))
    | inr some_b ↦ rw some_b (
        omega (
          arith,
          magnitude_word h a a_word,
          div-le_self (magnitude (suc h) a) (magnitude (suc h) b),
        ))
  ]

  pub none_magnitude : (magnitude (suc h) b == 0) ≡ (b == 0)
  none_magnitude = elim (Bool-cases (negative (suc h) b)) [
    | inl n ↦ rw n (
        let left : (2 ^ suc h - b == 0) ≡ false = ground arith in
        let right : (b == 0) ≡ false = ground (arith, positive h b n) in left ∙ sym right)
    | inr n ↦ rw n refl
  ]

-- If __builtin_clz counts leading zeros, __divsi3 of two signed 32-bit numbers gives the quotient of
-- their magnitudes, rounded toward zero, with a minus sign if their signs differ, in 32 bits; for
-- the denominator 0 it gives 0.
pub divsi3_lem :
    (clz : ℕ → ℕ) (a b : ℕ)
    → CountsZeros clz
    → a < 2 ^ 32
    → b < 2 ^ 32
    → divsi3 clz a b
      ≡ pattern_of 32 (unlike (negative 32 a) (negative 32 b)) (magnitude_quotient 32 a b)
unfolding divsi3
divsi3_lem clz a b counts a_word b_word =
    divide_signed_lem 31 (udivsi3 clz) a b (magnitude_quotient 32 a b) a_word b_word
      (udivsi3_lem clz (magnitude 32 a) (magnitude 32 b) counts (magnitude_word 31 a a_word)
          (magnitude_word 31 b b_word)
        ∙ ap (λ (t : Bool). if t then 0 else magnitude 32 a / magnitude 32 b)
            (none_magnitude 31 a b a_word b_word))
      (magnitude_quotient_word 31 a b a_word b_word)
