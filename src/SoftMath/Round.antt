-- ===== src/SoftMath/Round.antt =====
-- One round of the shift-subtract division of system.c, for words of `bits` bits.
use lib_hsa.Base.{
  ℕ, if◌then◌else◌, ◌^◌, bit_or, suc, ◌≡◌, ◌-◌, leb, ◌<<<◌, ◌≤◌, arith, ◌*◌, ◌%◌, ◌<◌, ◌>>>◌,
  shift_right_signed, ◌/◌, ◌+◌, bit_and, bit_or_split, ap, ◌∙◌, Bool-cases, inl, bit_and_mask, inr,
  refl,
}
use native.Mathlib.Nat.{
  pow-suc, div-eq_of_lt-le, mod-eq_of_lt, div-eq_of_lt, one-le-pow, add-mod_left,
  add-mul-mod_self_left,
}

-- The variables `r`, `q` and `carry` of the division.
pub record Division : Type 0 where
  pub r : ℕ
  pub q : ℕ
  pub carry : ℕ

-- `d - r - 1` is computed without a sign, and its sign bit then spread over the word.
unfoldable pub divide_round : (bits d : ℕ) → Division → Division
divide_round bits d x =
    let r1 = bit_or ((x.r <<< 1) % 2 ^ bits) (x.q >>> (bits - 1)) in
    let q1 = bit_or ((x.q <<< 1) % 2 ^ bits) x.carry in
    let s = shift_right_signed bits ((d + 2 ^ bits - r1 + (2 ^ bits - 1)) % 2 ^ bits) (bits - 1) in
    record { r = (r1 + (2 ^ bits - bit_and d s)) % 2 ^ bits; q = q1; carry = bit_and s 1 }

-- The value of a round in numbers: the denominator is subtracted where it fits.
abbrev pub subtracted : (d num q : ℕ) → Division
subtracted d num q =
    if leb d num
    then record { r = num - d; q = q; carry = 1 }
    else record { r = num; q = q; carry = 0 }

module _ (h : ℕ) where
  double_power : 2 ^ suc h ≡ 2 * 2 ^ h
  double_power = omega (arith, pow-suc 2 h)

  one_left : suc h - h ≡ 1
  one_left = omega arith

  pred_lem : suc h - 1 ≡ h
  pred_lem = omega arith

  pub sign_set :
      (v : ℕ) → 2 ^ h ≤ v → v < 2 ^ suc h → shift_right_signed (suc h) v (suc h - 1) ≡ 2 ^ suc h - 1
  sign_set v low high = rw (pred_lem, one_left, top) (ground (arith, double_power, one-le-pow h 2))
    where
      top : v / 2 ^ h ≡ 1
      top = div-eq_of_lt-le (2 ^ h) (omega arith) (omega (arith, double_power))

  pub sign_clear : (v : ℕ) → v < 2 ^ h → shift_right_signed (suc h) v (suc h - 1) ≡ 0
  sign_clear v high = rw (pred_lem, div-eq_of_lt high) (ground arith)

  module _ (d r t x c : ℕ) (bit : t ≤ 1) (low : x < 2 ^ h) (carry_bit : c ≤ 1)
      (small : 2 * r + t < 2 ^ suc h) where
    shifted_r : bit_or ((r <<< 1) % 2 ^ suc h) ((t * 2 ^ h + x) >>> (suc h - 1)) ≡ 2 * r + t
    shifted_r =
        rw (pred_lem, mod-eq_of_lt fits, upper) (omega (arith, bit_or_split 1 r t (omega arith)))
      where
        fits : r * 2 ^ 1 < 2 ^ suc h
        fits = omega arith

        upper : (t * 2 ^ h + x) / 2 ^ h ≡ t
        upper = div-eq_of_lt-le (2 ^ h) (omega arith) (omega arith)

    shifted_q : bit_or (((t * 2 ^ h + x) <<< 1) % 2 ^ suc h) c ≡ 2 * x + c
    shifted_q = rw lower (omega (arith, bit_or_split 1 x c (omega arith)))
      where
        lower : (t * 2 ^ h + x) * 2 ^ 1 % 2 ^ suc h ≡ x * 2 ^ 1
        lower =
            ap (λ (y : ℕ). y % 2 ^ suc h) parts
            ∙ add-mul-mod_self_left (x * 2) (2 ^ suc h) t
            ∙ mod-eq_of_lt (omega (arith, double_power))
          where
            parts : (t * 2 ^ h + x) * 2 ≡ x * 2 + 2 ^ suc h * t
            parts = omega (arith, ap (λ (y : ℕ). y * t) double_power)

  wrapped : (v : ℕ) → v < 2 ^ suc h → (2 ^ suc h + v) % 2 ^ suc h ≡ v
  wrapped v small = add-mod_left (2 ^ suc h) v ∙ mod-eq_of_lt small

  -- `d - num - 1` in the words of the program, and its sign.
  module _ (d num : ℕ) (small : num < 2 ^ suc h) where
    abbrev difference : ℕ
    difference = (d + 2 ^ suc h - num + (2 ^ suc h - 1)) % 2 ^ suc h

    sign_fits :
        d ≤ num
        → num < d + 2 ^ h
        → shift_right_signed (suc h) difference (suc h - 1) ≡ 2 ^ suc h - 1
    sign_fits fits near = rw value (
        sign_set (2 ^ suc h + d - num - 1) (omega (arith, double_power, one-le-pow h 2))
          (omega (arith, double_power, one-le-pow h 2)))
      where
        value : difference ≡ 2 ^ suc h + d - num - 1
        value =
            ap (λ (y : ℕ). y % 2 ^ suc h) parts
            ∙ wrapped (2 ^ suc h + d - num - 1) (omega (arith, double_power, one-le-pow h 2))
          where
            parts : d + 2 ^ suc h - num + (2 ^ suc h - 1) ≡ 2 ^ suc h + (2 ^ suc h + d - num - 1)
            parts = (omega (arith, double_power, one-le-pow h 2))

    sign_short : num < d → d ≤ 2 ^ h + num → shift_right_signed (suc h) difference (suc h - 1) ≡ 0
    sign_short short near =
        rw value (sign_clear (d - num - 1) (omega (arith, double_power, one-le-pow h 2)))
      where
        value : difference ≡ d - num - 1
        value =
            ap (λ (y : ℕ). y % 2 ^ suc h) parts
            ∙ add-mod_left (2 ^ suc h) (2 ^ suc h + (d - num - 1))
            ∙ wrapped (d - num - 1) (omega (arith, double_power, one-le-pow h 2))
          where
            parts : d + 2 ^ suc h - num + (2 ^ suc h - 1) ≡ 2 ^ suc h + (2 ^ suc h + (d - num - 1))
            parts = (omega (arith, double_power, one-le-pow h 2))

module _ (h d num : ℕ) (small : num < 2 ^ suc h) (word : d < 2 ^ suc h) where
  taken : d ≤ num → (num + (2 ^ suc h - d)) % 2 ^ suc h ≡ num - d
  taken fits = ap (λ (y : ℕ). y % 2 ^ suc h) parts ∙ wrapped h (num - d) (omega arith)
    where
      parts : num + (2 ^ suc h - d) ≡ 2 ^ suc h + (num - d)
      parts = omega arith

  kept : (num + (2 ^ suc h - d % 1)) % 2 ^ suc h ≡ num
  kept = ap (λ (y : ℕ). y % 2 ^ suc h) parts ∙ wrapped h num small
    where
      parts : num + (2 ^ suc h - d % 1) ≡ 2 ^ suc h + num
      parts = omega arith

all_ones_bit : (h : ℕ) → bit_and (2 ^ suc h - 1) 1 ≡ 1
all_ones_bit h = bit_and_mask 1 (2 ^ suc h - 1) ∙ omega (arith, double_power h, one-le-pow h 2)

-- A round computes `subtracted`, while the numbers are near enough for the sign to be right.
pub divide_round_lem :
    (h d r t x c : ℕ)
    → t ≤ 1
    → x < 2 ^ h
    → c ≤ 1
    → 2 * r + t < 2 ^ suc h
    → r < d
    → d < 2 ^ suc h
    → d ≤ 2 ^ h + (2 * r + t)
    → divide_round (suc h) d (record { r = r; q = t * 2 ^ h + x; carry = c })
      ≡ subtracted d (2 * r + t) (2 * x + c)
unfolding divide_round
divide_round_lem h d r t x c bit low carry_bit small inside word near =
    rw
      (shifted_r h d r t x c bit low carry_bit small, shifted_q h d r t x c bit low carry_bit small)
      (elim (Bool-cases (leb d (2 * r + t))) [
        | inl fits ↦
            rw
              (
                sign_fits h d (2 * r + t) small (ground arith) (ground (arith, double_power h)),
                bit_and_mask (suc h) d,
                mod-eq_of_lt word,
                fits,
              )
              (rw (taken h d (2 * r + t) small word (ground arith), all_ones_bit h) refl)
        | inr short ↦
            rw (sign_short h d (2 * r + t) small (ground arith) near, bit_and_mask 0 d, short)
              (rw (kept h d (2 * r + t) small word) refl)
      ])
