-- ===== src/SoftMath/Start.antt =====
-- The start of shift-subtract division: the number is split at the bit `sr`.
use lib_hsa.Base.{
  ℕ, ◌<◌, ◌>>>◌, ◌^◌, suc, ◌<<<◌, ◌+◌, ◌≤◌, ◌-◌, ◌≡◌, ◌%◌, ◌*◌, ◌/◌, sym, arith, ◌∙◌, ap, inl, inr,
}
use lib_hsa.SoftMath.Divide.{IsDivision, IsNear, divide_loop, divide_loop_lem}
use lib_hsa.SoftMath.Round.{Division}
use native.Mathlib.Nat.{
  mod-lt, one-le-pow, div-add-mod, add-mul-mod_self_left, zero-add, lt_of_mul-lt-mul_right, pow-suc,
  mod-eq_of_lt, mul-le-mul_right, pow-le-pow_right,
}
use Prim.Native.Nat.{zero}

-- `q` and `r` before the loop.
abbrev pub division_start : (bits sr n : ℕ) → Division
division_start bits sr n = record { r = n >>> sr; q = (n <<< (bits - sr)) % 2 ^ bits; carry = 0 }

pub power-add : (a b : ℕ) → 2 ^ (a + b) ≡ 2 ^ a * 2 ^ b
power-add zero b = rw (zero-add b) (omega arith)
power-add (suc a) b =
    ap (λ (y : ℕ). 2 ^ y) shifted
    ∙ omega (arith, pow-suc 2 (a + b), power-add a b, ap (λ (y : ℕ). y * 2 ^ b) (pow-suc 2 a))
  where
    shifted : suc a + b ≡ suc (a + b)
    shifted = omega arith

pub power_grows : (a b : ℕ) → a ≤ b → 2 ^ a ≤ 2 ^ b
power_grows a b h = pow-le-pow_right (omega arith) h

-- The number is split at the bit `j`.
module _ (h j d n : ℕ) (word : d < 2 ^ suc h) (small : n < 2 ^ suc h) (fits : j ≤ suc h) where
  places : 2 ^ j * 2 ^ (suc h - j) ≡ 2 ^ suc h
  places = sym (power-add j (suc h - j)) ∙ ap (λ (y : ℕ). 2 ^ y) (omega arith)

  parts : n ≡ n / 2 ^ j * 2 ^ j + n % 2 ^ j
  parts = omega (arith, div-add-mod n (2 ^ j))

  low : n % 2 ^ j < 2 ^ j
  low = mod-lt n (one-le-pow j 2 (omega arith))

  pub upper_part : (n <<< (suc h - j)) % 2 ^ suc h ≡ n % 2 ^ j * 2 ^ (suc h - j) + 0
  upper_part =
      ap (λ (y : ℕ). y % 2 ^ suc h) in_places
      ∙ add-mul-mod_self_left (n % 2 ^ j * 2 ^ (suc h - j) + 0) (2 ^ suc h) (n / 2 ^ j)
      ∙ mod-eq_of_lt (
          omega (
            arith,
            mul-le-mul_right (2 ^ (suc h - j)) low,
            places,
            one-le-pow (suc h - j) 2 (omega arith),
          ))
    where
      in_places : n * 2 ^ (suc h - j) ≡ n % 2 ^ j * 2 ^ (suc h - j) + 0 + 2 ^ suc h * (n / 2 ^ j)
      in_places =
          omega (
            arith,
            ap (λ (y : ℕ). y * 2 ^ (suc h - j)) parts,
            ap (λ (y : ℕ). y * (n / 2 ^ j)) places,
          )

  pub division_lem :
      n < d * 2 ^ j
      → IsNear h j d n
      → IsDivision (suc h) n d (divide_loop (suc h) j d (division_start (suc h) j n))
  division_lem less near = rw upper_part (
      divide_loop_lem h d n word small j (2 ^ (suc h - j)) (n / 2 ^ j) (n % 2 ^ j) 0 0 (record {
        places = places;
        low = low;
        quotient_small = one-le-pow (suc h - j) 2 (omega arith);
        carry_bit = omega arith;
        inside = lt_of_mul-lt-mul_right (2 ^ j) (omega (arith, parts, less));
        number = omega (arith, parts);
        near = elim near [
          | inl small_d ↦ inl small_d
          | inr (inl done) ↦ inr (inl done)
          | inr (inr (last, close)) ↦
              let two : 2 ^ j ≡ 2 = ap (λ (y : ℕ). 2 ^ y) last in
              let whole : n ≡ n / 2 ^ j * 2 + n % 2 ^ j =
                parts ∙ ap (λ (y : ℕ). n / 2 ^ j * y + n % 2 ^ j) two in
              inr (inr (last, omega (arith, whole)))
        ];
      }))
