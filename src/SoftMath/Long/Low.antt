-- ===== src/SoftMath/Long/Low.antt =====
-- The division by a denominator of one word.
use lib_hsa.Base.{
  if◌then◌else◌, ℕ, ◌==◌, ◌<◌, ◌^◌, bit_and, ◌≡◌, Bool-cases, ◌-◌, inl, ◌%◌, ◌≤◌, bit_or, ◌≢◌, ◌*◌,
  arith, ◌+◌, u32, ap, inr, ◌/◌, sym, refl, ◌∙◌,
}
use lib_hsa.SoftMath.Unsigned.{d_few, n_few, n_in_word, d_leading, d_in_word}
use lib_hsa.SoftMath.Start.{power-add}
use lib_hsa.SoftMath.Long.{Builtins, all, low_start, long_result, divide_by_low}
use lib_hsa.SoftMath.Long.Start.{word_places, r_value}
use lib_hsa.SoftMath.Long.Starts.{low_start_lem, either_shifted}
use lib_hsa.SoftMath.Long.Result.{power, power_remainder}
use lib_hsa.SoftMath.Long.Divide.{IsBuiltins, divided, loop_result}
use native.Mathlib.Nat.{lt_of_mul-lt-mul_right, mul-le-mul_right, add-mul-mod_self_left, one-le-pow}

module _ (p : Builtins) (laws : IsBuiltins p) (nh nl dl : ℕ) (nh_word : nh < 2 ^ 32)
    (nl_word : nl < 2 ^ 32) (dl_word : dl < 2 ^ 32) (nh_positive : 0 < nh)
    (dl_positive : 0 < dl) where
  -- A power of two as the denominator.
  module _ (test : bit_and dl (dl - 1) ≡ 0) where
    k_few : p.ctz dl ≤ 31
    k_few = omega (arith, laws.trailing.few dl dl_positive dl_word)

    remainder_lem : bit_and nl (dl - 1) ≡ all nh nl % dl
    remainder_lem =
        power_remainder p laws nl dl nl_word dl_word dl_positive test
        ∙ sym
            (ap (λ (y : ℕ). y % dl) parts ∙ add-mul-mod_self_left nl dl (2 ^ (32 - p.ctz dl) * nh))
      where
        parts : all nh nl ≡ nl + dl * (2 ^ (32 - p.ctz dl) * nh)
        parts = omega (
          arith,
          ap (λ (y : ℕ). y * nh) (word_places (p.ctz dl) (omega (arith, k_few))),
          ap (λ (y : ℕ). y * (2 ^ (32 - p.ctz dl) * nh))
              (power p laws nl dl nl_word dl_word dl_positive test),
        )

    quotient_lem :
        (if dl == 1
          then all nh nl
          else all (p.shift_right nh (p.ctz dl)) (
              bit_or
                (p.shift_left nh (u32 (32 + 2 ^ 32 - p.ctz dl)))
                (p.shift_right nl (p.ctz dl))))
        ≡ all nh nl / dl
    quotient_lem = elim (Bool-cases (dl == 1)) [
      | inl unit ↦
          let one_lem : dl ≡ 1 = ground arith in
          rw unit (omega (arith, ap (λ (y : ℕ). all nh nl / y) one_lem))
      | inr no_unit ↦ rw no_unit (
          rw
            (
              laws.shifts.right nh (p.ctz dl) (omega (arith, k_few)),
              either_shifted nh nl nh_word nl_word p laws.shifts (p.ctz dl)
                  (some_zeros (ground arith)) k_few,
              r_value (p.ctz dl) (omega (arith, k_few)) nh nl nh_word nl_word,
            )
            (ap (λ (y : ℕ). all nh nl / y)
              (sym (power p laws nl dl nl_word dl_word dl_positive test))))
    ]
      where
        some_zeros : dl ≢ 1 → 1 ≤ p.ctz dl
        some_zeros no_unit = elim (Bool-cases (p.ctz dl == 0)) [
          | inl none ↦
              let no_zero : p.ctz dl ≡ 0 = ground arith in
              absurd (
                no_unit (
                  power p laws nl dl nl_word dl_word dl_positive test
                  ∙ ap (λ (y : ℕ). 2 ^ y) no_zero))
          | inr some ↦ ground arith
        ]

  -- Any other denominator.
  module _ (no_power : bit_and dl (dl - 1) ≢ 0) where
    d_zeros : p.clz dl ≤ 30
    d_zeros = elim (Bool-cases (p.clz dl == 31)) [
      | inl all_zeros ↦
          let thirty_one : p.clz dl ≡ 31 = ground arith in
          let unit : dl ≡ 1 = omega (
            arith,
            dl_positive,
            d_in_word p.clz laws.zeros nh dl nh_word dl_word nh_positive dl_positive,
            ap (λ (y : ℕ). dl * 2 ^ y) thirty_one,
          ) in
          absurd (no_power (ap (λ (y : ℕ). bit_and y (y - 1)) unit))
      | inr fewer ↦
          ground (arith, d_few p.clz laws.zeros nh dl nh_word dl_word nh_positive dl_positive)
    ]

    high_part : nh < 2 ^ (32 - p.clz nh)
    high_part = lt_of_mul-lt-mul_right (2 ^ p.clz nh) (
        omega (
          arith,
          n_in_word p.clz laws.zeros nh dl nh_word dl_word nh_positive dl_positive,
          word_places (p.clz nh)
              (omega (arith, n_few p.clz laws.zeros nh dl nh_word dl_word nh_positive dl_positive)),
        ))

    less_lem : all nh nl < dl * 2 ^ (33 + p.clz dl - p.clz nh)
    less_lem = lt_of_mul-lt-mul_right (2 ^ p.clz nh) (
        omega (
          arith,
          n_few p.clz laws.zeros nh dl nh_word dl_word nh_positive dl_positive,
          d_leading p.clz laws.zeros nh dl nh_word dl_word nh_positive dl_positive,
          ap (λ (y : ℕ). dl * y) together,
          above,
          one-le-pow (p.clz nh) 2 (omega arith),
        ))
      where
        sum : 33 + p.clz dl - p.clz nh + p.clz nh ≡ 33 + p.clz dl
        sum = omega (arith, n_few p.clz laws.zeros nh dl nh_word dl_word nh_positive dl_positive)

        together : 2 ^ (33 + p.clz dl - p.clz nh) * 2 ^ p.clz nh ≡ 2 ^ 33 * 2 ^ p.clz dl
        together =
            sym (power-add (33 + p.clz dl - p.clz nh) (p.clz nh))
            ∙ ap (λ (y : ℕ). 2 ^ y) sum
            ∙ power-add 33 (p.clz dl)

        above : (all nh nl + 1) * 2 ^ p.clz nh ≤ 2 ^ 64
        above = omega (
          arith,
          mul-le-mul_right (2 ^ p.clz nh) low_bound,
          word_places (p.clz nh)
              (omega (arith, n_few p.clz laws.zeros nh dl nh_word dl_word nh_positive dl_positive)),
        )
          where
            low_bound : all nh nl + 1 ≤ 2 ^ (32 - p.clz nh) * 2 ^ 32
            low_bound = omega (arith, high_part)

    places_lem : u32 (1 + 32 + p.clz dl + 2 ^ 32 - p.clz nh) ≡ 33 + p.clz dl - p.clz nh
    places_lem =
        omega (arith, d_zeros, n_few p.clz laws.zeros nh dl nh_word dl_word nh_positive dl_positive)

    low_loop :
        (let sr = u32 (1 + 32 + p.clz dl + 2 ^ 32 - p.clz nh) in
          long_result sr dl (low_start p sr nh nl))
        ≡ divided (all nh nl) dl
    low_loop =
        let start =
          low_start_lem nh nl nh_word nl_word p laws.shifts (33 + p.clz dl - p.clz nh)
            (omega (arith, n_few p.clz laws.zeros nh dl nh_word dl_word nh_positive dl_positive))
            (omega (arith, d_zeros)) in
        rw places_lem (
          loop_result (33 + p.clz dl - p.clz nh) (all nh nl) dl
            (low_start p (33 + p.clz dl - p.clz nh) nh nl) (omega arith) (omega arith)
            (omega (arith, d_zeros)) less_lem (inl (omega arith)) (start.0) (start.1))

  pub low_lem : divide_by_low p nh nl dl ≡ divided (all nh nl) dl
  unfolding divide_by_low
  low_lem = elim (Bool-cases (bit_and dl (dl - 1) == 0)) [
    | inl test ↦
        let even : bit_and dl (dl - 1) ≡ 0 = ground arith in
        rw (test, quotient_lem even, remainder_lem even) refl
    | inr no_power ↦ rw no_power (low_loop (ground arith))
  ]
