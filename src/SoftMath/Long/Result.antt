-- ===== src/SoftMath/Long/Result.antt =====
-- `__udivmoddi4` gives the quotient and the remainder.
use lib_hsa.Base.{
  if◌then◌else◌, ℕ, ◌==◌, ◌<◌, ◌^◌, ◌/◌, ◌≡◌, bit_and, ◌∙◌, some, ◌-◌, ◌%◌, false, Bool-cases,
  arith, ap, ◌≢◌, refl, sym, ◌*◌, ltb, inl, ◌≤◌, bit_and_mask, ◌+◌, inr, true,
}
use lib_hsa.SoftMath.Modulo.{umodsi3, umodsi3_lem}
use lib_hsa.SoftMath.Unsigned.{
  udivsi3, udivsi3_lem, one, between, none_between, places_between, d_few,
}
use lib_hsa.SoftMath.Long.{Builtins, all, high_start, long_result, divide_by_high}
use lib_hsa.SoftMath.Long.Powers.{power_of_two}
use lib_hsa.SoftMath.Long.Starts.{high_start_lem}
use lib_hsa.SoftMath.Long.Divide.{IsBuiltins, divided, divided_unique, small_lem, loop_lem}
use native.Mathlib.Nat.{div-add-mod, mod-lt}

-- The quotient and the remainder in 32 bits.
module _ (p : Builtins) (laws : IsBuiltins p) (n d : ℕ) (n_word : n < 2 ^ 32) (d_word : d < 2 ^ 32)
    (d_positive : 0 < d) where
  some_denominator : (d == 0) ≡ false
  some_denominator = ground arith

  pub word_quotient : udivsi3 p.clz n d ≡ n / d
  word_quotient = udivsi3_lem p.clz n d laws.zeros n_word d_word ∙ rw some_denominator refl

  pub word_remainder : umodsi3 n d ≡ some (n % d)
  word_remainder = umodsi3_lem n d n_word d_word ∙ rw some_denominator refl

-- A power of two as the denominator of a word.
module _ (p : Builtins) (laws : IsBuiltins p) (n d : ℕ) (n_word : n < 2 ^ 32) (d_word : d < 2 ^ 32)
    (d_positive : 0 < d) (test : bit_and d (d - 1) ≡ 0) where
  pub power : d ≡ 2 ^ p.ctz d
  power = power_of_two p.ctz d laws.trailing d_positive d_word test

  power_quotient : p.shift_right n (p.ctz d) ≡ n / d
  power_quotient =
      laws.shifts.right n (p.ctz d) (laws.trailing.few d d_positive d_word)
      ∙ ap (λ (y : ℕ). n / y) (sym power)

  pub power_remainder : bit_and n (d - 1) ≡ n % d
  power_remainder =
      ap (λ (y : ℕ). bit_and n (y - 1)) power
      ∙ bit_and_mask (p.ctz d) n
      ∙ ap (λ (y : ℕ). n % y) (sym power)

module _ (p : Builtins) (laws : IsBuiltins p) (nh nl : ℕ) (nh_word : nh < 2 ^ 32)
    (nl_word : nl < 2 ^ 32) (nh_positive : 0 < nh) where
  module _ (dh : ℕ) (dh_word : dh < 2 ^ 32) (dh_positive : 0 < dh) where
    -- The quotient of the high halves, where the low half of the denominator is 0.
    halves_lem : (nh / dh, all (nh % dh) nl) ≡ divided (all nh nl) (all dh 0)
    halves_lem =
        divided_unique (all nh nl) (all dh 0) (nh / dh) (all (nh % dh) nl)
          (omega (arith, ap (λ (y : ℕ). y * 2 ^ 32) (div-add-mod nh dh)))
          (omega (arith, mod-lt nh dh_positive))

    few_places : bit_and dh (dh - 1) ≢ 0 → p.clz dh - p.clz nh ≤ 30
    few_places no_power = elim (Bool-cases (p.clz dh - p.clz nh == 31)) [
      | inl all_places ↦
          let unit : dh ≡ 1 =
            one p.clz laws.zeros nh dh nh_word dh_word nh_positive dh_positive (ground arith) in
          absurd (no_power (ap (λ (y : ℕ). bit_and y (y - 1)) unit))
      | inr fewer ↦
          ground (arith, d_few p.clz laws.zeros nh dh nh_word dh_word nh_positive dh_positive)
    ]

    high_loop :
        bit_and dh (dh - 1) ≢ 0
        → (let sr = places_between p.clz laws.zeros nh dh nh_word dh_word nh_positive dh_positive in
            if ltb 30 sr
            then (0, all nh nl)
            else long_result (sr + 1) (all dh 0) (high_start p (sr + 1) nh nl))
          ≡ divided (all nh nl) (all dh 0)
    high_loop no_power = elim (Bool-cases (ltb (p.clz dh) (p.clz nh))) [
      | inl more ↦
          let far : ltb 30
                (places_between p.clz laws.zeros nh dh nh_word dh_word nh_positive dh_positive)
              ≡ true =
            ground (
              arith,
              none_between p.clz laws.zeros nh dh nh_word dh_word nh_positive dh_positive
                  (ground arith),
            ) in
          rw far (
            small_lem p laws nh nl nh_word nl_word nh_positive dh 0 dh_word (omega arith)
              dh_positive (ground arith))
      | inr less ↦
          let order : p.clz nh ≤ p.clz dh = ground arith in
          let near : ltb 30
                (places_between p.clz laws.zeros nh dh nh_word dh_word nh_positive dh_positive)
              ≡ false =
            ground (
              arith,
              between p.clz laws.zeros nh dh nh_word dh_word nh_positive dh_positive order,
              few_places no_power,
            ) in
          rw (near, between p.clz laws.zeros nh dh nh_word dh_word nh_positive dh_positive order)
            (loop_lem p laws nh nl nh_word nl_word nh_positive dh 0 dh_word (omega arith)
              dh_positive (high_start p (p.clz dh - p.clz nh + 1) nh nl) order
              (high_start_lem nh nl nh_word nl_word p laws.shifts (p.clz dh - p.clz nh + 1)
                (omega arith) (omega (arith, few_places no_power))))
    ]

    pub high_positive : divide_by_high p nh nl dh ≡ some (divided (all nh nl) (all dh 0))
    unfolding divide_by_high
    high_positive = elim (Bool-cases (nl == 0)) [
      | inl even ↦
          let no_low : nl ≡ 0 = ground arith in
          rw
            (
              some_denominator p laws nh dh nh_word dh_word dh_positive,
              even,
              word_quotient p laws nh dh nh_word dh_word dh_positive,
              word_remainder p laws nh dh nh_word dh_word dh_positive,
            )
            (ap (λ (x : ℕ × ℕ). some x) (rw (sym halves_lem, no_low) refl))
      | inr some_low ↦ elim (Bool-cases (bit_and dh (dh - 1) == 0)) [
        | inl test ↦
            rw
              (
                some_denominator p laws nh dh nh_word dh_word dh_positive,
                some_low,
                test,
                power_quotient p laws nh dh nh_word dh_word dh_positive (ground arith),
                power_remainder p laws nh dh nh_word dh_word dh_positive (ground arith),
              )
              (ap (λ (x : ℕ × ℕ). some x) halves_lem)
        | inr no_power ↦
            rw (some_denominator p laws nh dh nh_word dh_word dh_positive, some_low, no_power)
              (ap (λ (x : ℕ × ℕ). some x) (high_loop (ground arith)))
      ]
    ]
