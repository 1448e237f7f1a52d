-- ===== src/SoftMath/Long/Quotient.antt =====
-- What the unsigned division of 64-bit numbers gives.
use lib_hsa.Base.{
  if◌then◌else◌, ℕ, ◌==◌, ◌/◌, ◌<◌, ◌^◌, ◌%◌, ◌≡◌, arith, some, Bool-cases, inl, inr, ap, refl,
}
use lib_hsa.SoftMath.Modulo.{umodsi3_lem}
use lib_hsa.SoftMath.Unsigned.{udivsi3_lem}
use lib_hsa.SoftMath.Long.{Builtins, all, high, low, udivmoddi4, divide_by_high, divide_word}
use lib_hsa.SoftMath.Long.Result.{high_positive, word_quotient, word_remainder}
use lib_hsa.SoftMath.Long.Low.{low_lem}
use lib_hsa.SoftMath.Long.Divide.{IsBuiltins, divided, divided_unique, full_lem}

-- The quotient and the remainder, and 0 for the denominator 0.
abbrev pub division : (a b : ℕ) → ℕ × ℕ
division a b = if b == 0 then (0, 0) else (a / b, a % b)

module _ (p : Builtins) (laws : IsBuiltins p) (a : ℕ) (a_word : a < 2 ^ 64) where
  by_nothing : udivmoddi4 p a 0 ≡ some (0, 0)
  unfolding udivmoddi4 divide_word divide_by_high
  by_nothing = elim (Bool-cases (high a == 0)) [
    | inl none ↦
        rw
          (
            none,
            umodsi3_lem (low a) 0 (omega arith) (omega arith),
            udivsi3_lem p.clz (low a) 0 laws.zeros (omega arith) (omega arith),
          )
          refl
    | inr some_high ↦
        rw
          (
            some_high,
            umodsi3_lem (high a) 0 (omega arith) (omega arith),
            udivsi3_lem p.clz (high a) 0 laws.zeros (omega arith) (omega arith),
          )
          refl
  ]

  module _ (b : ℕ) (b_word : b < 2 ^ 64) (b_positive : 0 < b) where
    whole : (x : ℕ) → all (high x) (low x) ≡ x
    whole x = omega arith

    word_lem : high a ≡ 0 → divide_word p (low a) (high b) (low b) ≡ some (divided a b)
    unfolding divide_word
    word_lem no_high = elim (Bool-cases (high b == 0)) [
      | inl none ↦
          let a_low : low a ≡ a = ground arith in
          let b_low : low b ≡ b = ground arith in
          rw
            (
              none,
              a_low,
              b_low,
              word_quotient p laws a b (omega arith) (omega arith) b_positive,
              word_remainder p laws a b (omega arith) (omega arith) b_positive,
            )
            refl
      | inr some_high ↦
          rw some_high
            (ap (λ (x : ℕ × ℕ). some x) (divided_unique a b 0 (low a) (omega arith) (ground arith)))
    ]

    by_positive : udivmoddi4 p a b ≡ some (divided a b)
    unfolding udivmoddi4
    by_positive = elim (Bool-cases (high a == 0)) [
      | inl none ↦ rw none (word_lem (ground arith))
      | inr some_high ↦ elim (Bool-cases (low b == 0)) [
        | inl none ↦
            let even : all (high b) 0 ≡ b = ground arith in
            rw
              (
                some_high,
                none,
                high_positive p laws (high a) (low a) (omega arith) (omega arith) (ground arith)
                    (high b) (omega arith) (ground arith),
                whole a,
                even,
              )
              refl
        | inr some_low ↦ elim (Bool-cases (high b == 0)) [
          | inl none ↦
              let b_low : low b ≡ b = ground arith in
              rw
                (
                  some_high,
                  some_low,
                  none,
                  low_lem p laws (high a) (low a) (low b) (omega arith) (omega arith) (omega arith)
                      (ground arith) (ground arith),
                  whole a,
                  b_low,
                )
                refl
          | inr some_dh ↦
              rw
                (
                  some_high,
                  some_low,
                  some_dh,
                  full_lem p laws (high a) (low a) (omega arith) (omega arith) (ground arith)
                      (high b) (low b) (omega arith) (omega arith) (ground arith),
                  whole a,
                  whole b,
                )
                refl
        ]
      ]
    ]

-- If the builtins and the shifts by less than 32 do what is documented, __udivmoddi4 of 64-bit
-- numbers ends, and gives the quotient and the remainder; for the denominator 0 it gives 0 for both.
pub udivmoddi4_lem :
    (p : Builtins) (a b : ℕ)
    → IsBuiltins p
    → a < 2 ^ 64
    → b < 2 ^ 64
    → udivmoddi4 p a b ≡ some (division a b)
udivmoddi4_lem p a b laws a_word b_word = elim (Bool-cases (b == 0)) [
  | inl none ↦ let nothing : b ≡ 0 = ground arith in rw nothing (by_nothing p laws a a_word)
  | inr some_b ↦ rw some_b (by_positive p laws a a_word b b_word (ground arith))
]
