-- ===== src/SoftMath/Long/Signed.antt =====
-- The signed division of 64-bit numbers: `__divdi3`.
use lib_hsa.Base.{
  if◌then◌else◌, ℕ, ◌==◌, ◌<◌, ◌^◌, ◌≡◌, shift_right_signed, some, ap, ◌∙◌, Option, Bool-cases, inl,
  bit_xor, arith, inr, Bool, ◌/◌, ◌%◌, refl,
}
use lib_hsa.SoftMath.Signed.{
  negate_by, divide_signed_lem, negative, magnitude, unlike, pattern_of, magnitude_quotient,
  magnitude_quotient_word, none_magnitude,
}
use lib_hsa.PacketProcessor.State.{◌>>=◌}
use lib_hsa.SoftMath.Long.{Builtins, divdi3}
use lib_hsa.SoftMath.Long.Quotient.{division, udivmoddi4_lem}
use lib_hsa.SoftMath.Long.Divide.{IsBuiltins}

abbrev first : ℕ × ℕ → ℕ
first r = r.0

abbrev quotient : (a b : ℕ) → ℕ
quotient a b = (division a b).0

quotient-magnitude :
    (a b : ℕ)
    → a < 2 ^ 64
    → b < 2 ^ 64
    → quotient (magnitude 64 a) (magnitude 64 b) ≡ magnitude_quotient 64 a b
quotient-magnitude a b a_word b_word =
    ap
      (λ (t : Bool).
        first (
          if t then (0, 0) else (magnitude 64 a / magnitude 64 b, magnitude 64 a % magnitude 64 b)))
      (none_magnitude 63 a b a_word b_word)
    ∙ elim (Bool-cases (b == 0)) [ inl none ↦ rw none refl | inr some_b ↦ rw some_b refl ]

-- If the builtins and the shifts by less than 32 do what is documented, __divdi3 of two signed
-- 64-bit numbers ends, and gives the quotient of their magnitudes, rounded toward zero, with a minus
-- sign if their signs differ, in 64 bits; for the denominator 0 it gives 0.
pub divdi3_lem :
    (p : Builtins) (a b : ℕ)
    → IsBuiltins p
    → a < 2 ^ 64
    → b < 2 ^ 64
    → divdi3 p a b
      ≡ some (pattern_of 64 (unlike (negative 64 a) (negative 64 b)) (magnitude_quotient 64 a b))
unfolding divdi3
divdi3_lem p a b laws a_word b_word =
    ap
      (λ (r : Option (ℕ × ℕ)). r >>= (λ x.
        some
          (negate_by 64 (bit_xor (shift_right_signed 64 a 63) (shift_right_signed 64 b 63)) (x.0))))
      (udivmoddi4_lem p (negate_by 64 (shift_right_signed 64 a 63) a)
        (negate_by 64 (shift_right_signed 64 b 63) b) laws (omega arith) (omega arith))
    ∙ ap (λ (x : ℕ). some x)
        (divide_signed_lem 63 quotient a b (magnitude_quotient 64 a b) a_word b_word
          (quotient-magnitude a b a_word b_word) (magnitude_quotient_word 63 a b a_word b_word))
