-- ===== src/SoftMath/Multiply.antt =====
-- `__mulsi3`. A `long` has `w` bits: 64 on the packet processor.
use native.Mathlib.Nat.{
  add-mul-mod_self_left, div-add-mod, mod-eq_of_lt, mod-lt, pow-suc, one-le-pow,
}
use mathlib.Core.Bool.{false}
use lib_hsa.Base.{
  ℕ, zero, ◌<◌, Option, ◌^◌, some, ◌+◌, ◌*◌, suc, ◌≡◌, none, ◌%◌, ◌>>>◌, ◌/◌, ◌<<<◌, sym,
  if◌then◌else◌, ap, ◌∙◌, bit_and, ◌==◌, arith, bit_and_mask, Bool-cases, inl, ==→eq, inr,
}

-- The loop, for at most `fuel` rounds.
unfoldable pub mul_loop : (w fuel a b res : ℕ) → Option ℕ
mul_loop w fuel zero b res = some res
mul_loop w zero (suc a) b res = none
mul_loop w (suc fuel) (suc a) b res =
    mul_loop w fuel (suc a >>> 1) ((b <<< 1) % 2 ^ w)
      (if bit_and (suc a) 1 == 0 then res else (res + b) % 2 ^ w)

unfoldable pub mulsi3 : (w a b : ℕ) → Option ℕ
mulsi3 w a b = mul_loop w w a b 0

combined_sum :
    (M h d b res q1 r1 q2 r2 : ℕ)
    → M * q1 + r1 ≡ res + d * b
    → M * q2 + r2 ≡ b * 2
    → res + (2 * h + d) * b ≡ r1 + h * r2 + M * (q1 + h * q2)
combined_sum M h d b res q1 r1 q2 r2 e1 e2 = omega (arith, e1, ap (λ (t : ℕ). h * t) e2)

-- One round keeps the sum of the result and the product.
round_sum :
    (M h d b res : ℕ) → ((res + d * b) % M + h * (b * 2 % M)) % M ≡ (res + (2 * h + d) * b) % M
round_sum M h d b res = sym (
    ap (λ (x : ℕ). x % M)
      (combined_sum M h d b res ((res + d * b) / M) ((res + d * b) % M) (b * 2 / M) (b * 2 % M)
        (div-add-mod (res + d * b) M) (div-add-mod (b * 2) M))
    ∙ add-mul-mod_self_left ((res + d * b) % M + h * (b * 2 % M)) M
        ((res + d * b) / M + h * (b * 2 / M)))

-- The conditional addition of a round.
added :
    (M a b res : ℕ)
    → res < M
    → (if bit_and a 1 == 0 then res else (res + b) % M) ≡ (res + a % 2 * b) % M
added M a b res fits = rw (bit_and_mask 1 a) (elim (Bool-cases (a % 2 == 0)) [
  | inl even ↦
      rw (==→eq (a % 2) 0 even) (sym (ap (λ (x : ℕ). x % M) (without b res) ∙ mod-eq_of_lt fits))
  | inr odd ↦ rw (odd, one_left odd) (ap (λ (x : ℕ). x % M) (once b res))
])
  where
    without : (b res : ℕ) → res + 0 * b ≡ res
    without b res = omega arith

    once : (b res : ℕ) → res + b ≡ res + 1 * b
    once b res = omega arith

    one_left : (a % 2 == 0) ≡ false → a % 2 ≡ 1
    one_left odd = ground arith

mul_loop_lem :
    (w fuel a b res : ℕ)
    → a < 2 ^ fuel
    → res < 2 ^ w
    → mul_loop w fuel a b res ≡ some ((res + a * b) % 2 ^ w)
unfolding mul_loop
mul_loop_lem w fuel zero b res small fits =
    ap (λ (x : ℕ). some x) (sym (ap (λ (x : ℕ). x % 2 ^ w) (no_product b res) ∙ mod-eq_of_lt fits))
  where
    no_product : (b res : ℕ) → res + 0 * b ≡ res
    no_product b res = omega arith
mul_loop_lem w zero (suc a) b res small fits = absurd (omega arith)
mul_loop_lem w (suc fuel) (suc a) b res small fits =
    let halves : 2 * (suc a / 2) + suc a % 2 ≡ suc a = omega arith in
    ap (λ (x : ℕ). mul_loop w fuel (suc a / 2) (b * 2 % 2 ^ w) x) (added (2 ^ w) (suc a) b res fits)
    ∙ mul_loop_lem w fuel (suc a / 2) (b * 2 % 2 ^ w) ((res + suc a % 2 * b) % 2 ^ w)
        (omega (arith, pow-suc 2 fuel))
        (mod-lt (res + suc a % 2 * b) (one-le-pow w 2 (omega arith)))
    ∙ ap (λ (x : ℕ). some x)
        (round_sum (2 ^ w) (suc a / 2) (suc a % 2) b res
          ∙ ap (λ (x : ℕ). (res + x * b) % 2 ^ w) halves)

-- `__mulsi3` of `w`-bit words ends, and gives their product modulo the width.
pub mulsi3_lem : (w a b : ℕ) → a < 2 ^ w → mulsi3 w a b ≡ some (a * b % 2 ^ w)
unfolding mulsi3
mulsi3_lem w a b small =
    mul_loop_lem w w a b 0 small (omega (arith, one-le-pow w 2))
    ∙ ap (λ (x : ℕ). some (x % 2 ^ w)) (omega arith)
