-- ===== src/SoftMath/Tests.antt =====
-- Runs of the software arithmetic at concrete inputs, and the instances of its theorems there.
use lib_hsa.SoftMath.Unsigned.{udivsi3, CountsZeros}
use lib_hsa.SoftMath.Long.{Builtins, udivmoddi4, divide_by_full, long_loop, long_round}
use lib_hsa.SoftMath.Long.Divide.{IsBuiltins}
use lib_hsa.SoftMath.Long.Quotient.{division, udivmoddi4_lem}
use lib_hsa.SoftMath.Divide.{divide_loop}
use lib_hsa.SoftMath.Round.{divide_round}
use lib_hsa.Base.{
  leb, ◌==◌, ◌<<<◌, ◌>>>◌, if◌then◌else◌, ◌≡◌, ◌^◌, ◌+◌, some, ◌*◌, refl, ◌%◌, arith, ℕ, u32, ◌/◌,
  ap, suc, ◌<◌, ◌≤◌, Bool-cases, inl, ◌∙◌, sym, inr, ◌-◌,
}
use lib_hsa.SoftMath.Multiply.{mulsi3, mul_loop, mulsi3_lem}
use lib_hsa.SoftMath.Modulo.{umodsi3, left_justify, subtract_loop, umodsi3_lem}
use native.Mathlib.Nat.{
  mod-eq_of_lt, pow-suc, div-div-eq-div-mul, div-add-mod, add-mul-mod_self_left, zero-mod,
}
use Prim.Native.Nat.{zero}
use lib_hsa.SoftMath.Fpga.{divdi3, muldi3}
use lib_hsa.SoftMath.LongMultiply.{muldi3_lem}
use lib_hsa.SoftMath.Signed.{pattern_of, unlike, negative, magnitude_quotient}
use lib_hsa.SoftMath.Long.Signed.{divdi3_lem}

-- The 32-bit product of 2^31 + 5 and 6 loses its top bits.
mulsi3_run : mulsi3 32 (2 ^ 31 + 5) 6 ≡ some 30
unfolding mulsi3 mul_loop
mulsi3_run = refl

mulsi3_lem_example : mulsi3 32 (2 ^ 31 + 5) 6 ≡ some ((2 ^ 31 + 5) * 6 % 2 ^ 32)
mulsi3_lem_example = mulsi3_lem 32 (2 ^ 31 + 5) 6 (omega arith)

umodsi3_run : umodsi3 1000 7 ≡ some 6
unfolding umodsi3 left_justify subtract_loop
umodsi3_run = refl

umodsi3_lem_example : umodsi3 1000 7 ≡ some (if 7 == 0 then 0 else 1000 % 7)
umodsi3_lem_example = umodsi3_lem 1000 7 (omega arith) (omega arith)

-- Leading zeros, counted for at most `fuel` places.
unfoldable count_leading : (fuel x : ℕ) → ℕ
count_leading zero x = 0
count_leading (suc fuel) x =
    let rest = count_leading fuel (x * 2) in if leb (2 ^ 31) x then 0 else suc rest

-- Trailing zeros, counted for at most `fuel` places.
unfoldable count_trailing : (fuel x : ℕ) → ℕ
count_trailing zero x = 0
count_trailing (suc fuel) x =
    let rest = count_trailing fuel (x / 2) in if x % 2 == 1 then 0 else suc rest

leading_counted :
    (fuel x : ℕ)
    → x < 2 ^ 32
    → 2 ^ 31 ≤ x * 2 ^ fuel
    → (count_leading fuel x ≤ fuel)
      × (2 ^ 31 ≤ x * 2 ^ count_leading fuel x)
      × (x * 2 ^ count_leading fuel x < 2 ^ 32)
unfolding count_leading
leading_counted zero x word enough = (omega arith, omega arith, omega arith)
leading_counted (suc fuel) x word enough = elim (Bool-cases (leb (2 ^ 31) x)) [
  | inl set ↦ rw set (omega arith, ground arith, omega arith)
  | inr clear ↦
      let rest =
        leading_counted fuel (x * 2) (ground arith)
          (omega (arith, enough, ap (λ (y : ℕ). x * y) (pow-suc 2 fuel))) in
      let next = ap (λ (y : ℕ). x * y) (pow-suc 2 (count_leading fuel (x * 2))) in
      rw clear (omega (arith, rest.0), omega (arith, rest.1, next), omega (arith, rest.2, next))
]

trailing_counted :
    (fuel x : ℕ)
    → 0 < x
    → x < 2 ^ suc fuel
    → (count_trailing fuel x ≤ fuel)
      × (x % 2 ^ count_trailing fuel x ≡ 0)
      × (x / 2 ^ count_trailing fuel x % 2 ≡ 1)
unfolding count_trailing
trailing_counted zero x positive word = (omega arith, omega arith, omega arith)
trailing_counted (suc fuel) x positive word = elim (Bool-cases (x % 2 == 1)) [
  | inl set ↦ rw set (omega arith, omega arith, ground arith)
  | inr clear ↦
      let rest =
        trailing_counted fuel (x / 2) (ground arith) (omega (arith, word, pow-suc 2 (suc fuel))) in
      rw clear (
        omega (arith, rest.0),
        even (count_trailing fuel (x / 2)) (ground arith) (rest.1),
        ap (λ (y : ℕ). y % 2) (halved (count_trailing fuel (x / 2))) ∙ rest.2,
      )
]
  where
    double : (c : ℕ) → 2 ^ suc c ≡ 2 * 2 ^ c
    double c = omega (arith, pow-suc 2 c)

    halved : (c : ℕ) → x / 2 ^ suc c ≡ x / 2 / 2 ^ c
    halved c = ap (λ (y : ℕ). x / y) (double c) ∙ sym (div-div-eq-div-mul x 2 (2 ^ c))

    even : (c : ℕ) → x ≡ x / 2 * 2 → x / 2 % 2 ^ c ≡ 0 → x % 2 ^ suc c ≡ 0
    even c e z =
        ap (λ (y : ℕ). y % 2 ^ suc c) parts
        ∙ add-mul-mod_self_left 0 (2 ^ suc c) (x / 2 / 2 ^ c)
        ∙ zero-mod (2 ^ suc c)
      where
        parts : x ≡ 0 + 2 ^ suc c * (x / 2 / 2 ^ c)
        parts = omega (
          arith,
          e,
          z,
          div-add-mod (x / 2) (2 ^ c),
          ap (λ (y : ℕ). y * (x / 2 / 2 ^ c)) (pow-suc 2 c),
        )

-- The builtins of a compiler for a processor that shifts by the five low bits of the count.
abbrev builtins : Builtins
builtins = record {
  clz = count_leading 31;
  ctz = count_trailing 31;
  shift_left = λ word count. u32 (word <<< (count % 32));
  shift_right = λ word count. word >>> (count % 32);
}

counts : CountsZeros (count_leading 31)
counts = record {
  few = λ x positive word. omega (arith, (leading_counted 31 x word (omega arith)).0);
  leading = λ x positive word. (leading_counted 31 x word (omega arith)).1;
  in_word = λ x positive word. (leading_counted 31 x word (omega arith)).2;
}

builtins-IsBuiltins : IsBuiltins builtins
builtins-IsBuiltins = record {
  zeros = counts;
  trailing = record {
    few = λ x positive word. omega (arith, (trailing_counted 31 x positive word).0);
    zeros = λ x positive word. (trailing_counted 31 x positive word).1;
    set = λ x positive word. (trailing_counted 31 x positive word).2;
  };
  shifts = record {
    left = λ x k few. ap (λ (y : ℕ). u32 (x <<< y)) (mod-eq_of_lt few);
    right = λ x k few. ap (λ (y : ℕ). x >>> y) (mod-eq_of_lt few);
  };
}

udivsi3_run : udivsi3 (count_leading 31) 1000000 7 ≡ 142857
unfolding udivsi3 count_leading divide_loop divide_round
udivsi3_run = refl

udivmoddi4_run : udivmoddi4 builtins (10 ^ 19) (10 ^ 10 + 7) ≡ some (999999999, 3000000007)
unfolding udivmoddi4 divide_by_full count_leading long_loop long_round
udivmoddi4_run = refl

udivmoddi4_lem_example :
    udivmoddi4 builtins (10 ^ 19) (10 ^ 10 + 7) ≡ some (division (10 ^ 19) (10 ^ 10 + 7))
udivmoddi4_lem_example =
    udivmoddi4_lem builtins (10 ^ 19) (10 ^ 10 + 7) builtins-IsBuiltins (omega arith) (omega arith)

-- -100 divided by 7.
divdi3_lem_example :
    divdi3 builtins (2 ^ 64 - 100) 7
    ≡ some (
        pattern_of 64
          (unlike (negative 64 (2 ^ 64 - 100)) (negative 64 7))
          (magnitude_quotient 64 (2 ^ 64 - 100) 7))
divdi3_lem_example =
    divdi3_lem builtins (2 ^ 64 - 100) 7 builtins-IsBuiltins (omega arith) (omega arith)

muldi3_lem_example : muldi3 (2 ^ 40 + 3) (2 ^ 30 + 5) ≡ some ((2 ^ 40 + 3) * (2 ^ 30 + 5) % 2 ^ 64)
muldi3_lem_example = muldi3_lem (2 ^ 40 + 3) (2 ^ 30 + 5) (omega arith) (omega arith)
