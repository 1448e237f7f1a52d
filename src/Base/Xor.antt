-- ===== src/Base/Xor.antt =====
-- The operator `^` with a word of ones, and the sign of a signed number.
use lib_hsa.Base.Word.{digits_fuel_irrelevant}
use Prim.Native.Nat.{
  ℕ, zero, suc, ◌+◌, ◌-◌, ◌*◌, ◌/◌, ◌%◌, ◌^◌, ◌≤◌, ◌<◌, bit_xor, bit_xor-bitwise, differ,
}
use mathlib.Core.Path.{◌≡◌, refl, ◌∙◌}
use native.Mathlib.Nat.{pow-suc, one-le-pow}
use native.Mathlib.Omega.{arith}

bit_xor_low : (a b : ℕ) → bit_xor a b ≡ bit_xor (a / 2) (b / 2) * 2 + differ (a % 2) (b % 2)
bit_xor_low zero b = omega (arith, bit_xor-bitwise 0 b, bit_xor-bitwise 0 (b / 2))
bit_xor_low (suc a) b = omega (
  arith,
  bit_xor-bitwise (suc a) b,
  bit_xor-bitwise (suc a / 2) (b / 2),
  digits_fuel_irrelevant (λ y. y) differ a (suc a / 2) (suc a / 2) (b / 2) (omega arith)
      (omega arith),
)

differ-one : (x : ℕ) → x ≤ 1 → differ x 1 ≡ 1 - x
differ-one zero h = refl
differ-one (suc zero) h = refl
differ-one (suc (suc x)) h = absurd (omega arith)

differ-zero : (x : ℕ) → differ x 0 ≡ x
differ-zero zero = refl
differ-zero (suc x) = refl

bit_xor-zero_bound : (n a : ℕ) → a ≤ n → bit_xor a 0 ≡ a
bit_xor-zero_bound n zero h = refl
bit_xor-zero_bound zero (suc a) h = absurd (omega arith)
bit_xor-zero_bound (suc n) (suc a) h = omega (
  arith,
  bit_xor_low (suc a) 0,
  differ-zero (suc a % 2),
  bit_xor-zero_bound n (suc a / 2) (omega arith),
)

pub bit_xor-zero : (a : ℕ) → bit_xor a 0 ≡ a
bit_xor-zero a = bit_xor-zero_bound a a (omega arith)

-- `^` with a word of ones.
pub bit_xor-ones : (k a : ℕ) → a < 2 ^ k → bit_xor a (2 ^ k - 1) ≡ 2 ^ k - 1 - a
bit_xor-ones zero zero h = refl
bit_xor-ones zero (suc a) h = absurd (omega arith)
bit_xor-ones (suc k) a h =
    bit_xor_low a (2 ^ suc k - 1)
    ∙ rw
        (
          half,
          last,
          differ-one (a % 2) (omega arith),
          bit_xor-ones k (a / 2) (omega (arith, pow-suc 2 k)),
        )
        (omega (arith, pow-suc 2 k))
  where
    half : (2 ^ suc k - 1) / 2 ≡ 2 ^ k - 1
    half = omega (arith, pow-suc 2 k, one-le-pow k 2 (omega arith))

    last : (2 ^ suc k - 1) % 2 ≡ 1
    last = omega (arith, pow-suc 2 k, one-le-pow k 2 (omega arith))
