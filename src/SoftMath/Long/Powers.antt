-- ===== src/SoftMath/Long/Powers.antt =====
-- The test `x & (x - 1)` for powers of two.
use lib_hsa.Base.{
  ℕ, bit_and, ◌≤◌, ◌<◌, ◌≡◌, ◌^◌, ◌*◌, ◌%◌, ◌+◌, suc, ◌-◌, arith, ◌/◌, bit_and_low, ◌∙◌, refl, ap,
  sym,
}
use Prim.Native.Nat.{zero}
use native.Mathlib.Nat.{pow-suc, one-le-pow, div-add-mod}

-- What the compiler documents of `__builtin_ctz`: the number of trailing zero bits of a word that is
-- not zero.
pub record CountsTrailing (ctz : ℕ → ℕ) : Type 0 where
  pub few : (x : ℕ) → 0 < x → x < 2 ^ 32 → ctz x < 32
  pub zeros : (x : ℕ) → 0 < x → x < 2 ^ 32 → x % 2 ^ ctz x ≡ 0
  pub set : (x : ℕ) → 0 < x → x < 2 ^ 32 → x / 2 ^ ctz x % 2 ≡ 1

bit_and_self_bound : (n a : ℕ) → a ≤ n → bit_and a a ≡ a
bit_and_self_bound n zero h = refl
bit_and_self_bound zero (suc a) h = absurd (omega arith)
bit_and_self_bound (suc n) (suc a) h =
    ground (arith, bit_and_low (suc a) (suc a), bit_and_self_bound n (suc a / 2) (omega arith))

-- `x & (x - 1)` clears the lowest bit that is set.
bit_and_pred : (c k : ℕ) → bit_and ((2 * k + 1) * 2 ^ c) ((2 * k + 1) * 2 ^ c - 1) ≡ 2 * k * 2 ^ c
bit_and_pred zero k =
    bit_and_low ((2 * k + 1) * 2 ^ 0) ((2 * k + 1) * 2 ^ 0 - 1)
    ∙ rw (half, half_pred, odd, even, bit_and_self_bound k k (omega arith)) (omega arith)
  where
    half : (2 * k + 1) * 2 ^ 0 / 2 ≡ k
    half = omega arith

    half_pred : ((2 * k + 1) * 2 ^ 0 - 1) / 2 ≡ k
    half_pred = omega arith

    odd : (2 * k + 1) * 2 ^ 0 % 2 ≡ 1
    odd = omega arith

    even : ((2 * k + 1) * 2 ^ 0 - 1) % 2 ≡ 0
    even = omega arith
bit_and_pred (suc c) k =
    bit_and_low ((2 * k + 1) * 2 ^ suc c) ((2 * k + 1) * 2 ^ suc c - 1)
    ∙ rw (half, half_pred, bit_and_pred c k, even)
        (omega (arith, ap (λ (y : ℕ). 2 * k * y) (pow-suc 2 c)))
  where
    even : (2 * k + 1) * 2 ^ suc c % 2 ≡ 0
    even = omega (arith, ap (λ (y : ℕ). (2 * k + 1) * y) (pow-suc 2 c))

    half : (2 * k + 1) * 2 ^ suc c / 2 ≡ (2 * k + 1) * 2 ^ c
    half = omega (arith, ap (λ (y : ℕ). (2 * k + 1) * y) (pow-suc 2 c))

    half_pred : ((2 * k + 1) * 2 ^ suc c - 1) / 2 ≡ (2 * k + 1) * 2 ^ c - 1
    half_pred =
        omega (arith, ap (λ (y : ℕ). (2 * k + 1) * y) (pow-suc 2 c), one-le-pow c 2 (omega arith))

-- A word that passes the test is a power of two.
pub power_of_two :
    (ctz : ℕ → ℕ) (x : ℕ)
    → CountsTrailing ctz
    → 0 < x
    → x < 2 ^ 32
    → bit_and x (x - 1) ≡ 0
    → x ≡ 2 ^ ctz x
power_of_two ctz x counts positive word h =
    omega (arith, parts, none_left (x / 2 ^ ctz x / 2) cleared)
  where
    parts : x ≡ (2 * (x / 2 ^ ctz x / 2) + 1) * 2 ^ ctz x
    parts = omega (
      arith,
      div-add-mod x (2 ^ ctz x),
      counts.zeros x positive word,
      ap (λ (y : ℕ). y * 2 ^ ctz x) odd,
    )
      where
        odd : x / 2 ^ ctz x ≡ 2 * (x / 2 ^ ctz x / 2) + 1
        odd = omega (arith, counts.set x positive word)

    cleared : 2 * (x / 2 ^ ctz x / 2) * 2 ^ ctz x ≡ 0
    cleared =
        sym (bit_and_pred (ctz x) (x / 2 ^ ctz x / 2))
        ∙ ap (λ (y : ℕ). bit_and y (y - 1)) (sym parts)
        ∙ h

    none_left : (k : ℕ) → 2 * k * 2 ^ ctz x ≡ 0 → 2 * k * 2 ^ ctz x + 2 ^ ctz x ≡ 2 ^ ctz x
    none_left k e = omega (arith, e)
