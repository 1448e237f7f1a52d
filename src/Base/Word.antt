-- ===== src/Base/Word.antt =====
-- Machine words as bit patterns: casts that wrap, two's complement, and the bit operations with
-- the masks that the sources use.
use Prim.Native.Nat.{
  ℕ, zero, suc, ◌+◌, ◌-◌, ◌*◌, ◌/◌, ◌%◌, ◌^◌, ◌≤◌, ◌<◌, min, max, bit_and, bit_or, digits,
  bit_and-bitwise, bit_or-bitwise,
}
use mathlib.Core.Path.{◌≡◌, refl, ap, ◌∙◌}
use native.Mathlib.Nat.{pow-suc, one-le-pow, div-div-eq-div-mul}
use native.Mathlib.Omega.{arith}
use lib_hsa.Base.Tests.{ltb, if◌then◌else◌}

abbrev pub u8 : ℕ → ℕ
u8 n = n % 2 ^ 8

abbrev pub u16 : ℕ → ℕ
u16 n = n % 2 ^ 16

abbrev pub u32 : ℕ → ℕ
u32 n = n % 2 ^ 32

abbrev pub u64 : ℕ → ℕ
u64 n = n % 2 ^ 64

infixl 75 ◌<<<◌ ◌>>>◌
abbrev pub ◌<<<◌ : ℕ → ℕ → ℕ
x <<< k = x * 2 ^ k

abbrev pub ◌>>>◌ : ℕ → ℕ → ℕ
x >>> k = x / 2 ^ k

abbrev pub uint32_max : ℕ
uint32_max = 2 ^ 32 - 1

-- The pattern of a C `int` (32 bits) converted to a 64-bit unsigned type: the sign is extended.
abbrev pub int_to_u64 : ℕ → ℕ
int_to_u64 w = if ltb w (2 ^ 31) then w else w + (2 ^ 64 - 2 ^ 32)

-- The shift of a signed number of `bits` bits to the right: the sign is copied.
abbrev pub shift_right_signed : (bits v k : ℕ) → ℕ
shift_right_signed bits v k =
    if ltb v (2 ^ (bits - 1)) then v >>> k else (v >>> k) + (2 ^ bits - 2 ^ (bits - k))

-- The shifts of a 32-bit `int`: bits are lost on the left, the sign is copied on the right.
abbrev pub shift_left_int : ℕ → ℕ → ℕ
shift_left_int v k = u32 (v <<< k)

abbrev pub shift_right_int : ℕ → ℕ → ℕ
shift_right_int v k = shift_right_signed 32 v k

-- The fuel of the digit recursion that the native operations stand for does not matter.
module _ (z : ℕ → ℕ) (f : ℕ → ℕ → ℕ) where
  pub digits_fuel_irrelevant : (n m a b : ℕ) → a ≤ n → a ≤ m → digits z f n a b ≡ digits z f m a b
  digits_fuel_irrelevant zero zero zero b p q = refl
  digits_fuel_irrelevant zero zero (suc a) b p q = absurd (omega arith)
  digits_fuel_irrelevant zero (suc m) zero b p q = refl
  digits_fuel_irrelevant zero (suc m) (suc a) b p q = absurd (omega arith)
  digits_fuel_irrelevant (suc n) zero zero b p q = refl
  digits_fuel_irrelevant (suc n) zero (suc a) b p q = absurd (omega arith)
  digits_fuel_irrelevant (suc n) (suc m) zero b p q = refl
  digits_fuel_irrelevant (suc n) (suc m) (suc a) b p q =
      let half : digits z f n (suc a / 2) (b / 2) ≡ digits z f m (suc a / 2) (b / 2) =
        digits_fuel_irrelevant n m (suc a / 2) (b / 2) (omega arith) (omega arith) in
      ap (λ (t : ℕ). t * 2 + f (suc a % 2) (b % 2)) half

-- The lowest digit of `&`.
pub bit_and_low : (a b : ℕ) → bit_and a b ≡ bit_and (a / 2) (b / 2) * 2 + min (a % 2) (b % 2)
bit_and_low zero b = omega (arith, bit_and-bitwise 0 b, bit_and-bitwise 0 (b / 2))
bit_and_low (suc a) b = omega (
  arith,
  bit_and-bitwise (suc a) b,
  bit_and-bitwise (suc a / 2) (b / 2),
  digits_fuel_irrelevant (λ y. 0) min a (suc a / 2) (suc a / 2) (b / 2) (omega arith) (omega arith),
)

-- The lowest digit of `|`.
pub bit_or_low : (a b : ℕ) → bit_or a b ≡ bit_or (a / 2) (b / 2) * 2 + max (a % 2) (b % 2)
bit_or_low zero b = omega (arith, bit_or-bitwise 0 b, bit_or-bitwise 0 (b / 2))
bit_or_low (suc a) b = omega (
  arith,
  bit_or-bitwise (suc a) b,
  bit_or-bitwise (suc a / 2) (b / 2),
  digits_fuel_irrelevant (λ y. y) max a (suc a / 2) (suc a / 2) (b / 2) (omega arith) (omega arith),
)

bit_and-zero_bound : (n a : ℕ) → a ≤ n → bit_and a 0 ≡ 0
bit_and-zero_bound n zero h = refl
bit_and-zero_bound zero (suc a) h = absurd (omega arith)
bit_and-zero_bound (suc n) (suc a) h =
    omega (arith, bit_and_low (suc a) 0, bit_and-zero_bound n (suc a / 2) (omega arith))

bit_or-zero_bound : (n a : ℕ) → a ≤ n → bit_or a 0 ≡ a
bit_or-zero_bound n zero h = refl
bit_or-zero_bound zero (suc a) h = absurd (omega arith)
bit_or-zero_bound (suc n) (suc a) h =
    omega (arith, bit_or_low (suc a) 0, bit_or-zero_bound n (suc a / 2) (omega arith))

double_div : (k p r : ℕ) → (p * 2 ^ suc k + r) / 2 ≡ p * 2 ^ k + r / 2
double_div k p r = omega (arith, ap (λ (t : ℕ). p * t) (pow-suc 2 k))

double_mod : (k p r : ℕ) → (p * 2 ^ suc k + r) % 2 ≡ r % 2
double_mod k p r = omega (arith, ap (λ (t : ℕ). p * t) (pow-suc 2 k))

pub bit_and-zero : (a : ℕ) → bit_and a 0 ≡ 0
bit_and-zero a = bit_and-zero_bound a a (omega arith)

-- `&` of a number, split at bit `k`, with the mask of the `k` low bits.
bit_and_split : (k p r : ℕ) → r < 2 ^ k → bit_and (p * 2 ^ k + r) (2 ^ k - 1) ≡ r
bit_and_split zero p r h =
    omega (arith, bit_and-zero_bound (p * 2 ^ 0 + r) (p * 2 ^ 0 + r) (omega arith))
bit_and_split (suc k) p r h = ground (
  arith,
  bit_and_low (p * 2 ^ suc k + r) (2 ^ suc k - 1),
  double_div k p r,
  double_mod k p r,
  pow-suc 2 k,
  one-le-pow k 2,
  bit_and_split k p (r / 2),
)

-- `&` with the mask of the `k` low bits is the remainder by `2 ^ k`.
pub bit_and_mask : (k a : ℕ) → bit_and a (2 ^ k - 1) ≡ a % 2 ^ k
bit_and_mask k a = ground (arith, one-le-pow k 2, bit_and_split k (a / 2 ^ k) (a % 2 ^ k))

-- `|` of a number shifted left by `k` and a number of `k` bits is their sum.
pub bit_or_split : (k p r : ℕ) → r < 2 ^ k → bit_or (p * 2 ^ k) r ≡ p * 2 ^ k + r
bit_or_split zero p r h = ground (arith, bit_or-zero_bound (p * 1) (p * 1))
bit_or_split (suc k) p r h = ground (
  arith,
  bit_or_low (p * 2 ^ suc k) r,
  double_div k p 0,
  double_mod k p 0,
  pow-suc 2 k,
  bit_or_split k p (r / 2),
)

-- The same with the operands exchanged.
pub bit_or_split_right : (k p r : ℕ) → r < 2 ^ k → bit_or r (p * 2 ^ k) ≡ r + p * 2 ^ k
bit_or_split_right zero p zero h = omega (arith, bit_or-bitwise 0 (p * 1))
bit_or_split_right zero p (suc r) h = absurd (omega arith)
bit_or_split_right (suc k) p r h = ground (
  arith,
  bit_or_low r (p * 2 ^ suc k),
  double_div k p 0,
  double_mod k p 0,
  pow-suc 2 k,
  bit_or_split_right k p (r / 2),
)

double : (k : ℕ) → 2 * 2 ^ k ≡ 2 ^ suc k
double k = omega (arith, pow-suc 2 k)

half_shift : (k a : ℕ) → a / 2 / 2 ^ k ≡ a / 2 ^ suc k
half_shift k a = div-div-eq-div-mul a 2 (2 ^ k) ∙ ap (λ (x : ℕ). a / x) (double k)

whole : (a : ℕ) → a / 1 ≡ a
whole a = omega arith

add_nothing : (m : ℕ) → m + 0 ≡ m
add_nothing m = omega arith

times_one : (m : ℕ) → m * 1 ≡ m
times_one m = omega arith

-- `&` with a mask that starts at bit `k`.
pub bit_and_high : (k m a : ℕ) → bit_and a (m * 2 ^ k) ≡ bit_and (a / 2 ^ k) m * 2 ^ k
bit_and_high zero m a =
    omega (arith, ap (λ (x : ℕ). bit_and x m) (whole a), ap (λ (x : ℕ). bit_and a x) (times_one m))
bit_and_high (suc k) m a = ground (
  arith,
  bit_and_low a (m * 2 ^ suc k + 0),
  ap (λ (x : ℕ). bit_and (a / 2) x) (double_div k m 0),
  ap (λ (x : ℕ). bit_and a x) (add_nothing (m * 2 ^ suc k)),
  double_mod k m 0,
  ap (λ (t : ℕ). bit_and (a / 2 ^ suc k) m * t) (pow-suc 2 k),
  bit_and_high k m (a / 2),
  ap (λ (x : ℕ). bit_and (a / 2) x) (add_nothing (m * 2 ^ k)),
  ap (λ (x : ℕ). bit_and x m) (half_shift k a),
)
