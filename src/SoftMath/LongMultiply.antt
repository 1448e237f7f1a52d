-- ===== src/SoftMath/LongMultiply.antt =====
-- `__muldsi3` and `__muldi3`: the product of 64-bit numbers from products of 16 and 32 bits. A `long`
-- has 64 bits.
use lib_hsa.Base.{
  ℕ, ◌<<<◌, ◌>>>◌, ◌^◌, ◌<◌, Option, u32, ◌%◌, ◌-◌, bit_and, ◌+◌, ◌*◌, some, ◌/◌, ◌≤◌, arith, ◌≡◌,
  u64, bit_and_mask, refl, ap, ◌∙◌, int_to_u64, Bool-cases, ltb, inl, inr,
}
use lib_hsa.PacketProcessor.State.{◌>>=◌}
use lib_hsa.SoftMath.Multiply.{mulsi3, mulsi3_lem}
use native.Mathlib.Nat.{mul-le-mul, div-add-mod}

-- `(su_int)~0 >> bits_in_word_2`
abbrev pub lower_mask : ℕ
lower_mask = 2 ^ 16 - 1

-- A product of halves is added to `r.s.low` at its upper half: `r.s.low`, and `t >> 16`.
unfoldable pub add_half : (r_low product : ℕ) → ℕ × ℕ
add_half r_low product =
    let t = u32 ((r_low >>> 16) + product) in
    (u32 (bit_and r_low lower_mask + u32 (bit_and t lower_mask <<< 16)), t >>> 16)

-- `high` and `low` of the product, from the four products of halves.
abbrev pub muldsi3_sum : (low_low high_low low_high high_high : ℕ) → ℕ × ℕ
muldsi3_sum low_low high_low low_high high_high =
    let first = add_half (u32 low_low) high_low in
    let second = add_half (first.0) low_high in
    (u32 (u32 (first.1 + second.1) + high_high), second.0)

unfoldable pub muldsi3 : (a b : ℕ) → Option (ℕ × ℕ)
muldsi3 a b = mulsi3 64 (bit_and a lower_mask) (bit_and b lower_mask) >>= (λ low_low.
    mulsi3 64 (a >>> 16) (bit_and b lower_mask) >>= (λ high_low.
      mulsi3 64 (b >>> 16) (bit_and a lower_mask) >>= (λ low_high.
        mulsi3 64 (a >>> 16) (b >>> 16)
        >>= (λ high_high. some (muldsi3_sum low_low high_low low_high high_high)))))

-- The high halves are signed, and their sign is extended.
unfoldable pub muldi3 : (a b : ℕ) → Option ℕ
muldi3 a b = muldsi3 (a % 2 ^ 32) (b % 2 ^ 32) >>= (λ r.
    mulsi3 64 (int_to_u64 (a / 2 ^ 32)) (b % 2 ^ 32) >>= (λ high_low.
      mulsi3 64 (a % 2 ^ 32) (int_to_u64 (b / 2 ^ 32))
      >>= (λ low_high. some (u32 (r.0 + u64 (high_low + low_high)) * 2 ^ 32 + r.1))))

-- What a half product adds.
add_half_lem :
    (r_low product : ℕ)
    → r_low < 2 ^ 32
    → product ≤ 65535 * 65535
    → let r = add_half r_low product in
      (r.0 + r.1 * 2 ^ 32 ≡ r_low + product * 2 ^ 16) × (r.0 < 2 ^ 32)
unfolding add_half
add_half_lem r_low product word small =
    rw (bit_and_mask 16 r_low, bit_and_mask 16 (u32 ((r_low >>> 16) + product)))
      (omega arith, omega arith)

-- The four products of halves make the product.
muldsi3_sum_lem :
    (p0 p1 p2 p3 : ℕ)
    → p0 ≤ 65535 * 65535
    → p1 ≤ 65535 * 65535
    → p2 ≤ 65535 * 65535
    → p3 ≤ 65535 * 65535
    → let r = muldsi3_sum p0 p1 p2 p3 in
      (r.0 * 2 ^ 32 + r.1 ≡ p3 * 2 ^ 32 + (p1 + p2) * 2 ^ 16 + p0) × (r.1 < 2 ^ 32)
muldsi3_sum_lem p0 p1 p2 p3 h0 h1 h2 h3 =
    let first = add_half_lem (u32 p0) p1 (omega arith) h1 in
    let second = add_half_lem ((add_half (u32 p0) p1).0) p2 (first.1) h2 in
    (omega (arith, first.0, second.0, first.1, second.1), second.1)

-- A product of numbers that are split in two.
split_product : (m a b : ℕ) → a * b ≡ (a / m * m + a % m) * (b / m * m + b % m)
split_product m a b =
    ap (λ (y : ℕ). y * b) (parts a) ∙ ap (λ (y : ℕ). (a / m * m + a % m) * y) (parts b)
  where
    parts : (x : ℕ) → x ≡ x / m * m + x % m
    parts x = omega (arith, div-add-mod x m)

same_pair : (x y q r : ℕ) → x ≡ q → y ≡ r → ◌≡◌ {A = ℕ × ℕ} (x, y) (q, r)
same_pair x y q r e f = rw (e, f) refl

half_bound : (x y : ℕ) → x < 2 ^ 16 → y < 2 ^ 16 → x * y ≤ 65535 * 65535
half_bound x y h k =
    let x_bound : x ≤ 65535 = omega arith in
    let y_bound : y ≤ 65535 = omega arith in mul-le-mul x_bound y_bound

half_product : (x y : ℕ) → x < 2 ^ 16 → y < 2 ^ 16 → x * y % 2 ^ 64 ≡ x * y
half_product x y h k = omega (arith, half_bound x y h k)

-- `__muldsi3` of two 32-bit words gives the halves of their product.
muldsi3_lem :
    (a b : ℕ) → a < 2 ^ 32 → b < 2 ^ 32 → muldsi3 a b ≡ some (a * b / 2 ^ 32, a * b % 2 ^ 32)
unfolding muldsi3
muldsi3_lem a b a_word b_word =
    rw
      (
        bit_and_mask 16 a,
        bit_and_mask 16 b,
        mulsi3_lem 64 (a % 2 ^ 16) (b % 2 ^ 16) (omega arith),
        mulsi3_lem 64 (a / 2 ^ 16) (b % 2 ^ 16) (omega arith),
        mulsi3_lem 64 (b / 2 ^ 16) (a % 2 ^ 16) (omega arith),
        mulsi3_lem 64 (a / 2 ^ 16) (b / 2 ^ 16) (omega arith),
        half_product (a % 2 ^ 16) (b % 2 ^ 16) (omega arith) (omega arith),
        half_product (a / 2 ^ 16) (b % 2 ^ 16) (omega arith) (omega arith),
        half_product (b / 2 ^ 16) (a % 2 ^ 16) (omega arith) (omega arith),
        half_product (a / 2 ^ 16) (b / 2 ^ 16) (omega arith) (omega arith),
      )
      (ap (λ (x : ℕ × ℕ). some x)
        (same_pair (sum.0) (sum.1) (a * b / 2 ^ 32) (a * b % 2 ^ 32)
          (omega (arith, total.0, total.1, split_product (2 ^ 16) a b))
          (omega (arith, total.0, total.1, split_product (2 ^ 16) a b))))
  where
    sum : ℕ × ℕ
    sum =
        muldsi3_sum (a % 2 ^ 16 * (b % 2 ^ 16)) (a / 2 ^ 16 * (b % 2 ^ 16))
          (b / 2 ^ 16 * (a % 2 ^ 16)) (a / 2 ^ 16 * (b / 2 ^ 16))

    total :
        (sum.0 * 2 ^ 32 + sum.1
          ≡ a / 2 ^ 16 * (b / 2 ^ 16) * 2 ^ 32
            + (a / 2 ^ 16 * (b % 2 ^ 16) + b / 2 ^ 16 * (a % 2 ^ 16)) * 2 ^ 16
            + a % 2 ^ 16 * (b % 2 ^ 16))
        × (sum.1 < 2 ^ 32)
    total =
        muldsi3_sum_lem (a % 2 ^ 16 * (b % 2 ^ 16)) (a / 2 ^ 16 * (b % 2 ^ 16))
          (b / 2 ^ 16 * (a % 2 ^ 16)) (a / 2 ^ 16 * (b / 2 ^ 16))
          (half_bound (a % 2 ^ 16) (b % 2 ^ 16) (omega arith) (omega arith))
          (half_bound (a / 2 ^ 16) (b % 2 ^ 16) (omega arith) (omega arith))
          (half_bound (b / 2 ^ 16) (a % 2 ^ 16) (omega arith) (omega arith))
          (half_bound (a / 2 ^ 16) (b / 2 ^ 16) (omega arith) (omega arith))

module _ (x y : ℕ) (word : x < 2 ^ 32) where
  extended_word : int_to_u64 x < 2 ^ 64
  extended_word = ground arith

  -- The extension of the sign does not change the low half of a product.
  extended_product : int_to_u64 x * y % 2 ^ 64 % 2 ^ 32 ≡ x * y % 2 ^ 32
  extended_product = elim (Bool-cases (ltb x (2 ^ 31))) [
    | inl positive ↦ rw positive (omega arith)
    | inr negative ↦ rw negative (omega arith)
  ]

-- `__muldi3` of two 64-bit numbers ends, and gives their product modulo 2^64.
pub muldi3_lem : (a b : ℕ) → a < 2 ^ 64 → b < 2 ^ 64 → muldi3 a b ≡ some (a * b % 2 ^ 64)
unfolding muldi3
muldi3_lem a b a_word b_word =
    rw
      (
        muldsi3_lem (a % 2 ^ 32) (b % 2 ^ 32) (omega arith) (omega arith),
        mulsi3_lem 64 (int_to_u64 (a / 2 ^ 32)) (b % 2 ^ 32)
            (extended_word (a / 2 ^ 32) 0 (omega arith)),
        mulsi3_lem 64 (a % 2 ^ 32) (int_to_u64 (b / 2 ^ 32)) (omega arith),
      )
      (ap (λ (x : ℕ). some x)
        (omega (
          arith,
          split_product (2 ^ 32) a b,
          extended_product (a / 2 ^ 32) (b % 2 ^ 32) (omega arith),
          extended_product (b / 2 ^ 32) (a % 2 ^ 32) (omega arith),
        )))
