-- ===== src/SoftMath/Long/Masks.antt =====
-- The masks of `__udivmoddi4`, which are all ones or zero.
use lib_hsa.Base.{
  ℕ, ◌<<<◌, ◌≤◌, ◌<◌, bit_or, ◌^◌, bit_and, ◌≡◌, bit_or_split, ap, ◌-◌, ◌∙◌, bit_and_mask, arith,
  ltb, u32, ◌+◌, false, true, ◌/◌,
}
use lib_hsa.SoftMath.Long.{mask_less}

pub masked_all : (x a b : ℕ) → x < 2 ^ 32 → a < b → b ≤ 64 → bit_and x (mask_less a b) ≡ x
masked_all x a b word less small =
    ap (λ (y : ℕ). bit_and x y) ones ∙ bit_and_mask 32 x ∙ omega arith
  where
    ones : mask_less a b ≡ 2 ^ 32 - 1
    ones =
        let sign : ltb (u32 (a + 2 ^ 32 - b)) (2 ^ 31) ≡ false = ground arith in
        rw sign (omega arith)

pub masked_none : (x a b : ℕ) → b ≤ a → a ≤ 64 → bit_and x (mask_less a b) ≡ 0
masked_none x a b less small = ap (λ (y : ℕ). bit_and x y) none ∙ bit_and_mask 0 x ∙ omega arith
  where
    none : mask_less a b ≡ 0
    none =
        let sign : ltb (u32 (a + 2 ^ 32 - b)) (2 ^ 31) ≡ true = ground arith in
        rw sign (omega arith)

pub or_none : (x : ℕ) → bit_or x 0 ≡ x
or_none x =
    ap (λ (y : ℕ). bit_or y 0) (omega arith) ∙ bit_or_split 0 x 0 (omega arith) ∙ omega arith

pub none_or : (x : ℕ) → x < 2 ^ 32 → bit_or 0 x ≡ x
none_or x word = bit_or_split 32 0 x word ∙ omega arith

pub none_above : (x : ℕ) → x < 2 ^ 32 → x / 2 ^ 32 ≡ 0
none_above x word = omega arith

pub with_none : (x y : ℕ) → y < 2 ^ 32 → u32 (x <<< 0) + y / 2 ^ 32 ≡ u32 (x <<< 0)
with_none x y word = omega arith
