-- ===== src/SoftMath/Unsigned.antt =====
-- `__udivsi3`. The builtin that counts the leading zeros of a word belongs to the compiler.
use lib_hsa.Base.{
  ℕ, if◌then◌else◌, ◌<◌, ◌^◌, suc, ◌==◌, ◌+◌, ◌≤◌, u32, ◌-◌, ◌≡◌, ◌*◌, ◌/◌, sym, ltb, arith, ◌∙◌,
  ap, inl, inr, refl, false, Bool-cases, leb, true,
}
use lib_hsa.SoftMath.Divide.{IsNear, divide_loop, quotient_of}
use lib_hsa.SoftMath.Start.{division_start, power-add, power_grows, division_lem}
use native.Mathlib.Nat.{lt_of_mul-lt-mul_right, pow-suc, mul-le-mul_left, div-eq_of_lt, zero-div}

-- What the compiler documents of `__builtin_clz`: the number of leading zero bits of a word that is
-- not zero.
pub record CountsZeros (clz : ℕ → ℕ) : Type 0 where
  pub few : (x : ℕ) → 0 < x → x < 2 ^ 32 → clz x < 32
  pub leading : (x : ℕ) → 0 < x → x < 2 ^ 32 → 2 ^ 31 ≤ x * 2 ^ clz x
  pub in_word : (x : ℕ) → 0 < x → x < 2 ^ 32 → x * 2 ^ clz x < 2 ^ 32

unfoldable pub udivsi3 : (clz : ℕ → ℕ) → (n d : ℕ) → ℕ
udivsi3 clz n d =
    if d == 0
    then 0
    else if n == 0
    then 0
    else let sr = u32 (clz d + 2 ^ 32 - clz n) in
      if ltb 31 sr
      then 0
      else if sr == 31
      then n
      else quotient_of 32 (divide_loop 32 (sr + 1) d (division_start 32 (sr + 1) n))

module _ (clz : ℕ → ℕ) (counts : CountsZeros clz) (n d : ℕ) (n_word : n < 2 ^ 32)
    (d_word : d < 2 ^ 32) (n_positive : 0 < n) (d_positive : 0 < d) where
  pub d_few : clz d < 32
  d_few = counts.few d d_positive d_word

  pub n_few : clz n < 32
  n_few = counts.few n n_positive n_word

  pub d_leading : 2 ^ 31 ≤ d * 2 ^ clz d
  d_leading = counts.leading d d_positive d_word

  pub n_leading : 2 ^ 31 ≤ n * 2 ^ clz n
  n_leading = counts.leading n n_positive n_word

  pub d_in_word : d * 2 ^ clz d < 2 ^ 32
  d_in_word = counts.in_word d d_positive d_word

  pub n_in_word : n * 2 ^ clz n < 2 ^ 32
  n_in_word = counts.in_word n n_positive n_word

  pub smaller : clz d < clz n → n < d
  smaller more = lt_of_mul-lt-mul_right (2 ^ clz d) (
      omega (
        arith,
        n_in_word,
        d_leading,
        mul-le-mul_left n (power_grows (suc (clz d)) (clz n) more),
        ap (λ (y : ℕ). n * y) (pow-suc 2 (clz d)),
      ))

  pub shifted_less : clz n ≤ clz d → n < d * 2 ^ (clz d - clz n + 1)
  shifted_less more =
      lt_of_mul-lt-mul_right (2 ^ clz n)
        (omega (arith, n_in_word, d_leading, ap (λ (y : ℕ). d * y) together))
    where
      sum : clz d - clz n + 1 + clz n ≡ suc (clz d)
      sum = omega arith

      together : 2 ^ (clz d - clz n + 1) * 2 ^ clz n ≡ 2 * 2 ^ clz d
      together =
          sym (power-add (clz d - clz n + 1) (clz n))
          ∙ ap (λ (y : ℕ). 2 ^ y) sum
          ∙ omega (arith, pow-suc 2 (clz d))

  pub no_zeros : 2 ^ 31 ≤ d → clz d ≡ 0
  no_zeros high = elim (Bool-cases (ltb 0 (clz d))) [
    | inl some_zeros ↦
        absurd (omega (arith, d_in_word, mul-le-mul_left d (power_grows 1 (clz d) (ground arith))))
    | inr none ↦ ground arith
  ]

  start-IsNear : clz n ≤ clz d → IsNear 31 (clz d - clz n + 1) d n
  start-IsNear more = elim (Bool-cases (leb d (2 ^ 31))) [
    | inl small ↦ inl (ground arith)
    | inr high ↦
        let d_none : clz d ≡ 0 = no_zeros (ground arith) in
        let n_none : clz n ≡ 0 = omega arith in
        inr (inr (omega arith, omega (arith, n_leading, ap (λ (y : ℕ). n * 2 ^ y) n_none)))
  ]

  pub one : clz d - clz n ≡ 31 → d ≡ 1
  one all =
      let most : clz d ≡ 31 = omega (arith, d_few) in
      omega (arith, d_in_word, ap (λ (y : ℕ). d * 2 ^ y) most)

  -- sr, before it is increased
  abbrev pub places_between : ℕ
  places_between = u32 (clz d + 2 ^ 32 - clz n)

  pub between : clz n ≤ clz d → places_between ≡ clz d - clz n
  between more = omega (arith, d_few)

  pub none_between : clz d < clz n → 31 < places_between
  none_between more = omega (arith, n_few)

  udivsi3_positive : udivsi3 clz n d ≡ n / d
  unfolding udivsi3
  udivsi3_positive = elim (Bool-cases (ltb (clz d) (clz n))) [
    | inl more ↦
        let far : ltb 31 places_between ≡ true = ground (arith, none_between (ground arith)) in
        rw (d_not_zero, n_not_zero, far) (sym (div-eq_of_lt (smaller (ground arith))))
    | inr less ↦
        let order : clz n ≤ clz d = ground arith in
        let near : ltb 31 places_between ≡ false = ground (arith, between order, d_few) in
        rw (d_not_zero, n_not_zero, near, between order) (in_places order)
  ]
    where
      d_not_zero : (d == 0) ≡ false
      d_not_zero = ground arith

      n_not_zero : (n == 0) ≡ false
      n_not_zero = ground arith

      in_places :
          clz n ≤ clz d
          → (if clz d - clz n == 31
              then n
              else quotient_of 32
                  (divide_loop 32 (clz d - clz n + 1) d (division_start 32 (clz d - clz n + 1) n)))
            ≡ n / d
      in_places order = elim (Bool-cases (clz d - clz n == 31)) [
        | inl all ↦ rw all (omega (arith, ap (λ (y : ℕ). n / y) (one (ground arith))))
        | inr fewer ↦ rw fewer (
            (division_lem 31 (clz d - clz n + 1) d n d_word n_word (omega (arith, d_few))
              (shifted_less order) (start-IsNear order)).0)
      ]

-- If __builtin_clz counts leading zeros, __udivsi3 of 32-bit words gives the quotient; for the
-- denominator 0 it gives 0.
pub udivsi3_lem :
    (clz : ℕ → ℕ) (n d : ℕ)
    → CountsZeros clz
    → n < 2 ^ 32
    → d < 2 ^ 32
    → udivsi3 clz n d ≡ (if d == 0 then 0 else n / d)
unfolding udivsi3
udivsi3_lem clz n d counts n_word d_word = elim (Bool-cases (d == 0)) [
  | inl none ↦ rw none refl
  | inr some_d ↦ elim (Bool-cases (n == 0)) [
    | inl none ↦ rw (some_d, none) (omega (arith, nothing (ground arith)))
    | inr some_n ↦
        udivsi3_positive clz counts n d n_word d_word (ground arith) (ground arith) ∙ rw some_d refl
  ]
]
  where
    nothing : n ≡ 0 → n / d ≡ 0
    nothing h = ap (λ (y : ℕ). y / d) h ∙ zero-div d
