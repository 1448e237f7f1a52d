-- ===== src/SoftMath/Long/Divide.antt =====
-- What `__udivmoddi4` gives.
use lib_hsa.Base.{
  ℕ, ◌<◌, ◌/◌, ◌≡◌, ◌*◌, ◌%◌, ◌^◌, ◌+◌, ◌≤◌, ◌-◌, arith, ap, ◌∙◌, refl, Bool-cases, ltb, inl, inr,
  true, false,
}
use lib_hsa.SoftMath.Unsigned.{
  CountsZeros, smaller, shifted_less, no_zeros, between, none_between, places_between, d_few,
  n_leading,
}
use lib_hsa.SoftMath.Start.{division_start, division_lem}
use lib_hsa.SoftMath.Divide.{IsNear}
use lib_hsa.SoftMath.Long.{LongDivision, Builtins, all, full_start, long_result, divide_by_full}
use lib_hsa.SoftMath.Long.Round.{joined, IsWords, long_result_lem}
use lib_hsa.SoftMath.Long.Powers.{CountsTrailing}
use lib_hsa.SoftMath.Long.Start.{ShiftsWords}
use lib_hsa.SoftMath.Long.Starts.{StartsDivision, full_start_lem}
use native.Mathlib.Nat.{div-eq_of_lt-le, add-mul-mod_self_left, mod-eq_of_lt}

-- The laws of the builtins.
pub record IsBuiltins (p : Builtins) : Type 0 where
  pub zeros : CountsZeros p.clz
  pub trailing : CountsTrailing p.ctz
  pub shifts : ShiftsWords p

-- A quotient and a remainder that fit are those of the division.
abbrev pub divided : (n d : ℕ) → ℕ × ℕ
divided n d = (n / d, n % d)

pub divided_unique : (n d q r : ℕ) → n ≡ q * d + r → r < d → (q, r) ≡ divided n d
divided_unique n d q r e small = rw (quotient, remainder) refl
  where
    quotient : n / d ≡ q
    quotient = div-eq_of_lt-le d (omega (arith, e)) (omega (arith, e, small))

    remainder : n % d ≡ r
    remainder = ap (λ (y : ℕ). y % d) parts ∙ add-mul-mod_self_left r d q ∙ mod-eq_of_lt small
      where
        parts : n ≡ r + d * q
        parts = omega (arith, e)

pub loop_result :
    (sr n d : ℕ) (start : LongDivision)
    → n < 2 ^ 64
    → d < 2 ^ 64
    → sr ≤ 64
    → n < d * 2 ^ sr
    → IsNear 63 sr d n
    → joined start ≡ division_start 64 sr n
    → IsWords start
    → long_result sr d start ≡ divided n d
loop_result sr n d start n_word d_word few less near e w =
    let result = division_lem 63 sr d n d_word n_word few less near in
    rw (long_result_lem sr d start w, e, result.0, result.1) refl

module _ (p : Builtins) (laws : IsBuiltins p) (nh nl : ℕ) (nh_word : nh < 2 ^ 32)
    (nl_word : nl < 2 ^ 32) (nh_positive : 0 < nh) where
  module _ (dh dl : ℕ) (dh_word : dh < 2 ^ 32) (dl_word : dl < 2 ^ 32) (dh_positive : 0 < dh) where
    less_lem : p.clz nh ≤ p.clz dh → all nh nl < all dh dl * 2 ^ (p.clz dh - p.clz nh + 1)
    less_lem order =
        omega
          (arith, shifted_less p.clz laws.zeros nh dh nh_word dh_word nh_positive dh_positive order)

    near_lem : p.clz nh ≤ p.clz dh → IsNear 63 (p.clz dh - p.clz nh + 1) (all dh dl) (all nh nl)
    near_lem order = elim (Bool-cases (ltb dh (2 ^ 31))) [
      | inl below ↦ inl (ground arith)
      | inr above ↦
          let d_none : p.clz dh ≡ 0 =
            no_zeros p.clz laws.zeros nh dh nh_word dh_word nh_positive dh_positive
              (ground arith) in
          let n_none : p.clz nh ≡ 0 = omega arith in
          inr (
            inr (
              omega arith,
              omega (
                arith,
                n_leading p.clz laws.zeros nh dh nh_word dh_word nh_positive dh_positive,
                ap (λ (y : ℕ). nh * 2 ^ y) n_none,
              ),
            ))
    ]

    -- The number is smaller than the denominator.
    pub small_lem : p.clz dh < p.clz nh → (0, all nh nl) ≡ divided (all nh nl) (all dh dl)
    small_lem more =
        divided_unique (all nh nl) (all dh dl) 0 (all nh nl) (omega arith) (
          omega
            (arith, smaller p.clz laws.zeros nh dh nh_word dh_word nh_positive dh_positive more))

    -- The loop, from a start for the places between the leading bits.
    pub loop_lem :
        (start : LongDivision)
        → p.clz nh ≤ p.clz dh
        → StartsDivision (p.clz dh - p.clz nh + 1) nh nl start
        → long_result (p.clz dh - p.clz nh + 1) (all dh dl) start ≡ divided (all nh nl) (all dh dl)
    loop_lem start order (e, w) =
        loop_result (p.clz dh - p.clz nh + 1) (all nh nl) (all dh dl) start (omega arith)
          (omega arith)
          (omega (arith, d_few p.clz laws.zeros nh dh nh_word dh_word nh_positive dh_positive))
          (less_lem order) (near_lem order) e w

    pub full_lem : divide_by_full p nh nl dh dl ≡ divided (all nh nl) (all dh dl)
    unfolding divide_by_full
    full_lem = elim (Bool-cases (ltb (p.clz dh) (p.clz nh))) [
      | inl more ↦
          let far : ltb 31
                (places_between p.clz laws.zeros nh dh nh_word dh_word nh_positive dh_positive)
              ≡ true =
            ground (
              arith,
              none_between p.clz laws.zeros nh dh nh_word dh_word nh_positive dh_positive
                  (ground arith),
            ) in
          rw far (small_lem (ground arith))
      | inr less ↦
          let order : p.clz nh ≤ p.clz dh = ground arith in
          let near : ltb 31
                (places_between p.clz laws.zeros nh dh nh_word dh_word nh_positive dh_positive)
              ≡ false =
            ground (
              arith,
              between p.clz laws.zeros nh dh nh_word dh_word nh_positive dh_positive order,
              d_few p.clz laws.zeros nh dh nh_word dh_word nh_positive dh_positive,
            ) in
          rw (near, between p.clz laws.zeros nh dh nh_word dh_word nh_positive dh_positive order)
            (loop_lem (full_start p (p.clz dh - p.clz nh + 1) nh nl) order (
              full_start_lem nh nl nh_word nl_word p laws.shifts (p.clz dh - p.clz nh + 1)
                (omega arith)
                (omega
                  (arith, d_few p.clz laws.zeros nh dh nh_word dh_word nh_positive dh_positive))))
    ]
