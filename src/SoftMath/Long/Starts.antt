-- ===== src/SoftMath/Long/Starts.antt =====
-- The three starts of the loop of `__udivmoddi4`, with their masks, are the start of the division.
use mathlib.Core.Path.{subst}
use lib_hsa.Base.{
  ◌==◌, ℕ, ◌<<<◌, ◌>>>◌, ◌≤◌, ◌<◌, bit_or, ◌^◌, ◌≡◌, ◌-◌, arith, ltb, u32, ◌+◌, refl, Bool-cases,
  ◌/◌, ◌*◌, inl, inr, leb, sym,
}
use lib_hsa.SoftMath.Start.{division_start}
use lib_hsa.SoftMath.Long.{LongDivision, Builtins, all, high_start, low_start, full_start}
use lib_hsa.SoftMath.Long.Round.{joined, IsWords}
use lib_hsa.SoftMath.Long.Start.{
  ShiftsWords, either_part, both_parts_word, r_value, q_value, r_value_long, q_value_long,
}
use native.Mathlib.Nat.{div-le_self}
use lib_hsa.SoftMath.Long.Masks.{masked_all, masked_none, or_none, none_or, none_above, with_none}

-- The start in numbers, for shifts by at most 32 and by more.
abbrev pub short_start : (sr nh nl : ℕ) → LongDivision
short_start sr nh nl = record {
  q_high = u32 (nl <<< (32 - sr));
  q_low = 0;
  r_high = nh >>> sr;
  r_low = u32 (nh <<< (32 - sr)) + nl / 2 ^ sr;
  carry = 0;
}

abbrev pub long_start : (more nh nl : ℕ) → LongDivision
long_start more nh nl = record {
  q_high = u32 (nh <<< (32 - more)) + nl / 2 ^ more;
  q_low = u32 (nl <<< (32 - more));
  r_high = 0;
  r_low = nh >>> more;
  carry = 0;
}

-- A start of the loop that shifts by `sr`.
abbrev pub StartsDivision : (sr nh nl : ℕ) → LongDivision → Type 0
StartsDivision sr nh nl x = (joined x ≡ division_start 64 sr (all nh nl)) × IsWords x

module _ (nh nl : ℕ) (nh_word : nh < 2 ^ 32) (nl_word : nl < 2 ^ 32) where
  short_start_lem :
      (sr : ℕ) → sr ≤ 32 → joined (short_start sr nh nl) ≡ division_start 64 sr (all nh nl)
  short_start_lem sr few =
      rw (r_value sr few nh nl nh_word nl_word, q_value sr few nh nl nh_word nl_word) refl

  short_start-IsWords : (sr : ℕ) → sr ≤ 32 → IsWords (short_start sr nh nl)
  short_start-IsWords sr few = record {
    q_high_word = omega arith;
    q_low_word = omega arith;
    r_high_word = omega (arith, div-le_self nh (2 ^ sr));
    r_low_word = both_parts_word sr few nh nl nh_word nl_word;
    carry_bit = omega arith;
  }

  long_start_lem :
      (more : ℕ)
      → more ≤ 32
      → joined (long_start more nh nl) ≡ division_start 64 (32 + more) (all nh nl)
  long_start_lem more few =
      rw (q_value_long more few nh nl nh_word nl_word, nothing_above, places_left) refl
    where
      nothing_above : 0 * 2 ^ 32 + nh / 2 ^ more ≡ all nh nl >>> (32 + more)
      nothing_above = omega (arith, r_value_long more few nh nl nh_word nl_word)

      places_left : 32 - more ≡ 64 - (32 + more)
      places_left = omega arith

  long_start-IsWords : (more : ℕ) → more ≤ 32 → IsWords (long_start more nh nl)
  long_start-IsWords more few = record {
    q_high_word = both_parts_word more few nh nl nh_word nl_word;
    q_low_word = omega arith;
    r_high_word = omega arith;
    r_low_word = omega (arith, div-le_self nh (2 ^ more));
    carry_bit = omega arith;
  }

  short_start_division : (sr : ℕ) → sr ≤ 32 → StartsDivision sr nh nl (short_start sr nh nl)
  short_start_division sr few = (short_start_lem sr few, short_start-IsWords sr few)

  long_start_division :
      (more : ℕ) → more ≤ 32 → StartsDivision (32 + more) nh nl (long_start more nh nl)
  long_start_division more few = (long_start_lem more few, long_start-IsWords more few)

  module _ (p : Builtins) (shifts : ShiftsWords p) where
    to_word : (sr : ℕ) → sr ≤ 32 → u32 (32 + 2 ^ 32 - sr) ≡ 32 - sr
    to_word sr few = omega arith

    pub either_shifted :
        (sr : ℕ)
        → 1 ≤ sr
        → sr ≤ 31
        → bit_or (p.shift_left nh (u32 (32 + 2 ^ 32 - sr))) (p.shift_right nl sr)
          ≡ u32 (nh <<< (32 - sr)) + nl / 2 ^ sr
    either_shifted sr some_places few =
        rw
          (
            to_word sr (omega arith),
            shifts.left nh (32 - sr) (omega arith),
            shifts.right nl sr (omega arith),
          )
          (either_part sr (omega arith) nh nl nh_word nl_word)

    high_start_short : (sr : ℕ) → 1 ≤ sr → sr ≤ 31 → high_start p sr nh nl ≡ short_start sr nh nl
    high_start_short sr some_places few =
        rw
          (
            either_shifted sr some_places few,
            to_word sr (omega arith),
            shifts.left nl (32 - sr) (omega arith),
            shifts.right nh sr (omega arith),
          )
          refl

    full_start_last : full_start p 32 nh nl ≡ short_start 32 nh nl
    full_start_last =
        rw
          (
            shifts.left nl 0 (omega arith),
            shifts.left nh 0 (omega arith),
            masked_none (p.shift_right nh 32) 32 32 (omega arith) (omega arith),
            masked_none (p.shift_right nl 32) 32 32 (omega arith) (omega arith),
            or_none (u32 (nh <<< 0)),
            none_above nh nh_word,
            with_none nh nl nl_word,
          )
          refl

    full_start_short : (sr : ℕ) → 1 ≤ sr → sr ≤ 32 → full_start p sr nh nl ≡ short_start sr nh nl
    full_start_short sr some_places few = elim (Bool-cases (ltb sr 32)) [
      | inl below ↦
          rw
            (
              shifts.right nl sr (ground arith),
              shifts.right nh sr (ground arith),
              masked_all (nh >>> sr) sr 32 (omega (arith, div-le_self nh (2 ^ sr))) (ground arith)
                  (omega arith),
              masked_all (nl >>> sr) sr 32 (omega (arith, div-le_self nl (2 ^ sr))) (ground arith)
                  (omega arith),
              to_word sr few,
              shifts.left nh (32 - sr) (omega arith),
              shifts.left nl (32 - sr) (omega arith),
              either_part sr few nh nl nh_word nl_word,
            )
            refl
      | inr last ↦ let all_places : sr ≡ 32 = ground arith in rw all_places full_start_last
    ]

    low_start_last : low_start p 32 nh nl ≡ short_start 32 nh nl
    low_start_last =
        rw
          (
            masked_none (p.shift_left nl 32) 32 32 (omega arith) (omega arith),
            masked_none (bit_or (p.shift_left nh 32) (p.shift_right nl 0)) 32 32 (omega arith)
                (omega arith),
            masked_none (p.shift_right nh 32) 32 32 (omega arith) (omega arith),
            masked_none (bit_or (p.shift_left nh 0) (p.shift_right nl 32)) 32 32 (omega arith)
                (omega arith),
            shifts.right nh 0 (omega arith),
            masked_all (nh >>> 0) 31 32 (omega arith) (omega arith) (omega arith),
            shifts.left nl 0 (omega arith),
            masked_all (u32 (nl <<< 0)) 32 33 (omega arith) (omega arith) (omega arith),
            or_none (u32 (nl <<< 0)),
            or_none (nh >>> 0),
            none_above nh nh_word,
            with_none nh nl nl_word,
            unshifted,
          )
          refl
      where
        unshifted : nh >>> 0 ≡ u32 (nh <<< 0)
        unshifted = omega arith

    low_start_short : (sr : ℕ) → 1 ≤ sr → sr ≤ 31 → low_start p sr nh nl ≡ short_start sr nh nl
    low_start_short sr some_places few =
        rw
          (
            masked_none (p.shift_left nl (u32 (64 + 2 ^ 32 - sr))) 32 sr (omega arith)
                (omega arith),
            masked_none
                (bit_or (p.shift_left nh (u32 (64 + 2 ^ 32 - sr)))
                  (p.shift_right nl (u32 (sr + 2 ^ 32 - 32))))
                32 sr (omega arith) (omega arith),
            masked_none (p.shift_right nh (u32 (sr + 2 ^ 32 - 32))) 31 sr (omega arith)
                (omega arith),
            shifts.right nh sr (omega arith),
            masked_all (nh >>> sr) sr 32 (omega (arith, div-le_self nh (2 ^ sr))) (omega arith)
                (omega arith),
            either_shifted sr some_places few,
            masked_all (u32 (nh <<< (32 - sr)) + nl / 2 ^ sr) sr 32
                (both_parts_word sr (omega arith) nh nl nh_word nl_word) (omega arith)
                (omega arith),
            to_word sr (omega arith),
            shifts.left nl (32 - sr) (omega arith),
            masked_all (u32 (nl <<< (32 - sr))) sr 33 (omega arith) (omega arith) (omega arith),
            or_none (u32 (nl <<< (32 - sr))),
            none_or (u32 (nh <<< (32 - sr)) + nl / 2 ^ sr)
                (both_parts_word sr (omega arith) nh nl nh_word nl_word),
          )
          refl

    low_start_long :
        (more : ℕ) → 1 ≤ more → more ≤ 31 → low_start p (32 + more) nh nl ≡ long_start more nh nl
    low_start_long more some_places few =
        rw
          (
            masked_none (p.shift_left nl (u32 (32 + 2 ^ 32 - (32 + more)))) (32 + more) 33
                (omega arith) (omega arith),
            masked_none (p.shift_right nh (32 + more)) (32 + more) 32 (omega arith) (omega arith),
            masked_none
                (bit_or (p.shift_left nh (u32 (32 + 2 ^ 32 - (32 + more))))
                  (p.shift_right nl (32 + more)))
                (32 + more) 32 (omega arith) (omega arith),
            to_dword,
            from_word,
            shifts.left nl (32 - more) (omega arith),
            shifts.left nh (32 - more) (omega arith),
            shifts.right nl more (omega arith),
            shifts.right nh more (omega arith),
            either_part more (omega arith) nh nl nh_word nl_word,
            masked_all (u32 (nl <<< (32 - more))) 32 (32 + more) (omega arith) (omega arith)
                (omega arith),
            masked_all (u32 (nh <<< (32 - more)) + nl / 2 ^ more) 32 (32 + more)
                (both_parts_word more (omega arith) nh nl nh_word nl_word) (omega arith)
                (omega arith),
            masked_all (nh >>> more) 31 (32 + more) (omega (arith, div-le_self nh (2 ^ more)))
                (omega arith) (omega arith),
            none_or (u32 (nh <<< (32 - more)) + nl / 2 ^ more)
                (both_parts_word more (omega arith) nh nl nh_word nl_word),
            or_none (nh >>> more),
          )
          refl
      where
        to_dword : u32 (64 + 2 ^ 32 - (32 + more)) ≡ 32 - more
        to_dword = omega arith

        from_word : u32 (32 + more + 2 ^ 32 - 32) ≡ more
        from_word = omega arith

    pub low_start_lem : (sr : ℕ) → 1 ≤ sr → sr ≤ 63 → StartsDivision sr nh nl (low_start p sr nh nl)
    low_start_lem sr some_places few = elim (Bool-cases (leb sr 31)) [
      | inl short ↦
          let fits : sr ≤ 31 = ground arith in
          subst (λ (x : LongDivision). StartsDivision sr nh nl x)
            (sym (low_start_short sr some_places fits)) (short_start_division sr (omega arith))
      | inr longer ↦ elim (Bool-cases (sr == 32)) [
        | inl word ↦
            let all_places : sr ≡ 32 = ground arith in
            rw all_places (
              subst (λ (x : LongDivision). StartsDivision 32 nh nl x) (sym low_start_last)
                (short_start_division 32 (omega arith)))
        | inr more ↦
            let above : sr ≡ 32 + (sr - 32) = ground arith in
            subst (λ (y : ℕ). StartsDivision y nh nl (low_start p y nh nl)) (sym above)
              (subst (λ (x : LongDivision). StartsDivision (32 + (sr - 32)) nh nl x)
                (sym (low_start_long (sr - 32) (ground arith) (omega arith)))
                (long_start_division (sr - 32) (omega arith)))
      ]
    ]

    pub high_start_lem :
        (sr : ℕ) → 1 ≤ sr → sr ≤ 31 → StartsDivision sr nh nl (high_start p sr nh nl)
    high_start_lem sr some_places few =
        subst (λ (x : LongDivision). StartsDivision sr nh nl x)
          (sym (high_start_short sr some_places few)) (short_start_division sr (omega arith))

    pub full_start_lem :
        (sr : ℕ) → 1 ≤ sr → sr ≤ 32 → StartsDivision sr nh nl (full_start p sr nh nl)
    full_start_lem sr some_places few =
        subst (λ (x : LongDivision). StartsDivision sr nh nl x)
          (sym (full_start_short sr some_places few)) (short_start_division sr few)
