-- ===== src/SoftMath/Divide.antt =====
-- The loop of shift-subtract division and `__udivsi3`.
use lib_hsa.Base.{
  ℕ, suc, bit_or, ◌<◌, ◌^◌, ◌≡◌, ◌≤◌, ◌<<<◌, Bool-cases, ◌⊎◌, ◌*◌, ◌+◌, ◌/◌, ◌%◌, arith, ltb, inl,
  inr, ap, ◌-◌, bit_or_split, sym, ◌∙◌, leb,
}
use lib_hsa.SoftMath.Round.{Division, divide_round, divide_round_lem, subtracted}
use Prim.Native.Nat.{zero}
use native.Mathlib.Nat.{
  le-mul_of_pos_right, pow-suc, div-eq_of_lt-le, mod-eq_of_lt, add-mul-mod_self_left, one-le-pow,
  mul-le-mul_right,
}

-- The loop over `sr`.
unfoldable pub divide_loop : (bits sr d : ℕ) → Division → Division
divide_loop bits zero d x = x
divide_loop bits (suc sr) d x = divide_loop bits sr d (divide_round bits d x)

-- `(q << 1) | carry`
abbrev pub quotient_of : (bits : ℕ) → Division → ℕ
quotient_of bits x = bit_or ((x.q <<< 1) % 2 ^ bits) x.carry

abbrev pub IsDivision : (bits n d : ℕ) → Division → Type 0
IsDivision bits n d x = (quotient_of bits x ≡ n / d) × (x.r ≡ n % d)

-- With `j` rounds left: the sign of a difference is right.
abbrev pub IsNear : (h j d num : ℕ) → Type 0
IsNear h j d num = (d ≤ 2 ^ h) ⊎ (j ≡ 0) ⊎ ((j ≡ 1) × (d ≤ 2 ^ h + num))

-- The state with `j` rounds left: of the number `n`, `lo` is still to be divided, and the rest has
-- the quotient `2 * quot + c` and the remainder `r`.
pub record Divided (h j d n p r lo quot c : ℕ) : Type 0 where
  pub places : 2 ^ j * p ≡ 2 ^ suc h
  pub low : lo < 2 ^ j
  pub quotient_small : quot < p
  pub carry_bit : c ≤ 1
  pub inside : r < d
  pub number : n ≡ ((2 * quot + c) * d + r) * 2 ^ j + lo
  pub near : IsNear h j d (2 * r + lo)

-- The next digit of what is still to be divided.
pub record Digit (j lo t rest : ℕ) : Type 0 where
  pub bit : t ≤ 1
  pub rest_low : rest < 2 ^ j
  pub value : lo ≡ t * 2 ^ j + rest

digit_lem : (j lo : ℕ) → lo < 2 ^ suc j → (t : ℕ) × (rest : ℕ) × Digit j lo t rest
digit_lem j lo h = elim (Bool-cases (ltb lo (2 ^ j))) [
  | inl low ↦ (0, lo, record { bit = omega arith; rest_low = ground arith; value = omega arith })
  | inr high ↦ (
    1,
    lo - 2 ^ j,
    record { bit = omega arith; rest_low = ground (arith, pow-suc 2 j); value = ground arith },
  )
]

module _ (h d n : ℕ) (word : d < 2 ^ suc h) (number_small : n < 2 ^ suc h) where
  Divided-end :
      (p r lo quot c : ℕ)
      → Divided h 0 d n p r lo quot c
      → IsDivision (suc h) n d (record { r = r; q = lo * p + quot; carry = c })
  Divided-end p r zero quot c s = (
    ap (λ (y : ℕ). bit_or ((y <<< 1) % 2 ^ suc h) c) nothing_left
        ∙ ap (λ (y : ℕ). bit_or y c) (mod-eq_of_lt fits)
        ∙ bit_or_split 1 quot c (omega (arith, s.carry_bit))
        ∙ omega (arith, divided),
    sym (
        ap (λ (y : ℕ). y % d) number
        ∙ add-mul-mod_self_left r d (2 * quot + c)
        ∙ mod-eq_of_lt s.inside),
  )
    where
      number : n ≡ r + d * (2 * quot + c)
      number = omega (arith, s.number)

      nothing_left : 0 * p + quot ≡ quot
      nothing_left = omega arith

      at_most : 2 * quot + c ≤ (2 * quot + c) * d
      at_most = le-mul_of_pos_right (2 * quot + c) (omega (arith, s.inside))

      fits : quot * 2 ^ 1 < 2 ^ suc h
      fits = omega (arith, s.inside, number, at_most)

      divided : n / d ≡ 2 * quot + c
      divided = div-eq_of_lt-le d (omega (arith, number)) (omega (arith, number, s.inside))
  Divided-end p r (suc lo) quot c s = absurd (omega (arith, s.low))

  -- After a round.
  module _ (j p r lo quot c t rest : ℕ) (s : Divided h (suc j) d n p r lo quot c)
      (digit : Digit j lo t rest) where
    half : 2 ^ j * p ≡ 2 ^ h
    half = omega (arith, s.places, pow-suc 2 j, pow-suc 2 h, ap (λ (y : ℕ). y * p) (pow-suc 2 j))

    split : lo * p + quot ≡ t * 2 ^ h + (rest * p + quot)
    split = omega (arith, ap (λ (y : ℕ). y * p) digit.value, ap (λ (y : ℕ). t * y) half)

    rest_small : rest * p + quot < 2 ^ h
    rest_small = omega (arith, mul-le-mul_right p digit.rest_low, half, s.quotient_small)

    number_split : n ≡ (2 * ((2 * quot + c) * d + r) + t) * 2 ^ j + rest
    number_split =
        omega
          (arith, s.number, digit.value, ap (λ (y : ℕ). ((2 * quot + c) * d + r) * y) (pow-suc 2 j))

    num_small : 2 * r + t < 2 ^ suc h
    num_small =
        omega (arith, number_split, le-mul_of_pos_right (2 * r + t) (one-le-pow j 2 (omega arith)))

    num_near : d ≤ 2 ^ h + (2 * r + t)
    num_near = elim s.near [
      | inl few ↦ omega arith
      | inr (inl done) ↦ absurd (omega arith)
      | inr (inr (last, close)) ↦
          let at_last : j ≡ 0 = omega arith in
          let one_place : 2 ^ j ≡ 1 = ap (λ (y : ℕ). 2 ^ y) at_last in
          omega (arith, ap (λ (y : ℕ). t * y) one_place, digit.value, digit.rest_low)
    ]

    next :
        (r1 c1 : ℕ)
        → c1 ≤ 1
        → r1 < d
        → r1 + c1 * d ≡ 2 * r + t
        → Divided h j d n (2 * p) r1 rest (2 * quot + c) c1
    next r1 c1 b i e = record {
      places = omega (arith, half, pow-suc 2 h);
      low = digit.rest_low;
      quotient_small = omega (arith, s.quotient_small, s.carry_bit);
      carry_bit = b;
      inside = i;
      number = omega (arith, number_split, ap (λ (y : ℕ). y * 2 ^ j) e);
      near = elim s.near [
        | inl few ↦ inl few
        | inr (inl done) ↦ absurd (omega arith)
        | inr (inr (last, close)) ↦ inr (inl (omega arith))
      ];
    }

  -- A round, if the theorem holds of the rounds that follow.
  module _ (j : ℕ)
      (further : (p r lo quot c : ℕ)
        → Divided h j d n p r lo quot c
        → IsDivision
            (suc h)
            n
            d
            (divide_loop (suc h) j d (record { r = r; q = lo * p + quot; carry = c })))
      (p r lo quot c : ℕ) (s : Divided h (suc j) d n p r lo quot c) where
    goes_on :
        (t rest : ℕ)
        → Digit j lo t rest
        → IsDivision
            (suc h)
            n
            d
            (divide_loop (suc h) j d (subtracted d (2 * r + t) (rest * (2 * p) + (2 * quot + c))))
    goes_on t rest digit = elim (Bool-cases (leb d (2 * r + t))) [
      | inl fits ↦ rw fits (
          further (2 * p) (2 * r + t - d) rest (2 * quot + c) 1 (
            next j p r lo quot c t rest s digit (2 * r + t - d) 1 (omega arith)
              (omega (arith, s.inside, digit.bit)) (ground arith)))
      | inr short ↦ rw short (
          further (2 * p) (2 * r + t) rest (2 * quot + c) 0 (
            next j p r lo quot c t rest s digit (2 * r + t) 0 (omega arith) (ground arith)
              (omega arith)))
    ]

    after_round :
        ((t : ℕ) × (rest : ℕ) × Digit j lo t rest)
        → IsDivision (suc h) n d (
            divide_loop
              (suc h)
              j
              d
              (divide_round (suc h) d (record { r = r; q = lo * p + quot; carry = c })))
    after_round (t, rest, digit) =
        rw
          (
            split j p r lo quot c t rest s digit,
            divide_round_lem h d r t (rest * p + quot) c digit.bit
                (rest_small j p r lo quot c t rest s digit) s.carry_bit
                (num_small j p r lo quot c t rest s digit) s.inside word
                (num_near j p r lo quot c t rest s digit),
            sum,
          )
          (goes_on t rest digit)
      where
        sum : 2 * (rest * p + quot) + c ≡ rest * (2 * p) + (2 * quot + c)
        sum = omega arith

  pub divide_loop_lem :
      (j p r lo quot c : ℕ)
      → Divided h j d n p r lo quot c
      → IsDivision
          (suc h)
          n
          d
          (divide_loop (suc h) j d (record { r = r; q = lo * p + quot; carry = c }))
  unfolding divide_loop
  divide_loop_lem zero p r lo quot c s = Divided-end p r lo quot c s
  divide_loop_lem (suc j) p r lo quot c s =
      after_round j (divide_loop_lem j) p r lo quot c s (digit_lem j lo s.low)
