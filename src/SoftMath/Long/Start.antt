-- ===== src/SoftMath/Long/Start.antt =====
-- What the loop of `__udivmoddi4` starts with: the shifts of halves are shifts of 64-bit numbers.
use lib_hsa.Base.{
  ℕ, ◌<<<◌, ◌>>>◌, ◌<◌, ◌^◌, ◌≡◌, ◌≤◌, u32, bit_or, ◌-◌, ◌*◌, ◌+◌, sym, ◌%◌, ◌∙◌, ◌/◌, ap, arith,
  bit_or_split,
}
use lib_hsa.SoftMath.Start.{power-add, upper_part}
use lib_hsa.SoftMath.Long.{Builtins, all}
use native.Mathlib.Nat.{
  mul-le-mul_right, lt_of_mul-lt-mul_right, div-div-eq-div-mul, div-eq_of_lt-le, div-add-mod,
  mod-lt, one-le-pow,
}

-- What the compiler documents: the shifts of a 32-bit word by less than 32.
pub record ShiftsWords (p : Builtins) : Type 0 where
  pub left : (x k : ℕ) → k < 32 → p.shift_left x k ≡ u32 (x <<< k)
  pub right : (x k : ℕ) → k < 32 → p.shift_right x k ≡ x >>> k

-- For shifts by at most 32.
module _ (sr : ℕ) (few : sr ≤ 32) where
  pub word_places : 2 ^ sr * 2 ^ (32 - sr) ≡ 2 ^ 32
  word_places = sym (power-add sr (32 - sr)) ∙ ap (λ (y : ℕ). 2 ^ y) sum
    where
      sum : sr + (32 - sr) ≡ 32
      sum = omega arith

  -- A word shifted left keeps its low part.
  shifted_left : (x : ℕ) → x < 2 ^ 32 → u32 (x <<< (32 - sr)) ≡ x % 2 ^ sr * 2 ^ (32 - sr)
  shifted_left x word = upper_part 31 sr 0 x (omega arith) word few ∙ omega arith

  -- A word shifted right fits under it.
  shifted_right : (x : ℕ) → x < 2 ^ 32 → x / 2 ^ sr < 2 ^ (32 - sr)
  shifted_right x word =
      lt_of_mul-lt-mul_right (2 ^ sr) (omega (arith, word_places, div-add-mod x (2 ^ sr)))

  module _ (nh nl : ℕ) (nh_word : nh < 2 ^ 32) (nl_word : nl < 2 ^ 32) where
    pub either_part :
        bit_or (u32 (nh <<< (32 - sr))) (nl >>> sr) ≡ u32 (nh <<< (32 - sr)) + nl / 2 ^ sr
    either_part =
        rw (shifted_left nh nh_word)
          (bit_or_split (32 - sr) (nh % 2 ^ sr) (nl / 2 ^ sr) (shifted_right nl nl_word))

    pub both_parts_word : u32 (nh <<< (32 - sr)) + nl / 2 ^ sr < 2 ^ 32
    both_parts_word = rw (shifted_left nh nh_word) (
        omega (
          arith,
          shifted_right nl nl_word,
          word_places,
          mul-le-mul_right (2 ^ (32 - sr)) (mod-lt nh (one-le-pow sr 2 (omega arith))),
        ))

    pub r_value : all (nh >>> sr) (u32 (nh <<< (32 - sr)) + nl / 2 ^ sr) ≡ all nh nl >>> sr
    r_value = rw (shifted_left nh nh_word) (
        sym (
          div-eq_of_lt-le (2 ^ sr)
            (omega (
              arith,
              ap (λ (y : ℕ). y * 2 ^ 32) (div-add-mod nh (2 ^ sr)),
              div-add-mod nl (2 ^ sr),
              mod-lt nl (one-le-pow sr 2 (omega arith)),
              ap (λ (y : ℕ). nh % 2 ^ sr * y) word_places,
            ))
            (omega (
              arith,
              ap (λ (y : ℕ). y * 2 ^ 32) (div-add-mod nh (2 ^ sr)),
              div-add-mod nl (2 ^ sr),
              mod-lt nl (one-le-pow sr 2 (omega arith)),
              ap (λ (y : ℕ). nh % 2 ^ sr * y) word_places,
            ))))

    pub q_value : all (u32 (nl <<< (32 - sr))) 0 ≡ (all nh nl <<< (64 - sr)) % 2 ^ 64
    q_value = rw twice (omega arith)
      where
        sum : 64 - sr ≡ 32 - sr + 32
        sum = omega arith

        twice : 2 ^ (64 - sr) ≡ 2 ^ (32 - sr) * 2 ^ 32
        twice = ap (λ (y : ℕ). 2 ^ y) sum ∙ power-add (32 - sr) 32

    -- For shifts by 32 and more.
    pub r_value_long : nh >>> sr ≡ all nh nl >>> (32 + sr)
    r_value_long =
        ap (λ (y : ℕ). y / 2 ^ sr) halves
        ∙ div-div-eq-div-mul (all nh nl) (2 ^ 32) (2 ^ sr)
        ∙ ap (λ (y : ℕ). all nh nl / y) (sym (power-add 32 sr))
      where
        halves : nh ≡ all nh nl / 2 ^ 32
        halves = omega arith

    pub q_value_long :
        all (u32 (nh <<< (32 - sr)) + nl / 2 ^ sr) (u32 (nl <<< (32 - sr)))
        ≡ (all nh nl <<< (32 - sr)) % 2 ^ 64
    q_value_long = omega (arith, both_parts_word, carried)
      where
        carried : nl * 2 ^ (32 - sr) / 2 ^ 32 ≡ nl / 2 ^ sr
        carried =
            div-eq_of_lt-le (2 ^ 32)
              (omega (
                arith,
                ap (λ (y : ℕ). y * 2 ^ (32 - sr)) (div-add-mod nl (2 ^ sr)),
                ap (λ (y : ℕ). nl / 2 ^ sr * y) word_places,
                mul-le-mul_right (2 ^ (32 - sr)) (mod-lt nl (one-le-pow sr 2 (omega arith))),
                one-le-pow (32 - sr) 2 (omega arith),
                word_places,
              ))
              (omega (
                arith,
                ap (λ (y : ℕ). y * 2 ^ (32 - sr)) (div-add-mod nl (2 ^ sr)),
                ap (λ (y : ℕ). nl / 2 ^ sr * y) word_places,
                mul-le-mul_right (2 ^ (32 - sr)) (mod-lt nl (one-le-pow sr 2 (omega arith))),
                one-le-pow (32 - sr) 2 (omega arith),
                word_places,
              ))
