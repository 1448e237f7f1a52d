-- ===== src/SoftMath/Long/Round.antt =====
-- The rounds on halves are rounds on 64-bit words.
use lib_hsa.Base.{
  ◌<<<◌, ◌>>>◌, ℕ, ◌<◌, ◌≤◌, ◌≡◌, arith, bit_or, ◌^◌, u32, bit_and, ◌%◌, ◌/◌, suc, ◌-◌,
  bit_and_mask, ◌*◌, ◌+◌, ap, ◌∙◌, bit_or_split, u64, shift_right_signed, refl,
}
use lib_hsa.SoftMath.Round.{Division, divide_round}
use lib_hsa.SoftMath.Divide.{divide_loop, quotient_of}
use lib_hsa.SoftMath.Long.{LongDivision, all, high, low, long_round, long_loop, long_result}
use native.Mathlib.Nat.{
  div-add-mod, pow-suc, add-mul-mod_self_left, mod-eq_of_lt, mod-lt, one-le-pow,
}
use Prim.Native.Nat.{zero}

abbrev pub joined : LongDivision → Division
joined x = record { r = all x.r_high x.r_low; q = all x.q_high x.q_low; carry = x.carry }

pub record IsWords (x : LongDivision) : Type 0 where
  pub q_high_word : x.q_high < 2 ^ 32
  pub q_low_word : x.q_low < 2 ^ 32
  pub r_high_word : x.r_high < 2 ^ 32
  pub r_low_word : x.r_low < 2 ^ 32
  pub carry_bit : x.carry ≤ 1

-- A shift by one with a bit shifted in, in a word of `suc h` bits.
shifted_in : (h v t : ℕ) → t ≤ 1 → bit_or ((v <<< 1) % 2 ^ suc h) t ≡ v % 2 ^ h * 2 + t
shifted_in h v t bit = rw even (omega (arith, bit_or_split 1 (v % 2 ^ h) t (omega arith)))
  where
    even : v * 2 ^ 1 % 2 ^ suc h ≡ v % 2 ^ h * 2 ^ 1
    even =
        ap (λ (y : ℕ). y % 2 ^ suc h) parts
        ∙ add-mul-mod_self_left (v % 2 ^ h * 2) (2 ^ suc h) (v / 2 ^ h)
        ∙ mod-eq_of_lt (omega (arith, mod-lt v (one-le-pow h 2 (omega arith)), pow-suc 2 h))
      where
        parts : v * 2 ≡ v % 2 ^ h * 2 + 2 ^ suc h * (v / 2 ^ h)
        parts = omega (arith, div-add-mod v (2 ^ h), ap (λ (y : ℕ). y * (v / 2 ^ h)) (pow-suc 2 h))

module _ (d : ℕ) (x : LongDivision) (w : IsWords x) where
  r_joined :
      all
        (bit_or (u32 (x.r_high <<< 1)) (x.r_low >>> 31))
        (bit_or (u32 (x.r_low <<< 1)) (x.q_high >>> 31))
      ≡ bit_or ((all x.r_high x.r_low <<< 1) % 2 ^ 64) (all x.q_high x.q_low >>> (64 - 1))
  r_joined =
      rw
        (
          shifted_in 31 x.r_high (x.r_low / 2 ^ 31) (omega (arith, w.r_low_word)),
          shifted_in 31 x.r_low (x.q_high / 2 ^ 31) (omega (arith, w.q_high_word)),
          shifted_in 63 (all x.r_high x.r_low) (all x.q_high x.q_low / 2 ^ 63)
              (omega (arith, w.q_high_word, w.q_low_word)),
        )
        (omega (arith, w.r_high_word, w.r_low_word, w.q_high_word, w.q_low_word))

  q_joined :
      all (bit_or (u32 (x.q_high <<< 1)) (x.q_low >>> 31)) (bit_or (u32 (x.q_low <<< 1)) x.carry)
      ≡ bit_or ((all x.q_high x.q_low <<< 1) % 2 ^ 64) x.carry
  q_joined =
      rw
        (
          shifted_in 31 x.q_high (x.q_low / 2 ^ 31) (omega (arith, w.q_low_word)),
          shifted_in 31 x.q_low x.carry w.carry_bit,
          shifted_in 63 (all x.q_high x.q_low) x.carry w.carry_bit,
        )
        (omega (arith, w.q_high_word, w.q_low_word))

  whole : (v : ℕ) → all (high v) (low v) ≡ v
  whole v = omega arith

  abbrev remainder_after : ℕ → ℕ
  remainder_after r =
      u64
        (r + (2 ^ 64 - bit_and d (shift_right_signed 64 (u64 (d + 2 ^ 64 - r + (2 ^ 64 - 1))) 63)))

  abbrev r_shifted : ℕ
  r_shifted = bit_or ((all x.r_high x.r_low <<< 1) % 2 ^ 64) (all x.q_high x.q_low >>> (64 - 1))

  round_joined : joined (long_round d x) ≡ divide_round 64 d (joined x)
  unfolding long_round divide_round
  round_joined = rw (r_joined, q_joined, whole (remainder_after r_shifted)) refl

  shifted_word : (v t : ℕ) → t ≤ 1 → bit_or (u32 (v <<< 1)) t < 2 ^ 32
  shifted_word v t bit = rw (shifted_in 31 v t bit) (omega arith)

  low_bit : (v : ℕ) → bit_and v 1 ≤ 1
  low_bit v = rw (bit_and_mask 1 v) (omega arith)

  round-IsWords : IsWords (long_round d x)
  unfolding long_round
  round-IsWords = record {
    q_high_word = shifted_word x.q_high (x.q_low / 2 ^ 31) (omega (arith, w.q_low_word));
    q_low_word = shifted_word x.q_low x.carry w.carry_bit;
    r_high_word = omega arith;
    r_low_word = omega arith;
    carry_bit = low_bit _;
  }

-- The loop on halves gives what the loop on 64-bit words gives.
pub long_result_lem :
    (sr d : ℕ) (x : LongDivision)
    → IsWords x
    → long_result sr d x
      ≡ (quotient_of 64 (divide_loop 64 sr d (joined x)), (divide_loop 64 sr d (joined x)).r)
unfolding long_loop divide_loop
long_result_lem zero d x w = refl
long_result_lem (suc sr) d x w =
    long_result_lem sr d (long_round d x) (round-IsWords d x w)
    ∙ ap (λ (y : Division). (quotient_of 64 (divide_loop 64 sr d y), (divide_loop 64 sr d y).r))
        (round_joined d x w)
