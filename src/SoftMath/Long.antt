-- ===== src/SoftMath/Long.antt =====
-- `__udivmoddi4`: the division of 64-bit numbers in halves. The builtins belong to the compiler;
-- shifts of a word by 32 and more, which the code computes and masks away, are undefined in C, so the
-- shifts are parameters too. The remainder is a result, also for callers that pass no place for it.
mod Powers
mod Round
mod Start
mod Masks
mod Starts
pub mod Divide
mod Result
mod Low
pub mod Quotient
pub mod Signed
use lib_hsa.Base.{
  ℕ, ◌%◌, u32, ◌*◌, bit_or, ◌/◌, Option, suc, shift_right_int, if◌then◌else◌, ◌<<<◌, ◌+◌, ◌^◌, u64,
  ◌-◌, ◌>>>◌, ◌==◌, some, shift_right_signed, ltb,
}
use lib_hsa.PacketProcessor.State.{◌>>=◌}
use lib_hsa.SoftMath.Modulo.{umodsi3}
use lib_hsa.SoftMath.Unsigned.{udivsi3}
use lib_hsa.SoftMath.Signed.{negate_by}
use Prim.Native.Nat.{zero, bit_and, bit_xor}

-- What the compiler gives.
pub record Builtins : Type 0 where
  pub clz : ℕ → ℕ
  pub ctz : ℕ → ℕ
  pub shift_left : (word count : ℕ) → ℕ
  pub shift_right : (word count : ℕ) → ℕ

abbrev pub high : ℕ → ℕ
high x = x / 2 ^ 32

abbrev pub low : ℕ → ℕ
low x = x % 2 ^ 32

abbrev pub all : (high low : ℕ) → ℕ
all h l = h * 2 ^ 32 + l

-- The variables `q`, `r` and `carry`, in halves.
pub record LongDivision : Type 0 where
  pub q_high : ℕ
  pub q_low : ℕ
  pub r_high : ℕ
  pub r_low : ℕ
  pub carry : ℕ

-- A round of the loop.
unfoldable pub long_round : (d : ℕ) → LongDivision → LongDivision
long_round d x =
    let r_high = bit_or (u32 (x.r_high <<< 1)) (x.r_low >>> 31) in
    let r_low = bit_or (u32 (x.r_low <<< 1)) (x.q_high >>> 31) in
    let q_high = bit_or (u32 (x.q_high <<< 1)) (x.q_low >>> 31) in
    let q_low = bit_or (u32 (x.q_low <<< 1)) x.carry in
    let s = shift_right_signed 64 (u64 (d + 2 ^ 64 - all r_high r_low + (2 ^ 64 - 1))) 63 in
    let r = u64 (all r_high r_low + (2 ^ 64 - bit_and d s)) in
    record { q_high = q_high; q_low = q_low; r_high = high r; r_low = low r; carry = bit_and s 1 }

unfoldable pub long_loop : (sr d : ℕ) → LongDivision → LongDivision
long_loop zero d x = x
long_loop (suc sr) d x = long_loop sr d (long_round d x)

-- The loop, and the quotient and the remainder after it.
abbrev pub long_result : (sr d : ℕ) → LongDivision → ℕ × ℕ
long_result sr d start =
    let x = long_loop sr d start in
    (bit_or (u64 (all x.q_high x.q_low <<< 1)) x.carry, all x.r_high x.r_low)

-- `(si_int)x >> 31` for a difference `a - b`
abbrev pub mask_less : (a b : ℕ) → ℕ
mask_less a b = shift_right_int (u32 (a + 2 ^ 32 - b)) 31

module _ (p : Builtins) where
  -- The start for 1 ≤ sr ≤ 31, where the low half of the denominator is 0.
  abbrev pub high_start : (sr nh nl : ℕ) → LongDivision
  high_start sr nh nl = record {
    q_low = 0;
    q_high = p.shift_left nl (u32 (32 + 2 ^ 32 - sr));
    r_high = p.shift_right nh sr;
    r_low = bit_or (p.shift_left nh (u32 (32 + 2 ^ 32 - sr))) (p.shift_right nl sr);
    carry = 0;
  }

  -- The start for 2 ≤ sr ≤ 63, where the high half of the denominator is 0.
  abbrev pub low_start : (sr nh nl : ℕ) → LongDivision
  low_start sr nh nl =
      let to_word = u32 (32 + 2 ^ 32 - sr) in
      let to_dword = u32 (64 + 2 ^ 32 - sr) in
      let from_word = u32 (sr + 2 ^ 32 - 32) in
      record {
        q_low = bit_and (p.shift_left nl to_dword) (mask_less 32 sr);
        q_high = bit_or (bit_and (p.shift_left nl to_word) (mask_less sr 33)) (
            bit_and (bit_or (p.shift_left nh to_dword) (p.shift_right nl from_word))
              (mask_less 32 sr));
        r_high = bit_and (p.shift_right nh sr) (mask_less sr 32);
        r_low =
            bit_or (bit_and (p.shift_right nh from_word) (mask_less 31 sr))
              (bit_and (bit_or (p.shift_left nh to_word) (p.shift_right nl sr)) (mask_less sr 32));
        carry = 0;
      }

  -- The start for 1 ≤ sr ≤ 32, where no half of the denominator is 0.
  abbrev pub full_start : (sr nh nl : ℕ) → LongDivision
  full_start sr nh nl =
      let to_word = u32 (32 + 2 ^ 32 - sr) in
      record {
        q_low = 0;
        q_high = p.shift_left nl to_word;
        r_high = bit_and (p.shift_right nh sr) (mask_less sr 32);
        r_low = bit_or (p.shift_left nh to_word) (bit_and (p.shift_right nl sr) (mask_less sr 32));
        carry = 0;
      }

  -- The low half of the denominator is 0, the high half of the number is not.
  unfoldable pub divide_by_high : (nh nl dh : ℕ) → Option (ℕ × ℕ)
  divide_by_high nh nl dh =
      let sr = u32 (p.clz dh + 2 ^ 32 - p.clz nh) in
      if dh == 0
      then umodsi3 nh 0 >>= (λ r. some (udivsi3 p.clz nh 0, r))
      else if nl == 0
      then umodsi3 nh dh >>= (λ r. some (udivsi3 p.clz nh dh, all r 0))
      else if bit_and dh (dh - 1) == 0
      then some (p.shift_right nh (p.ctz dh), all (bit_and nh (dh - 1)) nl)
      else some (
          if ltb 30 sr
          then (0, all nh nl)
          else long_result (sr + 1) (all dh 0) (high_start (sr + 1) nh nl))

  -- The high half of the denominator is 0, its low half and the high half of the number are not.
  unfoldable pub divide_by_low : (nh nl dl : ℕ) → ℕ × ℕ
  divide_by_low nh nl dl =
      let sr = u32 (1 + 32 + p.clz dl + 2 ^ 32 - p.clz nh) in
      let k = p.ctz dl in
      if bit_and dl (dl - 1) == 0
      then (
        if dl == 1
            then all nh nl
            else all (p.shift_right nh k)
                (bit_or (p.shift_left nh (u32 (32 + 2 ^ 32 - k))) (p.shift_right nl k)),
        bit_and nl (dl - 1),
      )
      else long_result sr dl (low_start sr nh nl)

  -- Neither half of the denominator is 0, nor the high half of the number.
  unfoldable pub divide_by_full : (nh nl dh dl : ℕ) → ℕ × ℕ
  divide_by_full nh nl dh dl =
      let sr = u32 (p.clz dh + 2 ^ 32 - p.clz nh) in
      if ltb 31 sr
      then (0, all nh nl)
      else long_result (sr + 1) (all dh dl) (full_start (sr + 1) nh nl)

  -- The high half of the number is 0.
  unfoldable pub divide_word : (nl dh dl : ℕ) → Option (ℕ × ℕ)
  divide_word nl dh dl =
      if dh == 0 then umodsi3 nl dl >>= (λ r. some (udivsi3 p.clz nl dl, r)) else some (0, nl)

  unfoldable pub udivmoddi4 : (a b : ℕ) → Option (ℕ × ℕ)
  udivmoddi4 a b =
      if high a == 0
      then divide_word (low a) (high b) (low b)
      else if low b == 0
      then divide_by_high (high a) (low a) (high b)
      else if high b == 0
      then some (divide_by_low (high a) (low a) (low b))
      else some (divide_by_full (high a) (low a) (high b) (low b))

  unfoldable pub umoddi3 : (a b : ℕ) → Option ℕ
  umoddi3 a b = udivmoddi4 a b >>= (λ r. some (r.1))

  unfoldable pub udivdi3 : (a b : ℕ) → Option ℕ
  udivdi3 a b = udivmoddi4 a b >>= (λ r. some (r.0))

  unfoldable pub divdi3 : (a b : ℕ) → Option ℕ
  divdi3 a b =
      let s_a = shift_right_signed 64 a 63 in
      let s_b = shift_right_signed 64 b 63 in
      udivmoddi4 (negate_by 64 s_a a) (negate_by 64 s_b b)
      >>= (λ r. some (negate_by 64 (bit_xor s_a s_b) (r.0)))
