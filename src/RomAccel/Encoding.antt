-- ===== src/RomAccel/Encoding.antt =====
-- `append` and `pe_encode_op` of main.c.
use native.Mathlib.Nat.{one-le-pow}
use lib_hsa.Base.{
  ℕ, ◌*◌, u32, ◌≡◌, ◌^◌, bit_or, ◌%◌, ◌+◌, ◌<<<◌, bit_and, arith, ◌<◌, bit_and_mask, ◌-◌,
  bit_or_split,
}

-- `(var << size) | (val & ((1 << size) - 1))`, for a 32-bit `var`.
abbrev pub append : (var size val : ℕ) → ℕ
append var size val = u32 (bit_or (u32 (var <<< size)) (bit_and val (2 ^ size - 1)))

unfoldable pub pe_encode_op : (color border kernel norm_and_thresh : ℕ) → ℕ
pe_encode_op color border kernel norm_and_thresh =
    let r0 = append 0 1 color in
    let r1 = append r0 2 border in let r2 = append r1 3 kernel in append r2 1 norm_and_thresh

append_lem :
    (var size val : ℕ)
    → var * 2 ^ size + val % 2 ^ size < 2 ^ 32
    → append var size val ≡ var * 2 ^ size + val % 2 ^ size
append_lem var size val h =
    let fits : u32 (var * 2 ^ size) ≡ var * 2 ^ size = omega arith in
    rw
      (
        fits,
        bit_and_mask size val,
        bit_or_split size var (val % 2 ^ size) (omega (arith, one-le-pow size 2)),
      )
      (omega arith)

-- The operation word holds the lowest bits of its parts, each at its place, whatever else the parts
-- hold: one bit of color, two of border handling, three of the kernel, one for the last.
pub pe_encode_op_lem :
    (color border kernel norm_and_thresh : ℕ)
    → pe_encode_op color border kernel norm_and_thresh
      ≡ color % 2 * 64 + border % 4 * 16 + kernel % 8 * 2 + norm_and_thresh % 2
unfolding pe_encode_op
pe_encode_op_lem color border kernel n =
    rw
      (
        append_lem 0 1 color (omega arith),
        append_lem (0 * 2 ^ 1 + color % 2 ^ 1) 2 border (omega arith),
        append_lem ((0 * 2 ^ 1 + color % 2 ^ 1) * 2 ^ 2 + border % 2 ^ 2) 3 kernel (omega arith),
        append_lem (((0 * 2 ^ 1 + color % 2 ^ 1) * 2 ^ 2 + border % 2 ^ 2) * 2 ^ 3 + kernel % 2 ^ 3)
            1 n (omega arith),
      )
      (omega arith)
