-- ===== src/Exceptions/Fields.antt =====
-- The fields of a MIPS instruction of immediate format, as the handler takes them out of it, and
-- the sign extension of its offset.
use lib_hsa.Base.{
  ℕ, bit_and, ◌<◌, ◌≡◌, if◌then◌else◌, ◌/◌, ltb, ◌==◌, ◌^◌, ◌%◌, ◌>>>◌, arith, bit_and_mask, bit_or,
  ◌-◌, bit_and_high, ◌+◌, bit_or_split_right,
}

-- `(instr & 0xFC000000) >> 26`
abbrev pub op_field : ℕ → ℕ
op_field instr = bit_and instr 0xFC00_0000 >>> 26

-- `(instr & 0x03E00000) >> 21`
abbrev pub base_field : ℕ → ℕ
base_field instr = bit_and instr 0x03E0_0000 >>> 21

-- `(instr & 0x001F0000) >> 16`
abbrev pub rt_field : ℕ → ℕ
rt_field instr = bit_and instr 0x001F_0000 >>> 16

-- `instr & 0x0000FFFF`
abbrev pub offset_field : ℕ → ℕ
offset_field instr = bit_and instr 0x0000_FFFF

-- The sign extension of the offset.
abbrev pub sign_extend_offset : ℕ → ℕ
sign_extend_offset offset = if bit_and offset 0x8000 == 0 then offset else bit_or offset 0xFFFF_0000

-- What the architecture says: the word that `n` bits of two's complement stand for.
abbrev pub sign_extended : (n w : ℕ) → ℕ
sign_extended n w = if ltb w (2 ^ (n - 1)) then w else w + (2 ^ 32 - 2 ^ n)

pub base_field_lem : (instr : ℕ) → base_field instr ≡ instr / 2 ^ 21 % 32
base_field_lem instr = omega (arith, bit_and_high 21 31 instr, bit_and_mask 5 (instr / 2 ^ 21))

pub rt_field_lem : (instr : ℕ) → rt_field instr ≡ instr / 2 ^ 16 % 32
rt_field_lem instr = omega (arith, bit_and_high 16 31 instr, bit_and_mask 5 (instr / 2 ^ 16))

pub op_field_lem : (instr : ℕ) → op_field instr ≡ instr / 2 ^ 26 % 64
op_field_lem instr = omega (arith, bit_and_high 26 63 instr, bit_and_mask 6 (instr / 2 ^ 26))

pub offset_field_lem : (instr : ℕ) → offset_field instr ≡ instr % 2 ^ 16
offset_field_lem instr = bit_and_mask 16 instr

pub sign_extend_offset_lem : (w : ℕ) → w < 2 ^ 16 → sign_extend_offset w ≡ sign_extended 16 w
sign_extend_offset_lem w h = ground (
  arith,
  bit_and_high 15 1 w,
  bit_and_mask 1 (w / 2 ^ 15),
  bit_or_split_right 16 (2 ^ 16 - 1) w h,
)
