-- ===== src/Exceptions/Emulation.antt =====
-- `reserved_instruction_exception`. The copy of the registers on the stack lies in the same memory
-- that the emulated instruction accesses. A word access is `lw` or `sw` at an aligned address.
use lib_hsa.Base.{
  ℕ, Memory, load, if◌then◌else◌, bit_and, store, u32, ◌*◌, ◌==◌, ◌>>>◌, ◌<<<◌, ◌+◌, bit_or,
  shift_left_int, shift_right_int,
}
use lib_hsa.Exceptions.Fields.{offset_field, sign_extend_offset, op_field, rt_field, base_field}

-- The memory, the address of the copy of the registers (`reg_stack`) and register 14 of
-- coprocessor 0, which the handler returns to.
pub record Cpu : Type 0 where
  pub mem : Memory
  pub reg_stack : ℕ
  pub epc : ℕ

-- `reg_stack[i]`
abbrev pub saved_register : Cpu → ℕ → ℕ
saved_register c i = load 4 c.mem (c.reg_stack + 4 * i)

abbrev pub set_saved_register : Cpu → ℕ → ℕ → Cpu
set_saved_register c i v = record c { mem = store 4 c.mem (c.reg_stack + 4 * i) v }

-- Unless the instruction stands in a branch delay slot, the next one follows. `addi` traps where
-- a signed sum overflows; that is left out.
abbrev pub increment_epc : (cause : ℕ) → Cpu → Cpu
increment_epc cause c =
    if bit_and cause 0x8000_0000 == 0 then record c { epc = u32 (c.epc + 4) } else c

abbrev pub effective_address : Cpu → (instr offset : ℕ) → ℕ
effective_address c instr offset = u32 (saved_register c (base_field instr) + offset)

-- `effective_address & 0xFFFFFFFC`
abbrev pub lw_address : ℕ → ℕ
lw_address address = bit_and address 0xFFFF_FFFC

-- `effective_address & 0x3`
abbrev pub byte_offset : ℕ → ℕ
byte_offset address = bit_and address 3

-- `(effective_address & 0x2) >> 1`
abbrev pub halfword_offset : ℕ → ℕ
halfword_offset address = bit_and address 2 >>> 1

-- The operator `!` of C.
abbrev pub logical_not : ℕ → ℕ
logical_not v = if v == 0 then 1 else 0

abbrev pub extract_signed_byte : (word bit_offset : ℕ) → ℕ
extract_signed_byte word bit_offset =
    let byte = bit_and word (u32 (0xFF <<< bit_offset)) >>> bit_offset in
    if bit_and byte 0x80 == 0x80 then bit_or byte 0xFFFF_FF00 else byte

-- Case C_OP_FIELD_LB.
unfoldable pub load_byte : (cause instr : ℕ) → Cpu → Cpu
load_byte cause instr c =
    let address = effective_address c instr (sign_extend_offset (offset_field instr)) in
    let word = load 4 c.mem (lw_address address) in
    let byte = extract_signed_byte word (byte_offset address * 8) in
    increment_epc cause (set_saved_register c (rt_field instr) byte)

-- The shift to the right binds tighter than `&`, so it is the mask that is shifted.
abbrev pub extract_unsigned : (ones word bit_offset : ℕ) → ℕ
extract_unsigned ones word bit_offset =
    bit_and word (shift_right_int (shift_left_int ones bit_offset) bit_offset)

-- Case C_OP_FIELD_LBU.
unfoldable pub load_byte_unsigned : (cause instr : ℕ) → Cpu → Cpu
load_byte_unsigned cause instr c =
    let address = effective_address c instr (sign_extend_offset (offset_field instr)) in
    let word = load 4 c.mem (lw_address address) in
    let byte = extract_unsigned 0xFF word (byte_offset address * 8) in
    increment_epc cause (set_saved_register c (rt_field instr) byte)

-- Case C_OP_FIELD_LH; the 8000 of the sign test is decimal.
unfoldable pub load_halfword : (cause instr : ℕ) → Cpu → Cpu
load_halfword cause instr c =
    let address = effective_address c instr (sign_extend_offset (offset_field instr)) in
    let word = load 4 c.mem (lw_address address) in
    let halfword = extract_unsigned 0xFFFF word (halfword_offset address * 16) in
    let extended = if bit_and halfword 8000 == 0 then halfword else bit_or halfword 0xFFFF_0000 in
    increment_epc cause (set_saved_register c (rt_field instr) extended)

-- Case C_OP_FIELD_LHU.
unfoldable pub load_halfword_unsigned : (cause instr : ℕ) → Cpu → Cpu
load_halfword_unsigned cause instr c =
    let address = effective_address c instr (sign_extend_offset (offset_field instr)) in
    let word = load 4 c.mem (lw_address address) in
    let halfword = extract_unsigned 0xFFFF word (halfword_offset address * 16) in
    increment_epc cause (set_saved_register c (rt_field instr) halfword)

-- The word that is stored back: the mask is negated with `!`.
abbrev pub merge : (ones value word bit_offset : ℕ) → ℕ
merge ones value word bit_offset =
    let part = u32 (bit_and value ones <<< bit_offset) in
    let mask = logical_not (shift_left_int ones bit_offset) in bit_or (bit_and word mask) part

-- Case C_OP_FIELD_SB; the offset is not extended.
unfoldable pub store_byte : (cause instr : ℕ) → Cpu → Cpu
store_byte cause instr c =
    let address = effective_address c instr (offset_field instr) in
    let at = lw_address address in
    let word = load 4 c.mem at in
    let merged = merge 0xFF (saved_register c (rt_field instr)) word (byte_offset address * 8) in
    increment_epc cause (record c { mem = store 4 c.mem at merged })

-- Case C_OP_FIELD_SH; the offset is not extended.
unfoldable pub store_halfword : (cause instr : ℕ) → Cpu → Cpu
store_halfword cause instr c =
    let address = effective_address c instr (offset_field instr) in
    let at = lw_address address in
    let word = load 4 c.mem at in
    let merged =
      merge 0xFFFF (saved_register c (rt_field instr)) word (halfword_offset address * 16) in
    increment_epc cause (record c { mem = store 4 c.mem at merged })

-- op_field.h
abbrev pub op_lb : ℕ
op_lb = 0x20

abbrev pub op_lbu : ℕ
op_lbu = 0x24

abbrev pub op_lh : ℕ
op_lh = 0x21

abbrev pub op_lhu : ℕ
op_lhu = 0x25

abbrev pub op_sb : ℕ
op_sb = 0x28

abbrev pub op_sh : ℕ
op_sh = 0x29

-- `instr` is what coprocessor 0 holds of the instruction.
unfoldable pub reserved_instruction_exception : (cause instr : ℕ) → Cpu → Cpu
reserved_instruction_exception cause instr c =
    let op = op_field instr in
    if op == op_lb
    then load_byte cause instr c
    else if op == op_lbu
    then load_byte_unsigned cause instr c
    else if op == op_lh
    then load_halfword cause instr c
    else if op == op_lhu
    then load_halfword_unsigned cause instr c
    else if op == op_sb
    then store_byte cause instr c
    else if op == op_sh
    then store_halfword cause instr c
    else c
