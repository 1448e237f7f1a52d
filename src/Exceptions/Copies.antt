-- ===== src/Exceptions/Copies.antt =====
-- `reserved_instruction_exception` of the three command processors.
use lib_hsa.Base.{ℕ, ◌==◌, ◌≡◌, refl, if◌then◌else◌}
use lib_hsa.Exceptions.Fields.{op_field}
use lib_hsa.Exceptions.Emulation.{
  Cpu, load_byte, load_byte_unsigned, load_halfword, load_halfword_unsigned, store_byte,
  store_halfword, op_lb, op_lbu, op_lh, op_lhu, op_sb, op_sh, reserved_instruction_exception,
}

-- Every processor has its own copy of the emulation, all with the same text: the cases, and the
-- `switch` over them.
abbrev pub fpga_load_byte : (cause instr : ℕ) → Cpu → Cpu
fpga_load_byte = load_byte

abbrev pub fpga_load_byte_unsigned : (cause instr : ℕ) → Cpu → Cpu
fpga_load_byte_unsigned = load_byte_unsigned

abbrev pub fpga_load_halfword : (cause instr : ℕ) → Cpu → Cpu
fpga_load_halfword = load_halfword

abbrev pub fpga_load_halfword_unsigned : (cause instr : ℕ) → Cpu → Cpu
fpga_load_halfword_unsigned = load_halfword_unsigned

abbrev pub fpga_store_byte : (cause instr : ℕ) → Cpu → Cpu
fpga_store_byte = store_byte

abbrev pub fpga_store_halfword : (cause instr : ℕ) → Cpu → Cpu
fpga_store_halfword = store_halfword

unfoldable pub fpga_reserved_instruction : (cause instr : ℕ) → Cpu → Cpu
fpga_reserved_instruction cause instr c =
    let op = op_field instr in
    if op == op_lb
    then fpga_load_byte cause instr c
    else if op == op_lbu
    then fpga_load_byte_unsigned cause instr c
    else if op == op_lh
    then fpga_load_halfword cause instr c
    else if op == op_lhu
    then fpga_load_halfword_unsigned cause instr c
    else if op == op_sb
    then fpga_store_byte cause instr c
    else if op == op_sh
    then fpga_store_halfword cause instr c
    else c

abbrev pub rom_load_byte : (cause instr : ℕ) → Cpu → Cpu
rom_load_byte = load_byte

abbrev pub rom_load_byte_unsigned : (cause instr : ℕ) → Cpu → Cpu
rom_load_byte_unsigned = load_byte_unsigned

abbrev pub rom_load_halfword : (cause instr : ℕ) → Cpu → Cpu
rom_load_halfword = load_halfword

abbrev pub rom_load_halfword_unsigned : (cause instr : ℕ) → Cpu → Cpu
rom_load_halfword_unsigned = load_halfword_unsigned

abbrev pub rom_store_byte : (cause instr : ℕ) → Cpu → Cpu
rom_store_byte = store_byte

abbrev pub rom_store_halfword : (cause instr : ℕ) → Cpu → Cpu
rom_store_halfword = store_halfword

unfoldable pub rom_reserved_instruction : (cause instr : ℕ) → Cpu → Cpu
rom_reserved_instruction cause instr c =
    let op = op_field instr in
    if op == op_lb
    then rom_load_byte cause instr c
    else if op == op_lbu
    then rom_load_byte_unsigned cause instr c
    else if op == op_lh
    then rom_load_halfword cause instr c
    else if op == op_lhu
    then rom_load_halfword_unsigned cause instr c
    else if op == op_sb
    then rom_store_byte cause instr c
    else if op == op_sh
    then rom_store_halfword cause instr c
    else c

abbrev pub accel_load_byte : (cause instr : ℕ) → Cpu → Cpu
accel_load_byte = load_byte

abbrev pub accel_load_byte_unsigned : (cause instr : ℕ) → Cpu → Cpu
accel_load_byte_unsigned = load_byte_unsigned

abbrev pub accel_load_halfword : (cause instr : ℕ) → Cpu → Cpu
accel_load_halfword = load_halfword

abbrev pub accel_load_halfword_unsigned : (cause instr : ℕ) → Cpu → Cpu
accel_load_halfword_unsigned = load_halfword_unsigned

abbrev pub accel_store_byte : (cause instr : ℕ) → Cpu → Cpu
accel_store_byte = store_byte

abbrev pub accel_store_halfword : (cause instr : ℕ) → Cpu → Cpu
accel_store_halfword = store_halfword

unfoldable pub accel_reserved_instruction : (cause instr : ℕ) → Cpu → Cpu
accel_reserved_instruction cause instr c =
    let op = op_field instr in
    if op == op_lb
    then accel_load_byte cause instr c
    else if op == op_lbu
    then accel_load_byte_unsigned cause instr c
    else if op == op_lh
    then accel_load_halfword cause instr c
    else if op == op_lhu
    then accel_load_halfword_unsigned cause instr c
    else if op == op_sb
    then accel_store_byte cause instr c
    else if op == op_sh
    then accel_store_halfword cause instr c
    else c

-- The copies do the same.
copies_agree :
    (cause instr : ℕ) (c : Cpu)
    → (fpga_reserved_instruction cause instr c ≡ reserved_instruction_exception cause instr c)
      × (rom_reserved_instruction cause instr c ≡ reserved_instruction_exception cause instr c)
      × (accel_reserved_instruction cause instr c ≡ reserved_instruction_exception cause instr c)
unfolding fpga_reserved_instruction rom_reserved_instruction accel_reserved_instruction
    reserved_instruction_exception
copies_agree cause instr c = (refl, refl, refl)
