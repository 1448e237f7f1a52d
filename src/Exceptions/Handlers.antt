-- ===== src/Exceptions/Handlers.antt =====
-- `exception_handler` of the four processors: the state after it, and what it calls.
use lib_hsa.Base.{ℕ, Bool, bit_and, Option, ◌>>>◌, ◌==◌, if◌then◌else◌, ◌&&◌, some, none}
use lib_hsa.Exceptions.Copies.{
  fpga_reserved_instruction, rom_reserved_instruction, accel_reserved_instruction,
}
use lib_hsa.Exceptions.Emulation.{Cpu}

-- The values of CP0_CAUSE_EXC_CODE that the handlers tell apart.
abbrev pub exc_code_int : ℕ
exc_code_int = 0x00

abbrev pub exc_code_ri : ℕ
exc_code_ri = 0x0A

-- `(cause & 0x7C) >> 2`
abbrev pub exc_code : ℕ → ℕ
exc_code cause = bit_and cause 0x7C >>> 2

-- `(cause & 0xFC00) >> 10`
abbrev pub interrupt_code : ℕ → ℕ
interrupt_code cause = bit_and cause 0xFC00 >>> 10

-- What an exception makes a processor call, besides the emulation of the instruction.
pub data FpgaCall : Type 0 where
  calls_transfer calls_completion calls_added_core calls_removed_core jumps_to_halt : FpgaCall

-- exception_handler.c of the FPGA command processor. The cases but that of interrupts are commented
-- out, so every other exception is the default.
unfoldable pub fpga_call : ℕ → Option FpgaCall
fpga_call cause =
    if exc_code cause == exc_code_int
    then if interrupt_code cause == 32
      then some calls_transfer
      else if interrupt_code cause == 16
      then some calls_completion
      else if interrupt_code cause == 8
      then some calls_added_core
      else if interrupt_code cause == 4
      then some calls_removed_core
      else none
    else some jumps_to_halt

pub data RomCall : Type 0 where
  calls_packetprocessor calls_datamover : RomCall

-- exception_handler.c of the image accelerator's command processor.
unfoldable pub rom_call : ℕ → Option RomCall
rom_call cause =
    if exc_code cause == exc_code_int
    then if interrupt_code cause == 32
      then some calls_packetprocessor
      else if interrupt_code cause == 16
      then some calls_datamover
      else none
    else none

-- exception_handler.c of the accelerator command processor: whether
-- `handle_interrupt_from_packetprocessor` is called.
unfoldable pub accel_call : ℕ → Bool
accel_call cause = (exc_code cause == exc_code_int) && (interrupt_code cause == 32)

-- The instruction is emulated before the interrupts are told apart.
abbrev emulated : (ℕ → ℕ → Cpu → Cpu) → (cause instr : ℕ) → Cpu → Cpu
emulated emulation cause instr c =
    if exc_code cause == exc_code_ri then emulation cause instr c else c

unfoldable pub fpga_exception_handler : (cause instr : ℕ) → Cpu → Cpu × Option FpgaCall
fpga_exception_handler cause instr c =
    (emulated fpga_reserved_instruction cause instr c, fpga_call cause)

unfoldable pub rom_exception_handler : (cause instr : ℕ) → Cpu → Cpu × Option RomCall
rom_exception_handler cause instr c =
    (emulated rom_reserved_instruction cause instr c, rom_call cause)

unfoldable pub accel_exception_handler : (cause instr : ℕ) → Cpu → Cpu × Bool
accel_exception_handler cause instr c =
    (emulated accel_reserved_instruction cause instr c, accel_call cause)
