-- ===== src/Exceptions/Tests.antt =====
-- Runs of the emulation at concrete inputs, and the instances of its theorems there.
use lib_hsa.Base.{
  ℕ, if◌then◌else◌, ◌*◌, ◌≡◌, load, store, ltb, some, ◌%◌, refl, arith, ◌/◌, ◌-◌, ◌+◌, u8, ◌^◌,
  ◌==◌, Memory, update, ◌&&◌,
}
use lib_hsa.Exceptions.Handlers.{rom_call, calls_packetprocessor}
use lib_hsa.Exceptions.Emulation.{
  Cpu, load_byte_unsigned, load_halfword_unsigned, load_byte, store_byte, increment_epc,
  saved_register, store_halfword, set_saved_register,
}
use lib_hsa.Exceptions.Loads.{addressed, load_byte_lem}
use lib_hsa.Exceptions.Stores.{unextended_address, store_byte_lem}
use lib_hsa.Exceptions.Frame.{found_register, found_register_doubleword}
use lib_hsa.Exceptions.Fields.{sign_extended}
use lib_hsa.Exceptions.Restore.{
  restore_registers, in_frame, emulated_register_returned, handled_registers, KeepsConvention,
}
use lib_hsa.Exceptions.Entry.{
  KeepsFrame, rom_exception_entry, fpga_exception_entry, accel_exception_entry, Returned,
  interrupts_transparent,
}

-- Words of memory with different bytes; the copy of the registers lies at 0x1000.
abbrev cpu : Cpu
cpu = record { mem = λ a. if ltb a 0x1000 then a + 0x80 else 0; reg_stack = 0x1000; epc = 0x400 }

-- lb $2, 5($0)
abbrev lb_instr : ℕ
lb_instr = 0x8002_0005

-- lbu $2, 5($0)
abbrev lbu_instr : ℕ
lbu_instr = 0x9002_0005

-- lhu $2, 6($0)
abbrev lhu_instr : ℕ
lhu_instr = 0x9402_0006

-- sb $2, 5($0)
abbrev sb_instr : ℕ
sb_instr = 0xA002_0005

load_byte_lem_example : load_byte 0 lb_instr cpu ≡ record {
  mem = store 4 cpu.mem (0x1000 + 4 * 2) (sign_extended 8 (u8 (cpu.mem (addressed cpu lb_instr))));
  reg_stack = 0x1000;
  epc = 0x404;
}
load_byte_lem_example = load_byte_lem 0 lb_instr cpu

load_byte_run : saved_register (load_byte 0 lb_instr cpu) 2 ≡ 0xFFFF_FF85
unfolding load_byte load store
load_byte_run = refl

-- Byte 5 is 0x85, but LBU gives the byte at 4.
load_byte_unsigned_run : saved_register (load_byte_unsigned 0 lbu_instr cpu) 2 ≡ 0x84
unfolding load_byte_unsigned load store
load_byte_unsigned_run = refl

-- The halfword at 6 is 0x8786, but LHU gives the whole word.
load_halfword_unsigned_run : saved_register (load_halfword_unsigned 0 lhu_instr cpu) 2 ≡ 0x8786_8584
unfolding load_halfword_unsigned load store
load_halfword_unsigned_run = refl

-- A store of the byte at 5 clears the byte at 4.
store_byte_run : (store_byte 0 sb_instr cpu).mem 4 ≡ 0
unfolding store_byte load store
store_byte_run = refl

store_byte_lem_example :
    let at = unextended_address cpu sb_instr in
    store_byte 0 sb_instr cpu
    ≡ increment_epc 0 (record cpu {
      mem =
          store 4 cpu.mem
            (at - at % 4)
            (saved_register cpu (sb_instr / 2 ^ 16 % 32) % 256 * 2 ^ (at % 4 * 8));
    })
store_byte_lem_example = store_byte_lem 0 sb_instr cpu

-- An interrupt of the packet processor starts the accelerator.
rom_call_run : rom_call 0x8000 ≡ some calls_packetprocessor
unfolding rom_call
rom_call_run = refl

-- Register 4 is where the emulation looks for register 8.
found_register_doubleword_example : found_register 8 (λ r. r * 1000) 0x2000 cpu.mem 8 ≡ 4000
found_register_doubleword_example =
    found_register_doubleword (λ r. r * 1000) 0x2000 cpu.mem 8 (omega arith)

-- lh $2, 6($0)
abbrev lh_instr : ℕ
lh_instr = 0x8402_0006

-- sh $2, 6($0)
abbrev sh_instr : ℕ
sh_instr = 0xA402_0006

-- A store of the halfword at 6 clears the byte at 4.
store_halfword_run : (store_halfword 0 sh_instr cpu).mem 4 ≡ 0
unfolding store_halfword load store
store_halfword_run = refl

-- Register 2 is given 0x1_0000_0007 by the emulation.
-- The handler has left 0 in the registers 1 to 27.
abbrev left : ℕ → ℕ
left i = if ltb 0 i && ltb i 28 then 0 else 5

left-KeepsConvention : KeepsConvention (λ r. 5) left
left-KeepsConvention j h = rw h refl

emulated_register_returned_example :
    restore_registers 4 0x2000
      (set_saved_register (in_frame (λ r. 5) 0x2000 cpu.mem 0) 2 0x1_0000_0007).mem
      (handled_registers 0x2000 0x28 left)
      2
    ≡ (if 2 == 2 then 0x1_0000_0007 % 2 ^ 32 else 5)
emulated_register_returned_example =
    emulated_register_returned (λ r. 5) left 0x2000 0x28 cpu.mem 0 2 0x1_0000_0007 2
      left-KeepsConvention (omega arith) (omega arith) (λ j. omega arith) (omega arith)
      (omega arith)

-- An interrupt routine that writes a byte at 0x100, with the frame below 0x8000.
abbrev routine : {Call : Type 0} → Call → Memory → Memory
routine call m = update m 0x100 1

routine-KeepsFrame : {Call : Type 0} → KeepsFrame {Call = Call} 4 routine 0x8000
routine-KeepsFrame call m b lo hi = ground arith

routine-KeepsFrame_wide : {Call : Type 0} → KeepsFrame {Call = Call} 8 routine 0x8000
routine-KeepsFrame_wide call m b lo hi = ground arith

interrupts_transparent_example :
    let r = rom_exception_entry routine 0x8000 0 0x8000 0x400 (λ i. 5) left cpu.mem in
    let a = accel_exception_entry routine 0x8000 0 0x8000 0x400 (λ i. 5) left cpu.mem in
    ((f : Returned) × ((fpga_exception_entry routine 0x8000 0 0x8000 0x400 (λ i. 5) left cpu.mem
          ≡ some f)
        × (f.registers 7 ≡ 5)
        × (f.epc ≡ 0x400)))
    × (r.registers 7 ≡ 5)
    × (r.epc ≡ 0x400)
    × (a.registers 7 ≡ 5)
    × (a.epc ≡ 0x400)
interrupts_transparent_example =
    interrupts_transparent routine routine routine 0x8000 0 0x8000 0x400 (λ i. 5) left cpu.mem 7
      left-KeepsConvention (omega arith) (omega arith) refl routine-KeepsFrame_wide
      routine-KeepsFrame routine-KeepsFrame (omega arith)
