-- ===== src/Exceptions/Entry.antt =====
-- `_exception_handler` of the command processors as a whole: the registers are saved below the stack
-- pointer, the handler runs, and the registers are loaded back. What an interrupt makes the processor
-- do to the memory is given, and so are the registers that the compiled code of the handler leaves.
use lib_hsa.Base.{
  ℕ, Memory, ◌+◌, ◌-◌, ◌*◌, ◌^◌, ◌%◌, ◌≤◌, ◌<◌, ◌==◌, ◌≡◌, ◌≢◌, refl, arith, Bool, false, Option,
  load, load_same, ltb, ◌&&◌, ne→==, Bool-cases, inl, inr, ◌∙◌, ap, u32, none, some, eq→==,
  if◌then◌else◌, true,
}
use native.Mathlib.Nat.{mul-le-mul_left, mod-eq_of_lt}
use lib_hsa.Exceptions.Emulation.{Cpu}
use lib_hsa.Exceptions.Frame.{save_registers, saved_from}
use lib_hsa.Exceptions.Restore.{restore_registers, handled_registers, KeepsConvention, not_loaded}
use lib_hsa.Exceptions.Handlers.{
  FpgaCall, jumps_to_halt, fpga_call, exc_code_int, RomCall, exc_code, exc_code_ri,
  fpga_exception_handler, rom_exception_handler, accel_exception_handler,
}

-- What the program finds when it goes on.
pub record Returned : Type 0 where
  pub registers : ℕ → ℕ
  pub memory : Memory
  pub epc : ℕ

-- The frame of 26 registers below the stack pointer; addresses of the 32-bit processors wrap at 2^32.
abbrev pub frame_of : (width sp : ℕ) → ℕ
frame_of width sp = (sp + (256 ^ width - width * 26)) % 256 ^ width

-- The routine leaves the frame alone.
abbrev pub KeepsFrame :
    {Call : Type 0} → (width : ℕ) → (run : Call → Memory → Memory) → (sp : ℕ) → Type 0
KeepsFrame {Call} width run sp =
    (call : Call) (m : Memory) (b : ℕ)
    → frame_of width sp ≤ b
    → b < frame_of width sp + width * 26
    → run call m b ≡ m b

above_start : (fr w i b : ℕ) → fr + w * i ≤ b → fr ≤ b
above_start fr w i b h = omega arith

below_end : (fr w i b : ℕ) → i < 26 → b < fr + w * i + w → b < fr + w * 26
below_end fr w i b h k =
    let m : w * (i + 1) ≤ w * 26 = mul-le-mul_left w (omega arith) in omega (arith, m)

module _ {Call : Type 0} (width : ℕ) (handler : Cpu → Cpu × Call)
    (run : Call → Memory → Memory) where
  abbrev pub exception_entry : (cause sp epc : ℕ) → (registers left : ℕ → ℕ) → Memory → Returned
  exception_entry cause sp epc registers left m =
      let reg_stack = frame_of width sp in
      let (c, call) = handler (record {
        mem = save_registers width registers reg_stack m;
        reg_stack = u32 reg_stack;
        epc = epc;
      }) in
      let after = run call c.mem in
      record {
        registers =
            restore_registers width reg_stack after (handled_registers reg_stack cause left);
        memory = after;
        epc = c.epc;
      }

  entry-transparent :
      (cause sp epc : ℕ) (registers left : ℕ → ℕ) (m : Memory) (i : ℕ)
      → KeepsConvention registers left
      → i ≢ 26
      → i ≢ 27
      → ((c : Cpu) → (handler c).0 ≡ c)
      → KeepsFrame width run sp
      → registers i < 256 ^ width
      → let r = exception_entry cause sp epc registers left m in
        (r.registers i ≡ registers i) × (r.epc ≡ epc)
  entry-transparent cause sp epc registers left m i convention k0 k1 keeps frame word =
      let fr = frame_of width sp in
      let saved = save_registers width registers fr m in
      let c : Cpu = record { mem = saved; reg_stack = u32 fr; epc = epc } in
      let h = handler c in
      (
        elim (Bool-cases (ltb 0 i && ltb i 26)) [
          | inl q ↦
              let small : i < 26 = ground arith in
              rw q (
                load_same width (run h.1 h.0.mem) h.0.mem (fr + width * i) (λ b hi lo.
                  frame h.1 h.0.mem b (above_start fr width i b lo)
                    (below_end fr width i b small hi))
                ∙ ap (λ (d : Cpu). load width d.mem (fr + width * i)) (keeps c)
                ∙ saved_from width 26 0 i registers fr m (omega arith) small
                ∙ mod-eq_of_lt word)
          | inr q ↦ rw q (not_loaded registers left fr cause i convention k0 k1 q)
        ],
        ap (λ (d : Cpu). d.epc) (keeps c),
      )

-- Whether the processor jumps to `_halt`, from where it does not return.
abbrev halts : Option FpgaCall → Bool
halts (some jumps_to_halt) = true
halts _ = false

unfoldable pub fpga_exception_entry :
    (run : Option FpgaCall → Memory → Memory)
    → (cause instr sp epc : ℕ) → (registers left : ℕ → ℕ) → Memory
    → Option Returned
fpga_exception_entry run cause instr sp epc registers left m =
    if halts (fpga_call cause)
    then none
    else some
        (exception_entry 8 (fpga_exception_handler cause instr) run cause sp epc registers left m)

unfoldable pub rom_exception_entry :
    (run : Option RomCall → Memory → Memory)
    → (cause instr sp epc : ℕ) → (registers left : ℕ → ℕ) → Memory
    → Returned
rom_exception_entry run cause instr =
    exception_entry 4 (rom_exception_handler cause instr) run cause

unfoldable pub accel_exception_entry :
    (run : Bool → Memory → Memory)
    → (cause instr sp epc : ℕ) → (registers left : ℕ → ℕ) → Memory
    → Returned
accel_exception_entry run cause instr =
    exception_entry 4 (accel_exception_handler cause instr) run cause

no_emulation : (cause : ℕ) → exc_code cause ≡ exc_code_int → (exc_code cause == exc_code_ri) ≡ false
no_emulation cause h = rw h refl

no_halt : (cause : ℕ) → exc_code cause ≡ exc_code_int → halts (fpga_call cause) ≡ false
unfolding fpga_call
no_halt cause h = rw (eq→== (exc_code cause) exc_code_int h) (ground arith)

-- An interrupt is transparent on the three command processors: if the routine that it calls leaves
-- the frame alone and the handler keeps the calling convention, the handler returns, the program
-- goes on at the same instruction, and every register but `$k0` and `$k1`, of at most 32 bits, is as
-- it was before, whatever the handler has left in the registers that it saves.
pub interrupts_transparent :
    (fpga : Option FpgaCall → Memory → Memory)
    → (rom : Option RomCall → Memory → Memory) → (accel : Bool → Memory → Memory)
    → (cause instr sp epc : ℕ) (registers left : ℕ → ℕ) (m : Memory) (i : ℕ)
    → KeepsConvention registers left
    → i ≢ 26
    → i ≢ 27
    → exc_code cause ≡ exc_code_int
    → KeepsFrame 8 fpga sp
    → KeepsFrame 4 rom sp
    → KeepsFrame 4 accel sp
    → registers i < 2 ^ 32
    → let r = rom_exception_entry rom cause instr sp epc registers left m in
      let a = accel_exception_entry accel cause instr sp epc registers left m in
      ((f : Returned) × ((fpga_exception_entry fpga cause instr sp epc registers left m ≡ some f)
          × (f.registers i ≡ registers i)
          × (f.epc ≡ epc)))
      × (r.registers i ≡ registers i)
      × (r.epc ≡ epc)
      × (a.registers i ≡ registers i)
      × (a.epc ≡ epc)
unfolding fpga_exception_entry rom_exception_entry accel_exception_entry
interrupts_transparent fpga rom accel cause instr sp epc registers left m i convention k0 k1
      interrupt kf kr ka word =
    let q = no_emulation cause interrupt in
    let f =
      exception_entry 8 (fpga_exception_handler cause instr) fpga cause sp epc registers left m in
    let (f0, f1) =
      entry-transparent 8 (fpga_exception_handler cause instr) fpga cause sp epc registers left m i
        convention k0 k1 (λ c. unfold fpga_exception_handler in rw q refl) kf (omega arith) in
    let (r0, r1) =
      entry-transparent 4 (rom_exception_handler cause instr) rom cause sp epc registers left m i
        convention k0 k1 (λ c. unfold rom_exception_handler in rw q refl) kr (omega arith) in
    let (a0, a1) =
      entry-transparent 4 (accel_exception_handler cause instr) accel cause sp epc registers left m
        i convention k0 k1 (λ c. unfold accel_exception_handler in rw q refl) ka (omega arith) in
    ((f, (rw (no_halt cause interrupt) refl, f0, f1)), r0, r1, a0, a1)

-- The FPGA command processor does not return from an exception that is no interrupt.
fpga_emulation_halts :
    (fpga : Option FpgaCall → Memory → Memory)
    → (cause instr sp epc : ℕ) (registers left : ℕ → ℕ) (m : Memory) → exc_code cause ≢ exc_code_int
    → fpga_exception_entry fpga cause instr sp epc registers left m ≡ none
unfolding fpga_exception_entry fpga_call
fpga_emulation_halts fpga cause instr sp epc registers left m h =
    rw (ne→== (exc_code cause) exc_code_int h) refl
