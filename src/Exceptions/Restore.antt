-- ===== src/Exceptions/Restore.antt =====
-- The end of `_exception_handler`, which loads the registers back from the frame, and what an emulated
-- load becomes in the program.
use lib_hsa.Base.{
  ℕ, Memory, ltb, ◌&&◌, if◌then◌else◌, ◌==◌, ◌≢◌, ◌<◌, load, store, ◌^◌, ◌+◌, ◌*◌, ◌≡◌, ◌%◌,
  load-deliver-Apart, ◌∷◌, [], ◌≤◌, Bool-cases, ◌⊎◌, inl, arith, inr, true, ap, ◌∙◌, load-store,
  false, ne→==,
}
use lib_hsa.Exceptions.Emulation.{Cpu, set_saved_register}
use lib_hsa.Exceptions.Frame.{save_registers, saved_from}
use lib_hsa.PacketProcessor.State.{store_at}
use native.Mathlib.Nat.{mod-eq_of_lt}

-- The registers before the loads: `$k0` has the address of the frame, `$k1` the cause register, and
-- the compiled code of the handler has left `left` in the others.
abbrev pub handled_registers : (reg_stack cause : ℕ) → (left : ℕ → ℕ) → (i : ℕ) → ℕ
handled_registers reg_stack cause left i =
    if i == 26 then reg_stack else if i == 27 then cause else left i

-- The registers after the loads: `$zero` and the registers above 25 are not loaded.
abbrev pub restore_registers : (width reg_stack : ℕ) → Memory → (handled : ℕ → ℕ) → (i : ℕ) → ℕ
restore_registers width reg_stack m handled i =
    if ltb 0 i && ltb i 26 then load width m (reg_stack + width * i) else handled i

-- The calling convention: `$zero`, `$gp`, `$sp`, `$fp` and `$ra` are as they were before the handler.
abbrev pub KeepsConvention : (registers left : ℕ → ℕ) → Type 0
KeepsConvention registers left = (j : ℕ) → (ltb 0 j && ltb j 28) ≡ false → left j ≡ registers j

pub not_loaded :
    (registers left : ℕ → ℕ) (reg_stack cause i : ℕ)
    → KeepsConvention registers left
    → i ≢ 26
    → i ≢ 27
    → (ltb 0 i && ltb i 26) ≡ false
    → handled_registers reg_stack cause left i ≡ registers i
not_loaded registers left reg_stack cause i keeps k0 k1 q =
    rw (ne→== i 26 k0, ne→== i 27 k1) (keeps i (ground arith))

module _ (registers : ℕ → ℕ) (reg_stack : ℕ) (m : Memory) where
  -- The frame of a 32-bit processor, as the emulation has it.
  abbrev pub in_frame : (epc : ℕ) → Cpu
  in_frame epc = record {
    mem = save_registers 4 registers reg_stack m;
    reg_stack = reg_stack;
    epc = epc;
  }

  other_register :
      (rt v i : ℕ)
      → i ≢ rt
      → load 4
          (store 4 (save_registers 4 registers reg_stack m) (reg_stack + 4 * rt) v)
          (reg_stack + 4 * i)
        ≡ load 4 (save_registers 4 registers reg_stack m) (reg_stack + 4 * i)
  other_register rt v i other =
      load-deliver-Apart 4 (reg_stack + 4 * i) (store_at (reg_stack + 4 * rt) 4 v ∷ [])
        (save_registers 4 registers reg_stack m) (apart, tt)
    where
      apart :
          (reg_stack + 4 * i + 4 ≤ reg_stack + 4 * rt)
          ⊎ (reg_stack + 4 * rt + 4 ≤ reg_stack + 4 * i)
      apart = elim (Bool-cases (ltb i rt)) [
        | inl below ↦ inl (ground arith)
        | inr above ↦ inr (ground arith)
      ]

-- On the 32-bit processors, if the handler keeps the calling convention, the value that the
-- emulation gives a register from 1 to 25 is what the program has in it after the exception, in 32
-- bits; every other register but `$k0` and `$k1`, of 32 bits, is as it was before.
pub emulated_register_returned :
    (registers left : ℕ → ℕ) (reg_stack cause : ℕ) (m : Memory) (epc rt v i : ℕ)
    → KeepsConvention registers left
    → i ≢ 26
    → i ≢ 27
    → ((j : ℕ) → registers j < 2 ^ 32)
    → 0 < rt
    → rt < 26
    → restore_registers 4 reg_stack
        (set_saved_register (in_frame registers reg_stack m epc) rt v).mem
        (handled_registers reg_stack cause left)
        i
      ≡ (if i == rt then v % 2 ^ 32 else registers i)
emulated_register_returned registers left reg_stack cause m epc rt v i keeps k0 k1 words positive
      small =
    elim (Bool-cases (i == rt)) [
      | inl same ↦
          let place : i ≡ rt = ground arith in
          let low : ltb 0 i ≡ true = ground arith in
          let high : ltb i 26 ≡ true = ground arith in
          rw (low, high, same)
            (ap
                (λ (x : ℕ).
                  load 4 (store 4 (save_registers 4 registers reg_stack m) (reg_stack + 4 * rt) v)
                    (reg_stack + 4 * x))
                place
              ∙ load-store 4 (save_registers 4 registers reg_stack m) (reg_stack + 4 * rt) v)
      | inr other ↦ elim (Bool-cases (ltb 0 i && ltb i 26)) [
        | inl saved ↦
            rw (saved, other)
              (other_register registers reg_stack m rt v i (ground arith)
                ∙ saved_from 4 26 0 i registers reg_stack m (omega arith) (ground arith)
                ∙ mod-eq_of_lt (words i))
        | inr kept ↦ rw (kept, other) (not_loaded registers left reg_stack cause i keeps k0 k1 kept)
      ]
    ]
