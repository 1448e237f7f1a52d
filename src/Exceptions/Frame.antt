-- ===== src/Exceptions/Frame.antt =====
-- The frame that `_exception_handler` saves the registers in, and what the emulation reads of it.
use lib_hsa.Base.{
  load_same, ℕ, ◌/◌, ◌^◌, load, Memory, ◌==◌, ◌≤◌, ◌<◌, suc, if◌then◌else◌, store, ◌+◌, ◌≡◌, ◌*◌,
  arith, ◌%◌, ◌∙◌, store_outside, refl, Bool-cases, inl, inr, sym, ==→eq, load-store, load-bound,
}
use lib_hsa.Exceptions.Emulation.{saved_register}
use Prim.Native.Nat.{zero}

-- The stores of `_exception_handler`: 26 registers from `reg_stack` up, `width` bytes each. The
-- 32-bit processors save words, the 64-bit ones doublewords. The source begins with the last
-- register; the places are apart, so the order does not matter.
unfoldable pub save_from : (width count i : ℕ) → (ℕ → ℕ) → (reg_stack : ℕ) → Memory → Memory
save_from width zero i registers reg_stack m = m
save_from width (suc count) i registers reg_stack m =
    save_from width count (suc i) registers reg_stack
      (store width m (reg_stack + width * i) (registers i))

abbrev pub save_registers : (width : ℕ) → (ℕ → ℕ) → (reg_stack : ℕ) → Memory → Memory
save_registers width = save_from width 26 0

save_from-below :
    (width count i : ℕ) (registers : ℕ → ℕ) (reg_stack : ℕ) (m : Memory) (b : ℕ)
    → b < reg_stack + width * i
    → save_from width count i registers reg_stack m b ≡ m b
unfolding save_from
save_from-below width zero i registers reg_stack m b h = refl
save_from-below width (suc count) i registers reg_stack m b h =
    save_from-below width count (suc i) registers reg_stack
      (store width m (reg_stack + width * i) (registers i)) b (omega arith)
    ∙ store_outside width m (reg_stack + width * i) (registers i) b h

-- Every register that is saved is read back at its own place.
pub saved_from :
    (width count i j : ℕ) (registers : ℕ → ℕ) (reg_stack : ℕ) (m : Memory)
    → i ≤ j
    → j < i + count
    → load width (save_from width count i registers reg_stack m) (reg_stack + width * j)
      ≡ registers j % 256 ^ width
unfolding save_from
saved_from width zero i j registers reg_stack m h k = absurd (omega arith)
saved_from width (suc count) i j registers reg_stack m h k = elim (Bool-cases (i == j)) [
  | inl here ↦ rw (sym (==→eq i j here)) (
      load_same width
        (save_from width count (suc i) registers reg_stack
          (store width m (reg_stack + width * i) (registers i)))
        (store width m (reg_stack + width * i) (registers i)) (reg_stack + width * i)
        (λ b p q.
          save_from-below width count (suc i) registers reg_stack
            (store width m (reg_stack + width * i) (registers i)) b (omega arith))
      ∙ load-store width m (reg_stack + width * i) (registers i))
  | inr further ↦
      saved_from width count (suc i) j registers reg_stack
        (store width m (reg_stack + width * i) (registers i)) (ground arith) (omega arith)
]

-- What the emulation finds as register `i` of a processor whose frame has registers of `width`
-- bytes.
abbrev pub found_register : (width : ℕ) → (ℕ → ℕ) → (reg_stack : ℕ) → Memory → ℕ → ℕ
found_register width registers reg_stack m i =
    saved_register
      (record { mem = save_registers width registers reg_stack m; reg_stack = reg_stack; epc = 0 })
      i

-- On the 32-bit processors, the emulation finds the low word of each of the 26 saved registers.
pub found_register_word :
    (registers : ℕ → ℕ) (reg_stack : ℕ) (m : Memory) (i : ℕ)
    → i < 26
    → found_register 4 registers reg_stack m i ≡ registers i % 2 ^ 32
found_register_word registers reg_stack m i h =
    saved_from 4 26 0 i registers reg_stack m (omega arith) h

load_halves : (m : Memory) (a : ℕ) → load 8 m a ≡ load 4 m a + 2 ^ 32 * load 4 m (a + 4)
unfolding load
load_halves m a = let four : a + 4 ≡ a + 1 + 1 + 1 + 1 = omega arith in rw four (omega arith)

-- On the 64-bit processors, the emulation takes half of a register with half the number: it
-- indexes words, while the frame has doublewords.
pub found_register_doubleword :
    (registers : ℕ → ℕ) (reg_stack : ℕ) (m : Memory) (i : ℕ)
    → i < 52
    → found_register 8 registers reg_stack m i
      ≡ registers (i / 2) / (if i % 2 == 0 then 1 else 2 ^ 32) % 2 ^ 32
found_register_doubleword registers reg_stack m i h = elim (Bool-cases (i % 2 == 0)) [
  | inl even ↦
      let place : reg_stack + 4 * i ≡ reg_stack + 8 * (i / 2) = ground arith in
      rw (place, even) (omega (arith, halves, low, whole))
  | inr odd ↦
      let place : reg_stack + 4 * i ≡ reg_stack + 8 * (i / 2) + 4 = ground arith in
      rw (place, odd) (omega (arith, halves, low, whole))
]
  where
    after : Memory
    after = save_registers 8 registers reg_stack m

    halves :
        load 8 after (reg_stack + 8 * (i / 2))
        ≡ load 4 after (reg_stack + 8 * (i / 2))
          + 2 ^ 32 * load 4 after (reg_stack + 8 * (i / 2) + 4)
    halves = load_halves after (reg_stack + 8 * (i / 2))

    low : load 4 after (reg_stack + 8 * (i / 2)) < 2 ^ 32
    low = load-bound 4 after (reg_stack + 8 * (i / 2))

    whole : load 8 after (reg_stack + 8 * (i / 2)) ≡ registers (i / 2) % 2 ^ 64
    whole = saved_from 8 26 0 (i / 2) registers reg_stack m (omega arith) (omega arith)
