-- ===== src/Exceptions/Loads.antt =====
-- What the emulation of LB computes, and the addresses of all emulated loads.
use native.Mathlib.Nat.{pow-suc, div-div-eq-div-mul}
use lib_hsa.Base.{
  ℕ, ◌<◌, load, Memory, ◌≡◌, u32, ◌^◌, ◌/◌, u8, ◌*◌, ◌-◌, ◌%◌, arith, ◌+◌, suc, bit_and_high,
  bit_and_mask, refl, bit_and, if◌then◌else◌, sym, ap, ◌<<<◌, ◌==◌, ◌∙◌, ◌>>>◌, bit_or_split_right,
  store,
}
use lib_hsa.Exceptions.Emulation.{
  load_byte, Cpu, increment_epc, effective_address, lw_address, extract_signed_byte, saved_register,
  set_saved_register, byte_offset,
}
use lib_hsa.Exceptions.Fields.{
  sign_extended, sign_extend_offset, offset_field, base_field_lem, offset_field_lem,
  sign_extend_offset_lem, rt_field, rt_field_lem,
}
use Prim.Native.Nat.{zero, bit_or}

-- The address that the architecture means: base register plus extended offset.
abbrev pub addressed : Cpu → ℕ → ℕ
addressed c instr = u32 (saved_register c (instr / 2 ^ 21 % 32) + sign_extended 16 (instr % 2 ^ 16))

-- A load of `v`, as the architecture defines its effect.
abbrev pub loaded : (cause instr : ℕ) → Cpu → ℕ → Cpu
loaded cause instr c v = increment_epc cause (set_saved_register c (instr / 2 ^ 16 % 32) v)

pub address_lem :
    (c : Cpu) (instr : ℕ)
    → effective_address c instr (sign_extend_offset (offset_field instr)) ≡ addressed c instr
address_lem c instr =
    rw
      (
        base_field_lem instr,
        offset_field_lem instr,
        sign_extend_offset_lem (instr % 2 ^ 16) (omega arith),
      )
      refl

pub lw_address_lem : (a : ℕ) → a < 2 ^ 32 → lw_address a ≡ a - a % 4
lw_address_lem a h = omega (arith, bit_and_high 2 (2 ^ 30 - 1) a, bit_and_mask 30 (a / 4))

-- Byte `j` of a word.
byte_of_load : (n : ℕ) (m : Memory) (a j : ℕ) → j < n → load n m a / 256 ^ j % 256 ≡ u8 (m (a + j))
unfolding load
byte_of_load zero m a j h = absurd (omega arith)
byte_of_load (suc n) m a zero h = rw (at_start a) (omega arith)
  where
    at_start : (a : ℕ) → a + 0 ≡ a
    at_start a = omega arith
byte_of_load (suc n) m a (suc j) h =
    ap (λ (x : ℕ). v / x % 256) (pow-suc 256 j ∙ times_comm)
    ∙ ap (λ (x : ℕ). x % 256) (sym (div-div-eq-div-mul v 256 (256 ^ j)))
    ∙ ap (λ (x : ℕ). x / 256 ^ j % 256) rest
    ∙ byte_of_load n m (a + 1) j (omega arith)
    ∙ ap (λ (x : ℕ). u8 (m x)) there
  where
    v : ℕ
    v = u8 (m a) + 256 * load n m (a + 1)

    times_comm : 256 ^ j * 256 ≡ 256 * 256 ^ j
    times_comm = omega arith

    rest : v / 256 ≡ load n m (a + 1)
    rest = omega arith

    there : a + 1 + j ≡ a + suc j
    there = omega arith

-- The byte that is shifted down.
shifted_byte :
    (word j : ℕ) → j < 4 → bit_and word (u32 (0xFF <<< (j * 8))) >>> (j * 8) ≡ word / 256 ^ j % 256
shifted_byte word zero h = omega (arith, bit_and_high 0 255 word, bit_and_mask 8 (word / 1))
shifted_byte word (suc zero) h =
    omega (arith, bit_and_high 8 255 word, bit_and_mask 8 (word / 2 ^ 8))
shifted_byte word (suc (suc zero)) h =
    omega (arith, bit_and_high 16 255 word, bit_and_mask 8 (word / 2 ^ 16))
shifted_byte word (suc (suc (suc zero))) h =
    omega (arith, bit_and_high 24 255 word, bit_and_mask 8 (word / 2 ^ 24))
shifted_byte word (suc (suc (suc (suc j)))) h = absurd (omega arith)

sign_of_byte :
    (b : ℕ)
    → b < 256
    → (if bit_and b 0x80 == 0x80 then bit_or b 0xFFFF_FF00 else b) ≡ sign_extended 8 b
sign_of_byte b h =
    ground
      (arith, bit_and_high 7 1 b, bit_and_mask 1 (b / 2 ^ 7), bit_or_split_right 8 (2 ^ 24 - 1) b h)

-- The byte at `a`, cut out of the word around it.
word_byte :
    (m : Memory) (a : ℕ)
    → a < 2 ^ 32
    → load 4 m (lw_address a) / 256 ^ byte_offset a % 256 ≡ u8 (m a)
word_byte m a h =
    let back : a - a % 4 + a % 4 ≡ a = omega arith in
    rw (lw_address_lem a h, bit_and_mask 2 a)
      (byte_of_load 4 m (a - a % 4) (a % 4) (omega arith) ∙ ap (λ (x : ℕ). u8 (m x)) back)

signed_byte :
    (m : Memory) (a : ℕ)
    → a < 2 ^ 32
    → extract_signed_byte (load 4 m (lw_address a)) (byte_offset a * 8) ≡ sign_extended 8 (u8 (m a))
signed_byte m a h =
    let small : byte_offset a < 4 = omega (arith, bit_and_mask 2 a) in
    rw (shifted_byte (load 4 m (lw_address a)) (byte_offset a) small, word_byte m a h)
      (sign_of_byte (u8 (m a)) (omega arith))

byte_loaded :
    (cause instr : ℕ) (c : Cpu)
    → load_byte cause instr c
      ≡ loaded cause instr c (sign_extended 8 (u8 (c.mem (addressed c instr))))
unfolding load_byte
byte_loaded cause instr c =
    ap
      (λ (a : ℕ). increment_epc cause (
        set_saved_register c (rt_field instr)
          (extract_signed_byte (load 4 c.mem (lw_address a)) (byte_offset a * 8))))
      (address_lem c instr)
    ∙ rw (signed_byte c.mem (addressed c instr) (omega arith), rt_field_lem instr) refl

delay_slot_bit : (cause : ℕ) → (bit_and cause 0x8000_0000 == 0) ≡ (cause / 2 ^ 31 % 2 == 0)
delay_slot_bit cause = ground (arith, bit_and_high 31 1 cause, bit_and_mask 1 (cause / 2 ^ 31))

loaded_lem :
    (cause instr : ℕ) (c : Cpu) (v : ℕ)
    → loaded cause instr c v ≡ record {
      mem = store 4 c.mem (c.reg_stack + 4 * (instr / 2 ^ 16 % 32)) v;
      reg_stack = c.reg_stack;
      epc = if cause / 2 ^ 31 % 2 == 0 then (c.epc + 4) % 2 ^ 32 else c.epc;
    }
loaded_lem cause instr c v = ground (arith, delay_slot_bit cause)

-- The emulation of LB: the word of the frame at the register's index (the register itself on the
-- 32-bit processors) gets the byte at the address of the instruction, its sign extended to a word,
-- with no other write; and the program counter of the exception moves on by 4, modulo 2^32, unless
-- bit 31 of the cause register, which marks a branch delay slot, is set: then it stays.
pub load_byte_lem :
    (cause instr : ℕ) (c : Cpu)
    → load_byte cause instr c ≡ record {
      mem =
          store 4 c.mem
            (c.reg_stack + 4 * (instr / 2 ^ 16 % 32))
            (sign_extended 8 (u8 (c.mem (addressed c instr))));
      reg_stack = c.reg_stack;
      epc = if cause / 2 ^ 31 % 2 == 0 then (c.epc + 4) % 2 ^ 32 else c.epc;
    }
load_byte_lem cause instr c =
    byte_loaded cause instr c
    ∙ loaded_lem cause instr c (sign_extended 8 (u8 (c.mem (addressed c instr))))
