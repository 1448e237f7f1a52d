-- ===== src/Exceptions/Unsigned.antt =====
-- What the emulations of LBU and LHU compute. The mask is shifted back before it is applied, so it
-- selects the low bits of the word, or, where its top bit was set, the whole word.
use lib_hsa.Base.{
  ℕ, refl, ◌<◌, ◌≡◌, ◌^◌, load, ◌-◌, ◌/◌, ◌*◌, ◌%◌, if◌then◌else◌, arith, ◌==◌, bit_and_high,
  load-bound, bit_and_mask, suc, ap, ◌∙◌,
}
use lib_hsa.Exceptions.Emulation.{
  Cpu, halfword_offset, load_byte_unsigned, load_halfword_unsigned, extract_unsigned, increment_epc,
  set_saved_register, lw_address, byte_offset,
}
use lib_hsa.Exceptions.Loads.{addressed, loaded, address_lem, lw_address_lem}
use Prim.Native.Nat.{zero}
use lib_hsa.Exceptions.Fields.{rt_field, rt_field_lem}

low_byte_or_word :
    (word j : ℕ)
    → word < 2 ^ 32
    → j < 4
    → extract_unsigned 0xFF word (j * 8) ≡ (if j == 3 then word else word % 256)
low_byte_or_word word zero hw h = bit_and_mask 8 word
low_byte_or_word word (suc zero) hw h = bit_and_mask 8 word
low_byte_or_word word (suc (suc zero)) hw h = bit_and_mask 8 word
low_byte_or_word word (suc (suc (suc zero))) hw h = omega (arith, bit_and_mask 32 word)
low_byte_or_word word (suc (suc (suc (suc j)))) hw h = absurd (omega arith)

pub low_halfword_or_word :
    (word j : ℕ)
    → word < 2 ^ 32
    → j < 2
    → extract_unsigned 0xFFFF word (j * 16) ≡ (if j == 1 then word else word % 2 ^ 16)
low_halfword_or_word word zero hw h = bit_and_mask 16 word
low_halfword_or_word word (suc zero) hw h = omega (arith, bit_and_mask 32 word)
low_halfword_or_word word (suc (suc j)) hw h = absurd (omega arith)

-- The word around an address.
abbrev pub word_around : Cpu → ℕ → ℕ
word_around c address = load 4 c.mem (address - address % 4)

-- The emulation of LBU loads the first byte of the word around the address, but the whole word
-- where the address is that of its last byte.
pub load_byte_unsigned_lem :
    (cause instr : ℕ) (c : Cpu)
    → let at = addressed c instr in
      load_byte_unsigned cause instr c
      ≡ loaded cause instr c (if at % 4 == 3 then word_around c at else word_around c at % 256)
unfolding load_byte_unsigned
load_byte_unsigned_lem cause instr c =
    let at : ℕ = addressed c instr in
    let value : extract_unsigned 0xFF (load 4 c.mem (at - at % 4)) (at % 4 * 8)
        ≡ (if at % 4 == 3 then word_around c at else word_around c at % 256) =
      low_byte_or_word (word_around c at) (at % 4) (load-bound 4 c.mem (at - at % 4))
        (omega arith) in
    ap
      (λ (a : ℕ). increment_epc cause (
        set_saved_register c (rt_field instr)
          (extract_unsigned 0xFF (load 4 c.mem (lw_address a)) (byte_offset a * 8))))
      (address_lem c instr)
    ∙ rw (lw_address_lem at (omega arith), bit_and_mask 2 at, value, rt_field_lem instr) refl

pub halfword_offset_lem : (a : ℕ) → halfword_offset a ≡ a / 2 % 2
halfword_offset_lem a = omega (arith, bit_and_high 1 1 a, bit_and_mask 1 (a / 2))

-- The emulation of LHU loads the first halfword of the word around the address, but the whole word
-- where the address lies in its second half.
pub load_halfword_unsigned_lem :
    (cause instr : ℕ) (c : Cpu)
    → let at = addressed c instr in
      load_halfword_unsigned cause instr c
      ≡ loaded cause instr c
          (if at / 2 % 2 == 1 then word_around c at else word_around c at % 2 ^ 16)
unfolding load_halfword_unsigned
load_halfword_unsigned_lem cause instr c =
    let at : ℕ = addressed c instr in
    let value : extract_unsigned 0xFFFF (load 4 c.mem (at - at % 4)) (at / 2 % 2 * 16)
        ≡ (if at / 2 % 2 == 1 then word_around c at else word_around c at % 2 ^ 16) =
      low_halfword_or_word (word_around c at) (at / 2 % 2) (load-bound 4 c.mem (at - at % 4))
        (omega arith) in
    ap
      (λ (a : ℕ). increment_epc cause (
        set_saved_register c (rt_field instr)
          (extract_unsigned 0xFFFF (load 4 c.mem (lw_address a)) (halfword_offset a * 16))))
      (address_lem c instr)
    ∙ rw (lw_address_lem at (omega arith), halfword_offset_lem at, value, rt_field_lem instr) refl
