-- ===== src/Exceptions/Stores.antt =====
-- What the emulations of SB and SH store: the mask for the kept bytes is negated with the logical
-- operator, which makes it 0.
use lib_hsa.Base.{
  ℕ, ◌<◌, bit_or, bit_and, u32, ◌≡◌, arith, ◌*◌, ◌%◌, bit_and_mask, ◌/◌, store, ◌^◌, ◌-◌, ◌+◌, load,
  ap, ◌∙◌, refl, sym, suc, bit_or_split_right,
}
use lib_hsa.Exceptions.Emulation.{
  store_byte, Cpu, effective_address, merge, increment_epc, saved_register, lw_address, byte_offset,
}
use lib_hsa.Exceptions.Fields.{
  offset_field, base_field_lem, offset_field_lem, rt_field, rt_field_lem,
}
use Prim.Native.Nat.{zero}
use lib_hsa.Exceptions.Loads.{lw_address_lem}

-- The address that the handler computes: the offset counts as a number without sign.
abbrev pub unextended_address : Cpu → ℕ → ℕ
unextended_address c instr = u32 (saved_register c (instr / 2 ^ 21 % 32) + instr % 2 ^ 16)

pub unextended_address_lem :
    (c : Cpu) (instr : ℕ)
    → effective_address c instr (offset_field instr) ≡ unextended_address c instr
unextended_address_lem c instr = rw (base_field_lem instr, offset_field_lem instr) refl

pub nothing_kept : (word part : ℕ) → bit_or (bit_and word 0) part ≡ part
nothing_kept word part =
    let none_left : bit_and word 0 ≡ 0 = omega (arith, bit_and_mask 0 word) in
    let same : part * 2 ^ 0 ≡ part = omega arith in
    rw (none_left) (
      ap (λ (x : ℕ). bit_or 0 x) (sym same)
      ∙ omega (arith, bit_or_split_right 0 part 0 (omega arith)))

merged_byte : (value word j : ℕ) → j < 4 → merge 0xFF value word (j * 8) ≡ value % 256 * 2 ^ (j * 8)
merged_byte value word zero h =
    nothing_kept word (u32 (bit_and value 255 * 1)) ∙ omega (arith, bit_and_mask 8 value)
merged_byte value word (suc zero) h =
    nothing_kept word (u32 (bit_and value 255 * 2 ^ 8)) ∙ omega (arith, bit_and_mask 8 value)
merged_byte value word (suc (suc zero)) h =
    nothing_kept word (u32 (bit_and value 255 * 2 ^ 16)) ∙ omega (arith, bit_and_mask 8 value)
merged_byte value word (suc (suc (suc zero))) h =
    nothing_kept word (u32 (bit_and value 255 * 2 ^ 24)) ∙ omega (arith, bit_and_mask 8 value)
merged_byte value word (suc (suc (suc (suc j)))) h = absurd (omega arith)

-- The emulation of SB writes the whole word around the address that is computed without sign
-- extension: the byte at its place, and 0 in the three other bytes.
pub store_byte_lem :
    (cause instr : ℕ) (c : Cpu)
    → let at = unextended_address c instr in
      store_byte cause instr c
      ≡ increment_epc cause (record c {
        mem =
            store 4 c.mem
              (at - at % 4)
              (saved_register c (instr / 2 ^ 16 % 32) % 256 * 2 ^ (at % 4 * 8));
      })
unfolding store_byte
store_byte_lem cause instr c =
    let at : ℕ = unextended_address c instr in
    let value : ℕ = saved_register c (instr / 2 ^ 16 % 32) in
    let merged : merge 0xFF value (load 4 c.mem (at - at % 4)) (at % 4 * 8)
        ≡ value % 256 * 2 ^ (at % 4 * 8) =
      merged_byte value (load 4 c.mem (at - at % 4)) (at % 4) (omega arith) in
    ap
      (λ (a : ℕ). increment_epc cause (record c {
        mem = store 4 c.mem (lw_address a) (
            merge 0xFF (saved_register c (rt_field instr)) (load 4 c.mem (lw_address a))
              (byte_offset a * 8));
      }))
      (unextended_address_lem c instr)
    ∙ rw (lw_address_lem at (omega arith), bit_and_mask 2 at, rt_field_lem instr, merged) refl
