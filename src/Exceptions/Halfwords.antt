-- ===== src/Exceptions/Halfwords.antt =====
-- What the emulations of LH and SH compute.
use lib_hsa.Base.{
  ℕ, ◌==◌, ◌&&◌, if◌then◌else◌, ◌≡◌, ◌/◌, Bool, ◌<◌, bit_and, ◌%◌, ◌*◌, store, not, ◌^◌, ◌+◌, ◌-◌,
  load, bit_or, u32, bit_and_high, ◌∙◌, arith, ap, bit_and_mask, bit_and_low, refl, suc, load-bound,
  Bool-cases, inl, inr,
}
use lib_hsa.Exceptions.Emulation.{
  Cpu, halfword_offset, load_halfword, store_halfword, extract_unsigned, increment_epc, merge,
  set_saved_register, lw_address, saved_register,
}
use lib_hsa.Exceptions.Loads.{addressed, loaded, address_lem, lw_address_lem}
use lib_hsa.Exceptions.Unsigned.{word_around, low_halfword_or_word, halfword_offset_lem}
use lib_hsa.Exceptions.Stores.{unextended_address, unextended_address_lem, nothing_kept}
use lib_hsa.Exceptions.Fields.{rt_field, rt_field_lem}
use Prim.Native.Nat.{zero}

-- The bits that the sign test of LH looks at: 8000 is a decimal number.
tested_bits : (h : ℕ) → bit_and h 8000 ≡ (h / 256 % 32 * 4 + h / 64 % 2) * 64
tested_bits h =
    bit_and_high 6 125 h
    ∙ omega (
      arith,
      bit_and_low (h / 64) 125,
      bit_and_high 1 31 (h / 64 / 2),
      bit_and_mask 5 (h / 64 / 2 / 2),
    )

-- The emulation of LH takes for negative what has bit 6 or one of the bits 8 to 12 set.
abbrev pub taken_for_negative : ℕ → Bool
taken_for_negative h = not (h / 64 % 2 == 0 && h / 256 % 32 == 0)

sign_test : (h : ℕ) → (bit_and h 8000 == 0) ≡ not (taken_for_negative h)
sign_test h = elim (Bool-cases (h / 64 % 2 == 0)) [
  | inl low ↦ elim (Bool-cases (h / 256 % 32 == 0)) [
    | inl high ↦ rw (low, high) (ground (arith, tested_bits h))
    | inr high ↦ rw (low, high) (ground (arith, tested_bits h))
  ]
  | inr low ↦ rw low (ground (arith, tested_bits h))
]

abbrev sign_extended_by_test : ℕ → ℕ
sign_extended_by_test h = if bit_and h 8000 == 0 then h else bit_or h 0xFFFF_0000

sign_extended_by_test_lem :
    (h : ℕ) → sign_extended_by_test h ≡ (if taken_for_negative h then bit_or h 0xFFFF_0000 else h)
sign_extended_by_test_lem h =
    ap (λ (t : Bool). if t then h else bit_or h 0xFFFF_0000) (sign_test h)
    ∙ elim (Bool-cases (taken_for_negative h)) [
      | inl negative ↦ rw negative refl
      | inr positive ↦ rw positive refl
    ]

-- The emulation of LH loads the first halfword of the word around the address, but the whole word
-- where the address lies in its second half; and it sets the upper half if bit 6 or one of the bits 8
-- to 12 of that is set.
pub load_halfword_lem :
    (cause instr : ℕ) (c : Cpu)
    → let at = addressed c instr in
      let value = if at / 2 % 2 == 1 then word_around c at else word_around c at % 2 ^ 16 in
      load_halfword cause instr c
      ≡ loaded cause instr c (if taken_for_negative value then bit_or value 0xFFFF_0000 else value)
unfolding load_halfword
load_halfword_lem cause instr c =
    let at : ℕ = addressed c instr in
    let value : extract_unsigned 0xFFFF (load 4 c.mem (at - at % 4)) (at / 2 % 2 * 16)
        ≡ (if at / 2 % 2 == 1 then word_around c at else word_around c at % 2 ^ 16) =
      low_halfword_or_word (word_around c at) (at / 2 % 2) (load-bound 4 c.mem (at - at % 4))
        (omega arith) in
    ap
      (λ (a : ℕ). increment_epc cause (
        set_saved_register c (rt_field instr) (
          sign_extended_by_test
            (extract_unsigned 0xFFFF (load 4 c.mem (lw_address a)) (halfword_offset a * 16)))))
      (address_lem c instr)
    ∙ rw (lw_address_lem at (omega arith), halfword_offset_lem at, value, rt_field_lem instr)
        (ap (λ (v : ℕ). increment_epc cause (set_saved_register c (instr / 2 ^ 16 % 32) v))
          (sign_extended_by_test_lem
            (if at / 2 % 2 == 1 then word_around c at else word_around c at % 2 ^ 16)))

merged_halfword :
    (value word j : ℕ) → j < 2 → merge 0xFFFF value word (j * 16) ≡ value % 2 ^ 16 * 2 ^ (j * 16)
merged_halfword value word zero h =
    nothing_kept word (u32 (bit_and value 0xFFFF * 1)) ∙ omega (arith, bit_and_mask 16 value)
merged_halfword value word (suc zero) h =
    nothing_kept word (u32 (bit_and value 0xFFFF * 2 ^ 16)) ∙ omega (arith, bit_and_mask 16 value)
merged_halfword value word (suc (suc j)) h = absurd (omega arith)

-- The emulation of SH writes the whole word around the address that is computed without sign
-- extension: the halfword at its place, and 0 in the other half.
pub store_halfword_lem :
    (cause instr : ℕ) (c : Cpu)
    → let at = unextended_address c instr in
      store_halfword cause instr c
      ≡ increment_epc cause (record c {
        mem =
            store 4 c.mem
              (at - at % 4)
              (saved_register c (instr / 2 ^ 16 % 32) % 2 ^ 16 * 2 ^ (at / 2 % 2 * 16));
      })
unfolding store_halfword
store_halfword_lem cause instr c =
    let at : ℕ = unextended_address c instr in
    let value : ℕ = saved_register c (instr / 2 ^ 16 % 32) in
    let merged : merge 0xFFFF value (load 4 c.mem (at - at % 4)) (at / 2 % 2 * 16)
        ≡ value % 2 ^ 16 * 2 ^ (at / 2 % 2 * 16) =
      merged_halfword value (load 4 c.mem (at - at % 4)) (at / 2 % 2) (omega arith) in
    ap
      (λ (a : ℕ). increment_epc cause (record c {
        mem = store 4 c.mem (lw_address a) (
            merge 0xFFFF (saved_register c (rt_field instr)) (load 4 c.mem (lw_address a))
              (halfword_offset a * 16));
      }))
      (unextended_address_lem c instr)
    ∙ rw (lw_address_lem at (omega arith), halfword_offset_lem at, rt_field_lem instr, merged) refl
