-- ===== src/PacketProcessor/Masks.antt =====
-- `write_mask_to_core`: the stores that put the filter masks of an operation into a core.
use lib_hsa.Base.{ℕ, zero, suc, ◌+◌, ◌*◌, List, [], ◌∷◌, none, some, Memory, load, Store}
use lib_hsa.Filters.{
  Operation, sobel_x3x3, sobel_y3x3, sobel_xy3x3, sobel_x5x5, sobel_y5x5, sobel_xy5x5, gauss3x3,
  gauss5x5, custom_filter3x3, custom_filter5x5, operation_of, int8_to_int32, sobel_x_3x3_mask,
  sobel_y_3x3_mask, sobel_x_5x5_mask, sobel_y_5x5_mask, gauss_3x3_mask, gauss_5x5_mask,
}
use lib_hsa.PacketProcessor.Addresses.{
  base_accel_addr, accel_addr_space_len, mask0_offset, mask1_offset,
}
use lib_hsa.PacketProcessor.State.{store_at}

-- What the `switch` decides: which masks, or how many entries of the custom mask.
pub data MaskWrite : Type 0 where
  no_mask : MaskWrite
  one_mask : List ℕ → MaskWrite
  both_masks : List ℕ → List ℕ → MaskWrite
  custom_mask : ℕ → MaskWrite

abbrev pub mask_write_of : Operation → MaskWrite
mask_write_of sobel_x3x3 = one_mask sobel_x_3x3_mask
mask_write_of sobel_y3x3 = one_mask sobel_y_3x3_mask
mask_write_of sobel_xy3x3 = both_masks sobel_x_3x3_mask sobel_y_3x3_mask
mask_write_of sobel_x5x5 = one_mask sobel_x_5x5_mask
mask_write_of sobel_y5x5 = one_mask sobel_y_5x5_mask
mask_write_of sobel_xy5x5 = both_masks sobel_x_5x5_mask sobel_y_5x5_mask
mask_write_of gauss3x3 = one_mask gauss_3x3_mask
mask_write_of gauss5x5 = one_mask gauss_5x5_mask
mask_write_of custom_filter3x3 = custom_mask 9
mask_write_of custom_filter5x5 = custom_mask 25
mask_write_of _ = no_mask

-- The loops, over the entries still to write; `entry0` and `entry1` are the destinations.
unfoldable pub write_one : ℕ → List ℕ → List Store
write_one entry0 [] = []
write_one entry0 (m ∷ ms) = store_at entry0 4 (int8_to_int32 m) ∷ write_one (entry0 + 4) ms

unfoldable pub write_both : ℕ → ℕ → List ℕ → List ℕ → List Store
write_both entry0 entry1 (m ∷ ms) (n ∷ ns) =
    store_at entry0 4 (int8_to_int32 m)
    ∷ store_at entry1 4 (int8_to_int32 n)
    ∷ write_both (entry0 + 4) (entry1 + 4) ms ns
write_both entry0 entry1 _ _ = []

-- `count` entries of the custom mask at `address`.
unfoldable pub write_custom : Memory → ℕ → ℕ → ℕ → List Store
write_custom mem entry0 address zero = []
write_custom mem entry0 address (suc count) =
    store_at entry0 4 (load 4 mem address) ∷ write_custom mem (entry0 + 4) (address + 4) count

-- `core` times the address space of a core, after the accelerators' base.
abbrev pub core_base_addr : ℕ → ℕ
core_base_addr core = base_accel_addr + core * accel_addr_space_len

unfoldable pub write_mask : Memory → ℕ → ℕ → MaskWrite → List Store
unfolding write_one write_both write_custom
write_mask mem base custom no_mask = []
write_mask mem base custom (one_mask m) = write_one (base + mask0_offset) m
write_mask mem base custom (both_masks m n) =
    write_both (base + mask0_offset) (base + mask1_offset) m n
write_mask mem base custom (custom_mask count) = write_custom mem (base + mask0_offset) custom count

unfoldable pub write_mask_to_core : Memory → ℕ → ℕ → ℕ → List Store
unfolding write_mask operation_of
write_mask_to_core mem core operation custom = elim (operation_of operation) [
  | none ↦ []
  | some op ↦ write_mask mem (core_base_addr core) custom (mask_write_of op)
]
