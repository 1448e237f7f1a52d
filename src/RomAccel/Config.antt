-- ===== src/RomAccel/Config.antt =====
-- `write_task_config_to_pe` of main.c, with the addresses of address_config.h. The operations of
-- op_encoding.h are those of the packet processor's hsa_fpga.h.
use mathlib.Core.Option.{none, some}
use lib_hsa.Base.{ℕ, List, if◌then◌else◌, Store, Memory, ◌==◌, ◌+◌, ◌&&◌, ◌++◌, not, ◌∷◌, [], ◌||◌}
use lib_hsa.Filters.{
  Operation, sobel_xy3x3, operation_of, sobel_x5x5, gauss_3x3_normalization, clamp_to_zero,
  sobel_y5x5, gauss_5x5_normalization, uint8_rgb, sobel_xy5x5, gauss5x5, gauss3x3, min_filter3x3,
  clamp_to_edge, min_filter5x5, sobel_x_5x5_mask, max_filter3x3, sobel_y_5x5_mask, max_filter5x5,
  median_filter3x3, median_filter5x5, custom_filter5x5, custom_filter3x3, gauss_5x5_mask,
  sobel_x3x3, sobel_y3x3,
}
use lib_hsa.RomAccel.Masks.{sobel_x_3x3_mask, sobel_y_3x3_mask, gauss_3x3_mask}
use lib_hsa.PacketProcessor.Masks.{write_one, write_custom}
use lib_hsa.PacketProcessor.State.{store_at}
use lib_hsa.RomAccel.Encoding.{pe_encode_op}

-- address_config.h
abbrev pub send_interrupt_addr : ℕ
send_interrupt_addr = 0x1000_0000

abbrev pub base_addr_cfg : ℕ
base_addr_cfg = 0x1100_0000

abbrev pub base_addr_cfg_pe : ℕ
base_addr_cfg_pe = 0x1200_0000

abbrev pub base_addr_cfg_datamover : ℕ
base_addr_cfg_datamover = 0x1300_0000

abbrev pub cfg_mask0 : ℕ
cfg_mask0 = 0x0020

abbrev pub cfg_mask1 : ℕ
cfg_mask1 = 0x0084

abbrev pub pe_cfg_coeffs0 : ℕ
pe_cfg_coeffs0 = 0x0020

abbrev pub pe_cfg_coeffs1 : ℕ
pe_cfg_coeffs1 = 0x0084

abbrev pub write_32_pe : (offset value : ℕ) → Store
write_32_pe offset value = store_at (base_addr_cfg_pe + offset) 4 value

-- `color`: 1 for gray scale and any unknown model, 0 for RGB.
abbrev pub color_of : ℕ → ℕ
color_of color_model = if color_model == uint8_rgb then 0 else 1

abbrev pub border_of : ℕ → ℕ
border_of border_conf =
    if border_conf == clamp_to_zero then 1 else if border_conf == clamp_to_edge then 2 else 0

-- `op_type`
unfoldable pub op_type_of : Operation → ℕ
op_type_of sobel_xy3x3 = 1
op_type_of sobel_xy5x5 = 1
op_type_of min_filter3x3 = 3
op_type_of min_filter5x5 = 3
op_type_of max_filter3x3 = 4
op_type_of max_filter5x5 = 4
op_type_of median_filter3x3 = 2
op_type_of median_filter5x5 = 2
op_type_of custom_filter3x3 = 1
op_type_of custom_filter5x5 = 1
op_type_of _ = 0

-- `window_width` and `window_height`, which are equal.
unfoldable pub window_of : Operation → ℕ
window_of sobel_x5x5 = 5
window_of sobel_y5x5 = 5
window_of sobel_xy5x5 = 5
window_of gauss5x5 = 5
window_of min_filter5x5 = 5
window_of max_filter5x5 = 5
window_of median_filter5x5 = 5
window_of custom_filter5x5 = 5
window_of _ = 3

-- `normalize_val`
unfoldable pub normalize_val_of : Operation → ℕ → ℕ
normalize_val_of gauss3x3 normalization = gauss_3x3_normalization
normalize_val_of gauss5x5 normalization = gauss_5x5_normalization
normalize_val_of _ normalization = normalization

abbrev pub write_mask0 : List ℕ → List Store
write_mask0 = write_one (base_addr_cfg_pe + pe_cfg_coeffs0)

abbrev pub write_mask1 : List ℕ → List Store
write_mask1 = write_one (base_addr_cfg_pe + pe_cfg_coeffs1)

abbrev custom_coefficients : Memory → List Store
custom_coefficients cfg =
    write_custom cfg (base_addr_cfg_pe + pe_cfg_coeffs0) (base_addr_cfg + cfg_mask0) 25
    ++ write_custom cfg (base_addr_cfg_pe + pe_cfg_coeffs1) (base_addr_cfg + cfg_mask1) 25

-- The masks of the `switch` over the task. A custom mask is read from the configuration, 25 entries
-- whatever the size of the filter. The case of SOBELY5x5 writes the mask of SOBELX5x5.
unfoldable pub coefficient_stores : Memory → Operation → List Store
coefficient_stores cfg sobel_x3x3 = write_mask0 sobel_x_3x3_mask
coefficient_stores cfg sobel_y3x3 = write_mask0 sobel_y_3x3_mask
coefficient_stores cfg sobel_xy3x3 = write_mask0 sobel_x_3x3_mask ++ write_mask1 sobel_y_3x3_mask
coefficient_stores cfg sobel_x5x5 = write_mask0 sobel_x_5x5_mask
coefficient_stores cfg sobel_y5x5 = write_mask0 sobel_x_5x5_mask
coefficient_stores cfg sobel_xy5x5 = write_mask0 sobel_x_5x5_mask ++ write_mask1 sobel_y_5x5_mask
coefficient_stores cfg gauss3x3 = write_mask0 gauss_3x3_mask
coefficient_stores cfg gauss5x5 = write_mask0 gauss_5x5_mask
coefficient_stores cfg custom_filter3x3 = custom_coefficients cfg
coefficient_stores cfg custom_filter5x5 = custom_coefficients cfg
coefficient_stores cfg _ = []

-- The last part of the function: the operation word, with its value if there is one.
unfoldable pub operation_stores :
    (color border op_type normalize_val threshold_val window : ℕ) → List Store
operation_stores color border op_type normalize_val threshold_val window =
    let normalized = (op_type == 0) && not (normalize_val == 0) in
    let thresholded = (op_type == 1) && not (threshold_val == 0) in
    let values =
      if normalized
      then write_32_pe 0x0018 normalize_val ∷ []
      else if thresholded
      then write_32_pe 0x001C threshold_val ∷ []
      else [] in
    let pe_op = pe_encode_op color border op_type (if normalized || thresholded then 1 else 0) in
    values
    ++ (write_32_pe 0x000C window ∷ write_32_pe 0x0010 window ∷ write_32_pe 0x0014 pe_op ∷ [])

-- A task outside the enumeration leaves the initial values.
unfoldable pub write_task_config_to_pe :
    Memory → (task color_model border_conf normalization threshold : ℕ) → List Store
write_task_config_to_pe cfg task color_model border_conf normalization threshold =
    elim (operation_of task) [
      | none ↦
          operation_stores (color_of color_model) (border_of border_conf) 0 normalization threshold
            0
      | some op ↦
          coefficient_stores cfg op
          ++ operation_stores (color_of color_model) (border_of border_conf) (op_type_of op)
              (normalize_val_of op normalization) threshold (window_of op)
    ]
