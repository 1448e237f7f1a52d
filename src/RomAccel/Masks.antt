-- ===== src/RomAccel/Masks.antt =====
-- The masks of op_encoding.h, as `int8_t` patterns. Those for 3x3 windows stand in the middle of the
-- 5x5 mask, other than those of the packet processor's hsa_fpga.h; the 5x5 masks, the operations and
-- the normalizations are the same there.
use lib_hsa.Base.{ℕ, List, [], ◌∷◌, ◌==◌, if◌then◌else◌}
use lib_hsa.Filters.{uint16_gray_scale, uint8_rgb}

unfoldable pub get_pixel_storage : ℕ → ℕ
get_pixel_storage colormodel =
    if colormodel == uint16_gray_scale then 2 else if colormodel == uint8_rgb then 3 else 0

abbrev pub sobel_x_3x3_mask : List ℕ
sobel_x_3x3_mask =
    0 ∷ 0 ∷ 0 ∷ 0 ∷ 0 ∷ 0 ∷ 1 ∷ 0 ∷ 255 ∷ 0 ∷ 0 ∷ 2 ∷ 0 ∷ 254 ∷ 0 ∷ 0 ∷ 1 ∷ 0 ∷ 255 ∷ 0 ∷ 0 ∷ 0 ∷ 0
    ∷ 0 ∷ 0 ∷ []

abbrev pub sobel_y_3x3_mask : List ℕ
sobel_y_3x3_mask =
    0 ∷ 0 ∷ 0 ∷ 0 ∷ 0 ∷ 0 ∷ 1 ∷ 2 ∷ 1 ∷ 0 ∷ 0 ∷ 0 ∷ 0 ∷ 0 ∷ 0 ∷ 0 ∷ 255 ∷ 254 ∷ 255 ∷ 0 ∷ 0 ∷ 0 ∷ 0
    ∷ 0 ∷ 0 ∷ []

abbrev pub gauss_3x3_mask : List ℕ
gauss_3x3_mask =
    0 ∷ 0 ∷ 0 ∷ 0 ∷ 0 ∷ 0 ∷ 1 ∷ 2 ∷ 1 ∷ 0 ∷ 0 ∷ 2 ∷ 4 ∷ 2 ∷ 0 ∷ 0 ∷ 1 ∷ 2 ∷ 1 ∷ 0 ∷ 0 ∷ 0 ∷ 0 ∷ 0
    ∷ 0 ∷ []
