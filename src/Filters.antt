-- ===== src/Filters.antt =====
-- lib/packet_processor/sw/include/hsa_fpga.h: what the packet processor asks of an accelerator, the
-- filter masks and their normalizations. The copy of the FPGA command processor has other
-- normalizations and another default of `get_pixel_storage`.
use lib_hsa.Base.{ℕ, ◌+◌, ◌-◌, ◌^◌, List, [], ◌∷◌, Option, none, some, ltb, ◌==◌, if◌then◌else◌}

-- `fpga_dma_direction_t`
abbrev pub load_data : ℕ
load_data = 0

abbrev pub store_data : ℕ
store_data = 1

-- `fpga_borderhandling_t`
abbrev pub clamp_to_zero : ℕ
clamp_to_zero = 0

abbrev pub clamp_to_edge : ℕ
clamp_to_edge = 1

-- `fpga_colormodel_t`
abbrev pub uint16_gray_scale : ℕ
uint16_gray_scale = 0

abbrev pub uint8_rgb : ℕ
uint8_rgb = 1

-- `fpga_operation_type_t`
pub data Operation : Type 0 where
  sobel_x3x3 sobel_y3x3 sobel_xy3x3 sobel_x5x5 sobel_y5x5 sobel_xy5x5 : Operation
  gauss3x3 gauss5x5 : Operation
  min_filter3x3 min_filter5x5 max_filter3x3 max_filter5x5 : Operation
  median_filter3x3 median_filter5x5 : Operation
  custom_filter3x3 custom_filter5x5 : Operation

-- The number that the enumeration gives an operation.
abbrev pub operation_code : Operation → ℕ
operation_code sobel_x3x3 = 0x01
operation_code sobel_y3x3 = 0x02
operation_code sobel_xy3x3 = 0x03
operation_code sobel_x5x5 = 0x04
operation_code sobel_y5x5 = 0x05
operation_code sobel_xy5x5 = 0x06
operation_code gauss3x3 = 0x11
operation_code gauss5x5 = 0x12
operation_code min_filter3x3 = 0x21
operation_code min_filter5x5 = 0x22
operation_code max_filter3x3 = 0x23
operation_code max_filter5x5 = 0x24
operation_code median_filter3x3 = 0x25
operation_code median_filter5x5 = 0x26
operation_code custom_filter3x3 = 0x31
operation_code custom_filter5x5 = 0x32

-- The case of a `switch` over the operations that a number meets; `none` is its default.
unfoldable pub operation_of : ℕ → Option Operation
operation_of n =
    if n == 0x01
    then some sobel_x3x3
    else if n == 0x02
    then some sobel_y3x3
    else if n == 0x03
    then some sobel_xy3x3
    else if n == 0x04
    then some sobel_x5x5
    else if n == 0x05
    then some sobel_y5x5
    else if n == 0x06
    then some sobel_xy5x5
    else if n == 0x11
    then some gauss3x3
    else if n == 0x12
    then some gauss5x5
    else if n == 0x21
    then some min_filter3x3
    else if n == 0x22
    then some min_filter5x5
    else if n == 0x23
    then some max_filter3x3
    else if n == 0x24
    then some max_filter5x5
    else if n == 0x25
    then some median_filter3x3
    else if n == 0x26
    then some median_filter5x5
    else if n == 0x31
    then some custom_filter3x3
    else if n == 0x32
    then some custom_filter5x5
    else none

unfoldable pub get_pixel_storage : ℕ → ℕ
get_pixel_storage colormodel =
    if colormodel == uint16_gray_scale then 2 else if colormodel == uint8_rgb then 3 else 1

-- The `int8_t` pattern of a negative mask entry.
abbrev minus : ℕ → ℕ
minus n = 2 ^ 8 - n

-- `(int32_t)` of an `int8_t` pattern.
unfoldable pub int8_to_int32 : ℕ → ℕ
int8_to_int32 b = if ltb b (2 ^ 7) then b else b + (2 ^ 32 - 2 ^ 8)

abbrev pub sobel_x_3x3_mask : List ℕ
sobel_x_3x3_mask =
    1
    ∷ 0
    ∷ minus 1
    ∷ 0
    ∷ 0
    ∷ 2
    ∷ 0
    ∷ minus 2
    ∷ 0
    ∷ 0
    ∷ 1
    ∷ 0
    ∷ minus 1
    ∷ 0
    ∷ 0
    ∷ 0
    ∷ 0
    ∷ 0
    ∷ 0
    ∷ 0
    ∷ 0
    ∷ 0
    ∷ 0
    ∷ 0
    ∷ 0
    ∷ []

abbrev pub sobel_y_3x3_mask : List ℕ
sobel_y_3x3_mask =
    1
    ∷ 2
    ∷ 1
    ∷ 0
    ∷ 0
    ∷ 0
    ∷ 0
    ∷ 0
    ∷ 0
    ∷ 0
    ∷ minus 1
    ∷ minus 2
    ∷ minus 1
    ∷ 0
    ∷ 0
    ∷ 0
    ∷ 0
    ∷ 0
    ∷ 0
    ∷ 0
    ∷ 0
    ∷ 0
    ∷ 0
    ∷ 0
    ∷ 0
    ∷ []

abbrev pub sobel_x_5x5_mask : List ℕ
sobel_x_5x5_mask =
    1
    ∷ 2
    ∷ 0
    ∷ minus 2
    ∷ minus 1
    ∷ 4
    ∷ 8
    ∷ 0
    ∷ minus 8
    ∷ minus 4
    ∷ 6
    ∷ 12
    ∷ 0
    ∷ minus 12
    ∷ minus 6
    ∷ 4
    ∷ 8
    ∷ 0
    ∷ minus 8
    ∷ minus 4
    ∷ 1
    ∷ 2
    ∷ 0
    ∷ minus 2
    ∷ minus 1
    ∷ []

abbrev pub sobel_y_5x5_mask : List ℕ
sobel_y_5x5_mask =
    1
    ∷ 4
    ∷ 6
    ∷ 4
    ∷ 1
    ∷ 2
    ∷ 8
    ∷ 12
    ∷ 8
    ∷ 2
    ∷ 0
    ∷ 0
    ∷ 0
    ∷ 0
    ∷ 0
    ∷ minus 2
    ∷ minus 8
    ∷ minus 12
    ∷ minus 8
    ∷ minus 2
    ∷ minus 1
    ∷ minus 4
    ∷ minus 6
    ∷ minus 4
    ∷ minus 1
    ∷ []

abbrev pub gauss_3x3_mask : List ℕ
gauss_3x3_mask =
    1 ∷ 2 ∷ 1 ∷ 0 ∷ 0 ∷ 2 ∷ 4 ∷ 2 ∷ 0 ∷ 0 ∷ 1 ∷ 2 ∷ 1 ∷ 0 ∷ 0 ∷ 0 ∷ 0 ∷ 0 ∷ 0 ∷ 0 ∷ 0 ∷ 0 ∷ 0 ∷ 0
    ∷ 0 ∷ []

abbrev pub gauss_5x5_mask : List ℕ
gauss_5x5_mask =
    1 ∷ 4 ∷ 6 ∷ 4 ∷ 1 ∷ 4 ∷ 16 ∷ 24 ∷ 16 ∷ 4 ∷ 6 ∷ 24 ∷ 36 ∷ 24 ∷ 6 ∷ 4 ∷ 16 ∷ 24 ∷ 16 ∷ 4 ∷ 1 ∷ 4
    ∷ 6 ∷ 4 ∷ 1 ∷ []

abbrev pub gauss_3x3_normalization : ℕ
gauss_3x3_normalization = 4

abbrev pub gauss_5x5_normalization : ℕ
gauss_5x5_normalization = 8
