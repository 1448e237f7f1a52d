-- ===== src/RomAccel/Bounds.antt =====
-- Where the configuration of the processing element is stored.
use mathlib.Core.Bool.{true, false}
use mathlib.Core.Option.{none, some}
use mathlib.Core.List.{[]}
use lib_hsa.Base.{
  ℕ, arith, ◌||◌, ◌∷◌, ◌++◌, ◌&&◌, List, Store, ◌≡◌, Memory, Bool, Option, if◌then◌else◌, ◌==◌,
  refl, leb, ◌+◌, not,
}
use lib_hsa.RomAccel.Config.{
  write_task_config_to_pe, coefficient_stores, operation_stores, write_32_pe, color_of, border_of,
  op_type_of, base_addr_cfg_pe, normalize_val_of, window_of,
}
use lib_hsa.PacketProcessor.Masks.{write_one, write_custom}
use lib_hsa.Filters.{
  Operation, sobel_x3x3, sobel_y3x3, sobel_xy3x3, sobel_x5x5, sobel_y5x5, sobel_xy5x5, gauss3x3,
  gauss5x5, custom_filter3x3, custom_filter5x5, min_filter3x3, min_filter5x5, max_filter3x3,
  max_filter5x5, median_filter3x3, median_filter5x5, operation_of,
}
use lib_hsa.RomAccel.Encoding.{pe_encode_op}

-- A store of four bytes into the registers of the PE, which end after the second mask.
abbrev pub in_pe : Store → Bool
in_pe s =
    (s.width == 4)
    && leb base_addr_cfg_pe s.address
    && leb (s.address + 4) (base_addr_cfg_pe + 0x00E8)

unfoldable pub all_in_pe : List Store → Bool
all_in_pe [] = true
all_in_pe (s ∷ ss) = in_pe s && all_in_pe ss

all_in_pe-append :
    (xs ys : List Store) → all_in_pe xs ≡ true → all_in_pe ys ≡ true → all_in_pe (xs ++ ys) ≡ true
unfolding all_in_pe
all_in_pe-append [] ys h k = k
all_in_pe-append (x ∷ xs) ys h k = ground (arith, all_in_pe-append xs ys)

coefficients_in_pe : (cfg : Memory) (op : Operation) → all_in_pe (coefficient_stores cfg op) ≡ true
unfolding all_in_pe coefficient_stores write_one write_custom
coefficients_in_pe cfg sobel_x3x3 = refl
coefficients_in_pe cfg sobel_y3x3 = refl
coefficients_in_pe cfg sobel_xy3x3 = refl
coefficients_in_pe cfg sobel_x5x5 = refl
coefficients_in_pe cfg sobel_y5x5 = refl
coefficients_in_pe cfg sobel_xy5x5 = refl
coefficients_in_pe cfg gauss3x3 = refl
coefficients_in_pe cfg gauss5x5 = refl
coefficients_in_pe cfg custom_filter3x3 = refl
coefficients_in_pe cfg custom_filter5x5 = refl
coefficients_in_pe cfg min_filter3x3 = refl
coefficients_in_pe cfg min_filter5x5 = refl
coefficients_in_pe cfg max_filter3x3 = refl
coefficients_in_pe cfg max_filter5x5 = refl
coefficients_in_pe cfg median_filter3x3 = refl
coefficients_in_pe cfg median_filter5x5 = refl

operation_stores_in_pe :
    (color border op_type normalize_val threshold_val window : ℕ)
    → all_in_pe (operation_stores color border op_type normalize_val threshold_val window) ≡ true
unfolding all_in_pe operation_stores
operation_stores_in_pe color border op_type normalize_val threshold_val window =
    by_tests ((op_type == 0) && not (normalize_val == 0))
      ((op_type == 1) && not (threshold_val == 0))
  where
    by_tests :
        (a b : Bool)
        → all_in_pe (
            (if a
              then write_32_pe 0x0018 normalize_val ∷ []
              else if b
              then write_32_pe 0x001C threshold_val ∷ []
              else [])
            ++ (write_32_pe 0x000C window
                ∷ write_32_pe 0x0010 window
                ∷ write_32_pe 0x0014 (pe_encode_op color border op_type (if a || b then 1 else 0))
                ∷ []))
          ≡ true
    by_tests true b = refl
    by_tests false true = refl
    by_tests false false = refl

-- Whatever the task and its parameters, the configuration consists of words stored into the
-- registers of the PE.
pub config_stays_in_pe :
    (cfg : Memory) (task color_model border_conf normalization threshold : ℕ)
    → all_in_pe (write_task_config_to_pe cfg task color_model border_conf normalization threshold)
      ≡ true
unfolding write_task_config_to_pe
config_stays_in_pe cfg task color_model border_conf normalization threshold =
    by_operation (operation_of task)
  where
    by_operation :
        (o : Option Operation)
        → all_in_pe (elim o [
          | none ↦
              operation_stores
                (color_of color_model)
                (border_of border_conf)
                0
                normalization
                threshold
                0
          | some op ↦
              coefficient_stores cfg op
              ++ operation_stores
                  (color_of color_model)
                  (border_of border_conf)
                  (op_type_of op)
                  (normalize_val_of op normalization)
                  threshold
                  (window_of op)
        ])
          ≡ true
    by_operation none =
        operation_stores_in_pe (color_of color_model) (border_of border_conf) 0 normalization
          threshold 0
    by_operation (some op) =
        all_in_pe-append (coefficient_stores cfg op)
          (operation_stores (color_of color_model) (border_of border_conf) (op_type_of op)
            (normalize_val_of op normalization) threshold (window_of op))
          (coefficients_in_pe cfg op)
          (operation_stores_in_pe (color_of color_model) (border_of border_conf) (op_type_of op)
            (normalize_val_of op normalization) threshold (window_of op))
