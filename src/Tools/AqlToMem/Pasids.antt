-- ===== src/Tools/AqlToMem/Pasids.antt =====
-- How many PASIDs aql2mem writes.
use lib_hsa.Base.{
  ℕ, zero, suc, ◌+◌, ◌-◌, ◌*◌, ◌/◌, ◌≤◌, ◌<◌, ◌≡◌, refl, arith, length, ltb, bit_and_mask,
  Bool-cases, inl, inr, ltb→lt, ltb→le, le→ltb, Text,
}
use mathlib.Core.List.{List, [], ◌∷◌}
use lib_hsa.Tools.Result.{ok}
use lib_hsa.Tools.AqlToMem.Header.{max_queue_length}
use lib_hsa.Tools.AqlToMem.MemFile.{pasid_lines, pasid_line, lines_to_write, pasid_start}

-- The loop ends, with a line for each four indices below the bound.
pasid_lines_lem :
    (pasid : ℕ → ℕ) (bound fuel i line : ℕ)
    → bound ≤ i + fuel
    → (lines : List Text) × ((pasid_lines pasid bound fuel i line ≡ ok lines)
        × (length lines ≡ (bound - i + 3) / 4))
unfolding pasid_lines
pasid_lines_lem pasid bound zero i line h =
    ([], (rw (le→ltb i bound (omega arith)) refl, omega arith))
pasid_lines_lem pasid bound (suc fuel) i line h = elim (Bool-cases (ltb i bound)) [
  | inl q ↦
      let (lines, (e, n)) = pasid_lines_lem pasid bound fuel (i + 4) (line + 2) (omega arith) in
      let lt = ltb→lt i bound q in
      (pasid_line pasid i line ∷ lines, (rw (q, e) refl, omega (arith, n, lt)))
  | inr q ↦ ([], (rw q refl, omega (arith, ltb→le i bound q)))
]

lines_to_write_lem : (n : ℕ) → n ≤ max_queue_length → lines_to_write n ≡ n / 4 + 1
lines_to_write_lem n h = rw (bit_and_mask 2 n) (omega arith)

-- The file of five to 128 packets has lines for fewer PASIDs than packets: the bound counts lines
-- of four, but the index moves by four.
pub pasids_missing :
    (pasid : ℕ → ℕ) (n : ℕ)
    → 4 < n
    → n ≤ max_queue_length
    → (lines : List Text) × ((pasid_lines pasid (lines_to_write n) (lines_to_write n) 0 pasid_start
          ≡ ok lines)
        × (length lines * 4 < n))
pasids_missing pasid n small big =
    let (lines, (e, k)) =
      pasid_lines_lem pasid (lines_to_write n) (lines_to_write n) 0 pasid_start (omega arith) in
    (lines, (e, omega (arith, k, lines_to_write_lem n big)))
