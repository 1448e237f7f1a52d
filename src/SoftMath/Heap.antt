-- ===== src/SoftMath/Heap.antt =====
-- `sbrk` of system.c: the end of the heap as a state, in pointers of `w` bits.
use mathlib.Core.List.{List, [], ◌∷◌}
use lib_hsa.Base.{◌≡◌, ℕ, ◌≤◌, ◌<◌, if◌then◌else◌, ◌==◌, ◌+◌, ◌%◌, ◌^◌, arith, false, refl}
use native.Mathlib.Nat.{mod-eq_of_lt}

-- The address that is returned, and the new `heap_end`. There is no bound.
unfoldable pub sbrk : (w heap_start heap_end incr : ℕ) → ℕ × ℕ
sbrk w heap_start heap_end incr =
    let prev_heap_end = if heap_end == 0 then heap_start else heap_end in
    (prev_heap_end, (prev_heap_end + incr) % 2 ^ w)

-- The blocks that a sequence of calls returns, with their sizes.
unfoldable pub blocks : (w heap_start heap_end : ℕ) → List ℕ → List (ℕ × ℕ)
blocks w heap_start heap_end [] = []
blocks w heap_start heap_end (incr ∷ incrs) =
    let r = sbrk w heap_start heap_end incr in (r.0, incr) ∷ blocks w heap_start (r.1) incrs

abbrev pub total : List ℕ → ℕ
total [] = 0
total (incr ∷ incrs) = incr + total incrs

-- Blocks one behind the other in the region from `low` to `high`.
abbrev pub Consecutive : (low high : ℕ) → List (ℕ × ℕ) → Type 0
Consecutive low high [] = low ≤ high
Consecutive low high ((address, size) ∷ bs) = (address ≡ low) × Consecutive (low + size) high bs

blocks-Consecutive_from :
    (w heap_start heap_end : ℕ) (incrs : List ℕ)
    → 0 < heap_end
    → heap_end + total incrs < 2 ^ w
    → Consecutive heap_end (heap_end + total incrs) (blocks w heap_start heap_end incrs)
unfolding blocks sbrk
blocks-Consecutive_from w heap_start heap_end [] positive fits = omega arith
blocks-Consecutive_from w heap_start heap_end (incr ∷ incrs) positive fits =
    rw (some_end, mod-eq_of_lt advanced, regrouped)
      (
        refl,
        blocks-Consecutive_from w heap_start (heap_end + incr) incrs (omega arith) (omega arith),
      )
  where
    some_end : (heap_end == 0) ≡ false
    some_end = ground arith

    advanced : heap_end + incr < 2 ^ w
    advanced = omega arith

    regrouped : heap_end + (incr + total incrs) ≡ heap_end + incr + total incrs
    regrouped = omega arith

-- While the heap does not reach the end of the address space, the blocks that `sbrk` returns lie one
-- behind the other from the start of the heap: none of them overlaps another.
pub blocks-Consecutive :
    (w heap_start : ℕ) (incrs : List ℕ)
    → 0 < heap_start
    → heap_start + total incrs < 2 ^ w
    → Consecutive heap_start (heap_start + total incrs) (blocks w heap_start 0 incrs)
unfolding blocks sbrk
blocks-Consecutive w heap_start [] positive fits = omega arith
blocks-Consecutive w heap_start (incr ∷ incrs) positive fits =
    rw (mod-eq_of_lt advanced, regrouped)
      (
        refl,
        blocks-Consecutive_from w heap_start (heap_start + incr) incrs (omega arith) (omega arith),
      )
  where
    advanced : heap_start + incr < 2 ^ w
    advanced = omega arith

    regrouped : heap_start + (incr + total incrs) ≡ heap_start + incr + total incrs
    regrouped = omega arith
