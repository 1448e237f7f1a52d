-- ===== src/System/CustomMask.antt =====
-- The masks of a launch of a custom filter: what write_mask_to_core (packet_processor.c) stores, and
-- what write_task_config_to_pe (main.c of the image accelerator) uses.
use lib_hsa.Base.{
  ℕ, ◌≡◌, if◌then◌else◌, ◌==◌, Memory, ◌⊎◌, ◌<◌, ◌+◌, ◌*◌, load, inl, ◌≤◌, deliver, inr, Apart,
  arith, suc, refl, load-deliver_first, AtLeast-Apart, ◌∙◌, load-bound, store, load-deliver-Apart,
  List, Store, ap, ltb, ◌++◌, true, false, ◌∷◌, sym, [], deliver-append, ltb→lt, Bool-cases,
}
use lib_hsa.PacketProcessor.Masks.{write_custom, write_mask_to_core, core_base_addr}
use lib_hsa.PacketProcessor.Addresses.{mask0_offset, mask1_offset}
use Prim.Native.Nat.{zero}
use lib_hsa.System.Launch.{write_custom-AtLeast}
use native.Mathlib.Nat.{mod-eq_of_lt}
use lib_hsa.PacketProcessor.State.{PacketProcessor, LaunchRequest, send_interrupt_to_core}
use lib_hsa.PacketProcessor.Issue.{launch_stores, all_launch_stores}

custom-Apart :
    (mem : Memory) (n b e a count : ℕ) → e + 4 * count ≤ b → Apart n b (write_custom mem e a count)
unfolding write_custom
custom-Apart mem n b e a zero h = tt
custom-Apart mem n b e a (suc count) h =
    (inr (omega arith), custom-Apart mem n b (e + 4) (a + 4) count (omega arith))

custom_entry :
    (mem m : Memory) (e a count i : ℕ)
    → i < count
    → load 4 (deliver (write_custom mem e a count) m) (e + 4 * i) ≡ load 4 mem (a + 4 * i)
unfolding write_custom
custom_entry mem m e a zero i h = absurd (omega arith)
custom_entry mem m e a (suc count) zero h =
    rw (nothing e, nothing a)
      (load-deliver_first 4 e (load 4 mem a) (write_custom mem (e + 4) (a + 4) count) m (
          AtLeast-Apart 4 e (e + 4) (write_custom mem (e + 4) (a + 4) count) (omega arith)
            (write_custom-AtLeast mem (e + 4) (a + 4) count (e + 4) (omega arith)))
        ∙ mod-eq_of_lt (load-bound 4 mem a))
  where
    nothing : (x : ℕ) → x + 4 * 0 ≡ x
    nothing x = omega arith
custom_entry mem m e a (suc count) (suc i) h =
    rw (next e i, next a i)
      (custom_entry mem (store 4 m e (load 4 mem a)) (e + 4) (a + 4) count i (omega arith))
  where
    next : (x i : ℕ) → x + 4 * suc i ≡ x + 4 + 4 * i
    next x i = omega arith

-- The number of entries of a custom mask.
abbrev pub mask_entries : ℕ → ℕ
mask_entries kernel = if kernel == 0x31 then 9 else 25

abbrev pub IsCustom : ℕ → Type 0
IsCustom kernel = (kernel ≡ 0x31) ⊎ (kernel ≡ 0x32)

custom_stores :
    (mem : Memory) (core kernel custom : ℕ)
    → IsCustom kernel
    → write_mask_to_core mem core kernel custom
      ≡ write_custom mem (core_base_addr core + mask0_offset) custom (mask_entries kernel)
unfolding write_mask_to_core
custom_stores mem core kernel custom (inl e) = rw e refl
custom_stores mem core kernel custom (inr e) = rw e refl

module _ (s : PacketProcessor) (core : ℕ) (r : LaunchRequest) (m : Memory) where
  abbrev base : ℕ
  base = core_base_addr core

  -- The memory after the stores of the fields.
  abbrev configured : Memory
  configured = deliver (launch_stores base r) m

  abbrev masks : List Store
  masks = write_custom s.mem (base + mask0_offset) r.custom_mask (mask_entries r.kernel)

  -- A word of the masks is what the stores of the custom mask leave there.
  mask_word :
      (o : ℕ)
      → IsCustom r.kernel
      → 32 ≤ o
      → load 4 (deliver (all_launch_stores s core r) m) (base + o)
        ≡ load 4 (deliver masks configured) (base + o)
  mask_word o custom h =
      ap
        (λ (ss : List Store).
          load 4 (deliver (ss ++ (send_interrupt_to_core core ∷ [])) configured) (base + o))
        (custom_stores s.mem core r.kernel r.custom_mask custom)
      ∙ ap (λ (x : Memory). load 4 x (base + o))
          (deliver-append masks (send_interrupt_to_core core ∷ []) configured)
      ∙ load-deliver-Apart 4 (base + o) (send_interrupt_to_core core ∷ [])
          (deliver masks configured) (inr (omega arith), tt)

  kept_word :
      (o : ℕ)
      → 32 + 4 * mask_entries r.kernel ≤ o
      → load 4 (deliver masks configured) (base + o) ≡ load 4 m (base + o)
  kept_word o h =
      load-deliver-Apart 4 (base + o) masks configured (
        custom-Apart s.mem 4 (base + o) (base + mask0_offset) r.custom_mask (mask_entries r.kernel)
          (omega arith))
      ∙ load-deliver-Apart 4 (base + o) (launch_stores base r) m (
        inr (omega arith),
        (
          inr (omega arith),
          (
            inr (omega arith),
            (
              inr (omega arith),
              (
                inr (omega arith),
                (
                  inr (omega arith),
                  (inr (omega arith), (inr (omega arith), (inr (omega arith), tt))),
                ),
              ),
            ),
          ),
        ),
      )

-- After the launch of a custom filter, the first mask of the core holds the entries that the packet
-- processor has in its memory, 9 or 25 of them; the other entries of the first mask and all of the
-- second, which the command processor uses too, are what they were before.
pub custom_masks_received :
    (s : PacketProcessor) (core : ℕ) (r : LaunchRequest) (m : Memory) (i : ℕ)
    → IsCustom r.kernel
    → i < 25
    → let after = deliver (all_launch_stores s core r) m in
      let mask0 = core_base_addr core + mask0_offset + 4 * i in
      let mask1 = core_base_addr core + mask1_offset + 4 * i in
      (load 4 after mask0 ≡ (
        if ltb i (mask_entries r.kernel)
        then load 4 s.mem (r.custom_mask + 4 * i)
        else load 4 m mask0))
      × (load 4 after mask1 ≡ load 4 m mask1)
custom_masks_received s core r m i custom h = (
  rw (assoc mask0_offset) (first (Bool-cases (ltb i (mask_entries r.kernel)))),
  rw (assoc mask1_offset) (
      mask_word s core r m (mask1_offset + 4 * i) custom (omega arith)
      ∙ kept_word s core r m (mask1_offset + 4 * i) (omega (arith, few))),
)
  where
    assoc : (o : ℕ) → core_base_addr core + o + 4 * i ≡ core_base_addr core + (o + 4 * i)
    assoc o = omega arith

    few : mask_entries r.kernel ≤ 25
    few = ground arith

    first :
        ((ltb i (mask_entries r.kernel) ≡ true) ⊎ (ltb i (mask_entries r.kernel) ≡ false))
        → load 4
            (deliver (all_launch_stores s core r) m)
            (core_base_addr core + (mask0_offset + 4 * i))
          ≡ (if ltb i (mask_entries r.kernel)
              then load 4 s.mem (r.custom_mask + 4 * i)
              else load 4 m (core_base_addr core + (mask0_offset + 4 * i)))
    first (inl inside) =
        mask_word s core r m (mask0_offset + 4 * i) custom (omega arith)
        ∙ ap (λ (x : ℕ). load 4 (deliver (masks s core r m) (configured s core r m)) x)
            (sym (assoc mask0_offset))
        ∙ custom_entry s.mem (configured s core r m) (core_base_addr core + mask0_offset)
            r.custom_mask (mask_entries r.kernel) i (ltb→lt i (mask_entries r.kernel) inside)
        ∙ rw inside refl
    first (inr outside) =
        mask_word s core r m (mask0_offset + 4 * i) custom (omega arith)
        ∙ kept_word s core r m (mask0_offset + 4 * i) (ground arith)
        ∙ rw outside refl
