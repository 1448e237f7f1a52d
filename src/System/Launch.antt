-- ===== src/System/Launch.antt =====
-- A launch: the packet processor's stores into the configuration space of a core (packet_processor.c,
-- process_launch_queue), and what the core's command processor reads there (main.c,
-- run_computation).
use lib_hsa.PacketProcessor.Masks.{custom_mask, no_mask, mask_write_of}
use mathlib.Core.Option.{none}
use lib_hsa.Base.{
  later_stores, ◌<◌, ℕ, Memory, List, ◌+◌, load, ◌%◌, deliver, Store, ◌≤◌, AtLeast, suc, ◌^◌, Apart,
  ◌≡◌, Option, arith, ◌++◌, load-deliver_first, ◌∷◌, [], Apart-append, AtLeast-Apart, inr, store,
  some, ap, ◌∙◌, refl, load_inside, u8,
}
use lib_hsa.PacketProcessor.Masks.{
  write_one, write_both, write_mask_to_core, write_mask, write_custom, core_base_addr, MaskWrite,
  one_mask, both_masks,
}
use lib_hsa.PacketProcessor.State.{LaunchRequest, PacketProcessor, send_interrupt_to_core}
use lib_hsa.RomAccel.Main.{TaskConfig, read_config}
use lib_hsa.PacketProcessor.Issue.{launch_stores, all_launch_stores}
use lib_hsa.PacketProcessor.Addresses.{mask0_offset, mask1_offset, accel_addr_space_len}
use lib_hsa.Filters.{Operation, operation_of}
use Prim.Native.Nat.{zero}
use mathlib.Core.List.{[]}
use lib_hsa.RomAccel.Config.{base_addr_cfg}

write_one-AtLeast : (e : ℕ) (ms : List ℕ) (lo : ℕ) → lo ≤ e → AtLeast lo (write_one e ms)
unfolding write_one
write_one-AtLeast e [] lo h = tt
write_one-AtLeast e (m ∷ ms) lo h = (h, write_one-AtLeast (e + 4) ms lo (omega arith))

write_both-AtLeast :
    (e f : ℕ) (ms ns : List ℕ) (lo : ℕ) → lo ≤ e → lo ≤ f → AtLeast lo (write_both e f ms ns)
unfolding write_both
write_both-AtLeast e f [] [] lo h k = tt
write_both-AtLeast e f [] (n ∷ ns) lo h k = tt
write_both-AtLeast e f (m ∷ ms) [] lo h k = tt
write_both-AtLeast e f (m ∷ ms) (n ∷ ns) lo h k =
    (h, (k, write_both-AtLeast (e + 4) (f + 4) ms ns lo (omega arith) (omega arith)))

pub write_custom-AtLeast :
    (mem : Memory) (e a count lo : ℕ) → lo ≤ e → AtLeast lo (write_custom mem e a count)
unfolding write_custom
write_custom-AtLeast mem e a zero lo h = tt
write_custom-AtLeast mem e a (suc count) lo h =
    (h, write_custom-AtLeast mem (e + 4) (a + 4) count lo (omega arith))

write_mask-AtLeast :
    (mem : Memory) (base custom : ℕ) (w : MaskWrite)
    → AtLeast (base + mask0_offset) (write_mask mem base custom w)
unfolding write_mask
write_mask-AtLeast mem base custom no_mask = tt
write_mask-AtLeast mem base custom (one_mask m) =
    write_one-AtLeast (base + mask0_offset) m (base + mask0_offset) (omega arith)
write_mask-AtLeast mem base custom (both_masks m n) =
    write_both-AtLeast (base + mask0_offset) (base + mask1_offset) m n (base + mask0_offset)
      (omega arith) (omega arith)
write_mask-AtLeast mem base custom (custom_mask count) =
    write_custom-AtLeast mem (base + mask0_offset) custom count (base + mask0_offset) (omega arith)

masks-AtLeast :
    (mem : Memory) (core operation custom : ℕ)
    → AtLeast (core_base_addr core + mask0_offset) (write_mask_to_core mem core operation custom)
unfolding write_mask_to_core
masks-AtLeast mem core operation custom = by_operation (operation_of operation)
  where
    by_operation :
        (o : Option Operation)
        → AtLeast (core_base_addr core + mask0_offset) (elim o [
          | none ↦ []
          | some op ↦ write_mask mem (core_base_addr core) custom (mask_write_of op)
        ])
    by_operation none = tt
    by_operation (some op) = write_mask-AtLeast mem (core_base_addr core) custom (mask_write_of op)

-- The stores after the first fields leave the first 32 bytes of the configuration.
rest-Apart :
    (s : PacketProcessor) (core : ℕ) (r : LaunchRequest) (n o : ℕ)
    → o + n ≤ 32
    → Apart n
        (core_base_addr core + o)
        (write_mask_to_core s.mem core r.kernel r.custom_mask ++ (send_interrupt_to_core core ∷ []))
rest-Apart s core r n o h =
    Apart-append n (core_base_addr core + o) (write_mask_to_core s.mem core r.kernel r.custom_mask)
      (send_interrupt_to_core core ∷ [])
      (AtLeast-Apart n (core_base_addr core + o) (core_base_addr core + mask0_offset)
        (write_mask_to_core s.mem core r.kernel r.custom_mask) (omega arith)
        (masks-AtLeast s.mem core r.kernel r.custom_mask))
      (inr (omega arith), tt)

-- What the packet processor's request says, in the widths of the registers.
abbrev pub requested : LaunchRequest → TaskConfig
requested r = record {
  task = r.kernel % 2 ^ 16;
  normalization = r.normalization % 2 ^ 16;
  threshold = r.threshold % 2 ^ 16;
  color_model = r.colormodel % 2 ^ 8;
  border_handling = r.borderhandling % 2 ^ 8;
  img_width = r.sizex % 2 ^ 32;
  img_height = r.sizey % 2 ^ 32;
  addr_src = r.src_address % 2 ^ 64;
  addr_dst = r.dst_address % 2 ^ 64;
}

-- A field of the launch stores, followed by stores at higher addresses and the rest of the launch.
field_kept :
    (s : PacketProcessor) (core : ℕ) (r : LaunchRequest) (m : Memory) (w o v : ℕ)
    (later : List Store)
    → o + w ≤ 32
    → AtLeast (core_base_addr core + o + w) later
    → load w
        (deliver
          (later
            ++ (write_mask_to_core s.mem core r.kernel r.custom_mask
                ++ (send_interrupt_to_core core ∷ [])))
          (store w m (core_base_addr core + o) v))
        (core_base_addr core + o)
      ≡ v % 256 ^ w
field_kept s core r m w o v later h a =
    load-deliver_first w (core_base_addr core + o) v
      (later
        ++ (write_mask_to_core s.mem core r.kernel r.custom_mask
            ++ (send_interrupt_to_core core ∷ [])))
      m
      (Apart-append w (core_base_addr core + o) later
        (write_mask_to_core s.mem core r.kernel r.custom_mask ++ (send_interrupt_to_core core ∷ []))
        (AtLeast-Apart w (core_base_addr core + o) (core_base_addr core + o + w) later (omega arith)
          a)
        (rest-Apart s core r w o h))

module _ (s : PacketProcessor) (core : ℕ) (r : LaunchRequest) (m : Memory) where
  abbrev base : ℕ
  base = core_base_addr core

  abbrev after : Memory
  after = deliver (all_launch_stores s core r) m

  task_field : load 2 after (base + 0) ≡ r.kernel % 2 ^ 16
  task_field =
      field_kept s core r _ 2 0 r.kernel (later_stores 1 (launch_stores base r)) (omega arith) (
        omega arith,
        (
          omega arith,
          (
            omega arith,
            (omega arith, (omega arith, (omega arith, (omega arith, (omega arith, tt))))),
          ),
        ),
      )

  normalization_field : load 2 after (base + 2) ≡ r.normalization % 2 ^ 16
  normalization_field =
      field_kept s core r _ 2 2 r.normalization (later_stores 2 (launch_stores base r))
        (omega arith)
        (
          omega arith,
          (
            omega arith,
            (omega arith, (omega arith, (omega arith, (omega arith, (omega arith, tt))))),
          ),
        )

  threshold_field : load 2 after (base + 4) ≡ r.threshold % 2 ^ 16
  threshold_field =
      field_kept s core r _ 2 4 r.threshold (later_stores 3 (launch_stores base r)) (omega arith)
        (omega arith, (omega arith, (omega arith, (omega arith, (omega arith, (omega arith, tt))))))

  color_model_field : load 1 after (base + 6) ≡ r.colormodel % 2 ^ 8
  color_model_field =
      field_kept s core r _ 1 6 r.colormodel (later_stores 4 (launch_stores base r)) (omega arith)
        (omega arith, (omega arith, (omega arith, (omega arith, (omega arith, tt)))))

  border_handling_field : load 1 after (base + 7) ≡ r.borderhandling % 2 ^ 8
  border_handling_field =
      field_kept s core r _ 1 7 r.borderhandling (later_stores 5 (launch_stores base r))
        (omega arith) (omega arith, (omega arith, (omega arith, (omega arith, tt))))

  img_width_field : load 4 after (base + 8) ≡ r.sizex % 2 ^ 32
  img_width_field =
      field_kept s core r _ 4 8 r.sizex (later_stores 6 (launch_stores base r)) (omega arith)
        (omega arith, (omega arith, (omega arith, tt)))

  img_height_field : load 4 after (base + 12) ≡ r.sizey % 2 ^ 32
  img_height_field =
      field_kept s core r _ 4 12 r.sizey (later_stores 7 (launch_stores base r)) (omega arith)
        (omega arith, (omega arith, tt))

  addr_src_field : load 8 after (base + 16) ≡ r.src_address % 2 ^ 64
  addr_src_field =
      field_kept s core r _ 8 16 r.src_address (later_stores 8 (launch_stores base r)) (omega arith)
        (omega arith, tt)

  addr_dst_field : load 8 after (base + 24) ≡ r.dst_address % 2 ^ 64
  addr_dst_field =
      field_kept s core r _ 8 24 r.dst_address (later_stores 9 (launch_stores base r)) (omega arith)
        tt

-- The configuration registers that the core's command processor reads, at its own addresses, are
-- those that the packet processor writes.
abbrev pub SeesCore : (core : ℕ) → (cfg m : Memory) → Type 0
SeesCore core cfg m =
    (o : ℕ) → o < accel_addr_space_len → cfg (base_addr_cfg + o) ≡ m (core_base_addr core + o)

-- After a launch, the command processor of the core reads each field of the request, in the width of
-- its register.
pub launch_received :
    (s : PacketProcessor) (core : ℕ) (r : LaunchRequest) (m cfg : Memory)
    → SeesCore core cfg (deliver (all_launch_stores s core r) m)
    → read_config cfg ≡ requested r
unfolding read_config
launch_received s core r m cfg sees =
    rw
      (
        seen 2 0 (omega arith) ∙ task_field s core r m,
        seen 2 2 (omega arith) ∙ normalization_field s core r m,
        seen 2 4 (omega arith) ∙ threshold_field s core r m,
        seen 1 6 (omega arith) ∙ color_model_field s core r m,
        seen 1 7 (omega arith) ∙ border_handling_field s core r m,
        seen 4 8 (omega arith) ∙ img_width_field s core r m,
        seen 4 12 (omega arith) ∙ img_height_field s core r m,
        seen 8 16 (omega arith) ∙ addr_src_field s core r m,
        seen 8 24 (omega arith) ∙ addr_dst_field s core r m,
      )
      refl
  where
    seen :
        (w o : ℕ)
        → o + w < 32 + 1
        → load w cfg (base_addr_cfg + o)
          ≡ load w (deliver (all_launch_stores s core r) m) (core_base_addr core + o)
    seen w o h =
        load_inside accel_addr_space_len w o cfg (deliver (all_launch_stores s core r) m)
          base_addr_cfg (core_base_addr core) (omega arith) (λ x p. ap (λ (y : ℕ). u8 y) (sees x p))
