-- ===== src/Tools/AqlToMem/Defaults.antt =====
-- The default packets of aql2mem.
use lib_hsa.Packets.KernelDispatch
use lib_hsa.Base.{
  ℕ, zero, suc, ◌+◌, ◌%◌, ◌^◌, ◌≤◌, ◌<◌, ◌==◌, ◌≡◌, refl, arith, if◌then◌else◌, Text, Memory, Store,
  load, deliver, lt→ltb, le→ltb, ne→==, AtLeast, AtLeast-Apart, load-deliver-Apart,
  load-deliver_first, ◌∙◌, ap, inl, inr, Bool-cases, later_stores, ==→eq, ==→ne,
}
use mathlib.Core.Path.{subst}
use mathlib.Core.List.{List, []}
use lib_hsa.Packets.{packet_type_code, kernel_dispatch}
use lib_hsa.PacketProcessor.Aql.{type_field, barrier_field}
use lib_hsa.Tools.Result.{ok, fail, exit_failure}
use lib_hsa.Tools.AqlToMem.Header.{type_header, max_queue_length}
use lib_hsa.Tools.AqlToMem.Queue.{
  Alloc, Heap, packet_at, dispatch_stores, add_packet, set_pasid, cleared, default_op,
  default_dispatch, default_packet, default_packets, default_queue, number_of_packets,
}

module _ (heap : Heap) where
  stores_at : ℕ → List Store
  stores_at index = dispatch_stores heap (type_header kernel_dispatch) default_dispatch index

  -- A round, and all of them, where there is room.
  placed : Alloc → Alloc
  placed a = record {
    memory = deliver (stores_at a.packet_queue_end_idx) a.memory;
    pasid = λ i. if i == a.packet_queue_end_idx then 15 else a.pasid i;
    packet_queue_end_idx = a.packet_queue_end_idx + 1;
  }

  all_placed : ℕ → Alloc → Alloc
  all_placed zero a = a
  all_placed (suc n) a = all_placed n (placed a)

  -- A round has room below MAX_QUEUE_LENGTH.
  default_packet_lem :
      (a : Alloc)
      → a.packet_queue_end_idx < max_queue_length
      → default_packet heap a ≡ ok (placed a)
  unfolding default_packet placed stores_at
  default_packet_lem a h =
      let q = lt→ltb a.packet_queue_end_idx max_queue_length h in
      let named : Alloc = record a {
        pasid = λ i. if i == a.packet_queue_end_idx then 15 else a.pasid i;
      } in
      let e : set_pasid 15 a ≡ ok named = unfold set_pasid in rw q refl in
      rw e (unfold add_packet in rw q refl)

  default_packets_lem :
      (n : ℕ) (a : Alloc)
      → a.packet_queue_end_idx + n ≤ max_queue_length
      → default_packets heap n a ≡ ok (all_placed n a)
  unfolding default_packets all_placed placed
  default_packets_lem zero a h = refl
  default_packets_lem (suc n) a h =
      rw (default_packet_lem a (omega arith)) (default_packets_lem n (placed a) (omega arith))

  placed-idx :
      (n : ℕ) (a : Alloc) → (all_placed n a).packet_queue_end_idx ≡ a.packet_queue_end_idx + n
  unfolding all_placed placed
  placed-idx zero a = omega arith
  placed-idx (suc n) a = omega (arith, placed-idx n (placed a))

  stores-AtLeast : (index : ℕ) → AtLeast (packet_at index) (stores_at index)
  unfolding stores_at
  stores-AtLeast index = omega arith

  -- Later packets leave the earlier ones.
  placed-kept :
      (n : ℕ) (a : Alloc) (width at : ℕ)
      → at + width ≤ packet_at a.packet_queue_end_idx
      → load width (all_placed n a).memory at ≡ load width a.memory at
  unfolding all_placed placed
  placed-kept zero a width at h = refl
  placed-kept (suc n) a width at h =
      placed-kept n (placed a) width at (omega arith)
      ∙ load-deliver-Apart width at (stores_at a.packet_queue_end_idx) a.memory (
          AtLeast-Apart width at (packet_at a.packet_queue_end_idx)
            (stores_at a.packet_queue_end_idx) h (stores-AtLeast a.packet_queue_end_idx))

  pasid-kept :
      (n : ℕ) (a : Alloc) (i : ℕ)
      → i < a.packet_queue_end_idx
      → (all_placed n a).pasid i ≡ a.pasid i
  unfolding all_placed placed
  pasid-kept zero a i h = refl
  pasid-kept (suc n) a i h =
      pasid-kept n (placed a) i (omega arith)
      ∙ rw (ne→== i a.packet_queue_end_idx (omega arith)) refl

  -- What the packet processor needs of a packet in the memory.
  pub record IsDefault (m : Memory) (i : ℕ) : Type 0 where
    pub is_dispatch : type_field (load 2 m (packet_at i)) ≡ packet_type_code kernel_dispatch
    pub no_barrier : barrier_field (load 2 m (packet_at i)) ≡ 0
    pub kernel : load 8 m (packet_at i + KernelDispatch.kernel_object) ≡ default_op
    pub width : load 4 m (packet_at i + KernelDispatch.grid_size_x) ≡ 1024
    pub height : load 4 m (packet_at i + KernelDispatch.grid_size_y) ≡ 1
    pub signal :
        load 8 m (packet_at i + KernelDispatch.completion_signal) ≡ heap.signal_value i % 2 ^ 64

  header_stored : (i : ℕ) (m : Memory) → load 2 (deliver (stores_at i) m) (packet_at i) ≡ 2
  unfolding stores_at type_header
  header_stored i m =
      let z : packet_at i ≡ packet_at i + 0 = omega arith in
      ap (λ (b : ℕ). load 2 (deliver (stores_at i) m) b) z
      ∙ load-deliver_first 2 (packet_at i + 0) (type_header kernel_dispatch)
          (later_stores 1 (stores_at i)) m (omega arith)

  stores-IsDefault : (i : ℕ) (m : Memory) → IsDefault (deliver (stores_at i) m) i
  unfolding stores_at
  stores-IsDefault i m = record {
    is_dispatch = rw (header_stored i m) refl;
    no_barrier = rw (header_stored i m) refl;
    kernel =
        load-deliver_first 8 (packet_at i + KernelDispatch.kernel_object) default_op
          (later_stores 3 (stores_at i)) _ (omega arith);
    width =
        load-deliver_first 4 (packet_at i + KernelDispatch.grid_size_x) 1024
          (later_stores 5 (stores_at i)) _ (omega arith);
    height =
        load-deliver_first 4 (packet_at i + KernelDispatch.grid_size_y) 1
          (later_stores 6 (stores_at i)) _ (omega arith);
    signal =
        load-deliver_first 8 (packet_at i + KernelDispatch.completion_signal) (heap.signal_value i)
          [] _ tt;
  }

  -- Fields of a packet that later packets leave.
  IsDefault-kept :
      (n : ℕ) (a : Alloc) (i : ℕ)
      → i < a.packet_queue_end_idx
      → IsDefault a.memory i
      → IsDefault (all_placed n a).memory i
  IsDefault-kept n a i h d = record {
    is_dispatch = rw (placed-kept n a 2 (packet_at i) (omega arith)) d.is_dispatch;
    no_barrier = rw (placed-kept n a 2 (packet_at i) (omega arith)) d.no_barrier;
    kernel =
        placed-kept n a 8 (packet_at i + KernelDispatch.kernel_object) (omega arith) ∙ d.kernel;
    width = placed-kept n a 4 (packet_at i + KernelDispatch.grid_size_x) (omega arith) ∙ d.width;
    height = placed-kept n a 4 (packet_at i + KernelDispatch.grid_size_y) (omega arith) ∙ d.height;
    signal =
        placed-kept n a 8 (packet_at i + KernelDispatch.completion_signal) (omega arith) ∙ d.signal;
  }

  placed-IsDefault :
      (n : ℕ) (a : Alloc) (i : ℕ)
      → a.packet_queue_end_idx ≤ i
      → i < a.packet_queue_end_idx + n
      → IsDefault (all_placed n a).memory i × ((all_placed n a).pasid i ≡ 15)
  unfolding all_placed placed
  placed-IsDefault zero a i lo hi = absurd (omega arith)
  placed-IsDefault (suc n) a i lo hi = elim (Bool-cases (i == a.packet_queue_end_idx)) [
    | inl q ↦
        let e = ==→eq i a.packet_queue_end_idx q in
        let d : IsDefault (placed a).memory i =
          subst (λ (k : ℕ). IsDefault (deliver (stores_at k) a.memory) i) e
            (stores-IsDefault i a.memory) in
        (
          IsDefault-kept n (placed a) i (omega (arith, e)) d,
          pasid-kept n (placed a) i (omega (arith, e)) ∙ rw q refl,
        )
    | inr q ↦
        let ne = ==→ne i a.packet_queue_end_idx q in
        placed-IsDefault n (placed a) i (omega (arith, ne)) (omega arith)
  ]

-- For an argument that asks for at most MAX_QUEUE_LENGTH packets, the tool makes as many: the packet
-- processor reads each of them as a kernel dispatch without barrier, with the kernel 0x000100000000FFFF, the
-- size 1024 times 1 and its own completion signal, and its PASID is 15.
pub default_queue_lem :
    (heap : Heap) (pasid : ℕ → ℕ) (arg2 : Text) (n i : ℕ)
    → number_of_packets arg2 ≡ ok n
    → n ≤ max_queue_length
    → i < n
    → (a : Alloc) × ((default_queue heap pasid arg2 ≡ ok a)
        × (a.packet_queue_end_idx ≡ n)
        × IsDefault heap a.memory i
        × (a.pasid i ≡ 15))
unfolding default_queue
default_queue_lem heap pasid arg2 n i e h lt =
    let first = cleared pasid in
    let made : default_packets heap n first ≡ ok (all_placed heap n first) =
      default_packets_lem heap n first (omega arith) in
    let (d, p) = placed-IsDefault heap n first i (omega arith) (omega arith) in
    (
      all_placed heap n first,
      (rw (e, le→ltb max_queue_length n h, made) refl, placed-idx heap n first ∙ omega arith, d, p),
    )

-- An argument that asks for more packets is refused.
pub default_queue_full :
    (heap : Heap) (pasid : ℕ → ℕ) (arg2 : Text) (n : ℕ)
    → number_of_packets arg2 ≡ ok n
    → max_queue_length < n
    → default_queue heap pasid arg2 ≡ fail exit_failure
unfolding default_queue
default_queue_full heap pasid arg2 n e h = rw (e, lt→ltb max_queue_length n h) refl
