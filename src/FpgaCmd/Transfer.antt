-- ===== src/FpgaCmd/Transfer.antt =====
-- `interrupt_transfer`: the processor copies an image or kernel arguments for the packet processor,
-- in steps of a doubleword and then in bytes.
use lib_hsa.Base.{
  ℕ, ◌≤◌, if◌then◌else◌, Memory, ◌==◌, ◌<◌, ◌+◌, ◌*◌, Option, ◌⊎◌, suc, u8, ◌>>>◌, ◌≡◌, store, load,
  ◌-◌, arith, Bool-cases, ◌<<<◌, store_above, store_outside, ltb, ◌^◌, refl, inl, copied_byte, inr,
  ap, some, sym, none, ◌∙◌, true,
}
use lib_hsa.Filters.{load_data}
use Prim.Native.Nat.{zero}

-- A loop of `count` steps that copies `width` bytes and moves both pointers on. Addresses do not
-- wrap.
unfoldable pub copy_loop : (width count : ℕ) → Memory → (src dst : ℕ) → Memory
copy_loop width zero m src dst = m
copy_loop width (suc count) m src dst =
    copy_loop width count (store width m dst (load width m src)) (src + width) (dst + width)

-- The registers of a DMA request.
pub record DmaRegisters : Type 0 where
  pub dma_payload_size : ℕ
  pub dma_device_addr : ℕ
  pub dma_host_addr : ℕ
  pub dma_ldst : ℕ

unfoldable pub transfer_source : DmaRegisters → ℕ
transfer_source r = if r.dma_ldst == load_data then r.dma_host_addr else r.dma_device_addr

unfoldable pub transfer_target : DmaRegisters → ℕ
transfer_target r = if r.dma_ldst == load_data then r.dma_device_addr else r.dma_host_addr

-- Both loops.
unfoldable pub copy_both : (length64 length8 : ℕ) → Memory → (src dst : ℕ) → Memory
copy_both length64 length8 m src dst =
    copy_loop 1 length8 (copy_loop 8 length64 m src dst) (src + 8 * length64) (dst + 8 * length64)

-- The memory after both loops. The counter of the first is a 32-bit word, so it never reaches a
-- bound of `2 ^ 32`: `none` is a loop without end.
unfoldable pub copy_payload : DmaRegisters → Memory → Option Memory
unfolding transfer_source transfer_target
copy_payload r m =
    let length = r.dma_payload_size in
    let length64 = length >>> 3 in
    let length8 = length - (length64 <<< 3) in
    let src = transfer_source r in
    let dst = transfer_target r in
    if ltb length64 (2 ^ 32) then some (copy_both length64 length8 m src dst) else none

copy_loop_below : (w k : ℕ) (m : Memory) (src dst b : ℕ) → b < dst → copy_loop w k m src dst b ≡ m b
unfolding copy_loop
copy_loop_below w zero m src dst b h = refl
copy_loop_below w (suc k) m src dst b h = ground (
  arith,
  copy_loop_below w k (store w m dst (load w m src)) (src + w) (dst + w) b (omega arith),
  store_outside w m dst (load w m src) b,
)

copy_loop_above :
    (w k : ℕ) (m : Memory) (src dst b : ℕ) → dst + k * w ≤ b → copy_loop w k m src dst b ≡ m b
unfolding copy_loop
copy_loop_above w zero m src dst b h = refl
copy_loop_above w (suc k) m src dst b h = ground (
  arith,
  copy_loop_above w k (store w m dst (load w m src)) (src + w) (dst + w) b (omega arith),
  store_above w m dst (load w m src) b (omega arith),
)

-- The regions are apart, or the copy moves the bytes down.
abbrev pub Copyable : (length src dst : ℕ) → Type 0
Copyable length src dst = (dst ≤ src) ⊎ (src + length ≤ dst)

copy_loop_byte :
    (w k : ℕ) (m : Memory) (src dst i : ℕ)
    → Copyable (k * w) src dst
    → i < k * w
    → u8 (copy_loop w k m src dst (dst + i)) ≡ u8 (m (src + i))
unfolding copy_loop
copy_loop_byte w zero m src dst i c h = absurd (omega arith)
copy_loop_byte w (suc k) m src dst i c h = elim (Bool-cases (ltb i w)) [
  | inl early ↦ ground (
    arith,
    copy_loop_below w k (store w m dst (load w m src)) (src + w) (dst + w) (dst + i),
    copied_byte w m m dst src i,
  )
  | inr late ↦
      later (ground arith)
        (copy_loop_byte w k m1 (src + w) (dst + w) (i - w) (rest_copyable c) (ground arith))
]
  where
    m1 : Memory
    m1 = store w m dst (load w m src)

    source_kept : Copyable (suc k * w) src dst → w ≤ i → m1 (src + i) ≡ m (src + i)
    source_kept (inl down) late = store_above w m dst (load w m src) (src + i) (omega arith)
    source_kept (inr apart) late = store_outside w m dst (load w m src) (src + i) (omega arith)

    rest_copyable : Copyable (suc k * w) src dst → Copyable (k * w) (src + w) (dst + w)
    rest_copyable (inl down) = inl (omega arith)
    rest_copyable (inr apart) = inr (omega arith)

    later :
        w ≤ i
        → u8 (copy_loop w k m1 (src + w) (dst + w) (dst + w + (i - w)))
          ≡ u8 (m1 (src + w + (i - w)))
        → u8 (copy_loop w k m1 (src + w) (dst + w) (dst + i)) ≡ u8 (m (src + i))
    later late copied =
        let at_target : dst + w + (i - w) ≡ dst + i = omega arith in
        let at_source : src + w + (i - w) ≡ src + i = omega arith in
        ap (λ (x : ℕ). u8 (copy_loop w k m1 (src + w) (dst + w) x)) (sym at_target)
        ∙ copied
        ∙ ap (λ (x : ℕ). u8 (m1 x)) at_source
        ∙ ap (λ (x : ℕ). u8 x) (source_kept c late)

copy_both_byte :
    (q l : ℕ) (m : Memory) (src dst i : ℕ)
    → Copyable (q * 8 + l) src dst
    → i < q * 8 + l
    → u8 (copy_both q l m src dst (dst + i)) ≡ u8 (m (src + i))
unfolding copy_both
copy_both_byte q l m src dst i c h = elim (Bool-cases (ltb i (q * 8))) [
  | inl early ↦ ground (
    arith,
    copy_loop_below 1 l m1 (src + 8 * q) (dst + 8 * q) (dst + i),
    copy_loop_byte 8 q m src dst i (words_copyable c),
  )
  | inr late ↦ tail (ground arith) (
      copy_loop_byte 1 l m1 (src + 8 * q) (dst + 8 * q) (i - 8 * q) (tail_copyable c)
        (ground arith))
]
  where
    m1 : Memory
    m1 = copy_loop 8 q m src dst

    words_copyable : Copyable (q * 8 + l) src dst → Copyable (q * 8) src dst
    words_copyable (inl down) = inl (omega arith)
    words_copyable (inr apart) = inr (omega arith)

    tail_copyable : Copyable (q * 8 + l) src dst → Copyable (l * 1) (src + 8 * q) (dst + 8 * q)
    tail_copyable (inl down) = inl (omega arith)
    tail_copyable (inr apart) = inr (omega arith)

    source_kept : Copyable (q * 8 + l) src dst → q * 8 ≤ i → m1 (src + i) ≡ m (src + i)
    source_kept (inl down) late = copy_loop_above 8 q m src dst (src + i) (omega arith)
    source_kept (inr apart) late = copy_loop_below 8 q m src dst (src + i) (omega arith)

    tail :
        q * 8 ≤ i
        → u8 (copy_loop 1 l m1 (src + 8 * q) (dst + 8 * q) (dst + 8 * q + (i - 8 * q)))
          ≡ u8 (m1 (src + 8 * q + (i - 8 * q)))
        → u8 (copy_loop 1 l m1 (src + 8 * q) (dst + 8 * q) (dst + i)) ≡ u8 (m (src + i))
    tail late copied =
        let at_target : dst + 8 * q + (i - 8 * q) ≡ dst + i = omega arith in
        let at_source : src + 8 * q + (i - 8 * q) ≡ src + i = omega arith in
        ap (λ (x : ℕ). u8 (copy_loop 1 l m1 (src + 8 * q) (dst + 8 * q) x)) (sym at_target)
        ∙ copied
        ∙ ap (λ (x : ℕ). u8 (m1 x)) at_source
        ∙ ap (λ (x : ℕ). u8 x) (source_kept c late)

copy_both_kept :
    (q l : ℕ) (m : Memory) (src dst b : ℕ)
    → ((b < dst) ⊎ (dst + (q * 8 + l) ≤ b))
    → copy_both q l m src dst b ≡ m b
unfolding copy_both
copy_both_kept q l m src dst b (inl below) =
    copy_loop_below 1 l (copy_loop 8 q m src dst) (src + 8 * q) (dst + 8 * q) b (omega arith)
    ∙ copy_loop_below 8 q m src dst b below
copy_both_kept q l m src dst b (inr above) =
    copy_loop_above 1 l (copy_loop 8 q m src dst) (src + 8 * q) (dst + 8 * q) b (omega arith)
    ∙ copy_loop_above 8 q m src dst b (omega arith)

-- A terminating copy, as a predicate on its result: byte `i` of the source has arrived, and the
-- byte at `b` is unchanged.
abbrev pub CopiedTo : DmaRegisters → Memory → Option Memory → (i b : ℕ) → Type 0
CopiedTo r m none i b = ⊥
CopiedTo r m (some m1) i b =
    (u8 (m1 (transfer_target r + i)) ≡ u8 (m (transfer_source r + i))) × (m1 b ≡ m b)

-- `interrupt_transfer` copies the payload.
pub payload_copied :
    (r : DmaRegisters) (m : Memory) (i b : ℕ)
    → r.dma_payload_size < 2 ^ 35
    → Copyable r.dma_payload_size (transfer_source r) (transfer_target r)
    → i < r.dma_payload_size
    → ((b < transfer_target r) ⊎ (transfer_target r + r.dma_payload_size ≤ b))
    → CopiedTo r m (copy_payload r m) i b
unfolding copy_payload
payload_copied r m i b short apart within outside = rw whole_words (
  copy_both_byte q l m (transfer_source r) (transfer_target r) i (resized apart) (omega arith),
  copy_both_kept q l m (transfer_source r) (transfer_target r) b
      (elim outside [ inl below ↦ inl below | inr above ↦ inr (omega arith) ]),
)
  where
    q : ℕ
    q = r.dma_payload_size >>> 3

    l : ℕ
    l = r.dma_payload_size - q * 8

    parts : q * 8 + l ≡ r.dma_payload_size
    parts = omega arith

    whole_words : ltb q (2 ^ 32) ≡ true
    whole_words = ground arith

    resized :
        Copyable r.dma_payload_size (transfer_source r) (transfer_target r)
        → Copyable (q * 8 + l) (transfer_source r) (transfer_target r)
    resized (inl down) = inl down
    resized (inr apart) = inr (omega arith)
