-- ===== src/PacketProcessor/Queue/Fifo.antt =====
-- A request queue with at most DISPATCH_WINDOW_SIZE requests is a first-in first-out list: the
-- counters may wrap, and no slot in use is overwritten.
use lib_hsa.Base.{
  ℕ, zero, suc, ◌+◌, ◌-◌, ◌%◌, ◌^◌, ◌≤◌, ◌<◌, ◌≡◌, refl, ap, ◌∙◌, true, List, [], ◌∷◌, ◌++◌, some,
  arith, length, get_or, set, u64, bit_and_mask, get_or-set_self, get_or-set_ne, length-set,
  get_elem?-eq-get_or,
}
use lib_hsa.PacketProcessor.Queue.{Queue, slot_of, has_request, push, front, advance}

pub slot_of-mod : (i : ℕ) → slot_of i ≡ i % 8
slot_of-mod i = bit_and_mask 3 i

-- The number of requests that wait.
abbrev pub queued {ℓ} : {A : Type ℓ} → Queue A → ℕ
queued q = (q.write_index + 2 ^ 64 - q.read_index) % 2 ^ 64

pub record IsValid {ℓ} {A : Type ℓ} (q : Queue A) : Type 0 where
  pub size : length q.slots ≡ 8
  pub read_fits : q.read_index < 2 ^ 64
  pub write_fits : q.write_index < 2 ^ 64
  pub few : queued q ≤ 8

module _ {ℓ} {A : Type ℓ} (d : A) where
  -- The requests in `n` slots from index `i` on.
  abbrev pub window : List A → ℕ → ℕ → List A
  window slots i zero = []
  window slots i (suc n) = get_or slots (i % 8) d ∷ window slots (i + 1) n

  -- The requests that wait, the oldest first.
  abbrev pub contents : Queue A → List A
  contents q = window q.slots q.read_index (queued q)

  window_ext : (slots : List A) (i j n : ℕ) → i % 8 ≡ j % 8 → window slots i n ≡ window slots j n
  window_ext slots i j zero e = refl
  window_ext slots i j (suc n) e = ground (arith, window_ext slots (i + 1) (j + 1) n)

  pub length-window : (slots : List A) (i n : ℕ) → length (window slots i n) ≡ n
  length-window slots i zero = refl
  length-window slots i (suc n) = ap suc (length-window slots (i + 1) n)

  window_push :
      (slots : List A) (i n j : ℕ) (x : A)
      → length slots ≡ 8
      → n < 8
      → j ≡ (i + n) % 8
      → window (set slots j x) i (suc n) ≡ window slots i n ++ (x ∷ [])
  window_push slots i zero j x size few e =
      ground (arith, get_or-set_self slots j x d (omega arith))
  window_push slots i (suc n) j x size few e = ground (
    arith,
    get_or-set_ne slots j (i % 8) x d (omega arith),
    window_push slots (i + 1) n j x size (omega arith) (omega arith),
  )

  window_suc :
      (slots : List A) (i n : ℕ)
      → 0 < n
      → window slots i n ≡ get_or slots (i % 8) d ∷ window slots (i + 1) (n - 1)
  window_suc slots i zero h = absurd (omega arith)
  window_suc slots i (suc n) h = ap (λ k. window slots i (suc k)) (omega arith)

  -- Where the test of the issuing functions passes, a request waits.
  pub has_request-queued : (q : Queue A) → IsValid q → has_request q ≡ true → 0 < queued q
  has_request-queued q v h = ground arith

  -- A request pushed onto a valid queue that is not full joins its end; the queue stays valid.
  pub push_fifo :
      (q : Queue A) (x : A)
      → IsValid q
      → queued q < 8
      → (contents (push q x) ≡ contents q ++ (x ∷ []))
        × (queued (push q x) ≡ queued q + 1)
        × IsValid (push q x)
  unfolding push
  push_fifo q x v room = (
    rw grows
        (window_push q.slots q.read_index (queued q) (slot_of q.write_index) x v.size room place),
    omega (arith, grows),
    record {
      size = length-set q.slots (slot_of q.write_index) x ∙ v.size;
      read_fits = v.read_fits;
      write_fits = omega arith;
      few = omega (arith, grows);
    },
  )
    where
      grows : (u64 (q.write_index + 1) + 2 ^ 64 - q.read_index) % 2 ^ 64 ≡ suc (queued q)
      grows = omega (arith, v.read_fits, v.write_fits, room)

      place : slot_of q.write_index ≡ (q.read_index + queued q) % 8
      place = omega (arith, slot_of-mod q.write_index, v.read_fits, v.write_fits)

  -- The request at the front of a valid queue that is not empty is its oldest; advancing drops it.
  pub front_fifo :
      (q : Queue A)
      → IsValid q
      → has_request q ≡ true
      → (x : A) × (front q ≡ some x)
        × (contents q ≡ x ∷ contents (advance q))
        × (queued q ≡ queued (advance q) + 1)
        × IsValid (advance q)
  unfolding front advance
  front_fifo q v h = (
    get_or q.slots (q.read_index % 8) d,
    rw (slot_of-mod q.read_index) (get_elem?-eq-get_or q.slots (q.read_index % 8) d in_range),
    rw left (
        window_suc q.slots q.read_index (queued q) some_wait
        ∙ ap (λ l. get_or q.slots (q.read_index % 8) d ∷ l)
            (window_ext q.slots (q.read_index + 1) (u64 (q.read_index + 1)) (queued q - 1)
              (omega arith))),
    omega (arith, left, some_wait),
    record {
      size = v.size;
      read_fits = omega arith;
      write_fits = v.write_fits;
      few = omega (arith, left, v.few);
    },
  )
    where
      some_wait : 0 < queued q
      some_wait = has_request-queued q v h

      in_range : q.read_index % 8 < length q.slots
      in_range = omega (arith, v.size)

      left : (q.write_index + 2 ^ 64 - u64 (q.read_index + 1)) % 2 ^ 64 ≡ queued q - 1
      left = omega (arith, some_wait, v.read_fits, v.write_fits)
