-- ===== src/PacketProcessor/Queue.antt =====
-- The request queues of packet_processor.c: an array of DISPATCH_WINDOW_SIZE slots with two 64-bit
-- counters that are only ever increased, used modulo the window size by a mask.
pub mod Fifo
use lib_hsa.Base.{ℕ, ◌+◌, ◌-◌, List, Option, bit_and, u64, set, get_elem?, Bool, not, ◌==◌}
use lib_hsa.PacketProcessor.Addresses.{dispatch_window_size}

pub record Queue {ℓ} (A : Type ℓ) : Type ℓ where
  pub slots : List A
  pub read_index : ℕ
  pub write_index : ℕ

-- `index & (DISPATCH_WINDOW_SIZE-1)`
abbrev pub slot_of : ℕ → ℕ
slot_of index = bit_and index (dispatch_window_size - 1)

module _ {ℓ} {A : Type ℓ} where
  -- `read_index != write_index`
  abbrev pub has_request : Queue A → Bool
  has_request q = not (q.read_index == q.write_index)

  -- Fill the slot at the write index and increase the index.
  unfoldable pub push : Queue A → A → Queue A
  push q request = record q {
    slots = set q.slots (slot_of q.write_index) request;
    write_index = u64 (q.write_index + 1);
  }

  -- The slot at the read index.
  unfoldable pub front : Queue A → Option A
  front q = get_elem? q.slots (slot_of q.read_index)

  -- `++read_index`
  unfoldable pub advance : Queue A → Queue A
  advance q = record q { read_index = u64 (q.read_index + 1) }
