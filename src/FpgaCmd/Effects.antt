-- ===== src/FpgaCmd/Effects.antt =====
-- What the functions of fpga_cmd_processor.c do to memory.
use mathlib.Core.Option
use lib_hsa.Base.{
  ℕ, ◌-◌, load-store, load-bound, inl, inr, Memory, Option, ◌<◌, some, load, ◌≡◌, ◌^◌, u8, ◌+◌, suc,
  ◌⊎◌, ◌*◌, store, ◌≤◌, arith, if◌then◌else◌, ◌∙◌, ltb, store_outside, ◌==◌, refl, u64, store_above,
}
use lib_hsa.FpgaCmd.Transfer.{
  DmaRegisters, Copyable, CopiedTo, payload_copied, copy_payload, transfer_target, transfer_source,
}
use lib_hsa.FpgaCmd.Host.{Host, invalidate_from, send_interrupt, invalidate_aql_packets}
use lib_hsa.FpgaCmd.Host.{interrupt_completion, interrupt_transfer}
use lib_hsa.Packets.{packet_size, packet_type_code, invalid}
use mathlib.Core.Option.{none}
use Prim.Native.Nat.{zero}
use lib_hsa.PacketProcessor.Addresses.{max_queue_length, base_aql_pkt_addr}
use lib_hsa.PacketProcessor.Aql.{type_field}

-- The result of a transfer that ends: byte `i` of the source has arrived, the byte at `b` and all
-- earlier stores are kept, and the packet processor has its interrupt.
abbrev pub TransferredTo : DmaRegisters → Host → Option Host → (i b : ℕ) → Type 0
TransferredTo r h none i b = ⊥
TransferredTo r h (some h1) i b =
    (u8 (h1.mem (transfer_target r + i)) ≡ u8 (h.mem (transfer_source r + i)))
    × (h1.mem b ≡ h.mem b)
    × (h1.stores ≡ (send_interrupt 3 h).stores)

after_copy :
    (r : DmaRegisters) (h : Host) (o : Option Memory) (i b : ℕ)
    → CopiedTo r h.mem o i b
    → TransferredTo r h (Option.map (λ (m : Memory). send_interrupt 3 (record h { mem = m })) o) i b
after_copy r h none i b c = c
after_copy r h (some m) i b c = (c.0, c.1, refl)

-- A transfer of less than 2^35 bytes between regions that are apart, or towards lower addresses,
-- ends, copies each byte, keeps all memory outside the target and interrupts the packet processor.
pub transfer_copies :
    (r : DmaRegisters) (h : Host) (i b : ℕ)
    → r.dma_payload_size < 2 ^ 35
    → Copyable r.dma_payload_size (transfer_source r) (transfer_target r)
    → i < r.dma_payload_size
    → ((b < transfer_target r) ⊎ (transfer_target r + r.dma_payload_size ≤ b))
    → TransferredTo r h (interrupt_transfer r h) i b
unfolding interrupt_transfer
transfer_copies r h i b short apart within outside =
    after_copy r h (copy_payload r h.mem) i b
      (payload_copied r h.mem i b short apart within outside)

-- A completion decrements a signal that is not zero, keeps the other bytes, and interrupts the
-- packet processor.
pub completion_decrements :
    (signal : ℕ) (h : Host) (b : ℕ)
    → 0 < load 8 h.mem signal
    → ((b < signal) ⊎ (signal + 8 ≤ b))
    → let h1 = interrupt_completion signal h in
      (load 8 h1.mem signal + 1 ≡ load 8 h.mem signal)
      × (h1.mem b ≡ h.mem b)
      × (h1.stores ≡ (send_interrupt 2 h).stores)
unfolding interrupt_completion
completion_decrements signal h b positive outside = (
  omega (
    arith,
    load-store 8 h.mem signal (u64 (load 8 h.mem signal + (2 ^ 64 - 1))),
    load-bound 8 h.mem signal,
  ),
  store_outside_range outside,
  refl,
)
  where
    v : ℕ
    v = u64 (load 8 h.mem signal + (2 ^ 64 - 1))

    store_outside_range : ((b < signal) ⊎ (signal + 8 ≤ b)) → store 8 h.mem signal v b ≡ h.mem b
    store_outside_range (inl below) = store_outside 8 h.mem signal v b below
    store_outside_range (inr above) = store_above 8 h.mem signal v b above

invalidate_from-below :
    (count packet : ℕ) (m : Memory) (b : ℕ) → b < packet → invalidate_from count packet m b ≡ m b
unfolding invalidate_from
invalidate_from-below zero packet m b h = refl
invalidate_from-below (suc count) packet m b h =
    invalidate_from-below count (packet + packet_size) (store 2 m packet 1) b (omega arith)
    ∙ store_outside 2 m packet 1 b h

header_byte :
    (m : Memory) (packet i : ℕ)
    → store 2 m packet 1 (packet + i)
      ≡ (if ltb i 2 then if i == 0 then 1 else 0 else m (packet + i))
unfolding store
header_byte m packet zero = ground arith
header_byte m packet (suc zero) = ground arith
header_byte m packet (suc (suc i)) = ground arith

-- Byte `i` of packet `j` after the loop.
invalidate_from_byte :
    (count packet : ℕ) (m : Memory) (j i : ℕ)
    → j < count
    → i < packet_size
    → invalidate_from count packet m (packet + packet_size * j + i)
      ≡ (if ltb i 2 then if i == 0 then 1 else 0 else m (packet + packet_size * j + i))
unfolding invalidate_from
invalidate_from_byte zero packet m j i hj hi = absurd (omega arith)
invalidate_from_byte (suc count) packet m zero i hj hi =
    let here : packet + 0 + i ≡ packet + i = omega arith in
    rw here (
      invalidate_from-below count (packet + packet_size) (store 2 m packet 1) (packet + i)
        (omega arith)
      ∙ header_byte m packet i)
invalidate_from_byte (suc count) packet m (suc j) i hj hi =
    let there : packet + packet_size * suc j + i ≡ packet + packet_size + packet_size * j + i =
      omega arith in
    rw (there) (
      invalidate_from_byte count (packet + packet_size) (store 2 m packet 1) j i (omega arith) hi
      ∙ rw (store_above 2 m packet 1 (packet + packet_size + packet_size * j + i) (omega arith))
          refl)

-- After `invalidate_aql_packets` the header of each of the 128 packets is that of an invalid packet,
-- and the other bytes of the packet are as before.
pub invalidate_aql_packets_headers :
    (h : Host) (j i : ℕ)
    → j < max_queue_length
    → i < packet_size - 2
    → let at = base_aql_pkt_addr + packet_size * j in
      let h1 = invalidate_aql_packets h in
      (type_field (load 2 h1.mem at) ≡ packet_type_code invalid)
      × (h1.mem (at + 2 + i) ≡ h.mem (at + 2 + i))
unfolding invalidate_aql_packets load
invalidate_aql_packets_headers h j i hj hi = (
  rw (first, second) refl,
  ground (arith, invalidate_from_byte max_queue_length base_aql_pkt_addr h.mem j (2 + i)),
)
  where
    at : ℕ
    at = base_aql_pkt_addr + packet_size * j

    after : Memory
    after = invalidate_from max_queue_length base_aql_pkt_addr h.mem

    first : after at ≡ 1
    first = ground (arith, invalidate_from_byte max_queue_length base_aql_pkt_addr h.mem j 0)

    second : after (at + 1) ≡ 0
    second = ground (arith, invalidate_from_byte max_queue_length base_aql_pkt_addr h.mem j 1)
