-- ===== src/FpgaCmd/Host.antt =====
-- The other functions of fpga_cmd_processor.c. `available_cores` is AVAILABLE_CORES.
use mathlib.Core.Option
use lib_hsa.Base.{
  ℕ, ◌-◌, suc, ◌++◌, Memory, ◌+◌, store, Option, List, ◌∷◌, if◌then◌else◌, u64, ◌==◌, Store, load,
  [], ◌^◌,
}
use lib_hsa.PacketProcessor.Addresses.{
  base_config_space, max_queue_length, snd_int, base_aql_pkt_addr,
}
use lib_hsa.FpgaCmd.Transfer.{DmaRegisters, copy_payload}
use lib_hsa.Packets.{packet_size, packet_type_code, invalid}
use Prim.Native.Nat.{zero}

-- The memory and the stores into the configuration space, oldest first.
pub record Host : Type 0 where
  pub mem : Memory
  pub stores : List Store

abbrev cpu_halt : ℕ
cpu_halt = base_config_space + 0x00000

abbrev pub send_interrupt : ℕ → Host → Host
send_interrupt number h = record h {
  stores = h.stores ++ (record { address = snd_int; width = 8; value = number } ∷ []);
}

abbrev pub change_state : ℕ → Host → Host
change_state number h = record h {
  stores = h.stores ++ (record { address = cpu_halt; width = 8; value = number } ∷ []);
}

-- The loop of `invalidate_aql_packets`, `count` packets from `packet` on.
unfoldable pub invalidate_from : (count packet : ℕ) → Memory → Memory
invalidate_from zero packet m = m
invalidate_from (suc count) packet m =
    invalidate_from count (packet + packet_size) (store 2 m packet (packet_type_code invalid))

unfoldable pub invalidate_aql_packets : Host → Host
invalidate_aql_packets h = record h {
  mem = invalidate_from max_queue_length base_aql_pkt_addr h.mem;
}

-- The loop of `write_core_code`, `count` cores from `i` on. The code segments are not written, since
-- that part is commented out.
unfoldable pub start_cores : (count i : ℕ) → Host → Host
start_cores zero i h = h
start_cores (suc count) i h = start_cores count (suc i) (if i == 0 then h else change_state i h)

unfoldable pub write_core_code : (available_cores : ℕ) → Host → Host
write_core_code available_cores h = change_state 0 (start_cores (available_cores + 1) 0 h)

unfoldable pub interrupt_transfer : DmaRegisters → Host → Option Host
interrupt_transfer r h =
    Option.map (λ (m : Memory). send_interrupt 3 (record h { mem = m })) (copy_payload r h.mem)

-- `signal` is the register CMPL_SIG_ADDR.
unfoldable pub interrupt_completion : (signal : ℕ) → Host → Host
interrupt_completion signal h =
    send_interrupt 2
      (record h { mem = store 8 h.mem signal (u64 (load 8 h.mem signal + (2 ^ 64 - 1))) })

unfoldable pub interrupt_added_core : Host → Host
interrupt_added_core h = send_interrupt 1 h

unfoldable pub interrupt_removed_core : Host → Host
interrupt_removed_core h = send_interrupt 0 h
