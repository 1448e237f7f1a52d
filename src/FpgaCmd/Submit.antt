-- ===== src/FpgaCmd/Submit.antt =====
-- `main` of fpga_cmd_processor.c from the reading of WRITE_INDEX to the interrupt: the host builds a
-- packet and hands it over. `malloc` places the kernel arguments and the result; they, the image and
-- the variable `signal_value` have addresses that the caller gives.
use lib_hsa.Packets.KernelDispatch
use lib_hsa.Base.{ℕ, List, Store, ◌+◌, deliver, u64, load, ◌*◌, ◌∷◌, ◌++◌, []}
use lib_hsa.FpgaCmd.Host.{Host, send_interrupt}
use lib_hsa.FpgaCmd.Header.{first_word}
use lib_hsa.PacketProcessor.Addresses.{
  base_aql_pkt_addr, base_device_memory, max_queue_length, base_pasid_buf_addr,
}
use lib_hsa.PacketProcessor.State.{store_at}
use lib_hsa.Packets.{packet_size, kernel_dispatch, scope_system}
use lib_hsa.Filters.{uint16_gray_scale, clamp_to_zero, operation_code, sobel_xy3x3}

-- WRITE_INDEX of address_conf.h
abbrev pub write_index_addr : ℕ
write_index_addr = base_device_memory + max_queue_length * packet_size + max_queue_length * 4 + 8

-- `width` and `height` of testimage.h
abbrev pub image_width : ℕ
image_width = 20

abbrev pub image_height : ℕ
image_height = 20

-- Where the objects of `main` lie.
pub record Objects : Type 0 where
  pub src_image : ℕ
  pub dst_image : ℕ
  pub signal_value : ℕ
  pub kernargs : ℕ

-- `(char*)BASE_AQL_PKT_ADDR+PACKETSIZE*packet_index`
abbrev pub packet_at : ℕ → ℕ
packet_at packet_index = base_aql_pkt_addr + packet_size * packet_index

abbrev pub kernarg_stores : Objects → List Store
kernarg_stores o =
    store_at o.kernargs 8 o.src_image
    ∷ store_at (o.kernargs + 8) 8 o.dst_image
    ∷ store_at (o.kernargs + 16) 1 uint16_gray_scale
    ∷ store_at (o.kernargs + 17) 1 clamp_to_zero
    ∷ store_at (o.kernargs + 18) 2 0
    ∷ []

-- The fields of the packet, its PASID, and last the word that hands it over.
abbrev pub packet_stores : Objects → (packet_index : ℕ) → List Store
packet_stores o packet_index =
    store_at (packet_at packet_index + KernelDispatch.kernel_object) 8 (operation_code sobel_xy3x3)
    ∷ store_at (packet_at packet_index + KernelDispatch.kernarg_address) 8 o.kernargs
    ∷ store_at (packet_at packet_index + KernelDispatch.grid_size_x) 4 image_width
    ∷ store_at (packet_at packet_index + KernelDispatch.grid_size_y) 4 image_height
    ∷ store_at (packet_at packet_index + KernelDispatch.completion_signal) 8 o.signal_value
    ∷ store_at (base_pasid_buf_addr + 4 * packet_index) 4 7
    ∷ store_at (packet_at packet_index) 4 (first_word 2 kernel_dispatch 0 scope_system scope_system)
    ∷ []

abbrev pub submit_stores : Objects → (packet_index : ℕ) → List Store
submit_stores o packet_index =
    store_at write_index_addr 8 (u64 (packet_index + 1))
    ∷ store_at o.signal_value 8 1
    ∷ (kernarg_stores o ++ packet_stores o packet_index)

-- The number of the interrupt of a new packet is 4.
unfoldable pub submit_packet : Objects → Host → Host
submit_packet o h =
    send_interrupt 4
      (record h { mem = deliver (submit_stores o (load 8 h.mem write_index_addr)) h.mem })
