-- ===== src/PacketProcessor/Addresses.antt =====
-- lib/packet_processor/sw/include/address_conf.h: where the packet processor finds the packet queue
-- and its configuration registers, and the sizes of packet_processor.h.
use lib_hsa.Base.{ℕ, ◌+◌, ◌*◌}
use lib_hsa.Packets.{packet_size}

-- MAX_QUEUE_LENGTH
abbrev pub max_queue_length : ℕ
max_queue_length = 128

-- DISPATCH_WINDOW_SIZE
abbrev pub dispatch_window_size : ℕ
dispatch_window_size = 8

abbrev pub base_device_memory : ℕ
base_device_memory = 0x0001_0000_0000_0000

abbrev pub base_config_space : ℕ
base_config_space = 0x0002_0000_0000_0000

abbrev pub base_aql_pkt_addr : ℕ
base_aql_pkt_addr = base_device_memory

abbrev pub base_pasid_buf_addr : ℕ
base_pasid_buf_addr = base_device_memory + max_queue_length * packet_size

abbrev pub snd_int : ℕ
snd_int = base_config_space + 0x00008

abbrev pub dma_host_addr : ℕ
dma_host_addr = base_config_space + 0x00050

abbrev pub dma_device_addr : ℕ
dma_device_addr = base_config_space + 0x00058

abbrev pub dma_payload_size_addr : ℕ
dma_payload_size_addr = base_config_space + 0x00060

abbrev pub dma_ldst_addr : ℕ
dma_ldst_addr = base_config_space + 0x00068

abbrev pub dma_pasid_addr : ℕ
dma_pasid_addr = base_config_space + 0x0006C

abbrev pub cmpl_sig_addr : ℕ
cmpl_sig_addr = base_config_space + 0x00080

abbrev pub cmpl_sig_pasid_addr : ℕ
cmpl_sig_pasid_addr = base_config_space + 0x00088

abbrev pub base_accel_addr : ℕ
base_accel_addr = base_config_space + 0x01000

abbrev pub accel_addr_space_len : ℕ
accel_addr_space_len = 0x01000

-- Offsets in the configuration of one accelerator core.
abbrev pub task_offset : ℕ
task_offset = 0x00000

abbrev pub normalization_offset : ℕ
normalization_offset = 0x00002

abbrev pub threshold_offset : ℕ
threshold_offset = 0x00004

abbrev pub color_model_offset : ℕ
color_model_offset = 0x00006

abbrev pub border_handling_offset : ℕ
border_handling_offset = 0x00007

abbrev pub img_width_offset : ℕ
img_width_offset = 0x00008

abbrev pub img_height_offset : ℕ
img_height_offset = 0x0000C

abbrev pub src_addr_offset : ℕ
src_addr_offset = 0x00010

abbrev pub dst_addr_offset : ℕ
dst_addr_offset = 0x00018

abbrev pub mask0_offset : ℕ
mask0_offset = 0x00020

abbrev pub mask1_offset : ℕ
mask1_offset = 0x00084
