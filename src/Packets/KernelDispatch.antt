-- ===== src/Packets/KernelDispatch.antt =====
-- Byte offsets in `hsa_kernel_dispatch_packet_t`.
use lib_hsa.Base.{ℕ}

abbrev pub header : ℕ
header = 0

abbrev pub grid_size_x : ℕ
grid_size_x = 12

abbrev pub grid_size_y : ℕ
grid_size_y = 16

abbrev pub kernel_object : ℕ
kernel_object = 32

abbrev pub kernarg_address : ℕ
kernarg_address = 40

abbrev pub completion_signal : ℕ
completion_signal = 56
