-- ===== src/Packets/Barrier.antt =====
-- Byte offsets in `hsa_barrier_and_packet_t`, whose layout `hsa_barrier_or_packet_t` shares.
use lib_hsa.Base.{ℕ, ◌+◌, ◌*◌}

-- `dep_signal[i].handle`
abbrev pub dep_signal : ℕ → ℕ
dep_signal i = 8 + 8 * i

abbrev pub completion_signal : ℕ
completion_signal = 56
