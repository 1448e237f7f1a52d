-- ===== src/Tools/AqlToMem/Formats.antt =====
-- The packets that the host tool and the FPGA command processor write, and those that the packet
-- processor reads.
use lib_hsa.Base.{◌≡◌, refl, some, codes}
use lib_hsa.Packets
use lib_hsa.Packets.KernelDispatch
use lib_hsa.Packets.Barrier
use lib_hsa.FpgaCmd
use lib_hsa.Tools.AqlToMem
use lib_hsa.Packets.{packet_size}
use lib_hsa.Packets.Layout.{
  Format, kernel_dispatch_format, agent_dispatch_format, barrier_and_format, barrier_or_format,
  size_of, packed_size, offset_of,
}

-- The three headers declare the same members for each format of packets; they need no padding and
-- fill the 64 bytes of a packet, with the header at the start and the completion signal at the end.
formats_agree :
    (f : Format)
    → (FpgaCmd.Structs.members f ≡ Packets.Structs.members f)
      × (AqlToMem.Structs.members f ≡ Packets.Structs.members f)
      × (size_of (Packets.Structs.members f) ≡ packet_size)
      × (packed_size (Packets.Structs.members f) ≡ packet_size)
      × (offset_of (Packets.Structs.members f) (codes "header") ≡ some 0)
      × (offset_of (Packets.Structs.members f) (codes "completion_signal") ≡ some 56)
formats_agree kernel_dispatch_format = (refl, refl, refl, refl, refl, refl)
formats_agree agent_dispatch_format = (refl, refl, refl, refl, refl, refl)
formats_agree barrier_and_format = (refl, refl, refl, refl, refl, refl)
formats_agree barrier_or_format = (refl, refl, refl, refl, refl, refl)

-- The offsets that the models of the processors use are those of the members.
offsets_used :
    let members = Packets.Structs.members kernel_dispatch_format in
    (offset_of members (codes "grid_size_x") ≡ some KernelDispatch.grid_size_x)
    × (offset_of members (codes "grid_size_y") ≡ some KernelDispatch.grid_size_y)
    × (offset_of members (codes "kernel_object") ≡ some KernelDispatch.kernel_object)
    × (offset_of members (codes "kernarg_address") ≡ some KernelDispatch.kernarg_address)
    × (offset_of (Packets.Structs.members barrier_and_format) (codes "dep_signal")
        ≡ some (Barrier.dep_signal 0))
offsets_used = (refl, refl, refl, refl, refl)

enumerations_agree :
    (FpgaCmd.Structs.enumerations ≡ Packets.Structs.enumerations)
    × (AqlToMem.Structs.enumerations ≡ Packets.Structs.enumerations)
enumerations_agree = (refl, refl)
