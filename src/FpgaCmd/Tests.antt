-- ===== src/FpgaCmd/Tests.antt =====
-- Runs of fpga_cmd_processor.c at concrete inputs, and the instances of its theorems there.
use lib_hsa.Base.{Memory, [], ◌%◌, ◌≡◌, arith, ◌>>>◌, inr}
use lib_hsa.FpgaCmd.Host.{Host}
use lib_hsa.FpgaCmd.Transfer.{transfer_source, transfer_target, DmaRegisters}
use lib_hsa.Packets.{kernel_dispatch, scope_agent, scope_system}
use lib_hsa.PacketProcessor.Aql.{type_field, barrier_field}
use lib_hsa.FpgaCmd.Header.{header_fields}
use lib_hsa.FpgaCmd.Effects.{TransferredTo, transfer_copies}
use lib_hsa.FpgaCmd.Header.{header, header_fields}
use lib_hsa.FpgaCmd.Host.{Host, interrupt_transfer}

abbrev memory : Memory
memory a = a % 251

abbrev host : Host
host = record { mem = memory; stores = [] }

-- Twenty bytes of kernel arguments, from 1000 in host memory to 5000.
abbrev load_kernargs : DmaRegisters
load_kernargs = record {
  dma_payload_size = 20;
  dma_device_addr = 5000;
  dma_host_addr = 1000;
  dma_ldst = 0;
}

header_fields_example :
    let h = header kernel_dispatch 3 scope_agent scope_system in
    (type_field h ≡ 2) × (barrier_field h ≡ 1) × ((h >>> 9) % 4 ≡ 1) × (h >>> 11 ≡ 2)
header_fields_example = header_fields kernel_dispatch 3 scope_agent scope_system

transfer_copies_example :
    TransferredTo load_kernargs host (interrupt_transfer load_kernargs host) 19 5020
unfolding transfer_source transfer_target
transfer_copies_example =
    transfer_copies load_kernargs host 19 5020 (omega arith) (inr (omega arith)) (omega arith)
      (inr (omega arith))
