-- ===== src/Lib.antt =====
-- The software of LibHSA's soft processors, a set of C programs that make an FPGA an HSA agent.
--
-- A host (lib/fpga_cmd_processor/sw) writes AQL packets into a queue in device memory. The packet
-- processor (lib/packet_processor/sw) takes them in order, has the kernel arguments and the image
-- copied by the DMA engine, runs the kernel on an idle accelerator core, has the result copied back
-- and the completion signal decremented. An accelerator's command processor
-- (lib/rom_accel_cmd_processor/sw, lib/accel_cmd_processor/sw) configures the hardware of one core.
--
-- Base holds what the models share: Boolean tests, arrays as lists, machine words as natural numbers
-- with the wrap-around written out, byte-addressed memory, sequences of stores. Packets models hsa_packets.h
-- and Filters models hsa_fpga.h of the packet processor.
--
-- PacketProcessor models lib/packet_processor/sw/core/src/packet_processor.c and its headers:
--   Addresses   address_conf.h, MAX_QUEUE_LENGTH = 128, DISPATCH_WINDOW_SIZE = 8
--   State       the globals as one record; an access outside an array is `none`
--   Queue       dma_queue, launch_queue and dec_queue with their counters, and Queue/Fifo
--   Aql         process_aql_packets; a busy wait is a poll that spins
--   Issue       process_dma_queue, process_launch_queue, process_dec_queue
--   Masks       write_mask_to_core
--   Interrupts  the handlers interrupt_transfer, interrupt_kernel, interrupt_completion, ...
--   Loop        main and the interrupts as a transition system with the host as environment
--   Tokens, Invariant, Safety   the life of a dispatch slot
-- The parameter available_cores is AVAILABLE_CORES. Stores into the configuration space are a log in
-- program order. malloc and free belong to the C library: the address that malloc returns is a
-- function of all calls so far, and both are logged.
--
-- FpgaCmd models lib/fpga_cmd_processor/sw/core/src/fpga_cmd_processor.c:
--   Header      header and setup of fpga_cmd_processor.h
--   Transfer    the copying of interrupt_transfer; `none` is a loop that does not end
--   Host        the other functions; Effects says what they do to memory
--   Submit      the packet that main builds and hands over; the addresses of its objects are given
-- RomAccel models lib/rom_accel_cmd_processor/sw/core0/src/main.c:
--   Masks       op_encoding.h
--   Encoding    append, pe_encode_op
--   Config      write_task_config_to_pe; Bounds says where it stores
--   Main        run_computation, main and the interrupt handlers as a transition system, in which an
--               interrupt may come between any two accesses to the flags; Progress
-- Accel models lib/accel_cmd_processor/sw/core0/src/main.c:
--   Main, Progress  main and the interrupt handler as a transition system
--   Sleep           sleep; as many rounds are enough as the counter is ahead of the variable
-- Exceptions models src/exception_handler.c of the four processors:
--   Fields, Emulation, Loads, Unsigned, Stores, Halfwords   reserved_instruction_exception
--   Copies                                       its copies in the command processors
--   Handlers, Frame, Restore, Entry              exception_handler, _exception_handler
--
-- System is about parts together:
--   Launch, CustomMask   the launch stores of the packet processor, as the core's command processor
--                        reads them; the core sees its part of the configuration space at its own base
--   Dispatch, Submitted  the packet of the host, as the packet processor reads it
--
-- SoftMath models lib/packet_processor/sw/core/system/system.c:
--   Multiply     __mulsi3, for words of any width; as many rounds as bits are enough
--   Modulo       __umodsi3; 31 shifts and 32 subtractions are enough
--   Round, Divide, Start  a round and the loop of shift-subtract division, for words of any width
--   Unsigned     __udivsi3; Signed has __divsi3
--   Long         __udivmoddi4, __divdi3, __umoddi3 and __udivdi3, in halves of 64-bit numbers, and what
--                they compute in the modules below it
--   LongMultiply __muldsi3, __muldi3
--   Heap         sbrk
--   Fpga, Rom, Accel  the copies of system.c in the other processors
-- __builtin_clz, __builtin_ctz and the shifts of a word are functions that the theorems are told the
-- documented laws of: a shift by 32 or more may give anything.
--
-- Tools models the host tools of tools/. A file is its contents, an output file those at the end.
--   Text, Numbers, Result  strings, std::stoi, std::atoi and printed numbers, and how a tool ends; what
--                Numbers prints is read back in Printing
--   Tokenize, Items  tokenize, which hex_tools/src/mti2hex.cpp and prepare_segments/src/vsim2cmd.cpp each
--                have
--   Image        memory images whose lines hold an address and words
--   HexFile      mti2hex.cpp; a fill takes as many rounds as the address says, which is enough
--   Segments     vsim2cmd.cpp; the rounds after the end of the file are counted by fuel
--   AqlToMem     packet_tools/src/aql2mem.cpp: the packets, the standard input (Input), the dialog,
--                whose loops are on fuel since they may not end (Endless, Scripts), and the printed file;
--                and the copies of hsa_packets.h (Structs, like Packets/Structs and FpgaCmd/Structs)
--
-- Not modelled: the hardware; sizes of memories that are negative or overflow an int.
pub mod Base
pub mod Packets
pub mod Filters
pub mod PacketProcessor
pub mod FpgaCmd
pub mod RomAccel
pub mod Accel
pub mod Exceptions
pub mod SoftMath
pub mod System
pub mod Tools
