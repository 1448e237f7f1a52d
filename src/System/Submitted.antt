-- ===== src/System/Submitted.antt =====
-- What the packet processor makes of the packet of the FPGA command processor: it takes it
-- (process_aql_packets), and the requests that follow are for the objects of the host
-- (interrupt_transfer, interrupt_kernel).
use lib_hsa.Packets.KernelDispatch
use lib_hsa.Base.{
  ℕ, load, ◌<◌, ◌≡◌, arith, bit_and_mask, ◌≢◌, ◌+◌, ◌%◌, ◌^◌, refl, ◌==◌, u8, false, ltb, true, ◌≤◌,
  load_inside, ◌∙◌, ap, sym,
}
use lib_hsa.FpgaCmd.Submit.{
  Objects, submit_packet, write_index_addr, packet_at, image_width, image_height,
}
use lib_hsa.FpgaCmd.Host.{Host}
use lib_hsa.PacketProcessor.State.{PacketProcessor, Malloc, KernelInfo}
use lib_hsa.PacketProcessor.Aql.{
  process_aql_packets, kernarg_mem_size, packet_header, packet_index, process_packet,
  kernarg_request, then_next, dispatch_kernel,
}
use lib_hsa.System.Dispatch.{
  header_read, kernel_read, kernarg_read, pasid_read, IsPlaced, grid_x_read, grid_y_read,
  color_read, border_read, threshold_read, src_read, dst_read, signal_read,
}
use lib_hsa.Filters.{
  load_data, get_pixel_storage, operation_code, sobel_xy3x3, uint16_gray_scale, clamp_to_zero,
  store_data,
}
use lib_hsa.PacketProcessor.Interrupts.{
  image_storage, launch_request, image_request, store_request, signal_of,
}

-- A packet processor that is at the packet that the host hands over.
abbrev pub at_packet : Objects → Host → PacketProcessor → PacketProcessor
at_packet o h s = record s {
  mem = (submit_packet o h).mem;
  current_packet_number = load 8 h.mem write_index_addr;
}

module _ (o : Objects) (h : Host) (s : PacketProcessor)
    (few : load 8 h.mem write_index_addr < 128) where
  abbrev i : ℕ
  i = load 8 h.mem write_index_addr

  abbrev t : PacketProcessor
  t = at_packet o h s

  index_lem : packet_index t ≡ i
  index_lem = omega (arith, bit_and_mask 7 (load 8 h.mem write_index_addr))

  header_lem : packet_header t ≡ 0x1402
  unfolding submit_packet
  header_lem = rw index_lem (header_read o i h.mem few)

  taken :
      (malloc : Malloc)
      → s.aql_left ≢ 0
      → 0 < s.remaining_dispatch_slots
      → process_aql_packets malloc t ≡ then_next (dispatch_kernel malloc (packet_at i) t)
  unfolding process_aql_packets process_packet submit_packet
  taken malloc left slots = rw (not_empty, some_slot, index_lem, header_read o i h.mem few) refl
    where
      not_empty : (s.aql_left == 0) ≡ false
      not_empty = ground arith

      some_slot : ltb 0 s.remaining_dispatch_slots ≡ true
      some_slot = ground arith

  request :
      (slot local : ℕ)
      → kernarg_request t
          (packet_at i)
          slot
          (kernarg_mem_size (load 8 t.mem (packet_at i + KernelDispatch.kernel_object)))
          local
        ≡ record {
          packet_id = slot;
          host_address = o.kernargs % 2 ^ 64;
          device_address = local;
          payload_size = 20;
          ldst = load_data;
          pasid = 7;
        }
  unfolding kernarg_mem_size submit_packet
  request slot local =
      rw
        (index_lem, kernel_read o i h.mem few, kernarg_read o i h.mem few, pasid_read o i h.mem few)
        refl

-- The packet processor, at the packet that `main` of the FPGA command processor has handed over,
-- with packets left and a slot free, takes it as a kernel dispatch; the request for the kernel
-- arguments is for the 20 bytes that `main` has filled, with its PASID. So it is for the first 128
-- packets, since `main` does not wrap its packet index.
pub submitted_packet_dispatched :
    (malloc : Malloc) (o : Objects) (h : Host) (s : PacketProcessor) (slot local : ℕ)
    → load 8 h.mem write_index_addr < 128
    → s.aql_left ≢ 0
    → 0 < s.remaining_dispatch_slots
    → let kp = packet_at (load 8 h.mem write_index_addr) in
      let t = at_packet o h s in
      (process_aql_packets malloc t ≡ then_next (dispatch_kernel malloc kp t))
      × (kernarg_request t kp slot
            (kernarg_mem_size (load 8 t.mem (kp + KernelDispatch.kernel_object)))
            local
          ≡ record {
            packet_id = slot;
            host_address = o.kernargs % 2 ^ 64;
            device_address = local;
            payload_size = 20;
            ldst = load_data;
            pasid = 7;
          })
submitted_packet_dispatched malloc o h s slot local few left slots =
    (taken o h s few malloc left slots, request o h s few slot local)

-- A dispatched packet of `main` as the packet processor has it: the packet itself is as it was handed
-- over, and its kernel arguments have been copied.
pub record HasArguments (o : Objects) (h : Host) (s : PacketProcessor) (info : KernelInfo)
    : Type 0 where
  pub at_packet_address : info.kp_addr ≡ packet_at (load 8 h.mem write_index_addr)
  pub packet_kept :
      (x : ℕ)
      → x < 64
      → u8 (s.mem (info.kp_addr + x))
        ≡ u8 ((submit_packet o h).mem (packet_at (load 8 h.mem write_index_addr) + x))
  pub arguments_copied :
      (x : ℕ)
      → x < 20
      → u8 (s.mem (info.local_kernarg_address + x)) ≡ u8 ((submit_packet o h).mem (o.kernargs + x))

module _ (o : Objects) (h : Host) (s : PacketProcessor) (info : KernelInfo) where
  abbrev kp : ℕ
  kp = packet_at (load 8 h.mem write_index_addr)

  packet_field :
      (w x : ℕ)
      → HasArguments o h s info
      → x + w ≤ 64
      → load w s.mem (info.kp_addr + x) ≡ load w (submit_packet o h).mem (kp + x)
  packet_field w x a p =
      load_inside 64 w x s.mem (submit_packet o h).mem info.kp_addr kp p a.packet_kept

  argument :
      (w x : ℕ)
      → HasArguments o h s info
      → x + w ≤ 20
      → load w s.mem (info.local_kernarg_address + x)
        ≡ load w (submit_packet o h).mem (o.kernargs + x)
  argument w x a p =
      load_inside 20 w x s.mem (submit_packet o h).mem info.local_kernarg_address o.kernargs p
        a.arguments_copied

  image_size_lem :
      HasArguments o h s info
      → IsPlaced o
      → load 8 h.mem write_index_addr < 128
      → image_storage s.mem info.kp_addr info.local_kernarg_address ≡ 800
  unfolding image_storage submit_packet get_pixel_storage
  image_size_lem a placed few =
      rw
        (
          packet_field 4 12 a (omega arith)
              ∙ grid_x_read o (load 8 h.mem write_index_addr) h.mem few,
          packet_field 4 16 a (omega arith)
              ∙ grid_y_read o (load 8 h.mem write_index_addr) h.mem few,
          argument 1 16 a (omega arith)
              ∙ color_read o (load 8 h.mem write_index_addr) h.mem few placed,
        )
        refl

  launch_lem :
      (id : ℕ)
      → HasArguments o h s info
      → IsPlaced o
      → load 8 h.mem write_index_addr < 128
      → launch_request s id info ≡ record {
        packet_id = id;
        kernel = operation_code sobel_xy3x3;
        normalization = 0;
        threshold = 0;
        colormodel = uint16_gray_scale;
        borderhandling = clamp_to_zero;
        sizex = image_width;
        sizey = image_height;
        src_address = info.local_image_address;
        dst_address = info.local_image_address;
        custom_mask = 0;
      }
  unfolding launch_request submit_packet
  launch_lem id a placed few =
      rw
        (
          packet_field 8 32 a (omega arith)
              ∙ kernel_read o (load 8 h.mem write_index_addr) h.mem few,
          packet_field 4 12 a (omega arith)
              ∙ grid_x_read o (load 8 h.mem write_index_addr) h.mem few,
          packet_field 4 16 a (omega arith)
              ∙ grid_y_read o (load 8 h.mem write_index_addr) h.mem few,
          argument 1 16 a (omega arith)
              ∙ color_read o (load 8 h.mem write_index_addr) h.mem few placed,
          argument 1 17 a (omega arith)
              ∙ border_read o (load 8 h.mem write_index_addr) h.mem few placed,
          argument 2 18 a (omega arith)
              ∙ threshold_read o (load 8 h.mem write_index_addr) h.mem few placed,
        )
        refl

-- The requests that the packet processor makes for the packet of `main`, once its kernel arguments
-- have been copied: the image is fetched from the source and stored to the destination that `main`
-- names, 800 bytes each time; the launch is that of SOBELXY3x3 with its parameters, on the local
-- copy; and the completion signal is `signal_value`.
pub submitted_requests :
    (o : Objects) (h : Host) (s : PacketProcessor) (info : KernelInfo) (id dram_dest : ℕ)
    → HasArguments o h s info
    → IsPlaced o
    → load 8 h.mem write_index_addr < 128
    → (image_request s id info dram_dest ≡ record {
      packet_id = id;
      host_address = o.src_image % 2 ^ 64;
      device_address = dram_dest;
      payload_size = 800;
      ldst = load_data;
      pasid = info.pasid;
    })
      × (launch_request s id info ≡ record {
        packet_id = id;
        kernel = operation_code sobel_xy3x3;
        normalization = 0;
        threshold = 0;
        colormodel = uint16_gray_scale;
        borderhandling = clamp_to_zero;
        sizex = image_width;
        sizey = image_height;
        src_address = info.local_image_address;
        dst_address = info.local_image_address;
        custom_mask = 0;
      })
      × (store_request s id info ≡ record {
        packet_id = id;
        host_address = o.dst_image % 2 ^ 64;
        device_address = info.local_image_address;
        payload_size = 800;
        ldst = store_data;
        pasid = info.pasid;
      })
      × (signal_of s info ≡ o.signal_value % 2 ^ 64)
unfolding submit_packet
submitted_requests o h s info id dram_dest a placed few = (
  rw
      (
        sized,
        at_start info.local_kernarg_address,
        argument o h s info 8 0 a (omega arith)
            ∙ first_argument
            ∙ src_read o (load 8 h.mem write_index_addr) h.mem few placed,
      )
      refl,
  launch_lem o h s info id a placed few,
  rw
      (
        argument o h s info 8 8 a (omega arith)
            ∙ dst_read o (load 8 h.mem write_index_addr) h.mem few placed,
        sized,
      )
      refl,
  packet_field o h s info 8 56 a (omega arith)
      ∙ signal_read o (load 8 h.mem write_index_addr) h.mem few,
)
  where
    sized : image_storage s.mem info.kp_addr info.local_kernarg_address ≡ 800
    sized = image_size_lem o h s info a placed few

    at_start : (x : ℕ) → x ≡ x + 0
    at_start x = omega arith

    first_argument :
        load 8 (submit_packet o h).mem (o.kernargs + 0) ≡ load 8 (submit_packet o h).mem o.kernargs
    first_argument = ap (λ (x : ℕ). load 8 (submit_packet o h).mem x) (sym (at_start o.kernargs))
