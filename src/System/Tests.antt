-- ===== src/System/Tests.antt =====
-- The composed processors at concrete inputs, and the instances of their theorems there.
use lib_hsa.PacketProcessor.Loop.{initial}
use lib_hsa.PacketProcessor.Interrupts.{image_request, launch_request, store_request, signal_of}
use lib_hsa.Base.{
  ℕ, ◌<◌, deliver, ◌≡◌, load, Memory, [], arith, refl, ◌%◌, inr, ◌^◌, ◌+◌, ◌-◌, ◌*◌, ap,
  if◌then◌else◌, ltb, inl,
}
use lib_hsa.PacketProcessor.State.{KernelInfo, LaunchRequest, PacketProcessor, get_image}
use lib_hsa.System.Launch.{SeesCore, requested, launch_received}
use lib_hsa.FpgaCmd.Host.{Host}
use lib_hsa.System.Submitted.{HasArguments, submitted_requests}
use lib_hsa.FpgaCmd.Submit.{
  Objects, packet_at, submit_packet, write_index_addr, image_width, image_height,
}
use lib_hsa.PacketProcessor.Issue.{all_launch_stores}
use lib_hsa.System.Dispatch.{IsPlaced}
use lib_hsa.RomAccel.Main.{read_config}
use lib_hsa.PacketProcessor.Masks.{core_base_addr}
use lib_hsa.RomAccel.Config.{base_addr_cfg}
use lib_hsa.Filters.{
  load_data, operation_code, sobel_xy3x3, uint16_gray_scale, clamp_to_zero, store_data,
}
use lib_hsa.PacketProcessor.Addresses.{mask0_offset, mask1_offset}
use lib_hsa.System.CustomMask.{mask_entries, custom_masks_received}

abbrev memory : Memory
memory a = 0

abbrev host : Host
host = record { mem = memory; stores = [] }

abbrev objects : Objects
objects = record {
  src_image = 0x1000;
  dst_image = 0x2000;
  signal_value = 0x3000;
  kernargs = 0x4000;
}

objects-IsPlaced : IsPlaced objects
objects-IsPlaced = record {
  arguments_in_host = omega arith;
  signal_in_host = omega arith;
  objects_apart = inr (omega arith);
}

abbrev idle : PacketProcessor
idle = record (initial 1 memory) { aql_left = 1; mem = (submit_packet objects host).mem }

first_index : load 8 host.mem write_index_addr < 128
unfolding load
first_index = omega arith

-- A dispatched packet whose arguments are read where `main` has put them.
abbrev in_place : KernelInfo
in_place = record {
  kp_addr = packet_at (load 8 host.mem write_index_addr);
  status = get_image;
  pasid = 7;
  local_kernarg_address = 0x4000;
  local_image_address = 0x9000;
}

in_place-HasArguments : HasArguments objects host idle in_place
in_place-HasArguments = record {
  at_packet_address = refl;
  packet_kept = λ x h. refl;
  arguments_copied = λ x h. refl;
}

submitted_requests_example :
    (image_request idle 3 in_place 0x9000 ≡ record {
      packet_id = 3;
      host_address = 0x1000 % 2 ^ 64;
      device_address = 0x9000;
      payload_size = 800;
      ldst = load_data;
      pasid = 7;
    })
    × (launch_request idle 3 in_place ≡ record {
      packet_id = 3;
      kernel = operation_code sobel_xy3x3;
      normalization = 0;
      threshold = 0;
      colormodel = uint16_gray_scale;
      borderhandling = clamp_to_zero;
      sizex = image_width;
      sizey = image_height;
      src_address = 0x9000;
      dst_address = 0x9000;
      custom_mask = 0;
    })
    × (store_request idle 3 in_place ≡ record {
      packet_id = 3;
      host_address = 0x2000 % 2 ^ 64;
      device_address = 0x9000;
      payload_size = 800;
      ldst = store_data;
      pasid = 7;
    })
    × (signal_of idle in_place ≡ 0x3000 % 2 ^ 64)
submitted_requests_example =
    submitted_requests objects host idle in_place 3 0x9000 in_place-HasArguments objects-IsPlaced
      first_index

-- A launch of CUSTOM_FILTER3x3 on the second core.
abbrev custom_launch : LaunchRequest
custom_launch = record {
  packet_id = 3;
  kernel = 0x31;
  normalization = 9;
  threshold = 70000;
  colormodel = 1;
  borderhandling = 1;
  sizex = 640;
  sizey = 480;
  src_address = 0x9000;
  dst_address = 0xA000;
  custom_mask = 0x4000;
}

abbrev second_core_view : Memory
second_core_view a =
    deliver (all_launch_stores idle 1 custom_launch) memory (core_base_addr 1 + (a - base_addr_cfg))

second_core_view-SeesCore :
    SeesCore 1 second_core_view (deliver (all_launch_stores idle 1 custom_launch) memory)
second_core_view-SeesCore o h =
    ap (λ (x : ℕ). deliver (all_launch_stores idle 1 custom_launch) memory (core_base_addr 1 + x))
      (same o)
  where
    same : (o : ℕ) → base_addr_cfg + o - base_addr_cfg ≡ o
    same o = omega arith

launch_received_example : read_config second_core_view ≡ requested custom_launch
launch_received_example =
    launch_received idle 1 custom_launch memory second_core_view second_core_view-SeesCore

custom_masks_received_example :
    let after = deliver (all_launch_stores idle 1 custom_launch) memory in
    let mask0 = core_base_addr 1 + mask0_offset + 4 * 8 in
    let mask1 = core_base_addr 1 + mask1_offset + 4 * 8 in
    (load 4 after mask0 ≡ (
      if ltb 8 (mask_entries 0x31) then load 4 idle.mem (0x4000 + 4 * 8) else load 4 memory mask0))
    × (load 4 after mask1 ≡ load 4 memory mask1)
custom_masks_received_example =
    custom_masks_received idle 1 custom_launch memory 8 (inl refl) (omega arith)
