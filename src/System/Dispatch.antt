-- ===== src/System/Dispatch.antt =====
-- A dispatch: the packet that `main` of the FPGA command processor builds, as the packet processor
-- takes it (process_aql_packets).
use lib_hsa.Packets.KernelDispatch
use lib_hsa.Packets.{kernel_dispatch, scope_system}
use lib_hsa.Filters.{operation_code, sobel_xy3x3, uint16_gray_scale, clamp_to_zero}
use lib_hsa.Base.{
  ℕ, load, Memory, ◌+◌, ◌≡◌, ◌≤◌, ◌<◌, ◌%◌, deliver, ◌⊎◌, ◌^◌, ◌*◌, arith, load-deliver_first, ◌∙◌,
  ap, [], later_stores, inl, inr,
}
use lib_hsa.FpgaCmd.Submit.{Objects, submit_stores, packet_at, image_height, image_width}
use lib_hsa.PacketProcessor.Addresses.{base_device_memory, base_pasid_buf_addr}
use lib_hsa.FpgaCmd.Header.{first_word}

-- The objects of the host lie below the device memory, and the arguments apart from the signal.
pub record IsPlaced (o : Objects) : Type 0 where
  pub arguments_in_host : o.kernargs + 20 ≤ base_device_memory
  pub signal_in_host : o.signal_value + 8 ≤ base_device_memory
  pub objects_apart : (o.kernargs + 20 ≤ o.signal_value) ⊎ (o.signal_value + 8 ≤ o.kernargs)

load_low : (m : Memory) (a : ℕ) → load 2 m a ≡ load 4 m a % 2 ^ 16
unfolding load
load_low m a = omega arith

module _ (o : Objects) (i : ℕ) (m : Memory) (few : i < 128) where
  abbrev pub after : Memory
  after = deliver (submit_stores o i) m

  pub header_read : load 2 after (packet_at i) ≡ 0x1402
  unfolding first_word
  header_read =
      load_low after (packet_at i)
      ∙ ap (λ (x : ℕ). x % 2 ^ 16)
          (load-deliver_first 4 (packet_at i)
            (first_word 2 kernel_dispatch 0 scope_system scope_system) [] _ tt)

  pub pasid_read : load 4 after (base_pasid_buf_addr + 4 * i) ≡ 7
  pasid_read =
      load-deliver_first 4 (base_pasid_buf_addr + 4 * i) 7 (later_stores 13 (submit_stores o i)) _
        (inr (omega arith), tt)

  pub signal_read :
      load 8 after (packet_at i + KernelDispatch.completion_signal) ≡ o.signal_value % 2 ^ 64
  signal_read =
      load-deliver_first 8 (packet_at i + KernelDispatch.completion_signal) o.signal_value
        (later_stores 12 (submit_stores o i)) _ (inl (omega arith), (inr (omega arith), tt))

  pub grid_y_read : load 4 after (packet_at i + KernelDispatch.grid_size_y) ≡ image_height
  grid_y_read =
      load-deliver_first 4 (packet_at i + KernelDispatch.grid_size_y) image_height
        (later_stores 11 (submit_stores o i)) _
        (inl (omega arith), (inl (omega arith), (inr (omega arith), tt)))

  pub grid_x_read : load 4 after (packet_at i + KernelDispatch.grid_size_x) ≡ image_width
  grid_x_read =
      load-deliver_first 4 (packet_at i + KernelDispatch.grid_size_x) image_width
        (later_stores 10 (submit_stores o i)) _
        (inl (omega arith), (inl (omega arith), (inl (omega arith), (inr (omega arith), tt))))

  pub kernarg_read :
      load 8 after (packet_at i + KernelDispatch.kernarg_address) ≡ o.kernargs % 2 ^ 64
  kernarg_read =
      load-deliver_first 8 (packet_at i + KernelDispatch.kernarg_address) o.kernargs
        (later_stores 9 (submit_stores o i)) _
        (
          inr (omega arith),
          (inr (omega arith), (inl (omega arith), (inl (omega arith), (inr (omega arith), tt)))),
        )

  pub kernel_read :
      load 8 after (packet_at i + KernelDispatch.kernel_object) ≡ operation_code sobel_xy3x3
  kernel_read =
      load-deliver_first 8 (packet_at i + KernelDispatch.kernel_object) (operation_code sobel_xy3x3)
        (later_stores 8 (submit_stores o i)) _
        (
          inl (omega arith),
          (
            inr (omega arith),
            (inr (omega arith), (inl (omega arith), (inl (omega arith), (inr (omega arith), tt)))),
          ),
        )

  module _ (placed : IsPlaced o) where
    pub src_read : load 8 after o.kernargs ≡ o.src_image % 2 ^ 64
    src_read = load-deliver_first 8 o.kernargs o.src_image (later_stores 3 (submit_stores o i)) _ (
      inl (omega arith),
      (
        inl (omega arith),
        (
          inl (omega arith),
          (
            inl (omega arith),
            (
              inl (omega arith),
              (
                inl (omega arith),
                (
                  inl (omega arith),
                  (
                    inl (omega arith),
                    (inl (omega arith), (inl (omega arith), (inl (omega arith), tt))),
                  ),
                ),
              ),
            ),
          ),
        ),
      ),
    )

    pub dst_read : load 8 after (o.kernargs + 8) ≡ o.dst_image % 2 ^ 64
    dst_read =
        load-deliver_first 8 (o.kernargs + 8) o.dst_image (later_stores 4 (submit_stores o i)) _ (
          inl (omega arith),
          (
            inl (omega arith),
            (
              inl (omega arith),
              (
                inl (omega arith),
                (
                  inl (omega arith),
                  (
                    inl (omega arith),
                    (
                      inl (omega arith),
                      (inl (omega arith), (inl (omega arith), (inl (omega arith), tt))),
                    ),
                  ),
                ),
              ),
            ),
          ),
        )

    pub color_read : load 1 after (o.kernargs + 16) ≡ uint16_gray_scale
    color_read =
        load-deliver_first 1 (o.kernargs + 16) uint16_gray_scale
          (later_stores 5 (submit_stores o i)) _
          (
            inl (omega arith),
            (
              inl (omega arith),
              (
                inl (omega arith),
                (
                  inl (omega arith),
                  (
                    inl (omega arith),
                    (
                      inl (omega arith),
                      (inl (omega arith), (inl (omega arith), (inl (omega arith), tt))),
                    ),
                  ),
                ),
              ),
            ),
          )

    pub border_read : load 1 after (o.kernargs + 17) ≡ clamp_to_zero
    border_read =
        load-deliver_first 1 (o.kernargs + 17) clamp_to_zero (later_stores 6 (submit_stores o i)) _
          (
            inl (omega arith),
            (
              inl (omega arith),
              (
                inl (omega arith),
                (
                  inl (omega arith),
                  (
                    inl (omega arith),
                    (inl (omega arith), (inl (omega arith), (inl (omega arith), tt))),
                  ),
                ),
              ),
            ),
          )

    pub threshold_read : load 2 after (o.kernargs + 18) ≡ 0
    threshold_read =
        load-deliver_first 2 (o.kernargs + 18) 0 (later_stores 7 (submit_stores o i)) _ (
          inl (omega arith),
          (
            inl (omega arith),
            (
              inl (omega arith),
              (
                inl (omega arith),
                (inl (omega arith), (inl (omega arith), (inl (omega arith), tt))),
              ),
            ),
          ),
        )

    pub signal_value_read : load 8 after o.signal_value ≡ 1
    signal_value_read =
        load-deliver_first 8 o.signal_value 1 (later_stores 2 (submit_stores o i)) _
          (elim placed.objects_apart [
            | inl below ↦ (
              inr (omega arith),
              (
                inr (omega arith),
                (
                  inr (omega arith),
                  (
                    inr (omega arith),
                    (
                      inr (omega arith),
                      (
                        inl (omega arith),
                        (
                          inl (omega arith),
                          (
                            inl (omega arith),
                            (
                              inl (omega arith),
                              (inl (omega arith), (inl (omega arith), (inl (omega arith), tt))),
                            ),
                          ),
                        ),
                      ),
                    ),
                  ),
                ),
              ),
            )
            | inr above ↦ (
              inl (omega arith),
              (
                inl (omega arith),
                (
                  inl (omega arith),
                  (
                    inl (omega arith),
                    (
                      inl (omega arith),
                      (
                        inl (omega arith),
                        (
                          inl (omega arith),
                          (
                            inl (omega arith),
                            (
                              inl (omega arith),
                              (inl (omega arith), (inl (omega arith), (inl (omega arith), tt))),
                            ),
                          ),
                        ),
                      ),
                    ),
                  ),
                ),
              ),
            )
          ])
