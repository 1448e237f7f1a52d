-- ===== src/RomAccel/Main.antt =====
-- `run_computation`, `main` and the interrupts of main.c, as a transition system. The packet
-- processor and the data mover are the environment: the packet processor starts a core only when it
-- has had the completion of the earlier start, and the data mover completes what it was given once.
use lib_hsa.Base.{
  ℕ, Memory, Bool, true, false, Store, ◌≡◌, u32, if◌then◌else◌, ◌*◌, load, suc, [], List, ◌++◌, ◌+◌,
  ◌∷◌,
}
use lib_hsa.PacketProcessor.State.{store_at}
use lib_hsa.RomAccel.Config.{
  write_32_pe, base_addr_cfg, send_interrupt_addr, write_task_config_to_pe, base_addr_cfg_datamover,
}
use lib_hsa.RomAccel.Masks.{get_pixel_storage}

-- The configuration that `run_computation` reads.
pub record TaskConfig : Type 0 where
  pub task : ℕ
  pub normalization : ℕ
  pub threshold : ℕ
  pub color_model : ℕ
  pub border_handling : ℕ
  pub img_width : ℕ
  pub img_height : ℕ
  pub addr_src : ℕ
  pub addr_dst : ℕ

unfoldable pub read_config : Memory → TaskConfig
read_config cfg = record {
  task = load 2 cfg (base_addr_cfg + 0x0000);
  normalization = load 2 cfg (base_addr_cfg + 0x0002);
  threshold = load 2 cfg (base_addr_cfg + 0x0004);
  color_model = load 1 cfg (base_addr_cfg + 0x0006);
  border_handling = load 1 cfg (base_addr_cfg + 0x0007);
  img_width = load 4 cfg (base_addr_cfg + 0x0008);
  img_height = load 4 cfg (base_addr_cfg + 0x000C);
  addr_src = load 8 cfg (base_addr_cfg + 0x0010);
  addr_dst = load 8 cfg (base_addr_cfg + 0x0018);
}

-- `img_width * img_height * bytes_per_pixel`, computed in 32 bits.
abbrev pub image_size : TaskConfig → ℕ
image_size c = u32 (u32 (c.img_width * c.img_height) * get_pixel_storage c.color_model)

abbrev pub fire_interrupt : ℕ → Store
fire_interrupt target = store_at send_interrupt_addr 4 target

-- The stores of `run_computation` up to the start of the data mover.
unfoldable pub computation_stores : Memory → List Store
computation_stores cfg =
    let c = read_config cfg in
    (write_32_pe 0x0000 c.img_width
      ∷ write_32_pe 0x0004 c.img_height
      ∷ write_32_pe 0x0008 (u32 (c.img_width * c.img_height))
      ∷ [])
    ++ write_task_config_to_pe cfg c.task c.color_model c.border_handling c.normalization
        c.threshold
    ++ (fire_interrupt 1
        ∷ store_at (base_addr_cfg_datamover + 0x00) 8 c.addr_src
        ∷ store_at (base_addr_cfg_datamover + 0x08) 8 c.addr_dst
        ∷ store_at (base_addr_cfg_datamover + 0x10) 8 (image_size c)
        ∷ store_at (base_addr_cfg_datamover + 0x18) 8 (image_size c)
        ∷ fire_interrupt 0
        ∷ [])

-- Where `main` stands: at the test of `start_execution`, before its reset, before the stores of
-- `run_computation`, in its busy wait, before the reset of `execution_done`, before the interrupt to
-- the packet processor.
pub data Phase : Type 0 where
  testing resetting configuring waiting clearing signalling : Phase

-- The flags, the stores made (oldest first), and three counts that no code reads: starts,
-- completions of the data mover and completions signalled.
pub record RomAccel : Type 0 where
  pub phase : Phase
  pub start_execution : Bool
  pub execution_done : Bool
  pub stores : List Store
  pub started : ℕ
  pub moved : ℕ
  pub signalled : ℕ

abbrev pub initial : RomAccel
initial = record {
  phase = testing;
  start_execution = false;
  execution_done = false;
  stores = [];
  started = 0;
  moved = 0;
  signalled = 0;
}

abbrev pub handle_interrupt_from_datamover : RomAccel → RomAccel
handle_interrupt_from_datamover s = record s { execution_done = true; moved = suc s.moved }

abbrev pub handle_interrupt_from_packetprocessor : RomAccel → RomAccel
handle_interrupt_from_packetprocessor s = record s {
  start_execution = true;
  execution_done = false;
  started = suc s.started;
}

-- The next access of `main` to the flags, or its stores.
unfoldable pub advance_main : Memory → RomAccel → RomAccel
advance_main cfg s = elim (s.phase) [
  | testing ↦ if s.start_execution then record s { phase = resetting } else s
  | resetting ↦ record s { phase = configuring; start_execution = false }
  | configuring ↦ record s { phase = waiting; stores = s.stores ++ computation_stores cfg }
  | waiting ↦ if s.execution_done then record s { phase = clearing } else s
  | clearing ↦ record s { phase = signalling; execution_done = false }
  | signalling ↦ record s {
    phase = testing;
    stores = s.stores ++ (fire_interrupt 2 ∷ []);
    signalled = suc s.signalled;
  }
]

-- The data mover has work: it was started and has not completed.
abbrev pub DatamoverBusy : RomAccel → Type 0
DatamoverBusy s = (s.phase ≡ waiting) × (s.started ≡ suc s.moved)

pub data Step : RomAccel → RomAccel → Type 0 where
  main_step : {s : RomAccel} (cfg : Memory) → Step s (advance_main cfg s)
  datamover_step : {s : RomAccel} → DatamoverBusy s → Step s (handle_interrupt_from_datamover s)
  packetprocessor_step :
      {s : RomAccel} → s.started ≡ s.signalled → Step s (handle_interrupt_from_packetprocessor s)

pub data Reach : RomAccel → Type 0 where
  start : Reach initial
  next : {s t : RomAccel} → Reach s → Step s t → Reach t
