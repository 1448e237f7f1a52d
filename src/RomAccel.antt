-- ===== src/RomAccel.antt =====
-- lib/rom_accel_cmd_processor/sw/core0: the command processor of an image accelerator. Masks, Encoding and
-- Config model how it configures the processing element (PE), Main its main loop and interrupts,
-- Progress what becomes of a start, Bounds where the configuration is stored.
mod Masks
mod Encoding
pub mod Config
pub mod Main
mod Progress
mod Bounds
mod Tests
