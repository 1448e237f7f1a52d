-- ===== src/Accel.antt =====
-- lib/accel_cmd_processor/sw/core0/src/main.c: the command processor of an accelerator. Main models
-- `main` and its interrupt, Progress the flag and the counts; Sleep models `sleep`.
pub mod Main
mod Progress
mod Sleep
mod Tests
