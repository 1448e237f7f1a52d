-- ===== src/Exceptions.antt =====
-- src/exception_handler.c of the four processors. Their hardware has no byte and halfword accesses:
-- `reserved_instruction_exception`, the same in all four, does them by word accesses. Emulation
-- models it and Copies its copies, Fields the parts of an instruction; Loads, Unsigned, Stores and
-- Halfwords say what it computes. Handlers models what each processor does with its interrupts,
-- Frame and Restore the registers that it saves, Entry the whole handler.
mod Fields
mod Emulation
mod Loads
mod Unsigned
mod Stores
mod Copies
mod Handlers
mod Frame
mod Halfwords
mod Restore
mod Entry
mod Tests
