-- ===== src/SoftMath.antt =====
-- system/system.c of the packet processor and its copies in the other processors: arithmetic that the
-- processors have no instructions for, and the end of the heap.
mod Multiply
mod Round
mod Divide
mod Start
mod Unsigned
mod Signed
mod Long
mod LongMultiply
mod Modulo
mod Heap
mod Fpga
mod Rom
mod Accel
mod Tests
