-- ===== src/SoftMath/Accel.antt =====
-- system/system.c of the accelerator command processor, which has the first part of the packet processor's; a
-- `long` has 32 bits there.
use lib_hsa.Base.{ℕ, Option}
use lib_hsa.SoftMath.Multiply.{mulsi3 as packet_mulsi3}
use lib_hsa.SoftMath.Signed.{divsi3 as packet_divsi3}
use lib_hsa.SoftMath.Unsigned.{udivsi3 as packet_udivsi3}
use lib_hsa.SoftMath.Modulo.{umodsi3 as packet_umodsi3}

abbrev pub mulsi3 : (a b : ℕ) → Option ℕ
mulsi3 = packet_mulsi3 32

abbrev pub divsi3 : (clz : ℕ → ℕ) → (a b : ℕ) → ℕ
divsi3 = packet_divsi3

abbrev pub udivsi3 : (clz : ℕ → ℕ) → (n d : ℕ) → ℕ
udivsi3 = packet_udivsi3

abbrev pub umodsi3 : (num den : ℕ) → Option ℕ
umodsi3 = packet_umodsi3
