-- ===== src/SoftMath/Fpga.antt =====
-- system/system.c of the FPGA command processor, which has the text of the packet processor's; a `long`
-- has 64 bits there too.
use lib_hsa.Base.{ℕ, Option}
use lib_hsa.SoftMath.Multiply.{mulsi3 as packet_mulsi3}
use lib_hsa.SoftMath.Signed.{divsi3 as packet_divsi3}
use lib_hsa.SoftMath.Unsigned.{udivsi3 as packet_udivsi3}
use lib_hsa.SoftMath.Modulo.{umodsi3 as packet_umodsi3}
use lib_hsa.SoftMath.Long.{
  Builtins, divdi3 as packet_divdi3, udivmoddi4 as packet_udivmoddi4, umoddi3 as packet_umoddi3,
  udivdi3 as packet_udivdi3,
}
use lib_hsa.SoftMath.LongMultiply.{muldsi3 as packet_muldsi3, muldi3 as packet_muldi3}

abbrev pub mulsi3 : (a b : ℕ) → Option ℕ
mulsi3 = packet_mulsi3 64

abbrev pub divsi3 : (clz : ℕ → ℕ) → (a b : ℕ) → ℕ
divsi3 = packet_divsi3

abbrev pub udivsi3 : (clz : ℕ → ℕ) → (n d : ℕ) → ℕ
udivsi3 = packet_udivsi3

abbrev pub umodsi3 : (num den : ℕ) → Option ℕ
umodsi3 = packet_umodsi3

abbrev pub divdi3 : (p : Builtins) → (a b : ℕ) → Option ℕ
divdi3 = packet_divdi3

abbrev pub udivmoddi4 : (p : Builtins) → (a b : ℕ) → Option (ℕ × ℕ)
udivmoddi4 = packet_udivmoddi4

abbrev pub umoddi3 : (p : Builtins) → (a b : ℕ) → Option ℕ
umoddi3 = packet_umoddi3

abbrev pub udivdi3 : (p : Builtins) → (a b : ℕ) → Option ℕ
udivdi3 = packet_udivdi3

abbrev pub muldsi3 : (a b : ℕ) → Option (ℕ × ℕ)
muldsi3 = packet_muldsi3

abbrev pub muldi3 : (a b : ℕ) → Option ℕ
muldi3 = packet_muldi3
