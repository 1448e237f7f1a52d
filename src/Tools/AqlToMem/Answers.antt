-- ===== src/Tools/AqlToMem/Answers.antt =====
-- What becomes of the answer about the barrier, and the header words of the tool in the packet
-- processor.
use lib_hsa.Base.{
  ℕ, ◌%◌, ◌==◌, ◌≡◌, refl, arith, if◌then◌else◌, Text, codes, same_text, u16, ne→==, ◌∙◌, false,
}
use mathlib.Core.List.{List, [], ◌∷◌}
use lib_hsa.Packets.{PacketType, packet_type_code, scope_none}
use lib_hsa.PacketProcessor.Aql.{type_field, barrier_field}
use lib_hsa.FpgaCmd
use lib_hsa.FpgaCmd.Header.{header_fields}
use lib_hsa.Tools.Result.{ok}
use lib_hsa.Tools.AqlToMem.Header.{
  minus_one, get_barrier_int_representation, type_header, barrier_header,
}
use lib_hsa.Tools.AqlToMem.Dialog.{ask_barrier}
use lib_hsa.Tools.AqlToMem.Input.{ready, read_text}
use Prim.Native.Nat.{suc}

-- The header functions of the tool are that of the FPGA command processor.
headers_agree :
    (type : PacketType) (barrier : ℕ)
    → (barrier_header type barrier ≡ FpgaCmd.Header.header type barrier scope_none scope_none)
      × (type_header type ≡ barrier_header type 0)
unfolding barrier_header type_header FpgaCmd.Header.header
headers_agree type barrier = (refl, refl)

pub barrier_header_fields :
    (type : PacketType) (barrier : ℕ)
    → (type_field (barrier_header type barrier) ≡ packet_type_code type)
      × (barrier_field (barrier_header type barrier) ≡ barrier % 2)
barrier_header_fields type barrier =
    let f = header_fields type barrier scope_none scope_none in
    rw ((headers_agree type barrier).0) (f.0, f.1)

pub type_header_fields :
    (type : PacketType)
    → (type_field (type_header type) ≡ packet_type_code type)
      × (barrier_field (type_header type) ≡ 0)
type_header_fields type = rw ((headers_agree type 0).1) (barrier_header_fields type 0)

answer_bit :
    (s : Text)
    → u16 (get_barrier_int_representation s) % 2 ≡ (if same_text s (codes "n") then 0 else 1)
answer_bit [] = refl
answer_bit (c ∷ []) = ground arith
answer_bit (c ∷ d ∷ s) = ground arith

-- Every answer about the barrier is taken, since the test for a wrong one compares a number of 16
-- bits with -1; in the packet processor every answer but "n" sets the barrier bit.
pub any_answer_taken :
    (type : PacketType) (rounds : ℕ) (old s : Text) (later : List Text)
    → (ask_barrier (suc rounds) old (ready (s ∷ later))
        ≡ ok (u16 (get_barrier_int_representation s), ready later))
      × (barrier_field (barrier_header type (u16 (get_barrier_int_representation s)))
          ≡ (if same_text s (codes "n") then 0 else 1))
unfolding ask_barrier read_text
any_answer_taken type rounds old s later =
    let b = u16 (get_barrier_int_representation s) in
    let n : (b == minus_one) ≡ false = ne→== b minus_one (omega arith) in
    (rw n refl, (barrier_header_fields type b).1 ∙ answer_bit s)
