-- ===== src/Tools/AqlToMem/Dialog.antt =====
-- The dialog of aql2mem: each loop that asks again is on fuel.
use lib_hsa.Base.{
  ℕ, zero, suc, Bool, true, false, ◌||◌, ltb, ◌==◌, if◌then◌else◌, Text, codes, same_text, u16,
}
use mathlib.Core.List.{[]}
use lib_hsa.Packets.{PacketType, packet_type_code, kernel_dispatch, barrier_and, barrier_or}
use lib_hsa.Tools.AqlToMem.Input.{Input, uint, int32, read_text, read_number}
use lib_hsa.Tools.Result.{Result, ok, fail, out_of_fuel, ◌>>=◌}
use lib_hsa.Tools.AqlToMem.Header.{
  minus_one, get_ptype_int_representation, get_barrier_int_representation, barrier_header,
}
use lib_hsa.Tools.AqlToMem.Queue.{
  Alloc, Heap, Dispatch, set_pasid, add_packet, dispatch_stores, barrier_stores,
}

-- What is read, and the input behind it.
abbrev pub Read : Type 0 → Type 0
Read A = Result (A × Input)

-- `adding` and `ptype` behind the loop that asks for a packet type.
unfoldable pub ask_type : (rounds : ℕ) → (ptypestring : Text) → Input → Read (Bool × ℕ)
unfolding read_text
ask_type zero old answers = fail out_of_fuel
ask_type (suc rounds) old answers =
    let (s, later) = read_text old answers in
    let again = ask_type rounds s later in
    if same_text s (codes "END")
    then ok ((false, minus_one), later)
    else if get_ptype_int_representation s == minus_one
    then again
    else ok ((true, get_ptype_int_representation s), later)

-- `barrier` is a `uint16_t`, and is compared with the `int` -1.
unfoldable pub ask_barrier : (rounds : ℕ) → (barrierstring : Text) → Input → Read ℕ
unfolding read_text
ask_barrier zero old answers = fail out_of_fuel
ask_barrier (suc rounds) old answers =
    let (s, later) = read_text old answers in
    let again = ask_barrier rounds s later in
    let barrier = u16 (get_barrier_int_representation s) in
    if barrier == minus_one then again else ok (barrier, later)

-- The loop that asks for the number of dimensions.
unfoldable pub ask_dim : (rounds : ℕ) → (dim : ℕ) → Input → Read ℕ
unfolding read_number
ask_dim zero old answers = fail out_of_fuel
ask_dim (suc rounds) old answers =
    let (dim, later) = read_number (uint 32) old answers in
    let again = ask_dim rounds dim later in if ltb 3 dim || dim == 0 then again else ok (dim, later)

-- The loop that asks for the number of signals; the pattern of a negative number is above 5.
unfoldable pub ask_numsig : (rounds : ℕ) → (numsig : ℕ) → Input → Read ℕ
unfolding read_number
ask_numsig zero old answers = fail out_of_fuel
ask_numsig (suc rounds) old answers =
    let (numsig, later) = read_number int32 old answers in
    let again = ask_numsig rounds numsig later in
    if ltb 5 numsig || ltb numsig 1 then again else ok (numsig, later)

-- The sizes, asked for in all three dimensions, since each test is for at least one.
unfoldable pub ask_sizes : (op dim : ℕ) → Input → Dispatch × Input
unfolding read_number
ask_sizes op dim s2 =
    let (sizex, s3) = read_number (uint 32) 1 s2 in
    let (wgsizex, s4) = read_number (uint 32) 1 s3 in
    let (sizey, s5) = read_number (uint 32) 1 s4 in
    let (wgsizey, s6) = read_number (uint 32) 1 s5 in
    let (sizez, s7) = read_number (uint 32) 1 s6 in
    let (wgsizez, s8) = read_number (uint 32) 1 s7 in
    (
      record {
        op = op;
        dim = dim;
        sizex = sizex;
        sizey = sizey;
        sizez = sizez;
        wgsizex = wgsizex;
        wgsizey = wgsizey;
        wgsizez = wgsizez;
      },
      s8,
    )

unfoldable pub ask_dispatch : (rounds : ℕ) → Input → Read Dispatch
unfolding read_number ask_dim ask_sizes
ask_dispatch rounds s0 = do
  let (op, s1) = read_number (uint 64) 0 s0
  (dim, s2) ← ask_dim rounds 0 s1
  ok (ask_sizes op dim s2)

module _ (heap : Heap) (rounds : ℕ) where
  -- The branches for the packet types.
  unfoldable pub add_dispatch : (barrier : ℕ) → Input → Alloc → Read Alloc
  unfolding ask_dispatch add_packet
  add_dispatch barrier answers a = do
    (d, later) ← ask_dispatch rounds answers
    a' ←
        add_packet
          (dispatch_stores heap (barrier_header kernel_dispatch barrier) d a.packet_queue_end_idx) a
    ok (a', later)

  unfoldable pub add_barrier : PacketType → (barrier : ℕ) → Input → Alloc → Read Alloc
  unfolding ask_numsig add_packet
  add_barrier type barrier answers a = do
    (numsig, later) ← ask_numsig rounds 0 answers
    a' ←
        add_packet (barrier_stores heap (barrier_header type barrier) numsig a.packet_queue_end_idx)
          a
    ok (a', later)

  unfoldable pub add_typed : (ptype barrier : ℕ) → Input → Alloc → Read Alloc
  unfolding add_dispatch add_barrier
  add_typed ptype barrier answers a =
      if ptype == packet_type_code kernel_dispatch
      then add_dispatch barrier answers a
      else if ptype == packet_type_code barrier_and
      then add_barrier barrier_and barrier answers a
      else if ptype == packet_type_code barrier_or
      then add_barrier barrier_or barrier answers a
      else ok (a, answers)

  -- The PASID of a packet whose type is known.
  unfoldable pub ask_pasid : (ptype : ℕ) → Input → Alloc → Read Alloc
  unfolding read_number set_pasid
  ask_pasid ptype answers a =
      let (pid, later) = read_number (uint 32) 1 answers in
      if ptype == minus_one then ok (a, answers) else (do a' ← set_pasid pid a; ok (a', later))

  -- One round of the loop: whether it goes on.
  unfoldable pub add_round : Input → Alloc → Read (Bool × Alloc)
  unfolding ask_type ask_pasid ask_barrier add_typed
  add_round answers a = do
    ((adding, ptype), s1) ← ask_type rounds [] answers
    (named, s2) ← ask_pasid ptype s1 a
    (barrier, s3) ← ask_barrier rounds [] s2
    (a', s4) ← add_typed ptype barrier s3 named
    ok ((adding, a'), s4)

  -- `while(adding)`; each loop inside has at most `rounds` rounds.
  unfoldable pub dialog : (fuel : ℕ) → Input → Alloc → Result Alloc
  unfolding add_round
  dialog zero answers a = fail out_of_fuel
  dialog (suc fuel) answers a = do
    ((adding, a'), later) ← add_round answers a
    let rest = dialog fuel later a'
    if adding then rest else ok a'
