-- ===== src/Tools/AqlToMem/Scripts.antt =====
-- The dialog of aql2mem on complete answers: the packets that the user describes are added.
use lib_hsa.Base.{
  ℕ, suc, zero, ◌≡◌, ◌<◌, true, false, ◌||◌, Text, codes, ◌==◌, ltb, u16, refl, arith, length,
  ne→==, ◌∙◌,
}
use mathlib.Core.List.{List, [], ◌∷◌}
use lib_hsa.Packets.{kernel_dispatch, barrier_and, barrier_or}
use lib_hsa.Tools.Text.{All}
use lib_hsa.Tools.Result.{Result, ok, fail, ◌>>=◌}
use lib_hsa.Tools.AqlToMem.Header.{minus_one, get_barrier_int_representation, barrier_header}
use lib_hsa.Tools.AqlToMem.Input.{
  Input, ready, IntType, uint, int32, Extracted, extracted, rejected, extract, read_text,
  read_number,
}
use lib_hsa.Tools.AqlToMem.Dialog.{
  ask_type, ask_barrier, ask_dim, ask_numsig, ask_sizes, ask_dispatch, add_dispatch, add_barrier,
  add_typed, ask_pasid, add_round, dialog,
}
use lib_hsa.Tools.AqlToMem.Queue.{
  Heap, Alloc, set_pasid, add_packet, dispatch_stores, barrier_stores,
}

abbrev extracted_value : Extracted → ℕ
extracted_value (extracted v rest) = v
extracted_value (rejected v) = v

-- The number that a word spells.
abbrev pub value : IntType → Text → ℕ
value type s = extracted_value (extract type s)

-- The whole word is a number of the type.
abbrev pub IsWhole : IntType → Text → Type 0
IsWhole type s = extract type s ≡ extracted (value type s) []

-- The answers for one packet.
pub data PacketAnswers : Type 0 where
  dispatch_entry :
      (pid barrier op dim sizex wgsizex sizey wgsizey sizez wgsizez : Text) → PacketAnswers
  and_entry or_entry : (pid barrier numsig : Text) → PacketAnswers

-- They are answers to the questions: numbers, the dimensions from 1 to 3 and the signals from 1 to 5.
abbrev pub IsComplete : PacketAnswers → Type 0
IsComplete (dispatch_entry pid barrier op dim sizex wgsizex sizey wgsizey sizez wgsizez) =
    (((IsWhole (uint 32) pid × IsWhole (uint 64) op)
        × (IsWhole (uint 32) dim
            × ((ltb 3 (value (uint 32) dim) || value (uint 32) dim == 0) ≡ false)))
      × ((IsWhole (uint 32) sizex × IsWhole (uint 32) wgsizex)
          × (IsWhole (uint 32) sizey × IsWhole (uint 32) wgsizey)))
    × (IsWhole (uint 32) sizez × IsWhole (uint 32) wgsizez)
IsComplete (and_entry pid barrier numsig) =
    (IsWhole (uint 32) pid × IsWhole int32 numsig)
    × ((ltb 5 (value int32 numsig) || ltb (value int32 numsig) 1) ≡ false)
IsComplete (or_entry pid barrier numsig) =
    (IsWhole (uint 32) pid × IsWhole int32 numsig)
    × ((ltb 5 (value int32 numsig) || ltb (value int32 numsig) 1) ≡ false)

-- The words that are typed for it.
abbrev pub typed : PacketAnswers → List Text → List Text
typed (dispatch_entry pid barrier op dim sizex wgsizex sizey wgsizey sizez wgsizez) later =
    codes "KERNEL_DISPATCH"
    ∷ pid
    ∷ barrier
    ∷ op
    ∷ dim
    ∷ sizex
    ∷ wgsizex
    ∷ sizey
    ∷ wgsizey
    ∷ sizez
    ∷ wgsizez
    ∷ later
typed (and_entry pid barrier numsig) later = codes "BARRIER_AND" ∷ pid ∷ barrier ∷ numsig ∷ later
typed (or_entry pid barrier numsig) later = codes "BARRIER_OR" ∷ pid ∷ barrier ∷ numsig ∷ later

abbrev pub script : List PacketAnswers → List Text → List Text
script [] later = later
script (e ∷ entries) later = typed e (script entries later)

abbrev barrier_of : Text → ℕ
barrier_of s = u16 (get_barrier_int_representation s)

abbrev pid_of : PacketAnswers → ℕ
pid_of (dispatch_entry pid barrier op dim sizex wgsizex sizey wgsizey sizez wgsizez) =
    value (uint 32) pid
pid_of (and_entry pid barrier numsig) = value (uint 32) pid
pid_of (or_entry pid barrier numsig) = value (uint 32) pid

module _ (heap : Heap) where
  abbrev added : PacketAnswers → Alloc → Result Alloc
  added (dispatch_entry pid barrier op dim sizex wgsizex sizey wgsizey sizez wgsizez) a =
      add_packet
        (dispatch_stores heap (barrier_header kernel_dispatch (barrier_of barrier))
          (record {
            op = value (uint 64) op;
            dim = value (uint 32) dim;
            sizex = value (uint 32) sizex;
            sizey = value (uint 32) sizey;
            sizez = value (uint 32) sizez;
            wgsizex = value (uint 32) wgsizex;
            wgsizey = value (uint 32) wgsizey;
            wgsizez = value (uint 32) wgsizez;
          })
          a.packet_queue_end_idx)
        a
  added (and_entry pid barrier numsig) a =
      add_packet
        (barrier_stores heap (barrier_header barrier_and (barrier_of barrier)) (value int32 numsig)
          a.packet_queue_end_idx)
        a
  added (or_entry pid barrier numsig) a =
      add_packet
        (barrier_stores heap (barrier_header barrier_or (barrier_of barrier)) (value int32 numsig)
          a.packet_queue_end_idx)
        a

  -- The PASIDs and the packets of the entries, at the end of the queue.
  abbrev pub put_all : List PacketAnswers → Alloc → Result Alloc
  put_all [] a = ok a
  put_all (e ∷ entries) a = set_pasid (pid_of e) a >>= (λ named. added e named >>= put_all entries)

-- A step that reads nothing, in front of others.
bind-step :
    {B : Type 0} (r : Result Alloc) (i : Input) (k : Alloc × Input → Result B)
    (h : Alloc → Result B)
    → ((x : Alloc) → k (x, i) ≡ h x)
    → (r >>= (λ (x : Alloc). ok (x, i)) >>= k) ≡ (r >>= h)
bind-step (ok x) i k h e = e x
bind-step (fail f) i k h e = refl

barrier_known : (s : Text) → (barrier_of s == minus_one) ≡ false
barrier_known s = ne→== (barrier_of s) minus_one (omega arith)

module _ (heap : Heap) (rounds : ℕ) where
  entry_round :
      (e : PacketAnswers) (later : List Text) (a : Alloc)
      → IsComplete e
      → add_round heap (suc rounds) (ready (typed e later)) a ≡ (
          set_pasid (pid_of e) a
          >>= (λ named. added heap e named >>= (λ (b : Alloc). ok ((true, b), ready later))))
  unfolding add_round ask_type read_text ask_pasid read_number ask_barrier add_typed add_barrier
      ask_numsig add_dispatch ask_dispatch ask_dim ask_sizes
  entry_round (and_entry pid barrier numsig) later a h = rw (h.0.0) (
      bind-step (set_pasid (value (uint 32) pid) a) _ _ _ λ named.
        rw (barrier_known barrier, h.0.1, h.1)
          (bind-step (added heap (and_entry pid barrier numsig) named) (ready later)
            (λ x. ok ((true, x.0), x.1)) _ λ b. refl))
  entry_round (or_entry pid barrier numsig) later a h = rw (h.0.0) (
      bind-step (set_pasid (value (uint 32) pid) a) _ _ _ λ named.
        rw (barrier_known barrier, h.0.1, h.1)
          (bind-step (added heap (or_entry pid barrier numsig) named) (ready later)
            (λ x. ok ((true, x.0), x.1)) _ λ b. refl))
  entry_round (dispatch_entry pid barrier op dim sizex wgsizex sizey wgsizey sizez wgsizez) later a
        h =
      rw (h.0.0.0.0) (
        bind-step (set_pasid (value (uint 32) pid) a) _ _ _ λ named.
          rw
            (
              barrier_known barrier,
              h.0.0.0.1,
              h.0.0.1.0,
              h.0.0.1.1,
              h.0.1.0.0,
              h.0.1.0.1,
              h.0.1.1.0,
              h.0.1.1.1,
              h.1.0,
              h.1.1,
            )
            (bind-step
              (added heap
                (dispatch_entry pid barrier op dim sizex wgsizex sizey wgsizey sizez wgsizez) named)
              (ready later) (λ x. ok ((true, x.0), x.1)) _ λ b. refl))

  last_round :
      (barrier : Text) (later : List Text) (a : Alloc)
      → add_round heap (suc rounds) (ready (codes "END" ∷ barrier ∷ later)) a
        ≡ ok ((false, a), ready later)
  unfolding add_round ask_type read_text ask_pasid ask_barrier add_typed
  last_round barrier later a = rw (barrier_known barrier) refl

bind_same :
    {A B : Type 0} (r : Result A) (f g : A → Result B)
    → ((x : A) → f x ≡ g x)
    → (r >>= f) ≡ (r >>= g)
bind_same (ok x) f g e = e x
bind_same (fail x) f g e = refl

bind_assoc :
    {A B C : Type 0} (r : Result A) (f : A → Result B) (g : B → Result C)
    → (r >>= f >>= g) ≡ (r >>= (λ x. f x >>= g))
bind_assoc (ok x) f g = refl
bind_assoc (fail x) f g = refl

-- For complete answers to the questions of a number of packets, then END and an answer about a
-- barrier, the dialog gives what putting the PASIDs and the packets that the answers describe, one
-- by one, at the end of the queue gives. More rounds than packets are enough, and one of each loop
-- inside.
pub script_lem :
    (heap : Heap) (rounds fuel : ℕ) (entries : List PacketAnswers) (barrier : Text)
    (later : List Text) (a : Alloc)
    → All IsComplete entries
    → length entries < fuel
    → dialog heap (suc rounds) fuel (ready (script entries (codes "END" ∷ barrier ∷ later))) a
      ≡ put_all heap entries a
unfolding dialog
script_lem heap rounds zero entries barrier later a complete enough = absurd (omega arith)
script_lem heap rounds (suc fuel) [] barrier later a complete enough =
    rw (last_round heap rounds barrier later a) refl
script_lem heap rounds (suc fuel) (e ∷ entries) barrier later a complete enough =
    rw (entry_round heap rounds e (script entries (codes "END" ∷ barrier ∷ later)) a complete.0) (
      bind_assoc (set_pasid (pid_of e) a) _ _
      ∙ bind_same (set_pasid (pid_of e) a) _ _ λ named.
        bind_assoc (added heap e named) _ _
        ∙ bind_same (added heap e named) _ _
            λ b. script_lem heap rounds fuel entries barrier later b complete.1 (omega arith))
