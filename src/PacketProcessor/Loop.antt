-- ===== src/PacketProcessor/Loop.antt =====
-- The main program as a transition system: the endless loop of `main`, with interrupts between its
-- critical sections, and a host that writes memory at any time.
use lib_hsa.Base.{
  ℕ, zero, suc, ◌≡◌, ◌≢◌, Bool, true, false, List, [], ◌∷◌, some, Memory, get_elem?, ◌==◌,
  if◌then◌else◌, ◌||◌, ◌&&◌, not, uint32_max, Option, none,
}
use lib_hsa.Packets.{packet_type_code, barrier_and, barrier_or}
use lib_hsa.PacketProcessor.Addresses.{dispatch_window_size}
use lib_hsa.PacketProcessor.Queue.{Queue}
use lib_hsa.PacketProcessor.State.{
  get_kernarg, CoreInfo, KernelInfo, DmaRequest, LaunchRequest, DecrementRequest, Malloc,
  PacketProcessor,
}
use lib_hsa.PacketProcessor.Issue.{process_dma_queue, process_launch_queue, process_dec_queue}
use lib_hsa.PacketProcessor.Interrupts.{
  interrupt_transfer, interrupt_kernel, interrupt_completion, interrupt_add_core,
  interrupt_remove_core,
}
use lib_hsa.PacketProcessor.Aql.{
  spins, returns, process_aql_packets, type_field, packet_header, current_packet_address,
  barrier_signal,
}

-- Which call of the loop body comes next.
pub data Turn : Type 0 where
  aql dma launch dec : Turn

pub record System : Type 0 where
  pub turn : Turn
  pub pp : PacketProcessor

-- Globals without an initializer are zero.
abbrev pub no_kernel : KernelInfo
no_kernel = record {
  kp_addr = 0;
  status = get_kernarg;
  pasid = 0;
  local_kernarg_address = 0;
  local_image_address = 0;
}

abbrev pub no_dma : DmaRequest
no_dma = record {
  packet_id = 0;
  host_address = 0;
  device_address = 0;
  payload_size = 0;
  ldst = 0;
  pasid = 0;
}

abbrev pub no_launch : LaunchRequest
no_launch = record {
  packet_id = 0;
  kernel = 0;
  normalization = 0;
  threshold = 0;
  colormodel = 0;
  borderhandling = 0;
  sizex = 0;
  sizey = 0;
  src_address = 0;
  dst_address = 0;
  custom_mask = 0;
}

abbrev pub no_decrement : DecrementRequest
no_decrement = record { packet_id = 0; signal_handle = 0; pasid = 0 }

abbrev pub window : {A : Type 0} → A → List A
window a = a ∷ a ∷ a ∷ a ∷ a ∷ a ∷ a ∷ a ∷ []

abbrev pub no_requests : {A : Type 0} → A → Queue A
no_requests a = record { slots = window a; read_index = 0; write_index = 0 }

abbrev pub all_slots : List ℕ
all_slots = 0 ∷ 1 ∷ 2 ∷ 3 ∷ 4 ∷ 5 ∷ 6 ∷ 7 ∷ []

-- `available_cores` idle cores, with the zeroed packet id of a global.
unfoldable pub idle_cores : ℕ → List CoreInfo
idle_cores zero = []
idle_cores (suc n) = record { running = false; packet_id = 0 } ∷ idle_cores n

-- The globals when the loop of `main` starts, `free_slots` having been filled.
unfoldable pub initial : ℕ → Memory → PacketProcessor
initial available_cores mem = record {
  pending_packets = window no_kernel;
  core_usage = idle_cores available_cores;
  free_slots = all_slots;
  remaining_dispatch_slots = dispatch_window_size;
  current_dma_packet_id = uint32_max;
  current_cmpl_packet_id = uint32_max;
  current_packet_number = 0;
  dma_queue = no_requests no_dma;
  launch_queue = no_requests no_launch;
  dec_queue = no_requests no_decrement;
  read_index = 0;
  write_index = 0;
  aql_left = 0;
  mem = mem;
  stores = [];
  heap = [];
}

-- The packet to be taken is a barrier packet with a completion signal.
unfoldable pub signalling_barrier : PacketProcessor → Bool
signalling_barrier s =
    ((type_field (packet_header s) == packet_type_code barrier_and)
      || (type_field (packet_header s) == packet_type_code barrier_or))
    && not (barrier_signal s.mem (current_packet_address s) == 0)

abbrev pub at_turn : Turn → PacketProcessor → System
at_turn turn s = record { turn = turn; pp = s }

-- The interrupts that `exception_handler` serves.
pub data Irq : Type 0 where
  transfer : Irq
  kernel : (core : ℕ) → Irq
  decremented core_added core_removed : Irq

-- The handler that the code of an interrupt selects; `core` is what `*RCV_INT_ADDR` reads.
unfoldable pub irq_of : (interrupt_code core : ℕ) → Option Irq
irq_of interrupt_code core =
    if interrupt_code == 32
    then some (kernel core)
    else if interrupt_code == 16
    then some transfer
    else if interrupt_code == 8
    then some decremented
    else if interrupt_code == 4
    then some core_added
    else if interrupt_code == 2
    then some core_removed
    else none

unfoldable pub handle : ℕ → Malloc → Irq → PacketProcessor → Option PacketProcessor
handle available_cores malloc transfer s = interrupt_transfer malloc s
handle available_cores malloc (kernel core) s = interrupt_kernel core s
handle available_cores malloc decremented s = interrupt_completion s
handle available_cores malloc core_added s = some (interrupt_add_core available_cores s)
handle available_cores malloc core_removed s = some (interrupt_remove_core available_cores s)

abbrev pub Runs : List CoreInfo → ℕ → Type 0
Runs cores core = (c : CoreInfo) × (get_elem? cores core ≡ some c) × (c.running ≡ true)

-- What makes the hardware send an interrupt: a transfer that was started has ended, so has the
-- kernel of a core, or a decrement.
abbrev pub Cause : PacketProcessor → Irq → Type 0
Cause s transfer = s.current_dma_packet_id ≢ uint32_max
Cause s (kernel core) = Runs s.core_usage core
Cause s decremented = s.current_cmpl_packet_id ≢ uint32_max
Cause s core_added = Unit
Cause s core_removed = Unit

-- One step. The host may change all memory outside the globals, `*WRITE_INDEX` and AQL_LEFT.
pub data Step (available_cores : ℕ) (malloc : Malloc) : System → System → Type 0 where
  spin :
      {s : PacketProcessor}
      → process_aql_packets malloc s ≡ spins
      → Step available_cores malloc (at_turn aql s) (at_turn aql s)
  take_packet :
      {s s' : PacketProcessor}
      → process_aql_packets malloc s ≡ returns s'
      → Step available_cores malloc (at_turn aql s) (at_turn dma s')
  issue_dma :
      {s s' : PacketProcessor}
      → process_dma_queue available_cores s ≡ some s'
      → Step available_cores malloc (at_turn dma s) (at_turn launch s')
  issue_launch :
      {s s' : PacketProcessor}
      → process_launch_queue s ≡ some s'
      → Step available_cores malloc (at_turn launch s) (at_turn dec s')
  issue_dec :
      {s s' : PacketProcessor}
      → process_dec_queue available_cores s ≡ some s'
      → Step available_cores malloc (at_turn dec s) (at_turn aql s')
  interrupt :
      {turn : Turn} {s s' : PacketProcessor} (irq : Irq)
      → Cause s irq
      → handle available_cores malloc irq s ≡ some s'
      → Step available_cores malloc (at_turn turn s) (at_turn turn s')
  host :
      {turn : Turn} {s : PacketProcessor} (mem : Memory) (write_index aql_left : ℕ)
      → Step available_cores malloc
          (at_turn turn s)
          (at_turn turn (record s { mem = mem; write_index = write_index; aql_left = aql_left }))

pub data Reach (available_cores : ℕ) (malloc : Malloc) : System → Type 0 where
  start : (mem : Memory) → Reach available_cores malloc (at_turn aql (initial available_cores mem))
  later :
      {s t : System}
      → Reach available_cores malloc s
      → Step available_cores malloc s t
      → Reach available_cores malloc t

-- The step takes no barrier packet with a completion signal.
abbrev pub QuietStep :
    {available_cores : ℕ} {malloc : Malloc} {s t : System}
    → Step available_cores malloc s t
    → Type 0
QuietStep (spin e) = Unit
QuietStep (take_packet {s} e) = signalling_barrier s ≡ false
QuietStep (issue_dma e) = Unit
QuietStep (issue_launch e) = Unit
QuietStep (issue_dec e) = Unit
QuietStep (interrupt irq cause e) = Unit
QuietStep (host mem write_index aql_left) = Unit

-- No step of the run takes a barrier packet with a completion signal.
abbrev pub Quiet :
    {available_cores : ℕ} {malloc : Malloc} {s : System} → Reach available_cores malloc s → Type 0
Quiet (start mem) = Unit
Quiet (later r st) = Quiet r × QuietStep st
