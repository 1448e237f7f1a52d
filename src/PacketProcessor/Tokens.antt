-- ===== src/PacketProcessor/Tokens.antt =====
-- How often a dispatch slot is mentioned at each place that can own it: among the free slots, in a
-- request queue, on a core, in the DMA engine or the signal unit.
use lib_hsa.Base.{
  ℕ, zero, suc, ◌+◌, ◌≤◌, ◌<◌, ◌≡◌, ap, true, false, List, [], ◌∷◌, map, arith, length, get_or, set,
  take, count, count-append, count-take-suc, take-set, get_or-set_self, length-set, ◌==◌,
  if◌then◌else◌, uint32_max, some, ◌-◌, lt→ltb, get_or-set_ne,
}
use mathlib.Core.List.{map-append}
use lib_hsa.PacketProcessor.Queue.{Queue, push, has_request, front, advance}
use lib_hsa.PacketProcessor.Queue.Fifo.{IsValid, queued, contents, push_fifo, front_fifo}
use lib_hsa.PacketProcessor.State.{CoreInfo, KernelInfo, set?}
use lib_hsa.PacketProcessor.Issue.{next_free_core}
use lib_hsa.PacketProcessor.Interrupts.{idle_core}
use lib_hsa.PacketProcessor.Loop.{no_kernel}

-- 1 if `x` is the slot `a`, else 0.
abbrev pub mentions : ℕ → ℕ → ℕ
mentions x a = if x == a then 1 else 0

-- The DMA engine and the signal unit hold the slot of a request, or UINT32_MAX for none.
abbrev pub held : ℕ → ℕ → ℕ
held current a = if current == uint32_max then 0 else mentions current a

abbrev pub engaged : ℕ → ℕ
engaged current = if current == uint32_max then 0 else 1

module _ {A : Type 0} (d : A) (id : A → ℕ) where
  -- The mentions of slot `a` in a queue of requests.
  abbrev pub tokens : Queue A → ℕ → ℕ
  tokens q a = count a (map id (contents d q))

  -- What `push` does to a queue that is not full.
  pub record Pushed (q : Queue A) (x : A) : Type 0 where
    pub split : (a : ℕ) → tokens (push q x) a ≡ tokens q a + mentions (id x) a
    pub more : queued (push q x) ≡ queued q + 1
    pub valid : IsValid (push q x)

  pub joined_request : (q : Queue A) (x : A) → IsValid q → queued q < 8 → Pushed q x
  joined_request q x v room =
      let (joined, more, valid) = push_fifo d q x v room in
      record {
        split = λ a.
            rw joined
              (rw map-append (omega (arith, count-append a (map id (contents d q)) (id x ∷ []))));
        more = more;
        valid = valid;
      }

  -- What `front` and `advance` do to a queue that has a request.
  pub record Front (q : Queue A) : Type 0 where
    pub request : A
    pub found : front q ≡ some request
    pub split : (a : ℕ) → tokens q a ≡ mentions (id request) a + tokens (advance q) a
    pub fewer : queued q ≡ queued (advance q) + 1
    pub valid : IsValid (advance q)

  pub oldest_request : (q : Queue A) → IsValid q → has_request q ≡ true → Front q
  oldest_request q v h =
      let (x, found, split, fewer, valid) = front_fifo d q v h in
      record {
        request = x;
        found = found;
        split = λ a. ap (λ l. count a (map id l)) split;
        fewer = fewer;
        valid = valid;
      }

-- The mentions of slot `a` by cores that run, and the number of cores that run.
unfoldable pub running : List CoreInfo → ℕ → ℕ
running [] a = 0
running (c ∷ cs) a = (if c.running then mentions c.packet_id a else 0) + running cs a

unfoldable pub running_cores : List CoreInfo → ℕ
running_cores [] = 0
running_cores (c ∷ cs) = (if c.running then 1 else 0) + running_cores cs

abbrev pub busy_core : ℕ → CoreInfo
busy_core id = record { running = true; packet_id = id }

-- The core that `process_launch_queue` selects: all before it run, and it does not.
pub next_free_core-le :
    (base : ℕ) (cs : List CoreInfo)
    → (base ≤ next_free_core base cs) × (next_free_core base cs ≤ base + length cs)
unfolding next_free_core
next_free_core-le base [] = omega arith
next_free_core-le base (c ∷ cs) = ground (arith, next_free_core-le (base + 1) cs)

pub next_free_core-idle :
    (base k : ℕ) (cs : List CoreInfo)
    → next_free_core base cs ≡ base + k
    → k < length cs
    → (get_or cs k idle_core).running ≡ false
unfolding next_free_core
next_free_core-idle base k [] e h = absurd (omega arith)
next_free_core-idle base zero (c ∷ cs) e h = ground (arith, next_free_core-le (base + 1) cs)
next_free_core-idle base (suc k) (c ∷ cs) e h = ground (arith, next_free_core-idle (base + 1) k cs)

pub running-start :
    (cs : List CoreInfo) (k id a : ℕ)
    → k < length cs
    → (get_or cs k idle_core).running ≡ false
    → (running (set cs k (busy_core id)) a ≡ running cs a + mentions id a)
      × (running_cores (set cs k (busy_core id)) ≡ running_cores cs + 1)
unfolding running running_cores
running-start [] k id a h idle = absurd (omega arith)
running-start (c ∷ cs) zero id a h idle = ground arith
running-start (c ∷ cs) (suc k) id a h idle = ground (arith, running-start cs k id a)

pub running-stop :
    (cs : List CoreInfo) (k a : ℕ)
    → k < length cs
    → (get_or cs k idle_core).running ≡ true
    → (running cs a ≡ running (set cs k idle_core) a + mentions (get_or cs k idle_core).packet_id a)
      × (running_cores cs ≡ running_cores (set cs k idle_core) + 1)
unfolding running running_cores
running-stop [] k a h busy = absurd (omega arith)
running-stop (c ∷ cs) zero a h busy = ground arith
running-stop (c ∷ cs) (suc k) a h busy = ground (arith, running-stop cs k a)

-- The mentions of slot `a` among the free slots.
abbrev pub free : List ℕ → ℕ → ℕ → ℕ
free slots remaining a = count a (take remaining slots)

pub free-release :
    (slots : List ℕ) (remaining id a : ℕ)
    → remaining < length slots
    → free (set slots remaining id) (suc remaining) a ≡ free slots remaining a + mentions id a
free-release slots remaining id a h = omega (
  arith,
  count-take-suc a (set slots remaining id) remaining (rw length-set h),
  ap (count a) (take-set slots remaining remaining id (omega arith)),
  ap (λ x. mentions x a) (get_or-set_self slots remaining id 0 h),
)

pub free-take :
    (slots : List ℕ) (remaining a : ℕ)
    → 0 < remaining
    → remaining ≤ length slots
    → free slots remaining a
      ≡ free slots (remaining - 1) a + mentions (get_or slots (remaining - 1) 0) a
free-take slots zero a h fits = absurd (omega arith)
free-take slots (suc r) a h fits =
    let pred : suc r - 1 ≡ r = omega arith in rw pred (count-take-suc a slots r (omega arith))

-- What a write to an array element leaves.
pub status-set :
    (ps : List KernelInfo) (id a : ℕ) (v : KernelInfo)
    → id < length ps
    → (get_or (set ps id v) a no_kernel).status
      ≡ (if id == a then v.status else (get_or ps a no_kernel).status)
status-set ps id a v h =
    ground (arith, get_or-set_self ps id v no_kernel h, get_or-set_ne ps id a v no_kernel)

pub set?-some {ℓ} :
    {A : Type ℓ} (xs : List A) (i : ℕ) (v : A) → i < length xs → set? xs i v ≡ some (set xs i v)
set?-some xs i v h = rw (lt→ltb i (length xs) h)
