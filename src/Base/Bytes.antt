-- ===== src/Base/Bytes.antt =====
-- Byte-addressed, little-endian memory (the processors are built with -EL), and the stores that a
-- processor makes into its configuration space, which are effects and not memory.
use Prim.Native.Nat.{ℕ, zero, suc, ◌+◌, ◌*◌, ◌/◌, ◌%◌, ◌^◌, ◌<◌, ◌≤◌}
use mathlib.Core.Path.{◌≡◌, refl, ap, ◌≡⟨◌⟩◌, ◌∎}
use native.Mathlib.Nat.{pow-suc, one-le-pow, add-mul-mod_self_left, mod-eq_of_lt, div-add-mod}
use native.Mathlib.Omega.{arith}
use lib_hsa.Base.Tests.{◌==◌, if◌then◌else◌}
use lib_hsa.Base.Word.{u8}

-- Of a cell only its low eight bits count.
abbrev pub Memory : Type 0
Memory = ℕ → ℕ

abbrev pub update : Memory → ℕ → ℕ → Memory
update m a v b = if a == b then v else m b

-- `load n m a` reads `n` bytes at `a`.
unfoldable pub load : ℕ → Memory → ℕ → ℕ
load zero m a = 0
load (suc n) m a = u8 (m a) + 256 * load n m (a + 1)

unfoldable pub store : ℕ → Memory → ℕ → ℕ → Memory
store zero m a v = m
store (suc n) m a v = store n (update m a (u8 v)) (a + 1) (v / 256)

-- A store of `n` bytes leaves every byte outside its range.
pub store_outside : (n : ℕ) (m : Memory) (a v b : ℕ) → (b < a) → store n m a v b ≡ m b
unfolding store
store_outside zero m a v b h = refl
store_outside (suc n) m a v b h =
    ground (arith, store_outside n (update m a (u8 v)) (a + 1) (v / 256) b (omega arith))

-- The same above the range.
pub store_above : (n : ℕ) (m : Memory) (a v b : ℕ) → (a + n ≤ b) → store n m a v b ≡ m b
unfolding store
store_above zero m a v b h = refl
store_above (suc n) m a v b h =
    ground (arith, store_above n (update m a (u8 v)) (a + 1) (v / 256) b (omega arith))

-- A store of what has been loaded copies each byte.
pub copied_byte :
    (n : ℕ) (m from : Memory) (a s i : ℕ)
    → i < n
    → u8 (store n m a (load n from s) (a + i)) ≡ u8 (from (s + i))
unfolding store load
copied_byte zero m from a s i h = absurd (omega arith)
copied_byte (suc n) m from a s zero h =
    rw (store_outside n (update m a (u8 first)) (a + 1) (first / 256) (a + 0) (omega arith))
      (ground arith)
  where
    first : ℕ
    first = u8 (from s) + 256 * load n from (s + 1)
copied_byte (suc n) m from a s (suc i) h =
    let v : ℕ = u8 (from s) + 256 * load n from (s + 1) in
    let rest : v / 256 ≡ load n from (s + 1) = omega arith in
    let there : a + suc i ≡ a + 1 + i = omega arith in
    let here : s + suc i ≡ s + 1 + i = omega arith in
    rw (rest, there, here) (copied_byte n (update m a (u8 v)) from (a + 1) (s + 1) i (omega arith))

-- The low byte and the remaining bytes of a number.
low_byte_first : (n v : ℕ) → v % 256 ^ suc n ≡ v % 256 + 256 * (v / 256 % 256 ^ n)
low_byte_first n v =
    v % 256 ^ suc n
    ≡⟨ ap (λ t. t % 256 ^ suc n) parts ⟩ (low + 256 ^ suc n * high) % 256 ^ suc n
    ≡⟨ add-mul-mod_self_left low (256 ^ suc n) high ⟩ low % 256 ^ suc n
    ≡⟨ mod-eq_of_lt fits ⟩ low ∎
  where
    low : ℕ
    low = v % 256 + 256 * (v / 256 % 256 ^ n)

    high : ℕ
    high = v / 256 / 256 ^ n

    parts : v ≡ low + 256 ^ suc n * high
    parts = omega (
      arith,
      ap (λ (t : ℕ). t * high) (pow-suc 256 n),
      div-add-mod (v / 256) (256 ^ n),
      one-le-pow n 256 (omega arith),
    )

    fits : low < 256 ^ suc n
    fits = omega (arith, pow-suc 256 n, one-le-pow n 256 (omega arith))

-- What has been stored is read back, modulo the width.
pub load-store : (n : ℕ) (m : Memory) (a v : ℕ) → load n (store n m a v) a ≡ v % 256 ^ n
unfolding load store
load-store zero m a v = omega arith
load-store (suc n) m a v = ground (
  arith,
  store_outside n (update m a (u8 v)) (a + 1) (v / 256) a (omega arith),
  load-store n (update m a (u8 v)) (a + 1) (v / 256),
  low_byte_first n v,
)

pub load-bound : (n : ℕ) (m : Memory) (a : ℕ) → load n m a < 256 ^ n
unfolding load
load-bound zero m a = omega arith
load-bound (suc n) m a = omega (arith, load-bound n m (a + 1), pow-suc 256 n)

-- A store of `width` bytes at a configuration address.
pub record Store : Type 0 where
  pub address : ℕ
  pub width : ℕ
  pub value : ℕ
