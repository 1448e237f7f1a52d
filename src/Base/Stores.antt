-- ===== src/Base/Stores.antt =====
-- Sequences of stores, and what a load finds after them.
use lib_hsa.Base.Bytes.{Memory, load, store, store_outside, store_above, load-store, Store}
use Prim.Native.Nat.{ℕ, zero, suc, ◌+◌, ◌≤◌, ◌<◌, ◌%◌, ◌^◌}
use mathlib.Core.Path.{◌≡◌, refl, ◌∙◌, ap, sym}
use mathlib.Core.Logic.{◌⊎◌, inl, inr}
use mathlib.Core.List.{List, [], ◌∷◌, ◌++◌}
use native.Mathlib.Omega.{arith}
use lib_hsa.Base.Word.{u8}

-- A load is determined by the bytes that it reads.
pub load_same :
    (n : ℕ) (m m1 : Memory) (a : ℕ)
    → ((b : ℕ) → b < a + n → a ≤ b → m b ≡ m1 b)
    → load n m a ≡ load n m1 a
unfolding load
load_same zero m m1 a h = refl
load_same (suc n) m m1 a h =
    let first : m a ≡ m1 a = h a (omega arith) (omega arith) in
    let rest : load n m (a + 1) ≡ load n m1 (a + 1) =
      load_same n m m1 (a + 1) (λ b p q. h b (omega arith) (omega arith)) in
    rw (first, rest) refl

-- Loads at two places of two memories that agree there.
pub load_moved :
    (n : ℕ) (m m1 : Memory) (a b : ℕ)
    → ((o : ℕ) → o < n → u8 (m (a + o)) ≡ u8 (m1 (b + o)))
    → load n m a ≡ load n m1 b
unfolding load
load_moved zero m m1 a b h = refl
load_moved (suc n) m m1 a b h =
    let first : u8 (m a) ≡ u8 (m1 b) =
      ap (λ (x : ℕ). u8 (m x)) (same a)
      ∙ h 0 (omega arith)
      ∙ ap (λ (x : ℕ). u8 (m1 x)) (sym (same b)) in
    let rest : load n m (a + 1) ≡ load n m1 (b + 1) = load_moved n m m1 (a + 1) (b + 1) (λ o p.
      ap (λ (x : ℕ). u8 (m x)) (shifted a o)
      ∙ h (suc o) (omega arith)
      ∙ ap (λ (x : ℕ). u8 (m1 x)) (sym (shifted b o))) in
    rw (first, rest) refl
  where
    same : (x : ℕ) → x ≡ x + 0
    same x = omega arith

    shifted : (x o : ℕ) → x + 1 + o ≡ x + suc o
    shifted x o = omega arith

-- The same for places inside two regions.
pub load_inside :
    (size w x : ℕ) (m m1 : Memory) (a b : ℕ)
    → x + w ≤ size
    → ((o : ℕ) → o < size → u8 (m (a + o)) ≡ u8 (m1 (b + o)))
    → load w m (a + x) ≡ load w m1 (b + x)
load_inside size w x m m1 a b h agree = load_moved w m m1 (a + x) (b + x) (λ o p.
    ap (λ (y : ℕ). u8 (m y)) (regroup a o)
    ∙ agree (x + o) (omega arith)
    ∙ ap (λ (y : ℕ). u8 (m1 y)) (sym (regroup b o)))
  where
    regroup : (c o : ℕ) → c + x + o ≡ c + (x + o)
    regroup c o = omega arith

-- The memory after the stores, in order.
abbrev pub deliver : List Store → Memory → Memory
deliver [] m = m
deliver (s ∷ ss) m = deliver ss (store s.width m s.address s.value)

-- None of the stores touches the `n` bytes at `b`.
abbrev pub Apart : (n b : ℕ) → List Store → Type 0
Apart n b [] = Unit {0}
Apart n b (s ∷ ss) = ((b + n ≤ s.address) ⊎ (s.address + s.width ≤ b)) × Apart n b ss

store_apart : (w : ℕ) (m : Memory) (a v b : ℕ) → ((b < a) ⊎ (a + w ≤ b)) → store w m a v b ≡ m b
store_apart w m a v b (inl below) = store_outside w m a v b below
store_apart w m a v b (inr above) = store_above w m a v b above

load-store_apart :
    (n w : ℕ) (m : Memory) (a v b : ℕ)
    → ((b + n ≤ a) ⊎ (a + w ≤ b))
    → load n (store w m a v) b ≡ load n m b
load-store_apart n w m a v b (inl below) =
    load_same n (store w m a v) m b (λ x p q. store_outside w m a v x (omega arith))
load-store_apart n w m a v b (inr above) =
    load_same n (store w m a v) m b (λ x p q. store_above w m a v x (omega arith))

pub load-deliver-Apart :
    (n b : ℕ) (ss : List Store) (m : Memory) → Apart n b ss → load n (deliver ss m) b ≡ load n m b
load-deliver-Apart n b [] m h = refl
load-deliver-Apart n b (s ∷ ss) m h =
    load-deliver-Apart n b ss (store s.width m s.address s.value) (h.1)
    ∙ load-store_apart n s.width m s.address s.value b (h.0)

-- A load of what the first store has written, if the later ones leave it.
pub load-deliver_first :
    (w a v : ℕ) (ss : List Store) (m : Memory)
    → Apart w a ss
    → load w (deliver ss (store w m a v)) a ≡ v % 256 ^ w
load-deliver_first w a v ss m h = load-deliver-Apart w a ss (store w m a v) h ∙ load-store w m a v

-- All the stores lie at `lo` or above.
abbrev pub AtLeast : ℕ → List Store → Type 0
AtLeast lo [] = Unit {0}
AtLeast lo (s ∷ ss) = (lo ≤ s.address) × AtLeast lo ss

pub AtLeast-Apart : (n b lo : ℕ) (ss : List Store) → b + n ≤ lo → AtLeast lo ss → Apart n b ss
AtLeast-Apart n b lo [] h a = tt
AtLeast-Apart n b lo (s ∷ ss) h a = (inl (omega (arith, a.0)), AtLeast-Apart n b lo ss h (a.1))

pub Apart-append :
    (n b : ℕ) (xs ys : List Store) → Apart n b xs → Apart n b ys → Apart n b (xs ++ ys)
Apart-append n b [] ys h k = k
Apart-append n b (x ∷ xs) ys h k = (h.0, Apart-append n b xs ys (h.1) k)

pub deliver-append :
    (xs ys : List Store) (m : Memory) → deliver (xs ++ ys) m ≡ deliver ys (deliver xs m)
deliver-append [] ys m = refl
deliver-append (x ∷ xs) ys m = deliver-append xs ys (store x.width m x.address x.value)

-- The stores after the first `n`.
abbrev pub later_stores : ℕ → List Store → List Store
later_stores zero ss = ss
later_stores (suc n) [] = []
later_stores (suc n) (s ∷ ss) = later_stores n ss
