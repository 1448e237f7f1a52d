-- ===== src/SoftMath/Modulo.antt =====
-- `__umodsi3`. The quotient that it also adds up is not returned.
use native.Mathlib.Nat.{add-mul-mod_self_left, mod-eq_of_lt, pow-suc, one-le-pow}
use lib_hsa.PacketProcessor.State.{◌>>=◌}
use mathlib.Core.Bool.{true, false}
use lib_hsa.Base.{
  ℕ, Option, zero, ◌≡◌, ◌<◌, some, if◌then◌else◌, ◌==◌, ltb, ◌*◌, suc, refl, none, leb, ◌^◌, ◌+◌,
  ◌-◌, u32, ◌%◌, ◌>>>◌, ◌/◌, ◌<<<◌, arith, ◌≤◌, Bool-cases, ◌∙◌, ap, inl, sym, inr,
}

-- The loop that shifts the denominator until its sign bit is set, for at most `fuel` rounds.
unfoldable pub left_justify : (fuel den qbit : ℕ) → Option (ℕ × ℕ)
left_justify zero den qbit = if ltb den (2 ^ 31) then none else some (den, qbit)
left_justify (suc fuel) den qbit =
    let rest = left_justify fuel (u32 (den <<< 1)) (u32 (qbit <<< 1)) in
    if ltb den (2 ^ 31) then rest else some (den, qbit)

-- The loop that subtracts, for at most `fuel` rounds.
unfoldable pub subtract_loop : (fuel num den qbit : ℕ) → Option ℕ
subtract_loop fuel num den zero = some num
subtract_loop zero num den (suc qbit) = none
subtract_loop (suc fuel) num den (suc qbit) =
    subtract_loop fuel (if leb den num then num - den else num) (den >>> 1) (suc qbit >>> 1)

unfoldable pub umodsi3 : (num den : ℕ) → Option ℕ
umodsi3 num den =
    if den == 0
    then some 0
    else left_justify 31 den 1 >>= λ (d : ℕ × ℕ). subtract_loop 32 num (d.0) (d.1)

-- One round of the second loop.
subtract_round :
    (fuel num den qbit : ℕ)
    → zero < qbit
    → subtract_loop (suc fuel) num den qbit
      ≡ subtract_loop fuel (if leb den num then num - den else num) (den / 2) (qbit / 2)
unfolding subtract_loop
subtract_round fuel num den zero h = absurd (omega arith)
subtract_round fuel num den (suc qbit) h = refl

subtract_done : (fuel num den : ℕ) → subtract_loop fuel num den 0 ≡ some num
unfolding subtract_loop
subtract_done zero num den = refl
subtract_done (suc fuel) num den = refl

-- What is left after a subtraction of a multiple.
left_over : (num d m : ℕ) → (if leb (d * m) num then num - d * m else num) % d ≡ num % d
left_over num d m = elim (Bool-cases (leb (d * m) num)) [
  | inl fits ↦
      let parts : num ≡ num - d * m + d * m = ground arith in
      rw fits (sym (ap (λ (x : ℕ). x % d) parts ∙ add-mul-mod_self_left (num - d * m) d m))
  | inr short ↦ rw short refl
]

subtract_loop_lem :
    (fuel k num d : ℕ)
    → k < fuel
    → num < 2 * (d * 2 ^ k)
    → subtract_loop fuel num (d * 2 ^ k) (2 ^ k) ≡ some (num % d)
subtract_loop_lem zero k num d h small = absurd (omega arith)
subtract_loop_lem (suc fuel) zero num d h small =
    subtract_round fuel num (d * 1) 1 (omega arith)
    ∙ subtract_done fuel (if leb (d * 1) num then num - d * 1 else num) (d * 1 / 2)
    ∙ ap (λ (x : ℕ). some x) (sym (mod-eq_of_lt below) ∙ left_over num d 1)
  where
    below : (if leb (d * 1) num then num - d * 1 else num) < d
    below = ground arith
subtract_loop_lem (suc fuel) (suc k) num d h small =
    subtract_round fuel num (d * 2 ^ suc k) (2 ^ suc k) (one-le-pow (suc k) 2 (omega arith))
    ∙ rw (half_den, half_bit)
        (subtract_loop_lem fuel k (if leb (d * 2 ^ suc k) num then num - d * 2 ^ suc k else num) d
            (omega arith) below
          ∙ ap (λ (x : ℕ). some x) (left_over num d (2 ^ suc k)))
  where
    twice : d * 2 ^ suc k ≡ 2 * (d * 2 ^ k)
    twice = omega (arith, ap (λ (t : ℕ). d * t) (pow-suc 2 k))

    half_den : d * 2 ^ suc k / 2 ≡ d * 2 ^ k
    half_den = omega (arith, twice)

    half_bit : 2 ^ suc k / 2 ≡ 2 ^ k
    half_bit = omega (arith, pow-suc 2 k)

    below : (if leb (d * 2 ^ suc k) num then num - d * 2 ^ suc k else num) < 2 * (d * 2 ^ k)
    below = ground (arith, twice)

justify_stop :
    (fuel den qbit : ℕ) → ltb den (2 ^ 31) ≡ false → left_justify fuel den qbit ≡ some (den, qbit)
unfolding left_justify
justify_stop zero den qbit h = rw h refl
justify_stop (suc fuel) den qbit h = rw h refl

justify_go :
    (fuel den qbit : ℕ)
    → ltb den (2 ^ 31) ≡ true
    → left_justify (suc fuel) den qbit ≡ left_justify fuel (u32 (den * 2)) (u32 (qbit * 2))
unfolding left_justify
justify_go fuel den qbit h = rw h refl

-- Where the first loop ends: the sign bit is set.
abbrev Justified : (fuel d j : ℕ) → Type 0
Justified fuel d j =
    (k : ℕ) × (left_justify fuel (d * 2 ^ j) (2 ^ j) ≡ some (d * 2 ^ k, 2 ^ k))
    × (2 ^ 31 ≤ d * 2 ^ k)
    × (k ≤ j + fuel)

left_justify_lem :
    (fuel d j : ℕ)
    → d * 2 ^ j < 2 ^ 32
    → 2 ^ j ≤ d * 2 ^ j
    → 2 ^ 31 ≤ d * 2 ^ (j + fuel)
    → Justified fuel d j
left_justify_lem zero d j small bit enough =
    let same : d * 2 ^ (j + 0) ≡ d * 2 ^ j = ap (λ (x : ℕ). d * 2 ^ x) (nothing j) in
    (j, justify_stop 0 (d * 2 ^ j) (2 ^ j) (ground (arith, same)), omega (arith, same), omega arith)
  where
    nothing : (j : ℕ) → j + 0 ≡ j
    nothing j = omega arith
left_justify_lem (suc fuel) d j small bit enough = elim (Bool-cases (ltb (d * 2 ^ j) (2 ^ 31))) [
  | inl more ↦
      let smaller : d * 2 ^ j < 2 ^ 31 = ground arith in
      let den_twice : u32 (d * 2 ^ j * 2) ≡ d * 2 ^ suc j = omega (arith, twice d j) in
      let bit_twice : u32 (2 ^ j * 2) ≡ 2 ^ suc j = omega (arith, pow-suc 2 j) in
      further more den_twice bit_twice (
        left_justify_lem fuel d (suc j) (omega (arith, twice d j))
          (omega (arith, twice d j, pow-suc 2 j))
          (omega (arith, ap (λ (x : ℕ). d * 2 ^ x) (shifted j fuel))))
  | inr stop ↦ (j, justify_stop (suc fuel) (d * 2 ^ j) (2 ^ j) stop, ground arith, omega arith)
]
  where
    twice : (d j : ℕ) → d * 2 ^ suc j ≡ 2 * (d * 2 ^ j)
    twice d j = omega (arith, ap (λ (t : ℕ). d * t) (pow-suc 2 j))

    shifted : (j fuel : ℕ) → j + suc fuel ≡ suc j + fuel
    shifted j fuel = omega arith

    further :
        ltb (d * 2 ^ j) (2 ^ 31) ≡ true
        → u32 (d * 2 ^ j * 2) ≡ d * 2 ^ suc j
        → u32 (2 ^ j * 2) ≡ 2 ^ suc j
        → Justified fuel d (suc j)
        → Justified (suc fuel) d j
    further more den_twice bit_twice (k, found, high, bound) = (
      k,
      justify_go fuel (d * 2 ^ j) (2 ^ j) more
          ∙ ap (λ (x : ℕ). left_justify fuel x (u32 (2 ^ j * 2))) den_twice
          ∙ ap (λ (x : ℕ). left_justify fuel (d * 2 ^ suc j) x) bit_twice
          ∙ found,
      high,
      omega arith,
    )

-- `__umodsi3` of 32-bit words ends, and gives the remainder; for the denominator 0 it gives 0.
pub umodsi3_lem :
    (num den : ℕ)
    → num < 2 ^ 32
    → den < 2 ^ 32
    → umodsi3 num den ≡ some (if den == 0 then 0 else num % den)
unfolding umodsi3
umodsi3_lem num den hn hd = elim (Bool-cases (den == 0)) [
  | inl zero_den ↦ rw zero_den refl
  | inr positive ↦ rw positive (
      divided (ground arith)
        (left_justify_lem 31 den 0 (omega arith) (ground arith) (ground arith)))
]
  where
    whole : (den : ℕ) → den ≡ den * 2 ^ 0
    whole den = omega arith

    divided :
        zero < den
        → Justified 31 den 0
        → (left_justify 31 den 1 >>= λ (d : ℕ × ℕ). subtract_loop 32 num (d.0) (d.1))
          ≡ some (num % den)
    divided positive (k, found, high, bound) =
        ap (λ (o : Option (ℕ × ℕ)). o >>= λ (d : ℕ × ℕ). subtract_loop 32 num (d.0) (d.1))
          (ap (λ (x : ℕ). left_justify 31 x 1) (whole den) ∙ found)
        ∙ subtract_loop_lem 32 k num den (omega arith) (omega arith)
