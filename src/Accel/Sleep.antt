-- ===== src/Accel/Sleep.antt =====
-- `sleep`: a loop on the variable `sleep_var`, which other calls share.
use lib_hsa.Base.{
  ℕ, Option, ◌<◌, if◌then◌else◌, ltb, ◌^◌, none, ◌-◌, some, ◌≤◌, ◌≡◌, suc, u32, false, ◌+◌, arith,
  Bool-cases, inl, inr, refl,
}
use Prim.Native.Nat.{zero}

-- The loop, for at most `fuel` rounds; the result is the value of `sleep_var` after the call.
unfoldable pub sleep : (fuel counter sleep_var : ℕ) → Option ℕ
sleep zero counter sleep_var = if ltb sleep_var counter then none else some 0
sleep (suc fuel) counter sleep_var =
    let rest = sleep fuel counter (u32 (sleep_var + 1)) in
    if ltb sleep_var counter then rest else some 0

-- `sleep` ends for every counter and every value of the variable, also the largest, after at most as
-- many rounds as the counter is ahead of the variable, and leaves 0 in the variable.
pub sleep_lem :
    (fuel counter sleep_var : ℕ)
    → counter < 2 ^ 32
    → counter - sleep_var ≤ fuel
    → sleep fuel counter sleep_var ≡ some 0
unfolding sleep
sleep_lem zero counter sleep_var word enough =
    let done : ltb sleep_var counter ≡ false = ground arith in rw done refl
sleep_lem (suc fuel) counter sleep_var word enough = elim (Bool-cases (ltb sleep_var counter)) [
  | inl more ↦ rw more (sleep_lem fuel counter (u32 (sleep_var + 1)) word (ground arith))
  | inr done ↦ rw done refl
]
