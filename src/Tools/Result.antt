-- ===== src/Tools/Result.antt =====
-- How a host tool ends: with a result, with a message and EXIT_FAILURE, or in what the language
-- leaves undefined or ends by an exception.
use lib_hsa.Base.{Option, none, some}

-- `out_of_fuel` belongs to the model only.
pub data Failure : Type 0 where
  exit_failure undefined out_of_fuel : Failure

pub data Result {ℓ} (A : Type ℓ) : Type ℓ where
  ok : A → Result A
  fail : Failure → Result A

infixl 1 ◌>>=◌
abbrev pub ◌>>=◌ {ℓ κ} : {A : Type ℓ} {B : Type κ} → Result A → (A → Result B) → Result B
ok a >>= f = f a
fail e >>= f = fail e

-- A step of the language that is undefined, or raises an exception, where it gives nothing.
abbrev pub defined {ℓ} : {A : Type ℓ} → Option A → Result A
defined none = fail undefined
defined (some a) = ok a
