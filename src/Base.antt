-- ===== src/Base.antt =====
-- What the models of the processors share: names of the libraries, Boolean tests, arrays, words,
-- memory.
mod Tests
mod Lists
mod Word
mod Bytes
mod Stores
mod Xor
mod Codes
pub use Tests.*
pub use Lists.*
pub use Word.*
pub use Stores.*
pub use Xor.*
pub use Codes.*
pub use Bytes.{
  Memory, update, store_outside, store_above, copied_byte, load-store, load-bound, Store,
}
unfoldable pub use Bytes.{load, store}
pub use Prim.Native.Nat.{
  ℕ, zero, suc, ◌+◌, ◌-◌, ◌*◌, ◌/◌, ◌%◌, ◌^◌, ◌≤◌, ◌<◌, bit_and, bit_or, bit_xor,
}
pub use mathlib.Core.Path.{◌≡◌, refl, sym, ap, ◌∙◌}
pub use mathlib.Core.Logic.{◌≢◌, ◌⊎◌, inl, inr, ◌↔◌}
pub use mathlib.Core.Bool.{Bool, true, false, ◌&&◌, ◌||◌, not}
pub use mathlib.Core.Option.{Option, none, some}
pub use mathlib.Core.List.{List, [], ◌∷◌, ◌++◌, map}
pub use native.Mathlib.Omega.{arith}
