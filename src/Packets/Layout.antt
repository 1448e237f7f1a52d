-- ===== src/Packets/Layout.antt =====
-- How C lays out the members of a struct, and the four formats of packets.
use lib_hsa.Base.{
  ℕ, ◌+◌, ◌-◌, ◌*◌, ◌/◌, Option, none, some, if◌then◌else◌, Text, codes, same_text, ltb,
}
use Prim.Native.String.{String}
use mathlib.Core.List.{List, [], ◌∷◌}

-- The names of an enumeration and their numbers.
abbrev pub Enumeration : Type 0
Enumeration = List (Text × ℕ)

-- A member, or an array of `count`; a member of `size` bytes is aligned to as many.
pub record Member : Type 0 where
  pub name : Text
  pub size : ℕ
  pub count : ℕ

abbrev pub member : String → ℕ → ℕ → Member
member name size count = record { name = codes name; size = size; count = count }

pub data Format : Type 0 where
  kernel_dispatch_format agent_dispatch_format barrier_and_format barrier_or_format : Format

-- The next multiple of an alignment.
abbrev align_up : (alignment : ℕ) → ℕ → ℕ
align_up alignment n = (n + (alignment - 1)) / alignment * alignment

-- Where a member begins, from a position on.
abbrev pub offset_from : ℕ → List Member → Text → Option ℕ
offset_from at [] name = none
offset_from at (m ∷ ms) name =
    let begin = align_up m.size at in
    let later = offset_from (begin + m.size * m.count) ms name in
    if same_text m.name name then some begin else later

abbrev pub offset_of : List Member → Text → Option ℕ
offset_of = offset_from 0

-- Where the members end, and the largest alignment.
abbrev end_from : ℕ → List Member → ℕ
end_from at [] = at
end_from at (m ∷ ms) = end_from (align_up m.size at + m.size * m.count) ms

abbrev largest : List Member → ℕ
largest [] = 1
largest (m ∷ ms) = let later = largest ms in if ltb later m.size then m.size else later

-- `sizeof`
abbrev pub size_of : List Member → ℕ
size_of ms = align_up (largest ms) (end_from 0 ms)

-- The bytes of the members alone.
abbrev pub packed_size : List Member → ℕ
packed_size [] = 0
packed_size (m ∷ ms) = m.size * m.count + packed_size ms
