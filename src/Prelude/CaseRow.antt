-- ===== src/Prelude/CaseRow.antt =====
-- A row of a table of case mappings: the code points `first`, `first + step`, … up to `last` go to
-- `target`, `target + step`, ….
use Prim.Native.Nat.{ℕ, ◌+◌, ◌-◌, ◌%◌}
use mathlib.Core.Bool.{Bool, ◌&&◌}
use mathlib.Core.List.{List, [], ◌∷◌}
use schick.Prelude.Tests.{leb, eqb, if◌then◌else◌}

pub data Row : Type 0 where
  row : ℕ → ℕ → ℕ → ℕ → Row

abbrev in_row : ℕ → Row → Bool
in_row c (row first last step target) = leb first c && leb c last && eqb ((c - first) % step) 0

abbrev map_row : ℕ → Row → ℕ
map_row c (row first last step target) = c - first + target

-- A code point that no row names stays as it is.
unfoldable pub map_rune : List Row → ℕ → ℕ
map_rune [] c = c
map_rune (r ∷ rs) c = if in_row c r then map_row c r else map_rune rs c
