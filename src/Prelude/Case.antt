-- ===== src/Prelude/Case.antt =====
-- unicode.ToUpper and unicode.ToLower of one code point: ASCII by rule, the others by tables of the
-- simple case mappings, `Upper` and `Lower`.
mod Upper
mod Lower
use Prim.Native.Nat.{ℕ, ◌+◌, ◌-◌, ◌<◌}
use mathlib.Core.Path.{◌≡◌, refl}
use mathlib.Core.Bool.{◌&&◌}
use native.Mathlib.Omega.{arith}
use schick.Prelude.Tests.{ltb, leb, if◌then◌else◌}
use schick.Prelude.CaseRow.{map_rune}
use Upper.{upper_rows}
use Lower.{lower_rows}

unfoldable pub upper_rune : ℕ → ℕ
upper_rune c =
    if ltb c 128 then (if leb b'a' c && leb c b'z' then c - 32 else c) else map_rune upper_rows c

unfoldable pub lower_rune : ℕ → ℕ
lower_rune c =
    if ltb c 128 then (if leb b'A' c && leb c b'Z' then c + 32 else c) else map_rune lower_rows c

-- ASCII that is no lower-case letter stays.
pub upper_rune_ascii : (c : ℕ) → c < b'a' → upper_rune c ≡ c
unfolding upper_rune
upper_rune_ascii c h = ground arith

upper_tests : (upper_rune b'k' ≡ b'K') × (upper_rune 0xe9 ≡ 0xc9) × (upper_rune 0x3b1 ≡ 0x391)
unfolding upper_rune map_rune
upper_tests = (refl, refl, refl)

lower_tests : (lower_rune b'K' ≡ b'k') × (lower_rune 0xc9 ≡ 0xe9) × (lower_rune 0x1e9e ≡ 0xdf)
unfolding lower_rune map_rune
lower_tests = (refl, refl, refl)
