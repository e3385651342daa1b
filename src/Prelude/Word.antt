-- ===== src/Prelude/Word.antt =====
-- Go's `int` and `int64`: integers that every operation wraps to 64 bits.
use Prim.Native.Nat.{ℕ, ◌+◌, ◌-◌, ◌*◌, ◌≤◌, ◌<◌, ◌%◌, ◌^◌}
use mathlib.Core.Path.{◌≡◌, refl}
use native.Mathlib.Omega.{arith}
use schick.Prelude.Tests.{ltb, if◌then◌else◌}
use schick.Prelude.Int.{ℤ, pos, negsuc, pos_part, neg_part, ◌+ℤ◌, ◌-ℤ◌, ◌*ℤ◌}

-- The integer that a 64-bit pattern stands for, and back.
abbrev of_bits : ℕ → ℤ
of_bits w = if ltb w (2 ^ 63) then pos w else negsuc (2 ^ 64 - 1 - w)

abbrev to_bits : ℤ → ℕ
to_bits (pos n) = n % 2 ^ 64
to_bits (negsuc n) = 2 ^ 64 - 1 - n % 2 ^ 64

unfoldable pub wrap : ℤ → ℤ
wrap a = of_bits (to_bits a)

unfoldable pub add : ℤ → ℤ → ℤ
add a b = wrap (a +ℤ b)

unfoldable pub sub : ℤ → ℤ → ℤ
sub a b = wrap (a -ℤ b)

unfoldable pub mul : ℤ → ℤ → ℤ
mul a b = wrap (a *ℤ b)

-- The range of the type.
abbrev pub IsInt64 : ℤ → Type 0
IsInt64 a = (pos_part a < 2 ^ 63) × (neg_part a ≤ 2 ^ 63)

pub wrap-IsInt64 : (a : ℤ) → IsInt64 (wrap a)
unfolding wrap
wrap-IsInt64 (pos n) = ground arith
wrap-IsInt64 (negsuc n) = ground arith

pub wrap_of_IsInt64 : (a : ℤ) → IsInt64 a → wrap a ≡ a
unfolding wrap
wrap_of_IsInt64 (pos n) h = ground arith
wrap_of_IsInt64 (negsuc n) h = ground arith

-- Where the exact result is in range it is the result.
pub add_of_IsInt64 : (a b : ℤ) → IsInt64 (a +ℤ b) → add a b ≡ a +ℤ b
unfolding add
add_of_IsInt64 a b h = wrap_of_IsInt64 (a +ℤ b) h

pub sub_of_IsInt64 : (a b : ℤ) → IsInt64 (a -ℤ b) → sub a b ≡ a -ℤ b
unfolding sub
sub_of_IsInt64 a b h = wrap_of_IsInt64 (a -ℤ b) h

pub add-IsInt64 : (a b : ℤ) → IsInt64 (add a b)
unfolding add
add-IsInt64 a b = wrap-IsInt64 (a +ℤ b)

pub add-pos : (a b : ℕ) → a + b < 2 ^ 63 → add (pos a) (pos b) ≡ pos (a + b)
unfolding add ◌+ℤ◌
add-pos a b h = ground (arith, wrap_of_IsInt64 (pos (a + b)))

pub sub-pos : (a b : ℕ) → b ≤ a → a < 2 ^ 63 → sub (pos a) (pos b) ≡ pos (a - b)
unfolding sub ◌-ℤ◌
sub-pos a b h k = ground (arith, wrap_of_IsInt64 (pos (a - b)))

pub mul-pos : (a b : ℕ) → a * b < 2 ^ 63 → mul (pos a) (pos b) ≡ pos (a * b)
unfolding mul ◌*ℤ◌
mul-pos a b h = ground (arith, wrap_of_IsInt64 (pos (a * b)))

wrap_tests :
    (wrap (pos (2 ^ 63)) ≡ negsuc (2 ^ 63 - 1)) × (wrap (negsuc (2 ^ 63)) ≡ pos (2 ^ 63 - 1))
unfolding wrap
wrap_tests = (refl, refl)
