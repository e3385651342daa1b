-- ===== src/Prelude/Decimal.antt =====
-- The decimal numerals that `%d` and `%06d` print, and their value.
use Prim.Native.Nat.{ℕ, zero, suc, ◌+◌, ◌-◌, ◌*◌, ◌/◌, ◌%◌, ◌<◌}
use mathlib.Core.Path.{◌≡◌, refl, sym, ap, ◌∙◌}
use mathlib.Core.List.{[], ◌∷◌, ◌++◌}
use native.Mathlib.Omega.{arith}
use schick.Prelude.Tests.{ltb, if◌then◌else◌, Bool-cases}
use schick.Prelude.Int.{ℤ, pos, negsuc}
use schick.Prelude.Lists.{length}
use schick.Prelude.Strings.{Text, codes}
use mathlib.Core.Logic.{inl, inr}

-- The digits of n in front of the text, on fuel: n + 1 is enough.
unfoldable pub digits_onto : ℕ → ℕ → Text → Text
digits_onto zero n text = text
digits_onto (suc fuel) n text =
    let rest = digits_onto fuel (n / 10) ((48 + n % 10) ∷ text) in
    if ltb n 10 then (48 + n) ∷ text else rest

unfoldable pub decimal : ℕ → Text
decimal n = digits_onto (suc n) n []

-- Zeros in front, up to the width.
unfoldable pub zeros_onto : ℕ → Text → Text
zeros_onto zero text = text
zeros_onto (suc n) text = 48 ∷ zeros_onto n text

-- `%06d` of a number that is not negative
unfoldable pub decimal6 : ℕ → Text
decimal6 n = zeros_onto (6 - length (decimal n)) (decimal n)

-- `%06d`
abbrev pub padded : ℤ → Text
padded (pos n) = decimal6 n
padded (negsuc n) = codes "-" ++ zeros_onto (5 - length (decimal (n + 1))) (decimal (n + 1))

unfoldable value_from : ℕ → Text → ℕ
value_from v [] = v
value_from v (c ∷ cs) = value_from (v * 10 + (c - 48)) cs

value-digits_onto :
    (fuel n : ℕ) (text : Text)
    → n < fuel
    → value_from 0 (digits_onto fuel n text) ≡ value_from n text
unfolding digits_onto value_from
value-digits_onto zero n text h = omega arith
value-digits_onto (suc fuel) n text h = elim (Bool-cases (ltb n 10)) [
  | inl e ↦ rw e (ap (λ v. value_from v text) (omega arith))
  | inr e ↦ rw e (
      value-digits_onto fuel (n / 10) ((48 + n % 10) ∷ text) (ground arith)
      ∙ ap (λ v. value_from v text) (omega arith))
]

value-zeros_onto : (n : ℕ) (text : Text) → value_from 0 (zeros_onto n text) ≡ value_from 0 text
unfolding zeros_onto value_from
value-zeros_onto zero text = refl
value-zeros_onto (suc n) text = value-zeros_onto n text

value-decimal : (n : ℕ) → value_from 0 (decimal n) ≡ n
unfolding decimal value_from
value-decimal n = value-digits_onto (suc n) n [] (omega arith)

value-decimal6 : (n : ℕ) → value_from 0 (decimal6 n) ≡ n
unfolding decimal6
value-decimal6 n = value-zeros_onto (6 - length (decimal n)) (decimal n) ∙ value-decimal n

-- Two numbers with one numeral are one number.
pub decimal6_injective : (m n : ℕ) → decimal6 m ≡ decimal6 n → m ≡ n
decimal6_injective m n h = sym (value-decimal6 m) ∙ ap (value_from 0) h ∙ value-decimal6 n

decimal6_tests :
    (decimal6 7 ≡ codes "000007")
    × (decimal6 1234567 ≡ codes "1234567")
    × (decimal6 0 ≡ codes "000000")
unfolding decimal6 decimal digits_onto zeros_onto
decimal6_tests = (refl, refl, refl)
