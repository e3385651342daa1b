-- ===== src/Prelude/Strings.antt =====
-- Go strings as lists of code points, and what the program uses of the packages strings and
-- unicode/utf8: `==`, `<`, `TrimSpace`, `ToUpper`, `ToLower`, `HasPrefix`, `HasSuffix`, `TrimSuffix`.
-- The strings are taken to be valid UTF-8; `<` on bytes and on code points is then the same order.
pub mod Trim
use Prim.Native.Nat.{ℕ}
use Prim.Native.Char.{code}
use Prim.Native.String.{String}
use mathlib.Core.Path.{◌≡◌, refl, ap}
use mathlib.Core.Logic.{◌↔◌, ◌≢◌, inl, inr}
use mathlib.Core.Bool.{Bool, true, false, ◌&&◌, ◌||◌}
use mathlib.Core.List.{List, [], ◌∷◌, ◌++◌, map}
use native.Mathlib.Omega.{arith}
use schick.Prelude.Tests.{ltb, leb, eqb, if◌then◌else◌, Bool-cases}
use schick.Prelude.Lists.{length, length-append}
use schick.Prelude.Case.{upper_rune, lower_rune}

abbrev pub Text : Type 0
Text = List ℕ

-- The code points of a literal. `String` has its own `[]` and `∷`.
abbrev pub codes : String → Text
codes String.[] = []
codes (String.◌∷◌ c s) = code c ∷ codes s

infix 50 ◌==◌
unfoldable pub ◌==◌ : Text → Text → Bool
[] == [] = true
[] == (d ∷ t) = false
(c ∷ s) == [] = false
(c ∷ s) == (d ∷ t) = eqb c d && (s == t)

pub eq_iff : (s t : Text) → ((s == t) ≡ true) ↔ (s ≡ t)
unfolding ◌==◌
eq_iff [] [] = ground arith
eq_iff [] (d ∷ t) = ground arith
eq_iff (c ∷ s) [] = ground arith
eq_iff (c ∷ s) (d ∷ t) = ground (arith, eq_iff s t)

pub eq_refl : (s : Text) → (s == s) ≡ true
eq_refl s = (eq_iff s s).1 refl

abbrev pub is_empty : Text → Bool
is_empty [] = true
is_empty (c ∷ s) = false

-- The order of Go's `<` on strings.
unfoldable pub text_ltb : Text → Text → Bool
text_ltb s [] = false
text_ltb [] (d ∷ t) = true
text_ltb (c ∷ s) (d ∷ t) = ltb c d || (eqb c d && text_ltb s t)

-- unicode.IsSpace
unfoldable pub is_space : ℕ → Bool
is_space c =
    (leb 9 c && leb c 13)
    || eqb c 32
    || eqb c 0x85
    || eqb c 0xa0
    || eqb c 0x1680
    || (leb 0x2000 c && leb c 0x200a)
    || eqb c 0x2028
    || eqb c 0x2029
    || eqb c 0x202f
    || eqb c 0x205f
    || eqb c 0x3000

unfoldable pub trim_left : Text → Text
trim_left [] = []
trim_left (c ∷ s) = if is_space c then trim_left s else c ∷ s

-- One step of the trim from the right: a space goes if nothing is left behind it.
abbrev keep_unless_last : ℕ → Text → Text
keep_unless_last c [] = if is_space c then [] else c ∷ []
keep_unless_last c (d ∷ s) = c ∷ d ∷ s

unfoldable pub trim_right : Text → Text
trim_right [] = []
trim_right (c ∷ s) = keep_unless_last c (trim_right s)

-- strings.TrimSpace
unfoldable pub trim : Text → Text
trim s = trim_right (trim_left s)

-- strings.ToUpper, strings.ToLower
unfoldable pub to_upper : Text → Text
to_upper s = map upper_rune s

unfoldable pub to_lower : Text → Text
to_lower s = map lower_rune s

-- strings.HasPrefix, strings.HasSuffix, strings.TrimSuffix
unfoldable pub has_prefix : Text → Text → Bool
has_prefix s [] = true
has_prefix [] (d ∷ t) = false
has_prefix (c ∷ s) (d ∷ t) = eqb c d && has_prefix s t

unfoldable pub has_suffix : Text → Text → Bool
unfolding ◌==◌
has_suffix [] t = is_empty t
has_suffix (c ∷ s) t = (c ∷ s) == t || has_suffix s t

unfoldable pub trim_suffix : Text → Text → Text
unfolding ◌==◌
trim_suffix [] t = []
trim_suffix (c ∷ s) t = if (c ∷ s) == t then [] else c ∷ trim_suffix s t

pub has_prefix_iff : (s t : Text) → (has_prefix s t ≡ true) ↔ ((r : Text) × (s ≡ t ++ r))
unfolding has_prefix
has_prefix_iff s [] = ((λ h. (s, refl)), λ h. refl)
has_prefix_iff [] (d ∷ t) = ground arith
has_prefix_iff (c ∷ s) (d ∷ t) = (
  λ h. let (r, e) = (has_prefix_iff s t).0 (ground arith) in (r, ground arith),
  λ (r, e). ground (arith, (has_prefix_iff s t).1 (r, tail_eq r e)),
)
  where
    tail_eq : (r : Text) → (c ∷ s) ≡ d ∷ (t ++ r) → s ≡ t ++ r
    tail_eq r e = cc

-- A text with the suffix is the trimmed text followed by it.
pub trim_suffix-append : (s t : Text) → has_suffix s t ≡ true → s ≡ trim_suffix s t ++ t
unfolding has_suffix trim_suffix
trim_suffix-append [] [] h = refl
trim_suffix-append [] (d ∷ t) h = cc
trim_suffix-append (c ∷ s) t h = elim (Bool-cases ((c ∷ s) == t)) [
  | inl e ↦ rw e ((eq_iff (c ∷ s) t).0 e)
  | inr e ↦ rw e (ap (λ (r : Text). c ∷ r) (trim_suffix-append s t (ground arith)))
]

pub has_suffix-append : (s t : Text) → has_suffix (s ++ t) t ≡ true
unfolding has_suffix
has_suffix-append [] [] = refl
has_suffix-append [] (d ∷ t) = rw (eq_refl (d ∷ t))
has_suffix-append (c ∷ s) t = ground (arith, has_suffix-append s t)

-- A text is not the proper end of itself.
append-ne : (c : ℕ) (s t : Text) → (c ∷ s ++ t) ≢ t
append-ne c s t e = absurd (omega (arith, ap length e, length-append s t))

pub trim_suffix_of_append : (s t : Text) → trim_suffix (s ++ t) t ≡ s
unfolding trim_suffix
trim_suffix_of_append [] [] = refl
trim_suffix_of_append [] (d ∷ t) = rw (eq_refl (d ∷ t))
trim_suffix_of_append (c ∷ s) t = elim (Bool-cases ((c ∷ s ++ t) == t)) [
  | inl e ↦ absurd (append-ne c s t ((eq_iff (c ∷ s ++ t) t).0 e))
  | inr e ↦ rw e (ap (λ (r : Text). c ∷ r) (trim_suffix_of_append s t))
]
