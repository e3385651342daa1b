-- ===== src/Prelude/Strings/Trim.antt =====
-- What TrimSpace leaves.
use Prim.Native.Nat.{ℕ}
use mathlib.Core.Logic.{inl, inr}
use mathlib.Core.Path.{◌≡◌, refl, ◌∙◌, ap}
use mathlib.Core.Bool.{false}
use mathlib.Core.List.{[], ◌∷◌}
use native.Mathlib.Omega.{arith}
use schick.Prelude.Tests.{Bool-cases}
use schick.Prelude.Strings.{Text, is_space, keep_unless_last, trim_left, trim_right, trim}

-- What does not begin with a space.
abbrev IsSolid : Text → Type 0
IsSolid [] = Unit
IsSolid (c ∷ s) = is_space c ≡ false

trim_left-IsSolid : (s : Text) → IsSolid (trim_left s)
unfolding trim_left
trim_left-IsSolid [] = tt
trim_left-IsSolid (c ∷ s) = elim (Bool-cases (is_space c)) [
  | inl e ↦ rw e (trim_left-IsSolid s)
  | inr e ↦ rw e e
]

trim_left_of_IsSolid : (s : Text) → IsSolid s → trim_left s ≡ s
unfolding trim_left
trim_left_of_IsSolid [] h = refl
trim_left_of_IsSolid (c ∷ s) h = rw h

keep_of_solid : (c : ℕ) (s : Text) → is_space c ≡ false → keep_unless_last c s ≡ c ∷ s
keep_of_solid c [] h = rw h
keep_of_solid c (d ∷ s) h = refl

trim_right-IsSolid : (s : Text) → IsSolid s → IsSolid (trim_right s)
unfolding trim_right
trim_right-IsSolid [] h = tt
trim_right-IsSolid (c ∷ s) h = rw (keep_of_solid c (trim_right s) h) h

trim_right-keep :
    (c : ℕ) (s : Text) → trim_right s ≡ s → trim_right (keep_unless_last c s) ≡ keep_unless_last c s
unfolding trim_right
trim_right-keep c [] h = ground arith
trim_right-keep c (d ∷ s) h = ap (keep_unless_last c) h

trim_right_idem : (s : Text) → trim_right (trim_right s) ≡ trim_right s
unfolding trim_right
trim_right_idem [] = refl
trim_right_idem (c ∷ s) = trim_right-keep c (trim_right s) (trim_right_idem s)

pub trim_idem : (s : Text) → trim (trim s) ≡ trim s
unfolding trim
trim_idem s =
    ap trim_right (
      trim_left_of_IsSolid (trim_right (trim_left s))
        (trim_right-IsSolid (trim_left s) (trim_left-IsSolid s)))
    ∙ trim_right_idem (trim_left s)

pub trim-nil : trim [] ≡ []
unfolding trim trim_left trim_right
trim-nil = refl

-- A text with no space in it is trimmed.
abbrev pub HasNoSpace : Text → Type 0
HasNoSpace [] = Unit
HasNoSpace (c ∷ s) = (is_space c ≡ false) × HasNoSpace s

trim_right_of_HasNoSpace : (s : Text) → HasNoSpace s → trim_right s ≡ s
unfolding trim_right
trim_right_of_HasNoSpace [] h = refl
trim_right_of_HasNoSpace (c ∷ s) h =
    keep_of_solid c (trim_right s) h.0 ∙ ap (λ (r : Text). c ∷ r) (trim_right_of_HasNoSpace s h.1)

pub trim_of_HasNoSpace : (s : Text) → HasNoSpace s → trim s ≡ s
unfolding trim trim_left trim_right
trim_of_HasNoSpace [] h = refl
trim_of_HasNoSpace (c ∷ s) h = rw h.0 (trim_right_of_HasNoSpace (c ∷ s) h)
