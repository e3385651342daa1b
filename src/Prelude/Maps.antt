-- ===== src/Prelude/Maps.antt =====
-- Go maps with string keys as association lists.
use mathlib.Core.Path.{◌≡◌, refl}
use mathlib.Core.Option.{Option, none, some}
use mathlib.Core.List.{List, [], ◌∷◌}
use native.Mathlib.Omega.{arith}
use mathlib.Core.Logic.{◌⊎◌, inl, inr}
use schick.Prelude.Tests.{if◌then◌else◌, Bool-cases}
use schick.Prelude.Strings.{Text, ◌==◌, eq_iff, eq_refl}

module _ {ℓ} {V : Type ℓ} where
  unfoldable pub lookup : Text → List (Text × V) → Option V
  lookup k [] = none
  lookup k ((j, v) ∷ m) = if j == k then some v else lookup k m

  unfoldable pub insert : Text → V → List (Text × V) → List (Text × V)
  insert key new [] = (key, new) ∷ []
  insert key new ((at_key, old) ∷ rest) =
      if at_key == key then (key, new) ∷ rest else (at_key, old) ∷ insert key new rest

  unfoldable pub delete : Text → List (Text × V) → List (Text × V)
  delete k [] = []
  delete k ((j, w) ∷ m) = if j == k then delete k m else (j, w) ∷ delete k m

  pub lookup-insert :
      (set wanted : Text) (new : V) (m : List (Text × V))
      → lookup wanted (insert set new m) ≡ (if set == wanted then some new else lookup wanted m)
  unfolding lookup insert
  lookup-insert set wanted new [] = refl
  lookup-insert set wanted new ((at_key, old) ∷ rest) = ground (
    arith,
    lookup-insert set wanted new rest,
    eq_iff at_key set,
    eq_iff set wanted,
    eq_iff at_key wanted,
  )

  pub lookup-delete :
      (k j : Text) (m : List (Text × V))
      → lookup j (delete k m) ≡ (if k == j then none else lookup j m)
  unfolding lookup delete
  lookup-delete k j [] = ground arith
  lookup-delete k j ((i, w) ∷ m) =
      ground (arith, eq_iff k j, eq_iff i k, eq_iff i j, lookup-delete k j m)

  -- What is found after an insertion is what was inserted, or was there before.
  pub found-insert :
      (k j : Text) (v w : V) (m : List (Text × V))
      → lookup j (insert k v m) ≡ some w
      → ((j ≡ k) × (w ≡ v)) ⊎ (lookup j m ≡ some w)
  found-insert k j v w m h = elim (Bool-cases (k == j)) [
    | inl e ↦ inl (ground (arith, eq_iff k j), ground (arith, lookup-insert k j v m))
    | inr e ↦ inr (ground (arith, lookup-insert k j v m))
  ]

  pub insert_twice :
      (k : Text) (v : V) (m : List (Text × V)) → insert k v (insert k v m) ≡ insert k v m
  unfolding insert
  insert_twice k v [] = ground (arith, eq_refl k)
  insert_twice k v ((j, w) ∷ m) = ground (arith, eq_refl k, insert_twice k v m)
