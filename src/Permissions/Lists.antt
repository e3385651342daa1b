-- ===== src/Permissions/Lists.antt =====
-- Dedupe (normalize.go): which entries stay, and what they grant.
use schick.Prelude.{
  ◌≡◌, ◌≢◌, inl, inr, Bool, true, false, not, ◌&&◌, List, [], ◌∷◌, arith, Text, ◌==◌, eq_iff,
  eq_refl, is_empty, Bool-cases,
}
use schick.Permissions.{any, grants, resource_wildcard_grants, dedupe_from, dedupe}
use schick.Permissions.Grants.{covers, grants-covers}

abbrev pub contains : List Text → Text → Bool
contains xs x = any (λ y. y == x) xs

abbrev pub HasNoRepeats : List Text → Type 0
HasNoRepeats [] = Unit
HasNoRepeats (x ∷ xs) = (contains xs x ≡ false) × HasNoRepeats xs

contains-dedupe_from :
    (seen ps : List Text) (x : Text)
    → contains (dedupe_from seen ps) x
      ≡ (not (is_empty x) && not (contains seen x) && contains ps x)
unfolding dedupe_from any
contains-dedupe_from seen [] x = ground arith
contains-dedupe_from seen (p ∷ ps) x =
    ground (arith, eq_iff p x, contains-dedupe_from seen ps x, contains-dedupe_from (p ∷ seen) ps x)

-- Dedupe keeps exactly the entries that are not empty.
pub contains-dedupe :
    (ps : List Text) (x : Text) → contains (dedupe ps) x ≡ (not (is_empty x) && contains ps x)
unfolding dedupe any
contains-dedupe ps x = ground (arith, contains-dedupe_from [] ps x)

dedupe_from-HasNoRepeats : (seen ps : List Text) → HasNoRepeats (dedupe_from seen ps)
unfolding dedupe_from any
dedupe_from-HasNoRepeats seen [] = tt
dedupe_from-HasNoRepeats seen (p ∷ ps) = ground (
  arith,
  eq_refl p,
  contains-dedupe_from (p ∷ seen) ps p,
  dedupe_from-HasNoRepeats seen ps,
  dedupe_from-HasNoRepeats (p ∷ seen) ps,
)

any_of_contains :
    (q : Text → Bool) (ys : List Text) (x : Text)
    → contains ys x ≡ true
    → q x ≡ true
    → any q ys ≡ true
unfolding any
any_of_contains q [] x h k = cc
any_of_contains q (y ∷ ys) x h k = ground (arith, eq_iff y x, any_of_contains q ys x)

any_mono :
    (q : Text → Bool) (xs ys : List Text)
    → ((x : Text) → contains xs x ≡ true → q x ≡ true → contains ys x ≡ true)
    → any q xs ≡ true
    → any q ys ≡ true
unfolding any
any_mono q [] ys keep h = cc
any_mono q (x ∷ xs) ys keep h = elim (Bool-cases (q x)) [
  | inl e ↦ any_of_contains q ys x (keep x (rw (eq_refl x)) e) e
  | inr n ↦ any_mono q xs ys (λ y c d. keep y (ground arith) d) (rw n at h)
]

Bool-ext : (a b : Bool) → (a ≡ true → b ≡ true) → (b ≡ true → a ≡ true) → a ≡ b
Bool-ext true b f g = ground arith
Bool-ext false b f g = ground arith

covers_empty : (required : Text) → required ≢ [] → covers required [] ≡ false
unfolding covers resource_wildcard_grants
covers_empty required ne = ground (arith, eq_iff [] required)

keep_from :
    (ps : List Text) (required : Text)
    → required ≢ []
    → (x : Text) → contains ps x ≡ true
    → covers required x ≡ true
    → contains (dedupe ps) x ≡ true
keep_from ps required ne [] c q = cc (covers_empty required ne)
keep_from ps required ne (d ∷ x) c q = ground (arith, contains-dedupe ps (d ∷ x))

-- Dedupe changes nothing of what a list grants, for a permission that is not empty.
pub grants-dedupe :
    (ps : List Text) (required : Text)
    → required ≢ []
    → grants (dedupe ps) required ≡ grants ps required
grants-dedupe ps required ne = simp grants-covers (
    Bool-ext _ _
      (any_mono (covers required) (dedupe ps) ps (λ x c q. ground (arith, contains-dedupe ps x)))
      (any_mono (covers required) ps (dedupe ps) (keep_from ps required ne)))
