-- ===== src/Profile/Weights.antt =====
-- Numbers added up over the addresses, and what the repository's changes do to them.
use schick.Prelude.{
  ℕ, ◌+◌, ◌≤◌, ◌≡◌, inl, inr, refl, ◌&&◌, List, [], ◌∷◌, some, Text, arith, ◌==◌, eq_iff,
  if◌then◌else◌, lookup, insert, delete, Bool-cases, if_rule_eq, All,
}
use schick.Profile.{Address, count_of, cleared_address, cleared, without_user}

-- A number for each address, added up.
abbrev pub weight : (Address → ℕ) → List (Text × Address) → ℕ
weight f [] = 0
weight f ((k, a) ∷ m) = f a + weight f m

abbrev pub owned_by : Text → Address → ℕ
owned_by user a = if a.user_id == user then 1 else 0

abbrev pub default_of : Text → Address → ℕ
default_of user a = if a.user_id == user && a.is_default then 1 else 0

abbrev pub IsKeyed : List (Text × Address) → Type 0
IsKeyed m = All (λ (e : Text × Address). e.1.id ≡ e.0) m

pub weight-insert :
    (f : Address → ℕ) (k : Text) (a : Address) (m : List (Text × Address))
    → weight f (insert k a m) ≤ f a + weight f m
unfolding insert
weight-insert f k a [] = ground arith
weight-insert f k a ((j, b) ∷ m) = ground (arith, weight-insert f k a m)

pub weight_of_replaced :
    (f : Address → ℕ) (k : Text) (a old : Address) (m : List (Text × Address))
    → lookup k m ≡ some old
    → weight f (insert k a m) + f old ≡ f a + weight f m
unfolding insert lookup
weight_of_replaced f k a old [] found = ground arith
weight_of_replaced f k a old ((j, b) ∷ m) found = elim (Bool-cases (j == k)) [
  | inl e ↦ grind arith
  | inr e ↦ ground (arith, weight_of_replaced f k a old m (ground arith))
]

pub weight-delete :
    (f : Address → ℕ) (k : Text) (m : List (Text × Address)) → weight f (delete k m) ≤ weight f m
unfolding delete
weight-delete f k [] = ground arith
weight-delete f k ((j, b) ∷ m) = ground (arith, weight-delete f k m)

pub weight-without_user :
    (f : Address → ℕ) (user : Text) (m : List (Text × Address))
    → weight f (without_user user m) ≤ weight f m
unfolding without_user
weight-without_user f user [] = ground arith
weight-without_user f user ((j, b) ∷ m) = ground (arith, weight-without_user f user m)

pub owned-cleared :
    (user u : Text) (now : ℕ) (m : List (Text × Address))
    → weight (owned_by u) (cleared user now m) ≡ weight (owned_by u) m
unfolding cleared
owned-cleared user u now [] = refl
owned-cleared user u now ((k, a) ∷ m) = ground (arith, owned-cleared user u now m)

pub defaults-cleared :
    (user u : Text) (now : ℕ) (m : List (Text × Address))
    → weight (default_of u) (cleared user now m)
      ≡ (if user == u then 0 else weight (default_of u) m)
unfolding cleared
defaults-cleared user u now [] = ground arith
defaults-cleared user u now ((k, a) ∷ m) =
    ground (
      arith,
      defaults-cleared user u now m,
      eq_iff user u,
      eq_iff a.user_id user,
      eq_iff a.user_id u,
    )

pub lookup-cleared :
    (user k : Text) (now : ℕ) (a : Address) (m : List (Text × Address))
    → lookup k m ≡ some a
    → lookup k (cleared user now m) ≡ some (cleared_address user now a)
unfolding lookup cleared
lookup-cleared user k now a [] found = ground arith
lookup-cleared user k now a ((j, b) ∷ m) found = elim (Bool-cases (j == k)) [
  | inl e ↦ grind arith
  | inr e ↦ ground (arith, lookup-cleared user k now a m (ground arith))
]

pub count_of-weight : (u : Text) (m : List (Text × Address)) → count_of u m ≡ weight (owned_by u) m
unfolding count_of
count_of-weight u [] = refl
count_of-weight u ((k, a) ∷ m) = ground (arith, count_of-weight u m)

pub IsKeyed-insert :
    (a : Address) (m : List (Text × Address)) → IsKeyed m → IsKeyed (insert a.id a m)
unfolding insert
IsKeyed-insert a [] h = (refl, tt)
IsKeyed-insert a ((j, b) ∷ m) (h, hs) =
    if_rule_eq IsKeyed (j == a.id) (λ _. (refl, hs)) (λ _. (h, IsKeyed-insert a m hs))

pub IsKeyed-delete : (k : Text) (m : List (Text × Address)) → IsKeyed m → IsKeyed (delete k m)
unfolding delete
IsKeyed-delete k [] h = tt
IsKeyed-delete k ((j, b) ∷ m) (h, hs) =
    if_rule_eq IsKeyed (j == k) (λ _. IsKeyed-delete k m hs) (λ _. (h, IsKeyed-delete k m hs))

pub IsKeyed-without_user :
    (u : Text) (m : List (Text × Address)) → IsKeyed m → IsKeyed (without_user u m)
unfolding without_user
IsKeyed-without_user u [] h = tt
IsKeyed-without_user u ((j, b) ∷ m) (h, hs) =
    if_rule_eq IsKeyed (b.user_id == u) (λ _. IsKeyed-without_user u m hs)
      (λ _. (h, IsKeyed-without_user u m hs))

pub IsKeyed-cleared :
    (user : Text) (now : ℕ) (m : List (Text × Address)) → IsKeyed m → IsKeyed (cleared user now m)
unfolding cleared
IsKeyed-cleared user now [] h = tt
IsKeyed-cleared user now ((j, b) ∷ m) (h, hs) = (
  if_rule_eq (λ (a : Address). a.id ≡ j) (b.user_id == user && b.is_default) (λ _. h) (λ _. h),
  IsKeyed-cleared user now m hs,
)

pub id_of_found :
    (k : Text) (a : Address) (m : List (Text × Address))
    → IsKeyed m
    → lookup k m ≡ some a
    → a.id ≡ k
unfolding lookup
id_of_found k a [] h found = ground arith
id_of_found k a ((j, b) ∷ m) (h, hs) found = elim (Bool-cases (j == k)) [
  | inl e ↦ grind (arith, eq_iff j k)
  | inr e ↦ id_of_found k a m hs (ground arith)
]
