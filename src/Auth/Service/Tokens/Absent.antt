-- ===== src/Auth/Service/Tokens/Absent.antt =====
-- A token that the session store does not hold, and what the store's operations do to it.
use schick.Prelude.{
  ℕ, ◌≡◌, ◌≢◌, refl, inl, inr, Bool, true, false, List, [], ◌∷◌, Option, none, some, Text, arith,
  ltb, lookup, insert, delete, lookup-insert, lookup-delete, eq_iff, eq_refl, if_rule, Bool-cases,
  Option-cases, ◌==◌,
}
use schick.Auth.Sessions.{SessionStore, set, got, get, rotated, rotate, evict_expired}
use schick.Auth.Service.{Accounts}

-- There is a session store, without an entry for the token.
abbrev pub SpentIn : Text → Option SessionStore → Type 0
SpentIn token none = false ≡ true
SpentIn token (some s) = lookup token s ≡ none

abbrev pub Spent : {S : Type 0} → Text → Accounts S → Type 0
Spent token a = SpentIn token a.sessions

-- What the store does to an absent key.
pub insert_absent :
    {A : Type 0} (k j : Text) (v : A) (m : List (Text × A))
    → k ≢ j
    → lookup j m ≡ none
    → lookup j (insert k v m) ≡ none
insert_absent k j v m other absent = rw (lookup-insert k j v m) (grind (arith, eq_iff k j))

pub delete_absent :
    {A : Type 0} (k j : Text) (m : List (Text × A))
    → lookup j m ≡ none
    → lookup j (delete k m) ≡ none
delete_absent k j m absent = rw (lookup-delete k j m) (ground arith)

pub deleted_absent : {A : Type 0} (k : Text) (m : List (Text × A)) → lookup k (delete k m) ≡ none
deleted_absent k m = rw (lookup-delete k k m, eq_refl k)

pub get_absent :
    (s : SessionStore) (key token : Text) (now : ℕ)
    → lookup token s ≡ none
    → lookup token (get s key now).0 ≡ none
unfolding get
get_absent s key token now absent =
    elim (lookup key s) as (λ r. lookup token (got s key now r).0 ≡ none) [
      | none ↦ absent
      | some entry ↦
          if_rule (λ (r : SessionStore × Option Text). lookup token r.0 ≡ none)
            (ltb entry.expires_at now) (delete_absent key token s absent) absent
    ]

pub rotate_absent :
    (s : SessionStore) (old fresh token value : Text) (now later expiry : ℕ)
    → fresh ≢ token
    → lookup token s ≡ none
    → lookup token (rotate s old fresh value now later expiry).0 ≡ none
unfolding rotate set
rotate_absent s old fresh token value now later expiry other absent =
    elim (lookup old s)
      as (λ r. lookup token (rotated s old fresh value now later expiry r).0 ≡ none) [
        | none ↦ absent
        | some entry ↦
            if_rule (λ (r : SessionStore × Bool). lookup token r.0 ≡ none)
              (ltb entry.expires_at now) (delete_absent old token s absent)
              (delete_absent old token _ (insert_absent fresh token _ s other absent))
      ]

pub rotate_spends :
    (s : SessionStore) (old fresh value : Text) (now later expiry : ℕ)
    → lookup old (rotate s old fresh value now later expiry).0 ≡ none
unfolding rotate
rotate_spends s old fresh value now later expiry = elim (Option-cases (lookup old s)) [
  | inl e ↦ rw e e
  | inr (entry, e) ↦ rw e (
      if_rule (λ (r : SessionStore × Bool). lookup old r.0 ≡ none) (ltb entry.expires_at now)
        (deleted_absent old s) (deleted_absent old (set s fresh value later expiry)))
]

pub evict_absent :
    (token : Text) (now : ℕ) (s : SessionStore)
    → lookup token s ≡ none
    → lookup token (evict_expired now s) ≡ none
unfolding evict_expired lookup
evict_absent token now [] absent = refl
evict_absent token now ((key, entry) ∷ s) absent = elim (Bool-cases (key == token)) [
  | inl e ↦ ground arith
  | inr e ↦ ground (arith, evict_absent token now s (ground arith))
]
