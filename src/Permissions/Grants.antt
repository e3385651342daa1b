-- ===== src/Permissions/Grants.antt =====
-- What a list of held tokens grants: the four loops of `grants` against the rule of one token.
use schick.Prelude.{
  ◌≡◌, refl, ◌≢◌, ◌↔◌, ◌⊎◌, inl, inr, Bool, true, ◌&&◌, ◌||◌, List, [], ◌∷◌, ◌++◌, arith, Text,
  codes, ◌==◌, eq_iff, has_prefix, has_prefix_iff, trim_suffix, trim_suffix-append,
  has_suffix-append, trim_suffix_of_append, Any, Bool-cases,
}
use schick.Permissions.Catalog.{every, admin_all}
use schick.Permissions.{any, grants, resource_wildcard_grants, has_any, has}

-- `required` is `base` itself or lies below it.
abbrev pub IsUnder : Text → Text → Type 0
IsUnder required base = (required ≡ base) ⊎ ((r : Text) × (required ≡ (base ++ codes ".") ++ r))

-- The rule of one held token. A token `base.*` covers whatever lies below `base`, at any depth.
pub data Covers (required held : Text) : Type 0 where
  exact : held ≡ required → Covers required held
  resource :
      (base : Text)
      → base ≢ []
      → held ≢ every
      → held ≢ admin_all
      → held ≡ base ++ codes ".*"
      → IsUnder required base
      → Covers required held
  admin : (r : Text) → held ≡ admin_all → required ≡ codes "user." ++ r → Covers required held
  everything : held ≡ every → Covers required held

IsUnder-iff :
    (required base : Text)
    → ((required == base || has_prefix required (base ++ codes ".")) ≡ true) ↔ IsUnder required base
IsUnder-iff required base = (
  (λ e. elim (Bool-cases (required == base)) [
    | inl y ↦ inl ((eq_iff required base).0 y)
    | inr n ↦ inr ((has_prefix_iff required (base ++ codes ".")).0 (rw n at e))
  ]),
  λ s. elim s [
    | inl y ↦ rw ((eq_iff required base).1 y)
    | inr r ↦ ground (arith, (has_prefix_iff required (base ++ codes ".")).1 r)
  ],
)

wildcard_sound :
    (h required : Text) → resource_wildcard_grants h required ≡ true → Covers required h
unfolding resource_wildcard_grants
wildcard_sound h required g =
    let base = trim_suffix h (codes ".*") in
    resource base (ground arith) (ground (arith, eq_iff h every))
      (ground (arith, eq_iff h admin_all)) (trim_suffix-append h (codes ".*") (ground arith))
      ((IsUnder-iff required base).0 (ground arith))

wildcard_complete :
    (h required base : Text)
    → base ≢ []
    → h ≢ every
    → h ≢ admin_all
    → h ≡ base ++ codes ".*"
    → IsUnder required base
    → resource_wildcard_grants h required ≡ true
unfolding resource_wildcard_grants
wildcard_complete h required base ne e a eq u = ground (
  arith,
  eq_iff h every,
  eq_iff h admin_all,
  has_suffix-append base (codes ".*"),
  trim_suffix_of_append base (codes ".*"),
  (IsUnder-iff required base).1 u,
)

-- One token, as the four loops test it.
unfoldable pub covers : Text → Text → Bool
covers required h =
    h == required
    || resource_wildcard_grants h required
    || (h == admin_all && has_prefix required (codes "user."))
    || h == every

covers_sound : (required h : Text) → covers required h ≡ true → Covers required h
unfolding covers
covers_sound required h t = elim (Bool-cases (h == required)) [
  | inl e ↦ exact ((eq_iff h required).0 e)
  | inr a ↦ elim (Bool-cases (resource_wildcard_grants h required)) [
    | inl e ↦ wildcard_sound h required e
    | inr b ↦ elim (Bool-cases (h == every)) [
      | inl e ↦ everything ((eq_iff h every).0 e)
      | inr c ↦
          let (r, e) = (has_prefix_iff required (codes "user.")).0 (ground arith) in
          admin r ((eq_iff h admin_all).0 (ground arith)) e
    ]
  ]
]

pub covers_iff : (required h : Text) → (covers required h ≡ true) ↔ Covers required h
unfolding covers
covers_iff required h = (
  covers_sound required h,
  λ s. elim s [
    | exact e ↦ rw ((eq_iff h required).1 e)
    | resource base ne e a eq u ↦ ground (arith, wildcard_complete h required base ne e a eq u)
    | admin r e u ↦
        ground (arith, eq_iff h admin_all, (has_prefix_iff required (codes "user.")).1 (r, u))
    | everything e ↦ ground (arith, eq_iff h every)
  ],
)

module _ (p q : Text → Bool) where
  any_or : (hs : List Text) → any p hs || any q hs ≡ any (λ h. p h || q h) hs
  unfolding any
  any_or [] = refl
  any_or (h ∷ hs) = ground (arith, any_or hs)

pub any_iff :
    (p : Text → Bool) (P : Text → Type 0)
    → ((h : Text) → (p h ≡ true) ↔ P h)
    → (hs : List Text) → (any p hs ≡ true) ↔ Any P hs
unfolding any
any_iff p P each [] = ((λ e. cc), λ h. absurd h)
any_iff p P each (h ∷ hs) = (
  (λ e. elim (Bool-cases (p h)) [
    | inl y ↦ inl ((each h).0 y)
    | inr n ↦ inr ((any_iff p P each hs).0 (rw n at e))
  ]),
  λ s. elim s [ inl y ↦ rw ((each h).1 y) | inr r ↦ ground (arith, (any_iff p P each hs).1 r) ],
)

pub grants-covers :
    (held : List Text) (required : Text) → grants held required ≡ any (covers required) held
unfolding grants covers
grants-covers held required = simp any_or

-- Exactly the tokens that cover a permission grant it.
pub grants_iff :
    (held : List Text) (required : Text)
    → (grants held required ≡ true) ↔ Any (Covers required) held
grants_iff held required = rw grants-covers (any_iff _ _ (covers_iff required) held)

-- `Has` with one permission is `grants`.
pub has-grants : (held : List Text) (required : Text) → has held required ≡ grants held required
unfolding has has_any any
has-grants held required = ground arith
