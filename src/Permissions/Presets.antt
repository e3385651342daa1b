-- ===== src/Permissions/Presets.antt =====
-- Preset permission sets (bundles.go) and the roles that permissions replaced (legacy.go).
use schick.Prelude.{
  ◌∙◌, ◌≡◌, refl, ◌≢◌, ◌↔◌, Bool, true, false, ◌||◌, List, [], ◌∷◌, ◌++◌, Option, none, some, arith,
  Text, codes, lookup, Any,
}
use mathlib.Core.Option
use schick.Permissions.{any, grants, dedupe}
use schick.Permissions.Grants.{covers, grants-covers}
use schick.Permissions.Lists.{grants-dedupe}
use schick.Permissions.Catalog.{
  admin_all, cart_read, coupon_all, every, inventory_reservation_manage, inventory_stock_write,
  order_read_all, order_ship, order_status_update, payment_bypass, payment_cancel, product_all,
  product_create, product_image_upload, product_master_read, product_master_write, product_read,
  product_update, product_variant_create, product_variant_update, user_create, user_delete,
  user_password_update, user_permissions_update, user_read, user_status_update,
}

-- bundles
unfoldable pub bundles : List (Text × List Text)
bundles =
    (
      codes "catalog_editor",
      product_create ∷ product_update ∷ product_read ∷ product_variant_create
          ∷ product_variant_update ∷ product_image_upload ∷ product_master_read
          ∷ product_master_write ∷ [],
    )
    ∷ (codes "catalog_admin", product_all ∷ coupon_all ∷ [])
    ∷ (
      codes "fulfillment",
      order_ship ∷ order_status_update ∷ inventory_stock_write ∷ inventory_reservation_manage
          ∷ cart_read ∷ payment_bypass ∷ payment_cancel ∷ [],
    )
    ∷ (
      codes "user_admin",
      user_create ∷ user_read ∷ user_password_update ∷ user_status_update ∷ user_delete ∷ [],
    )
    ∷ (codes "customer_registrar", user_create ∷ [])
    ∷ []

-- adminPermissions
abbrev pub admin_permissions : List Text
admin_permissions =
    admin_all ∷ user_create ∷ user_read ∷ user_permissions_update ∷ user_password_update
    ∷ user_status_update ∷ product_all ∷ coupon_all ∷ inventory_stock_write
    ∷ inventory_reservation_manage ∷ order_ship ∷ order_status_update ∷ order_read_all ∷ cart_read
    ∷ payment_bypass ∷ []

-- orderManagerPermissions
abbrev pub order_manager_permissions : List Text
order_manager_permissions =
    order_ship ∷ order_status_update ∷ order_read_all ∷ inventory_stock_write
    ∷ inventory_reservation_manage ∷ cart_read ∷ payment_bypass ∷ []

-- legacyRolePermissions
unfoldable pub legacy_role_permissions : List (Text × List Text)
legacy_role_permissions =
    (codes "owner", every ∷ [])
    ∷ (codes "admin", admin_permissions)
    ∷ (codes "user_manager", user_password_update ∷ user_status_update ∷ [])
    ∷ (codes "customer_registrar", user_create ∷ [])
    ∷ (codes "product_manager", product_all ∷ coupon_all ∷ [])
    ∷ (codes "order_manager", order_manager_permissions)
    ∷ (codes "customer", [])
    ∷ []

-- ExpandBundle
unfoldable pub expand_bundle : Text → Option (List Text)
unfolding lookup bundles
expand_bundle name = lookup name bundles

abbrev join_found : Option (List Text) → Option (List Text) → Option (List Text)
join_found none rest = none
join_found (some perms) none = none
join_found (some perms) (some rest) = some (perms ++ rest)

-- The loop of ExpandBundles; `none` is the error for an unknown name.
unfoldable pub join_bundles : List Text → Option (List Text)
join_bundles [] = some []
join_bundles (name ∷ names) = join_found (expand_bundle name) (join_bundles names)

-- ExpandBundles
unfoldable pub expand_bundles : List Text → Option (List Text)
unfolding join_bundles dedupe
expand_bundles names = Option.map dedupe (join_bundles names)

abbrev perms_or_none : Option (List Text) → List Text
perms_or_none none = []
perms_or_none (some perms) = perms

-- The loop of ExpandLegacyRoles: an unknown role is passed over.
unfoldable pub join_roles : List Text → List Text
unfolding lookup legacy_role_permissions
join_roles [] = []
join_roles (role ∷ roles) = perms_or_none (lookup role legacy_role_permissions) ++ join_roles roles

-- ExpandLegacyRoles
unfoldable pub expand_legacy_roles : List Text → List Text
unfolding join_roles dedupe
expand_legacy_roles roles = dedupe (join_roles roles)

-- IsLegacyRole
unfoldable pub is_legacy_role : Text → Bool
unfolding lookup legacy_role_permissions
is_legacy_role name = elim (lookup name legacy_role_permissions) [ none ↦ false | some _ ↦ true ]

-- NeedsExpansion
unfoldable pub needs_expansion : List Text → Bool
unfolding any is_legacy_role
needs_expansion stored = any is_legacy_role stored

any-append : (p : Text → Bool) (xs ys : List Text) → any p (xs ++ ys) ≡ (any p xs || any p ys)
unfolding any
any-append p [] ys = refl
any-append p (x ∷ xs) ys = ground (arith, any-append p xs ys)

abbrev pub granted_by : Text → Option (List Text) → Bool
granted_by required none = false
granted_by required (some perms) = grants perms required

any-granted :
    (required : Text) (perms : Option (List Text))
    → any (covers required) (perms_or_none perms) ≡ granted_by required perms
any-granted required none = unfold any in refl
any-granted required (some perms) = rw grants-covers

join_roles-any :
    (required : Text) (roles : List Text)
    → any (covers required) (join_roles roles)
      ≡ any (λ role. granted_by required (lookup role legacy_role_permissions)) roles
unfolding join_roles any
join_roles-any required [] = refl
join_roles-any required (role ∷ roles) = ground (
  arith,
  any-append (covers required) (perms_or_none (lookup role legacy_role_permissions))
      (join_roles roles),
  join_roles-any required roles,
  any-granted required (lookup role legacy_role_permissions),
)

-- What the roles grant together is what the table gives for one of them, for a permission that is
-- not empty.
pub grants-expand_legacy_roles :
    (roles : List Text) (required : Text)
    → required ≢ []
    → grants (expand_legacy_roles roles) required
      ≡ any (λ role. granted_by required (lookup role legacy_role_permissions)) roles
unfolding expand_legacy_roles
grants-expand_legacy_roles roles required ne =
    grants-dedupe (join_roles roles) required ne
    ∙ grants-covers (join_roles roles) required
    ∙ join_roles-any required roles

join_found-any :
    (required : Text) (found rest : Option (List Text)) (perms : List Text) {tested : Bool}
    → join_found found rest ≡ some perms
    → ((perms' : List Text) → rest ≡ some perms' → any (covers required) perms' ≡ tested)
    → any (covers required) perms ≡ (granted_by required found || tested)
join_found-any required none rest perms e ih = cc
join_found-any required (some found) none perms e ih = cc
join_found-any required (some found) (some rest) perms e ih = ground (
  arith,
  any-append (covers required) found rest,
  ih rest refl,
  any-granted required (some found),
)

join_bundles-any :
    (required : Text) (names perms : List Text)
    → join_bundles names ≡ some perms
    → any (covers required) perms ≡ any (λ name. granted_by required (expand_bundle name)) names
unfolding join_bundles any
join_bundles-any required [] perms e = ground arith
join_bundles-any required (name ∷ names) perms e =
    join_found-any required (expand_bundle name) (join_bundles names) perms e
      (join_bundles-any required names)

join_bundles_fails :
    (names : List Text)
    → (join_bundles names ≡ none) ↔ Any (λ name. expand_bundle name ≡ none) names
unfolding join_bundles
join_bundles_fails [] = ground arith
join_bundles_fails (name ∷ names) = ground (arith, join_bundles_fails names)

expand_bundles-eq-some :
    (names perms : List Text)
    → expand_bundles names ≡ some perms
    → (joined : List Text) × (join_bundles names ≡ some joined) × (dedupe joined ≡ perms)
unfolding expand_bundles
expand_bundles-eq-some names perms e = (Option.map-eq-some_iff _ _).0 e

-- What the bundles grant together is what one of them grants, for a permission that is not empty.
pub grants-expand_bundles :
    (names perms : List Text) (required : Text)
    → expand_bundles names ≡ some perms
    → required ≢ []
    → grants perms required ≡ any (λ name. granted_by required (expand_bundle name)) names
grants-expand_bundles names perms required e ne =
    let (joined, found, same) = expand_bundles-eq-some names perms e in
    rw (← same) (
      grants-dedupe joined required ne
      ∙ grants-covers joined required
      ∙ join_bundles-any required names joined found)

-- The expansion fails exactly when one of the names is unknown.
pub expand_bundles-eq-none_iff :
    (names : List Text)
    → (expand_bundles names ≡ none) ↔ Any (λ name. expand_bundle name ≡ none) names
unfolding expand_bundles
expand_bundles-eq-none_iff names = ground (arith, join_bundles_fails names)
