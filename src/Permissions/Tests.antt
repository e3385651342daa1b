-- ===== src/Permissions/Tests.antt =====
-- Runs of the permission rules on small lists.
use schick.Prelude.{
  ◌≡◌, ◌≢◌, ◌↔◌, refl, true, false, List, [], ◌∷◌, some, arith, Text, codes, ◌==◌, Any, has_prefix,
  has_suffix, trim_suffix, lookup,
}
use schick.Permissions.{grants, any, resource_wildcard_grants, has, dedupe, dedupe_from}
use schick.Permissions.Catalog.{user_create, user_read, product_create}
use schick.Permissions.Grants.{Covers, grants_iff}
use schick.Permissions.Presets.{
  bundles, legacy_role_permissions, expand_bundle, expand_bundles, join_bundles,
}

-- What the runs compute through.
permission_code : Unit {0}
unfolding grants any resource_wildcard_grants has dedupe dedupe_from bundles expand_bundle
    expand_bundles join_bundles lookup legacy_role_permissions has_prefix has_suffix trim_suffix
    ◌==◌
permission_code = tt

abbrev writer : List Text
writer = codes "product.*" ∷ codes "" ∷ user_read ∷ codes "product.*" ∷ []

runs :
    (grants writer product_create ≡ true)
    × (grants writer user_create ≡ false)
    × (dedupe writer ≡ codes "product.*" ∷ user_read ∷ [])
unfolding permission_code
runs = (refl, refl, refl)

grants_iff_example : (grants writer product_create ≡ true) ↔ Any (Covers product_create) writer
grants_iff_example = grants_iff writer product_create

not_empty : product_create ≢ []
not_empty h = ground (arith, h)

abbrev roles : List Text
roles = codes "customer" ∷ codes "admin" ∷ []

abbrev names : List Text
names = codes "catalog_admin" ∷ []

abbrev catalog_list : List Text
catalog_list = codes "product.*" ∷ codes "coupon.*" ∷ []

expands : expand_bundles names ≡ some catalog_list
unfolding permission_code
expands = refl

abbrev unknown : List Text
unknown = codes "catalog_admin" ∷ codes "nobody" ∷ []
