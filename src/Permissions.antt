-- ===== src/Permissions.antt =====
-- shared/pkg/permissions: the catalog of permission tokens, the evaluation of what a caller holds,
-- and the clean-up of permission lists. A call with no variadic argument is a call with `[]`.
pub mod Catalog
pub mod Grants
pub mod Lists
pub mod Presets
mod Tests
use schick.Prelude.{
  ℕ, Bool, true, false, not, ◌&&◌, ◌||◌, List, [], ◌∷◌, ◌++◌, Text, codes, ◌==◌, is_empty, leb, eqb,
  has_prefix, has_suffix, trim_suffix, if◌then◌else◌,
}
use Catalog.{every, admin_all, known, user_permissions_update, order_create, order_read_all}
use Catalog.{payment_create, payment_read_all, payment_bypass, payment_cancel}

-- resourceWildcardGrants
unfoldable pub resource_wildcard_grants : Text → Text → Bool
unfolding ◌==◌ has_prefix has_suffix trim_suffix
resource_wildcard_grants wildcard required =
    let prefix = trim_suffix wildcard (codes ".*") in
    if wildcard == every || wildcard == admin_all
    then false
    else if not (has_suffix wildcard (codes ".*"))
    then false
    else if is_empty prefix
    then false
    else required == prefix || has_prefix required (prefix ++ codes ".")

-- A loop that returns true at the first entry that passes.
unfoldable pub any : (Text → Bool) → List Text → Bool
any p [] = false
any p (h ∷ hs) = p h || any p hs

-- grants: four loops over what is held.
unfoldable pub grants : List Text → Text → Bool
unfolding any resource_wildcard_grants
grants held required =
    any (λ h. h == required) held
    || any (λ h. resource_wildcard_grants h required) held
    || any (λ h. h == admin_all && has_prefix required (codes "user.")) held
    || any (λ h. h == every) held

-- HasAny
unfoldable pub has_any : List Text → List Text → Bool
unfolding grants
has_any held [] = true
has_any held (want ∷ wants) = any (grants held) (want ∷ wants)

-- HasAll
unfoldable pub has_all : List Text → List Text → Bool
unfolding grants
has_all held [] = true
has_all held (want ∷ wants) = if not (grants held want) then false else has_all held wants

-- Has
unfoldable pub has : List Text → Text → Bool
unfolding has_any
has held required = has_any held (required ∷ [])

-- BypassesOrderCreateABAC, BypassesOrderReadABAC, BypassesPaymentCreateABAC,
-- BypassesPaymentReadABAC, CanBypassPayment, CanCancelPayment, CanRegisterAnyAccountType
unfoldable pub bypasses_order_create_abac : List Text → Bool
unfolding has_any
bypasses_order_create_abac held = has_any held (every ∷ admin_all ∷ order_create ∷ [])

unfoldable pub bypasses_order_read_abac : List Text → Bool
unfolding has_any
bypasses_order_read_abac held = has_any held (every ∷ admin_all ∷ order_read_all ∷ [])

unfoldable pub bypasses_payment_create_abac : List Text → Bool
unfolding has_any
bypasses_payment_create_abac held = has_any held (every ∷ admin_all ∷ payment_create ∷ [])

unfoldable pub bypasses_payment_read_abac : List Text → Bool
unfolding has_any
bypasses_payment_read_abac held = has_any held (every ∷ admin_all ∷ payment_read_all ∷ [])

unfoldable pub can_bypass_payment : List Text → Bool
unfolding has_any
can_bypass_payment held = has_any held (every ∷ admin_all ∷ payment_bypass ∷ [])

unfoldable pub can_cancel_payment : List Text → Bool
unfolding has_any
can_cancel_payment held = has_any held (every ∷ admin_all ∷ payment_cancel ∷ [])

unfoldable pub can_register_any_account_type : List Text → Bool
unfolding has_any
can_register_any_account_type held = has_any held (every ∷ admin_all ∷ user_permissions_update ∷ [])

-- The loop of Valid over the runes before ".*".
unfoldable pub is_resource_name : Text → Bool
is_resource_name [] = true
is_resource_name (r ∷ rs) =
    if not (leb b'a' r && leb r b'z') && not (leb b'0' r && leb r b'9') && not (eqb r b'_')
    then false
    else is_resource_name rs

-- Valid
unfoldable pub valid : Text → Bool
unfolding ◌==◌ has_suffix trim_suffix any is_resource_name
valid s =
    let prefix = trim_suffix s (codes ".*") in
    if is_empty s
    then false
    else if s == every
    then true
    else if has_suffix s (codes ".*")
    then (if is_empty prefix then false else is_resource_name prefix)
    else any (λ p. p == s) known

-- The map `seen` of Dedupe, as the list of what was put into it.
unfoldable pub dedupe_from : List Text → List Text → List Text
unfolding ◌==◌ any
dedupe_from seen [] = []
dedupe_from seen (p ∷ ps) =
    let skip = dedupe_from seen ps in
    let keep = p ∷ dedupe_from (p ∷ seen) ps in
    if is_empty p then skip else if any (λ q. q == p) seen then skip else keep

-- Dedupe
unfoldable pub dedupe : List Text → List Text
unfolding dedupe_from
dedupe perms = dedupe_from [] perms

-- Union
unfoldable pub union : List (List Text) → List Text
unfolding dedupe
union slices = dedupe (combine slices)
  where
    combine : List (List Text) → List Text
    combine [] = []
    combine (s ∷ ss) = s ++ combine ss
