-- ===== src/Auth.antt =====
-- auth/pkg/domain: users, account types, the account lock, and the rules on who may administer whom
-- (abac.go). Instants are nanoseconds; the current time is an argument. A nil user is `none`.
pub mod Escalation
pub mod Lock
pub mod Sessions
pub mod Service
mod Tests
use schick.Prelude.{
  ℕ, ◌+◌, ◌*◌, ◌^◌, ℤ, pos, Bool, true, false, not, ◌&&◌, ◌||◌, List, Option, none, some, Text,
  codes, ◌==◌, is_empty, trim, to_lower, ltb, if◌then◌else◌,
}
use schick.Permissions.{has, has_any, dedupe}
use schick.Permissions.Catalog.{
  every, admin_all, user_create, user_read, user_permissions_update, user_password_update,
  user_status_update,
}

pub record User : Type 0 where
  pub id : Text
  pub email : Text
  pub password : Text
  pub account_type : Text
  pub permissions : List Text
  pub is_active : Bool
  pub locked_at : Option ℕ
  pub failed_login_attempts : ℤ

pub data ManagementClass : Type 0 where
  customer manager admin owner : ManagementClass

abbrev pub account_type_customer : Text
account_type_customer = codes "customer"

abbrev pub account_type_manager : Text
account_type_manager = codes "manager"

abbrev pub account_type_service : Text
account_type_service = codes "service"

-- NormalizeAccountType
unfoldable pub normalize_account_type : Text → Text
normalize_account_type t = if t == codes "admin" then account_type_manager else t

-- ValidAccountType
unfoldable pub valid_account_type : Text → Bool
valid_account_type t =
    t == account_type_customer || t == account_type_manager || t == account_type_service

-- NormalizeEmail
unfoldable pub normalize_email : Text → Text
normalize_email email = to_lower (trim email)

unfoldable pub is_admin_level : List Text → Bool
is_admin_level perms =
    has perms admin_all || (has perms user_read && has perms user_permissions_update)

unfoldable pub is_manager_level : List Text → Bool
is_manager_level perms = has perms user_password_update && has perms user_status_update

unfoldable pub caller_class : List Text → ManagementClass
caller_class perms =
    if has perms every
    then owner
    else if is_admin_level perms
    then admin
    else if is_manager_level perms
    then manager
    else customer

-- The switch on the account type that UserClass and ClassFromNewUser share.
unfoldable pub class_of_account_type : Text → List Text → ManagementClass
class_of_account_type t perms =
    if t == account_type_customer
    then customer
    else if t == account_type_service
    then customer
    else if t == account_type_manager
    then (if is_admin_level perms then admin else manager)
    else customer

unfoldable pub user_class : Option User → ManagementClass
user_class none = customer
user_class (some u) =
    if has u.permissions every
    then owner
    else class_of_account_type (normalize_account_type u.account_type) u.permissions

unfoldable pub class_from_new_user : Text → List Text → ManagementClass
class_from_new_user account_type perms =
    if has perms every
    then owner
    else class_of_account_type
        (normalize_account_type
          (if is_empty account_type then account_type_customer else account_type))
        perms

unfoldable pub class_from_permissions : Text → List Text → ManagementClass
class_from_permissions account_type perms = class_from_new_user account_type perms

unfoldable pub can_manage : ManagementClass → ManagementClass → Bool
can_manage owner owner = false
can_manage owner _ = true
can_manage admin manager = true
can_manage admin customer = true
can_manage admin _ = false
can_manage manager customer = true
can_manage manager _ = false
can_manage customer _ = false

unfoldable pub is_registrar_only : List Text → Bool
is_registrar_only perms =
    has perms user_create
    && not (has perms user_password_update)
    && not (has perms user_status_update)
    && not (is_admin_level perms)
    && not (has perms every)

unfoldable pub can_register : Option User → Text → List Text → Bool
can_register none account_type new_perms = false
can_register (some caller) account_type new_perms =
    let t =
      normalize_account_type
        (if is_empty account_type then account_type_customer else account_type) in
    if is_registrar_only caller.permissions
    then t == account_type_customer && not (has new_perms every)
    else if not (has caller.permissions user_create)
    then false
    else can_manage (caller_class caller.permissions) (class_from_new_user t new_perms)

unfoldable pub can_manage_user : Option User → Option User → Bool
can_manage_user none target = false
can_manage_user (some caller) none = false
can_manage_user (some caller) (some target) =
    if caller.id == target.id
    then false
    else can_manage (caller_class caller.permissions) (user_class (some target))

unfoldable pub can_assign_permissions : Option User → Option User → List Text → Text → Bool
can_assign_permissions none target new_perms account_type = false
can_assign_permissions (some caller) none new_perms account_type = false
can_assign_permissions (some caller) (some target) new_perms account_type =
    let at =
      if is_empty account_type then target.account_type else normalize_account_type account_type in
    if caller.id == target.id
    then false
    else if not (can_manage_user (some caller) (some target))
    then false
    else can_manage (caller_class caller.permissions) (class_from_permissions at new_perms)

-- 15 minutes, in nanoseconds
abbrev pub account_lock_duration : ℕ
account_lock_duration = 15 * 60 * 10 ^ 9

unfoldable pub is_lock_exempt : Option User → Bool
is_lock_exempt none = false
is_lock_exempt (some u) = elim (user_class (some u)) [ admin ↦ true | owner ↦ true | _ ↦ false ]

-- `time.Since(t) < d` is `now < t + d`.
abbrev within_lock : Option ℕ → ℕ → Bool
within_lock none now = false
within_lock (some t) now = ltb now (t + account_lock_duration)

unfoldable pub is_locked : Option User → ℕ → Bool
is_locked none now = false
is_locked (some u) now = if is_lock_exempt (some u) then false else within_lock u.locked_at now

unfoldable pub lock : User → ℕ → User
lock u now = if is_lock_exempt (some u) then u else record u { locked_at = some now }

unfoldable pub unlock : User → User
unlock u = record u { locked_at = none; failed_login_attempts = pos 0 }

unfoldable pub set_permissions : User → List Text → User
set_permissions u perms = record u { permissions = dedupe perms }

unfoldable pub set_active : User → Bool → User
set_active u active = record u { is_active = active }

unfoldable pub has_permission : User → List Text → Bool
has_permission u required = has_any u.permissions required
