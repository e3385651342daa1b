-- ===== src/Auth/Escalation.antt =====
-- Who may administer whom: the rules against a ranking of the management classes.
use schick.Prelude.{
  ℕ, ◌<◌, ◌≡◌, refl, sym, ◌∙◌, ◌≢◌, ◌↔◌, ◌⊎◌, true, false, List, [], ◌∷◌, some, arith, Text, codes,
  ◌==◌, eq_iff, is_empty, if◌then◌else◌, has_prefix, has_suffix, trim_suffix,
}
use schick.Permissions.{has, has_any, any, grants, resource_wildcard_grants, dedupe, dedupe_from}
use schick.Permissions.Catalog.{
  every, admin_all, user_read, user_permissions_update, user_create, user_password_update,
  user_status_update,
}
use schick.Permissions.Grants.{has-grants}
use schick.Permissions.Lists.{grants-dedupe}
use schick.Auth.{
  User, ManagementClass, customer, manager, admin, owner, caller_class, user_class,
  class_of_account_type, class_from_new_user, class_from_permissions, can_manage, can_register,
  can_manage_user, can_assign_permissions, set_permissions, normalize_account_type, is_admin_level,
  is_manager_level, is_registrar_only, account_type_customer,
}

abbrev pub rank : ManagementClass → ℕ
rank customer = 0
rank manager = 1
rank admin = 2
rank owner = 3

-- A class manages exactly the classes below it.
pub can_manage_iff :
    (caller target : ManagementClass)
    → (can_manage caller target ≡ true) ↔ (rank target < rank caller)
unfolding can_manage
can_manage_iff owner owner = ground arith
can_manage_iff owner _ = ground arith
can_manage_iff admin target = ground arith
can_manage_iff manager target = ground arith
can_manage_iff customer target = ground arith

has-dedupe : (perms : List Text) (p : Text) → p ≢ [] → has (dedupe perms) p ≡ has perms p
has-dedupe perms p ne = simp has-grants (grants-dedupe perms p ne)

is_admin_level-dedupe : (perms : List Text) → is_admin_level (dedupe perms) ≡ is_admin_level perms
unfolding is_admin_level
is_admin_level-dedupe perms = ground (
  arith,
  has-dedupe perms admin_all (λ e. cc),
  has-dedupe perms user_read (λ e. cc),
  has-dedupe perms user_permissions_update (λ e. cc),
)

normalize_twice :
    (t : Text) → normalize_account_type (normalize_account_type t) ≡ normalize_account_type t
unfolding normalize_account_type ◌==◌
normalize_twice t = ground (arith, eq_iff t (codes "admin"))

-- The target as SetUserPermissions leaves it.
abbrev pub reassigned : User → List Text → Text → User
reassigned target perms account_type =
    set_permissions
      (record target {
        account_type = if is_empty account_type then target.account_type else account_type;
      })
      perms

-- The default account type gets the class that the empty one has.
class_of_default :
    (t : Text) (perms : List Text)
    → class_of_account_type
        (normalize_account_type (if is_empty t then account_type_customer else t))
        perms
      ≡ class_of_account_type (normalize_account_type t) perms
unfolding class_of_account_type normalize_account_type ◌==◌
class_of_default [] perms = refl
class_of_default (c ∷ t) perms = refl

class_from_permissions_lem :
    (t : Text) (perms : List Text)
    → class_from_permissions t perms
      ≡ (if has perms every then owner else class_of_account_type (normalize_account_type t) perms)
unfolding class_from_permissions class_from_new_user
class_from_permissions_lem t perms = rw (class_of_default t perms)

class_of_account_type-dedupe :
    (t : Text) (perms : List Text)
    → class_of_account_type t (dedupe perms) ≡ class_of_account_type t perms
unfolding class_of_account_type
class_of_account_type-dedupe t perms = rw (is_admin_level-dedupe perms)

-- A user is classed by the permissions that were asked for, in whatever way they are deduplicated.
user_class-set_permissions :
    (target : User) (perms : List Text)
    → user_class (some (set_permissions target perms))
      ≡ class_from_permissions target.account_type perms
unfolding user_class set_permissions
user_class-set_permissions target perms = rw (
  class_from_permissions_lem target.account_type perms,
  has-dedupe perms every (λ e. cc),
  class_of_account_type-dedupe (normalize_account_type target.account_type) perms,
)

class_from_normalized :
    (t : Text) (perms : List Text)
    → class_from_permissions (normalize_account_type t) perms ≡ class_from_permissions t perms
class_from_normalized t perms = rw (
  class_from_permissions_lem t perms,
  class_from_permissions_lem (normalize_account_type t) perms,
  normalize_twice t,
)

reassigned-class :
    (target : User) (perms : List Text) (account_type : Text)
    → user_class (some (reassigned target perms account_type))
      ≡ class_from_permissions
          (if is_empty account_type
            then target.account_type
            else normalize_account_type account_type)
          perms
reassigned-class target perms [] = user_class-set_permissions target perms
reassigned-class target perms (c ∷ t) =
    user_class-set_permissions (record target { account_type = c ∷ t }) perms
    ∙ sym (class_from_normalized (c ∷ t) perms)

-- A caller that may give a user permissions is not that user, and stands strictly above the class that
-- the user has and above the class that it would have with them.
pub can_assign_permissions_lem :
    (caller target : User) (new_perms : List Text) (account_type : Text)
    → can_assign_permissions (some caller) (some target) new_perms account_type ≡ true
    → (caller.id ≢ target.id)
      × (rank (user_class (some target)) < rank (caller_class caller.permissions))
      × (rank (user_class (some (reassigned target new_perms account_type)))
          < rank (caller_class caller.permissions))
unfolding can_assign_permissions can_manage_user
can_assign_permissions_lem caller target new_perms account_type h = ground (
  arith,
  eq_iff caller.id target.id,
  (can_manage_iff (caller_class caller.permissions) (user_class (some target))).0,
  (can_manage_iff (caller_class caller.permissions) (
      class_from_permissions
        (if is_empty account_type then target.account_type else normalize_account_type account_type)
        new_perms)).0,
  reassigned-class target new_perms account_type,
)

class_from_new_user_lem :
    (t : Text) (perms : List Text)
    → class_from_new_user t perms
      ≡ (if has perms every then owner else class_of_account_type (normalize_account_type t) perms)
unfolding class_from_new_user
class_from_new_user_lem t perms = rw (class_of_default t perms)

-- The type that CanRegister classifies stands for the one that the request names.
class_from_default :
    (t : Text) (perms : List Text)
    → class_from_new_user
        (normalize_account_type (if is_empty t then account_type_customer else t))
        perms
      ≡ class_from_new_user t perms
class_from_default t perms = rw (
  class_from_new_user_lem (normalize_account_type (if is_empty t then account_type_customer else t))
      perms,
  normalize_twice (if is_empty t then account_type_customer else t),
  class_of_default t perms,
  class_from_new_user_lem t perms,
)

class_of_customer :
    (perms : List Text)
    → has perms every ≡ false
    → class_from_new_user account_type_customer perms ≡ customer
unfolding class_of_account_type normalize_account_type ◌==◌
class_of_customer perms h = rw (class_from_new_user_lem account_type_customer perms, h)

is_registrar_only-has :
    (perms : List Text) → is_registrar_only perms ≡ true → has perms user_create ≡ true
unfolding is_registrar_only
is_registrar_only-has perms h = ground arith

-- A caller that may register the account holds user.create, and either stands strictly above the
-- class of the new account, or is a registrar-only account and the new account is a customer.
pub can_register_lem :
    (caller : User) (account_type : Text) (new_perms : List Text)
    → can_register (some caller) account_type new_perms ≡ true
    → (has caller.permissions user_create ≡ true)
      × ((rank (class_from_new_user account_type new_perms)
            < rank (caller_class caller.permissions))
          ⊎ ((is_registrar_only caller.permissions ≡ true)
              × (class_from_new_user account_type new_perms ≡ customer)))
unfolding can_register
can_register_lem caller account_type new_perms h =
    let t =
      normalize_account_type
        (if is_empty account_type then account_type_customer else account_type) in
    ground (
      arith,
      eq_iff t account_type_customer,
      class_from_default account_type new_perms,
      class_of_customer new_perms,
      is_registrar_only-has caller.permissions,
      (can_manage_iff (caller_class caller.permissions) (class_from_new_user t new_perms)).0,
    )

user_class_of_customer :
    (u : User)
    → u.account_type ≡ account_type_customer
    → has u.permissions every ≡ false
    → user_class (some u) ≡ customer
unfolding user_class class_of_account_type normalize_account_type ◌==◌
user_class_of_customer u t h = rw (h, t)

class_from_permissions-customer :
    (t : Text) (perms : List Text)
    → t ≡ account_type_customer
    → has perms every ≡ false
    → class_from_permissions t perms ≡ customer
unfolding class_from_permissions
class_from_permissions-customer t perms e h = rw e (class_of_customer perms h)

-- A caller above the customers may give a customer account every permission list without `*`.
can_assign_permissions_customer :
    (caller target : User) (new_perms : List Text)
    → caller.id ≢ target.id
    → 0 < rank (caller_class caller.permissions)
    → target.account_type ≡ account_type_customer
    → has target.permissions every ≡ false
    → has new_perms every ≡ false
    → can_assign_permissions (some caller) (some target) new_perms [] ≡ true
unfolding can_assign_permissions can_manage_user
can_assign_permissions_customer caller target new_perms ne r t h k = ground (
  arith,
  eq_iff caller.id target.id,
  user_class_of_customer target t h,
  class_from_permissions-customer target.account_type new_perms t k,
  (can_manage_iff (caller_class caller.permissions) customer).1 r,
)

-- A list with which its holder acts in a class.
abbrev acting_list : ManagementClass → List Text
acting_list customer = []
acting_list manager = user_password_update ∷ user_status_update ∷ []
acting_list admin = admin_all ∷ []
acting_list owner = every ∷ []

acting_list-class : (k : ManagementClass) → caller_class (dedupe (acting_list k)) ≡ k
unfolding caller_class is_admin_level is_manager_level has has_any any grants
    resource_wildcard_grants dedupe dedupe_from has_prefix has_suffix trim_suffix ◌==◌
acting_list-class customer = refl
acting_list-class manager = refl
acting_list-class admin = refl
acting_list-class owner = refl

acting_list-every : (k : ManagementClass) → k ≢ owner → has (acting_list k) every ≡ false
unfolding has has_any any grants resource_wildcard_grants has_prefix has_suffix trim_suffix ◌==◌
acting_list-every customer other = refl
acting_list-every manager other = refl
acting_list-every admin other = refl
acting_list-every owner other = absurd (other refl)

-- A caller above the customers, a manager among them, may give a customer account that is not the caller's
-- and holds no `*` a list with which that account, once the list is set, acts as a manager, or as an
-- admin: as any class but the owner's.
pub can_assign_permissions_acting :
    (caller target : User) (k : ManagementClass)
    → caller.id ≢ target.id
    → 0 < rank (caller_class caller.permissions)
    → target.account_type ≡ account_type_customer
    → has target.permissions every ≡ false
    → k ≢ owner
    → (perms : List Text) × (can_assign_permissions (some caller) (some target) perms [] ≡ true)
      × (caller_class (set_permissions target perms).permissions ≡ k)
unfolding set_permissions
can_assign_permissions_acting caller target k ne r t h other = (
  acting_list k,
  can_assign_permissions_customer caller target (acting_list k) ne r t h
      (acting_list-every k other),
  acting_list-class k,
)
