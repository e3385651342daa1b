-- ===== src/Auth/Tests.antt =====
-- Users of each class, and what they may do to one another.
use schick.Prelude.{
  ◌<◌, ◌≡◌, ◌≢◌, ◌↔◌, ◌⊎◌, refl, pos, true, List, [], ◌∷◌, none, some, arith, Text, codes, ◌==◌,
  has_prefix, has_suffix, trim_suffix,
}
use schick.Permissions.{grants, any, has_any, resource_wildcard_grants, has, dedupe, dedupe_from}
use schick.Permissions.Catalog.{
  admin_all, user_create, user_read, user_password_update, user_status_update,
}
use schick.Auth.{
  set_permissions, User, customer, manager, admin, account_type_customer, account_type_manager,
  normalize_account_type, is_admin_level, is_manager_level, caller_class, class_of_account_type,
  user_class, class_from_new_user, class_from_permissions, can_manage, is_registrar_only,
  can_register, can_manage_user, can_assign_permissions, is_lock_exempt, is_locked, lock, unlock,
}
use schick.Auth.Escalation.{
  rank, reassigned, can_manage_iff, can_assign_permissions_lem, can_register_lem,
  can_assign_permissions_acting,
}

-- What the runs compute through.
auth_code : Unit {0}
unfolding grants any has_any resource_wildcard_grants has dedupe dedupe_from has_prefix has_suffix
    trim_suffix ◌==◌ normalize_account_type is_admin_level is_manager_level caller_class
    class_of_account_type user_class class_from_new_user class_from_permissions can_manage
    is_registrar_only can_register can_manage_user can_assign_permissions is_lock_exempt is_locked
    lock unlock
auth_code = tt

abbrev staff : User
staff = record {
  id = codes "m";
  email = codes "m@x";
  password = codes "";
  account_type = account_type_manager;
  permissions = user_create ∷ user_password_update ∷ user_status_update ∷ [];
  is_active = true;
  locked_at = none;
  failed_login_attempts = pos 0;
}

abbrev shopper : User
shopper = record staff { id = codes "c"; account_type = account_type_customer; permissions = [] }

abbrev managers_list : List Text
managers_list = user_password_update ∷ user_status_update ∷ admin_all ∷ []

can_manage_iff_example : (can_manage admin manager ≡ true) ↔ (rank manager < rank admin)
can_manage_iff_example = can_manage_iff admin manager

can_assign_permissions_lem_example :
    (staff.id ≢ shopper.id)
    × (rank (user_class (some shopper)) < rank (caller_class staff.permissions))
    × (rank (user_class (some (reassigned shopper (user_read ∷ []) (codes ""))))
        < rank (caller_class staff.permissions))
unfolding auth_code
can_assign_permissions_lem_example =
    can_assign_permissions_lem staff shopper (user_read ∷ []) (codes "") refl

can_register_lem_example :
    (has staff.permissions user_create ≡ true)
    × ((rank (class_from_new_user account_type_customer []) < rank (caller_class staff.permissions))
        ⊎ ((is_registrar_only staff.permissions ≡ true)
            × (class_from_new_user account_type_customer [] ≡ customer)))
unfolding auth_code
can_register_lem_example = can_register_lem staff account_type_customer [] refl

-- The list makes its holder an admin to every later check.
admin_afterwards : caller_class managers_list ≡ admin
unfolding auth_code
admin_afterwards = refl

can_assign_permissions_acting_example :
    (perms : List Text) × (can_assign_permissions (some staff) (some shopper) perms [] ≡ true)
    × (caller_class (set_permissions shopper perms).permissions ≡ admin)
unfolding auth_code
can_assign_permissions_acting_example =
    can_assign_permissions_acting staff shopper admin (λ h. ground (arith, h)) (omega arith) refl
      refl (λ h. ground (arith, h))
