-- ===== src/Auth/Service/Administration.antt =====
-- auth/pkg/service/service.go: what an operator does to the accounts of others.
use schick.Prelude.{
  Bool, true, false, not, ◌&&◌, List, [], ◌∷◌, Option, none, some, Text, is_empty, ltb,
  if◌then◌else◌, Result, ok, err, ◌>>=◌, ◌>>◌, refuse_if,
}
use schick.Permissions.{valid, has}
use schick.Permissions.Catalog.{every}
use schick.Auth.{User, valid_account_type, set_permissions, set_active}
use schick.Auth.Service.{
  Error, weak_password, invalid_account_type, invalid_permission, UserRepository, Crypto, Accounts,
  found_user, byte_length, stored,
}

-- permissions.Validate
abbrev pub all_valid : List Text → Bool
all_valid [] = true
all_valid (p ∷ ps) = if not (valid p) then false else all_valid ps

abbrev pub some_owner : List User → Bool
some_owner [] = false
some_owner (u ∷ us) = if has u.permissions every then true else some_owner us

-- DeleteAndEnqueue, where the repository has it, and otherwise the answer of the broker; a nil broker
-- accepts.
pub data Deletion (S : Type 0) : Type 0 where
  transactional : (S → Text → S × Option Error) → Deletion S
  published_first : Option (Option Error) → Deletion S

-- The table, and the users whose user.deleted event is durable or accepted.
pub record Deleted (S : Type 0) : Type 0 where
  pub users : S
  pub announced : List Text
  pub result : Result Error (Unit {0})

module _ {S : Type 0} (repo : UserRepository S) (crypto : Crypto) where
  open repo use {find_by_id, list_all, save, delete}
  open crypto use {hash}

  abbrev pub stored_checked : Accounts S → Result Error User → Accounts S × Result Error User
  stored_checked a (err e) = (a, err e)
  stored_checked a (ok u) = stored repo crypto a u (save a.users u)

  unfoldable pub find_user_by_id : Accounts S → Text → Result Error User
  find_user_by_id a user_id = found_user (find_by_id a.users user_id)

  unfoldable pub has_owner : Accounts S → Result Error Bool
  has_owner a = list_all a.users >>= λ users. ok (some_owner users)

  unfoldable pub list_users : Accounts S → Result Error (List User)
  list_users a = list_all a.users

  abbrev pub with_permissions : Result Error User → List Text → Text → Result Error User
  with_permissions found perms account_type = do
    u ← found
    refuse_if (not (is_empty account_type) && not (valid_account_type account_type))
        invalid_account_type
    ok (
        set_permissions
          (if is_empty account_type then u else record u { account_type = account_type }) perms)

  unfoldable pub set_user_permissions :
      Accounts S → Text → List Text → Text → Accounts S × Result Error User
  set_user_permissions a user_id perms account_type = stored_checked a (
      refuse_if (not (all_valid perms)) invalid_permission
      >> with_permissions (find_user_by_id a user_id) perms account_type)

  abbrev pub with_password : Result Error User → Text → Result Error User
  with_password found new_password = do
    u ← found
    hashed ← hash new_password
    ok (record u { password = hashed })

  unfoldable pub update_user_password : Accounts S → Text → Text → Accounts S × Result Error User
  update_user_password a user_id new_password = stored_checked a (
      refuse_if (ltb (byte_length new_password) 8) weak_password
      >> with_password (find_user_by_id a user_id) new_password)

  unfoldable pub set_user_status : Accounts S → Text → Bool → Accounts S × Result Error User
  set_user_status a user_id is_active =
      stored_checked a (find_user_by_id a user_id >>= λ u. ok (set_active u is_active))

  abbrev pub deleted_row : List Text → S × Option Error → Deleted S
  deleted_row announced (users, none) = record {
    users = users;
    announced = announced;
    result = ok tt;
  }
  deleted_row announced (users, some e) = record {
    users = users;
    announced = announced;
    result = err e;
  }

  abbrev pub enqueued : Text → S × Option Error → Deleted S
  enqueued user_id (users, none) = record {
    users = users;
    announced = user_id ∷ [];
    result = ok tt;
  }
  enqueued user_id (users, some e) = record { users = users; announced = []; result = err e }

  abbrev pub delete_found : Deletion S → Accounts S → Text → Deleted S
  delete_found (transactional delete_and_enqueue) a user_id =
      enqueued user_id (delete_and_enqueue a.users user_id)
  delete_found (published_first (some (some e))) a user_id = record {
    users = a.users;
    announced = [];
    result = err e;
  }
  delete_found (published_first (some none)) a user_id =
      deleted_row (user_id ∷ []) (delete a.users user_id)
  delete_found (published_first none) a user_id = deleted_row [] (delete a.users user_id)

  -- DeleteUser; `marshalled` is the answer of the encoder, and the drainer's turn is left out.
  unfoldable pub delete_user : Deletion S → Accounts S → Text → Option Error → Deleted S
  delete_user way a user_id marshalled = elim (find_user_by_id a user_id) [
    | err e ↦ record { users = a.users; announced = []; result = err e }
    | ok _ ↦ elim marshalled [
      | some e ↦ record { users = a.users; announced = []; result = err e }
      | none ↦ delete_found way a user_id
    ]
  ]
