-- ===== src/Auth/Service/Tests.antt =====
-- One account: locked out after five wrong passwords, its tokens rotated, logged out and cut off.
use schick.Prelude.{
  ◌≡◌, inl, inr, refl, pos, true, false, List, [], ◌∷◌, none, some, arith, codes, ◌==◌,
  if◌then◌else◌, ok, err, lookup, insert, delete, Bool-cases,
}
use schick.Prelude.Word
use schick.Permissions.{has}
use schick.Auth.{
  User, account_type_customer, is_locked, is_lock_exempt, user_class, lock, unlock, set_active,
  normalize_account_type, class_of_account_type,
}
use schick.Auth.Sessions
use schick.Auth.Sessions.{SessionStore}
use schick.Auth.Service.{
  Error, account_locked, account_deactivated, invalid_token, UserRepository, Crypto, Accounts,
  failed_attempt, logged_in, try_password, login, logout,
}
use schick.Auth.Service.Administration.{find_user_by_id, set_user_status}
use schick.Auth.Service.Lockout.{Attempt, attempt, attempt_all, FindsSaved, locked_out}
use schick.Auth.Service.Tokens.{Renewal, refresh, get_me}
use schick.Auth.Service.Tokens.Rotation.{Call, renews, serve_all, refresh_twice}
use schick.Auth.Service.Standing.{FindsById, deactivated_refused}

-- What the runs compute through.
auth_service_code : Unit {0}
unfolding Word.add Word.wrap ◌==◌ lookup insert delete has is_locked is_lock_exempt user_class lock
    unlock set_active normalize_account_type class_of_account_type Sessions.set Sessions.get
    Sessions.rotate Sessions.delete_session failed_attempt logged_in try_password login logout
    find_user_by_id set_user_status refresh get_me
auth_service_code = tt

abbrev shopper : User
shopper = record {
  id = codes "u1";
  email = codes "a@x";
  password = codes "secret";
  account_type = account_type_customer;
  permissions = [];
  is_active = true;
  locked_at = none;
  failed_login_attempts = pos 0;
}

-- A table with room for one account.
abbrev one_account : UserRepository User
one_account = record {
  find_by_email = λ s email. if s.email == email then ok (some s) else ok none;
  find_by_id = λ s id. if s.id == id then ok (some s) else ok none;
  list_all = λ s. ok (s ∷ []);
  save = λ s v. (v, none);
  delete = λ s id. (s, some (Error.failed (codes "kept")));
}

-- A hash that is the password, and tokens that are always valid.
abbrev plain : Crypto
plain = record {
  hash = ok;
  matches = λ hashed password. hashed == password;
  validate_access = λ token now. ok (codes "u1");
  validate_refresh = λ token now. ok (codes "u1");
}

one_account-FindsSaved : FindsSaved one_account
one_account-FindsSaved s email u v found same_id same_email = elim (Bool-cases (s.email == email)) [
  | inl e ↦ grind (arith)
  | inr e ↦ grind (arith)
]

one_account-FindsById : FindsById one_account
one_account-FindsById s s' id u v found same_id saved = elim (Bool-cases (s.id == id)) [
  | inl e ↦ grind (arith)
  | inr e ↦ grind (arith)
]

abbrev with_token : Accounts User
with_token = record {
  users = shopper;
  sessions = some ((codes "t1", record { value = codes "u1"; expires_at = 100 }) ∷ []);
}

abbrev guess : Attempt
guess = record {
  password = codes "guess";
  now = 1;
  later = 2;
  expiry = 50;
  token = ok (codes "t9");
}

abbrev renewal : Renewal
renewal = record {
  got_at = 1;
  checked_at = 2;
  rotated_at = 3;
  stored_at = 4;
  expiry = 50;
  access = ok (codes "access");
  fresh = ok (codes "t2");
}

abbrev again : List Call
again = renews (codes "t2") 5 (record renewal { fresh = ok (codes "t3") }) ∷ []

refresh_twice_example :
    (refresh one_account plain
      (serve_all one_account plain
        (refresh one_account plain with_token (codes "t1") 1 renewal).0
        again)
      (codes "t1")
      9
      renewal).1
    ≡ err invalid_token
unfolding auth_service_code
refresh_twice_example =
    refresh_twice one_account plain (codes "t1") with_token
      ((codes "t1", record { value = codes "u1"; expires_at = 100 }) ∷ []) again 1 9 renewal renewal
      (codes "access", codes "t2") refl refl ((λ e. ground arith), tt)

abbrev guesses : List Attempt
guesses = guess ∷ guess ∷ guess ∷ guess ∷ []

abbrev after_five : Accounts User
after_five =
    (attempt one_account plain (attempt_all one_account plain with_token (codes "a@x") guesses)
      (codes "a@x") guess).0

locked_out_example :
    (attempt_all one_account plain after_five (codes "a@x") (guess ∷ guess ∷ []) ≡ after_five)
    × ((attempt one_account plain
          (attempt_all one_account plain after_five (codes "a@x") (guess ∷ guess ∷ []))
          (codes "a@x")
          (record guess { password = codes "secret" })).1
        ≡ err account_locked)
unfolding auth_service_code
locked_out_example =
    locked_out one_account plain one_account-FindsSaved guesses guess (guess ∷ guess ∷ [])
      (record guess { password = codes "secret" }) with_token (codes "a@x") shopper after_five refl
      (record { active = refl; unlocked = refl; count = refl; plain = refl }) refl
      (refl, (refl, (refl, (refl, tt)))) refl (refl, (refl, tt)) refl

abbrev deactivated : Accounts User
deactivated = record with_token { users = set_active shopper false }

deactivated_refused_example :
    (get_me one_account plain deactivated (codes "access") 1 2 ≡ err account_deactivated)
    × ((refresh one_account plain deactivated (codes "t1") 1 renewal).1 ≡ err account_deactivated)
unfolding auth_service_code
deactivated_refused_example =
    deactivated_refused one_account plain one_account-FindsById with_token deactivated (codes "u1")
      (set_active shopper false) (codes "access") (codes "t1") 1 2 renewal refl refl refl
