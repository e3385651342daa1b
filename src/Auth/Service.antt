-- ===== src/Auth/Service.antt =====
-- auth/pkg/service/service.go: registration, login with its lockout, and refresh tokens. The table of
-- users, bcrypt, the token generators, the random ids and the broker are parameters; each reading of the
-- clock is an argument: `now` for the test of the lock, `later` for what is stored.
pub mod Lockout
pub mod Tokens
pub mod Administration
pub mod Standing
mod Tests
use schick.Prelude.{
  ℕ, ◌+◌, ◌≡◌, ℤ, pos, leb_ℤ, ltb_ℤ, Bool, true, false, not, ◌&&◌, ◌||◌, List, [], ◌∷◌, Option,
  none, some, Text, codes, ◌==◌, is_empty, has_prefix, has_suffix, eqb, ltb, if◌then◌else◌, Result,
  ok, err, ◌>>=◌, ◌>>◌, refuse_if,
}
use schick.Prelude.Word
use schick.Permissions.{valid, dedupe, has}
use schick.Permissions.Catalog.{every}
use schick.Auth.{
  User, account_type_customer, valid_account_type, normalize_email, is_lock_exempt, is_locked, lock,
  unlock, set_permissions, set_active,
}
use schick.Auth.Sessions
use schick.Auth.Sessions.{SessionStore}

pub data Error : Type 0 where
  invalid_credentials user_not_found invalid_token token_expired invalid_email : Error
  weak_password account_locked account_deactivated invalid_account_type : Error
  invalid_permission : Error
  failed : Text → Error

-- ports.UserRepository, on a table in the state `S`.
pub record UserRepository (S : Type 0) : Type 0 where
  pub find_by_email : S → Text → Result Error (Option User)
  pub find_by_id : S → Text → Result Error (Option User)
  pub list_all : S → Result Error (List User)
  pub save : S → User → S × Option Error
  pub delete : S → Text → S × Option Error

-- bcrypt, and the answers of the two token generators to Validate.
pub record Crypto : Type 0 where
  pub hash : Text → Result Error Text
  pub matches : Text → Text → Bool
  pub validate_access : Text → ℕ → Result Error Text
  pub validate_refresh : Text → ℕ → Result Error Text

-- The session store is nil where refresh tokens cannot be revoked.
pub record Accounts (S : Type 0) : Type 0 where
  pub users : S
  pub sessions : Option SessionStore

abbrev pub max_failed_attempts : ℤ
max_failed_attempts = pos 5

-- len of a string: its bytes.
unfoldable pub byte_length : Text → ℕ
byte_length [] = 0
byte_length (c ∷ s) =
    (if ltb c 0x80 then 1 else if ltb c 0x800 then 2 else if ltb c 0x10000 then 3 else 4)
    + byte_length s

unfoldable pub has_at : Text → Bool
has_at [] = false
has_at (c ∷ s) = eqb c b'@' || has_at s

-- A nil user is ErrUserNotFound.
abbrev pub found_user : Result Error (Option User) → Result Error User
found_user (ok none) = err user_not_found
found_user (ok (some u)) = ok u
found_user (err e) = err e

module _ {S : Type 0} (repo : UserRepository S) (crypto : Crypto) where
  open repo use {find_by_email, save}
  open crypto use {hash, matches}

  abbrev pub saved : Accounts S → User → Accounts S
  saved a u = record a { users = (save a.users u).0 }

  -- `if err := s.userRepo.Save(ctx, u); err != nil`
  abbrev pub stored : Accounts S → User → S × Option Error → Accounts S × Result Error User
  stored a u (users, none) = (record a { users = users }, ok u)
  stored a u (users, some e) = (record a { users = users }, err e)

  abbrev new_user : Text → Text → Text → Text → List Text → User
  new_user id email password account_type perms = record {
    id = id;
    email = normalize_email email;
    password = password;
    account_type = account_type;
    permissions = dedupe perms;
    is_active = true;
    locked_at = none;
    failed_login_attempts = pos 0;
  }

  abbrev checked_user : Text → Text → Text → Text → List Text → Result Error User
  checked_user id email password account_type perms = do
    refuse_if (not (has_at email) || has_prefix email (codes "@") || has_suffix email (codes "@"))
        invalid_email
    refuse_if (ltb (byte_length password) 8) weak_password
    let t = if is_empty account_type then account_type_customer else account_type
    refuse_if (not (valid_account_type t)) invalid_account_type
    hashed ← hash password
    ok (new_user id email hashed t (dedupe perms))

  -- Register; the publish of user.registered, whose failure is only logged, is left out.
  unfoldable pub register :
      Accounts S → Text → Text → Text → Text → List Text → Accounts S × Result Error User
  register a id email password account_type perms =
      elim (checked_user id email password account_type perms) [
        | err e ↦ (a, err e)
        | ok u ↦ stored a u (save a.users u)
      ]

  abbrev pub exempt_attempt : Option ℕ → Accounts S → User → Accounts S
  exempt_attempt none a u = a
  exempt_attempt (some _) a u = saved a (record u { locked_at = none })

  -- A wrong password.
  unfoldable pub failed_attempt : Accounts S → User → ℕ → Accounts S
  failed_attempt a u now =
      let n = Word.add u.failed_login_attempts (pos 1) in
      let v = record u { failed_login_attempts = n } in
      if is_lock_exempt (some u)
      then exempt_attempt u.locked_at a u
      else saved a (if leb_ℤ max_failed_attempts n then lock v now else v)

  abbrev pub is_set : Option ℕ → Bool
  is_set none = false
  is_set (some _) = true

  -- The right password, and the token that the generator makes.
  abbrev pub with_session :
      Accounts S → User → ℕ → ℕ → Result Error Text → Accounts S × Result Error Text
  with_session a u now expiry (err e) = (a, err e)
  with_session a u now expiry (ok token) = (
    record a {
      sessions = elim a.sessions [
        | none ↦ none
        | some s ↦ some (Sessions.set s token u.id now expiry)
      ];
    },
    ok token,
  )

  unfoldable pub logged_in :
      Accounts S → User → ℕ → ℕ → Result Error Text → Accounts S × Result Error Text
  logged_in a u now expiry token =
      with_session
        (if ltb_ℤ (pos 0) u.failed_login_attempts || is_set u.locked_at
          then saved a (unlock u)
          else a)
        u now expiry token

  unfoldable pub try_password :
      Accounts S → User → Text → ℕ → ℕ → Result Error Text → Accounts S × Result Error Text
  try_password a u password later expiry token =
      if not u.is_active
      then (a, err account_deactivated)
      else if not (matches u.password password)
      then (failed_attempt a u later, err invalid_credentials)
      else logged_in a u later expiry token

  -- A lock whose time is over is cleared first.
  abbrev pub try_cleared :
      Option ℕ
      → Accounts S
      → User
      → Text
      → ℕ
      → ℕ
      → Result Error Text
      → Accounts S × Result Error Text
  try_cleared none a u password later expiry token = try_password a u password later expiry token
  try_cleared (some _) a u password later expiry token =
      try_password (saved a (unlock u)) (unlock u) password later expiry token

  abbrev pub login_found :
      Result Error (Option User)
      → Accounts S
      → Text
      → ℕ
      → ℕ
      → ℕ
      → Result Error Text
      → Accounts S × Result Error Text
  login_found (err e) a password now later expiry token = (a, err e)
  login_found (ok none) a password now later expiry token = (a, err invalid_credentials)
  login_found (ok (some u)) a password now later expiry token =
      if is_locked (some u) now
      then (a, err account_locked)
      else try_cleared u.locked_at a u password later expiry token

  -- Login; `token` is the generator's answer, if it comes to that.
  unfoldable pub login :
      Accounts S → Text → Text → ℕ → ℕ → ℕ → Result Error Text → Accounts S × Result Error Text
  login a email password now later expiry token =
      login_found (find_by_email a.users email) a password now later expiry token

  unfoldable pub logout : Accounts S → Text → Accounts S
  logout a token = record a {
    sessions = elim a.sessions [ none ↦ none | some s ↦ some (Sessions.delete_session token s) ];
  }
