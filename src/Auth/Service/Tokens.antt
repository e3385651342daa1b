-- ===== src/Auth/Service/Tokens.antt =====
-- auth/pkg/service/service.go: Refresh and GetMe, which only an account in good standing passes.
pub mod Absent
pub mod Keeping
pub mod Rotation
use schick.Prelude.{
  ℕ, ◌≡◌, Bool, true, false, not, Option, none, some, Text, if◌then◌else◌, Result, ok, err, ◌>>=◌,
  ◌>>◌, refuse_if,
}
use schick.Auth.{User, is_locked}
use schick.Auth.Sessions
use schick.Auth.Sessions.{SessionStore}
use schick.Auth.Service.{
  Error, invalid_token, account_deactivated, account_locked, UserRepository, Crypto, Accounts,
  found_user,
}

-- The checks that Refresh and GetMe share.
abbrev pub usable : Result Error (Option User) → ℕ → Result Error User
usable found now = do
  u ← found_user found
  refuse_if (not u.is_active) account_deactivated
  refuse_if (is_locked (some u) now) account_locked
  ok u

-- What Refresh is given: readings of the clock at Get, at IsLocked, at the test and at the new entry of
-- Rotate, and the answers of the two generators.
pub record Renewal : Type 0 where
  pub got_at : ℕ
  pub checked_at : ℕ
  pub rotated_at : ℕ
  pub stored_at : ℕ
  pub expiry : ℕ
  pub access : Result Error Text
  pub fresh : Result Error Text

module _ {S : Type 0} (repo : UserRepository S) (crypto : Crypto) where
  open repo use {find_by_id}
  open crypto use {validate_access, validate_refresh}

  abbrev pub rotated_session :
      Accounts S → Text → Text → SessionStore × Bool → Accounts S × Result Error (Text × Text)
  rotated_session a access fresh (s, false) = (record a { sessions = some s }, err invalid_token)
  rotated_session a access fresh (s, true) = (record a { sessions = some s }, ok (access, fresh))

  -- From the new access token on; with no session store the refresh token stays.
  abbrev pub renew_session :
      Option SessionStore
      → Accounts S
      → Text
      → User
      → Renewal
      → Text
      → Accounts S × Result Error (Text × Text)
  renew_session none a token u with_it access = (a, ok (access, token))
  renew_session (some s) a token u with_it access = elim with_it.fresh [
    | err e ↦ (a, err e)
    | ok fresh ↦
        rotated_session a access fresh
          (Sessions.rotate s token fresh u.id with_it.rotated_at with_it.stored_at with_it.expiry)
  ]

  abbrev pub renewed :
      Accounts S → Text → Renewal → Result Error User → Accounts S × Result Error (Text × Text)
  renewed a token with_it (err e) = (a, err e)
  renewed a token with_it (ok u) = elim with_it.access [
    | err e ↦ (a, err e)
    | ok access ↦ renew_session a.sessions a token u with_it access
  ]

  abbrev pub refresh_of :
      Accounts S → Text → Renewal → Text → Accounts S × Result Error (Text × Text)
  refresh_of a token with_it user_id =
      renewed a token with_it (usable (find_by_id a.users user_id) with_it.checked_at)

  abbrev pub got_session :
      Accounts S
      → Text
      → Renewal
      → Text
      → SessionStore × Option Text
      → Accounts S × Result Error (Text × Text)
  got_session a token with_it user_id (s, none) =
      (record a { sessions = some s }, err invalid_token)
  got_session a token with_it user_id (s, some _) =
      refresh_of (record a { sessions = some s }) token with_it user_id

  abbrev pub refresh_claimed :
      Option SessionStore
      → Accounts S
      → Text
      → Renewal
      → Result Error Text
      → Accounts S × Result Error (Text × Text)
  refresh_claimed sessions a token with_it (err e) = (a, err e)
  refresh_claimed none a token with_it (ok user_id) = refresh_of a token with_it user_id
  refresh_claimed (some s) a token with_it (ok user_id) =
      got_session a token with_it user_id (Sessions.get s token with_it.got_at)

  -- Refresh
  unfoldable pub refresh : Accounts S → Text → ℕ → Renewal → Accounts S × Result Error (Text × Text)
  refresh a token now with_it =
      refresh_claimed a.sessions a token with_it (validate_refresh token now)

  -- GetMe
  unfoldable pub get_me : Accounts S → Text → ℕ → ℕ → Result Error User
  get_me a access_token now later = do
    user_id ← validate_access access_token now
    usable (find_by_id a.users user_id) later
