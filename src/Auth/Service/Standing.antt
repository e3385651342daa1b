-- ===== src/Auth/Service/Standing.antt =====
-- Who passes Refresh and GetMe, and what a change of status does to a user's tokens.
use schick.Prelude.{
  Bool-cases, ltb, lookup, if◌then◌else◌, ap, sym, ◌∙◌, ℕ, ◌≡◌, refl, inl, inr, Bool, true, false,
  Option, none, some, Text, arith, Result, ok, err, Result-cases, ◌>>=◌, ok_injective,
}
use schick.Auth.{User, is_locked, set_active}
use schick.Auth.Sessions
use schick.Auth.Sessions.{SessionEntry, SessionStore}
use schick.Auth.Service.{
  Error, account_deactivated, invalid_token, UserRepository, Crypto, Accounts, found_user, stored,
}
use schick.Auth.Service.Tokens.{
  Renewal, usable, renewed, got_session, refresh_claimed, refresh, get_me,
}
use schick.Auth.Service.Tokens.Keeping.{no_result}
use schick.Auth.Service.Administration.{find_user_by_id, set_user_status, stored_checked}

-- The account is found, active and not locked.
pub record InStanding (found : Result Error (Option User)) (now : ℕ) : Type 0 where
  pub user : User
  pub is_found : found ≡ ok (some user)
  pub active : user.is_active ≡ true
  pub unlocked : is_locked (some user) now ≡ false

standing_of_usable :
    (found : Result Error (Option User)) (now : ℕ) (u : User)
    → usable found now ≡ ok u
    → InStanding found now
standing_of_usable (err e) now u done = no_result e done
standing_of_usable (ok none) now u done = no_result _ done
standing_of_usable (ok (some v)) now u done = record {
  user = v;
  is_found = refl;
  active = ground arith;
  unlocked = ground arith;
}

-- Why a refresh of a deactivated account fails, by the session store and its entry of the token.
abbrev pub entry_refusal : ℕ → Option SessionEntry → Error
entry_refusal now none = invalid_token
entry_refusal now (some entry) =
    if ltb entry.expires_at now then invalid_token else account_deactivated

abbrev pub refusal_at : Text → ℕ → Option SessionStore → Error
refusal_at token now none = account_deactivated
refusal_at token now (some s) = entry_refusal now (lookup token s)

-- A user who was saved without an error is found by the same id, with what was saved.
abbrev pub FindsById : {S : Type 0} → UserRepository S → Type 0
FindsById {S} repo =
    (s s' : S) (id : Text) (u v : User)
    → repo.find_by_id s id ≡ ok (some u)
    → v.id ≡ u.id
    → repo.save s v ≡ (s', none)
    → repo.find_by_id s' id ≡ ok (some v)

usable_of_inactive :
    (found : Result Error (Option User)) (now : ℕ) (u : User)
    → found ≡ ok (some u)
    → u.is_active ≡ false
    → usable found now ≡ err account_deactivated
usable_of_inactive found now u e off = rw e (ground arith)

module _ {S : Type 0} (repo : UserRepository S) (crypto : Crypto) where
  standing_of_renewed :
      (a : Accounts S) (token : Text) (with_it : Renewal) (found : Result Error (Option User))
      → (pair : Text × Text)
      → (renewed repo crypto a token with_it (usable found with_it.checked_at)).1 ≡ ok pair
      → InStanding found with_it.checked_at
  standing_of_renewed a token with_it found pair done =
      elim (Result-cases (usable found with_it.checked_at)) [
        | inl (u, e) ↦ standing_of_usable found with_it.checked_at u e
        | inr (x, e) ↦ no_result x (rw e at done)
      ]

  standing_of_got :
      (a : Accounts S) (token : Text) (with_it : Renewal) (user_id : Text)
      → (r : SessionStore × Option Text) (pair : Text × Text)
      → (got_session repo crypto a token with_it user_id r).1 ≡ ok pair
      → InStanding (repo.find_by_id a.users user_id) with_it.checked_at
  standing_of_got a token with_it user_id (s, none) pair done = no_result _ done
  standing_of_got a token with_it user_id (s, some _) pair done =
      standing_of_renewed (record a { sessions = some s }) token with_it _ pair done

  standing_of_claimed :
      (o : Option SessionStore) (a : Accounts S) (token : Text) (with_it : Renewal)
      → (user_id : Text) (pair : Text × Text)
      → (refresh_claimed repo crypto o a token with_it (ok user_id)).1 ≡ ok pair
      → InStanding (repo.find_by_id a.users user_id) with_it.checked_at
  standing_of_claimed none a token with_it user_id pair done =
      standing_of_renewed a token with_it _ pair done
  standing_of_claimed (some s) a token with_it user_id pair done =
      standing_of_got a token with_it user_id _ pair done

  -- A refresh that succeeds was for a valid token of an account that is found, active and not locked.
  refresh-InStanding :
      (a : Accounts S) (token : Text) (now : ℕ) (with_it : Renewal) (pair : Text × Text)
      → (refresh repo crypto a token now with_it).1 ≡ ok pair
      → (user_id : Text) × (crypto.validate_refresh token now ≡ ok user_id)
        × InStanding (repo.find_by_id a.users user_id) with_it.checked_at
  unfolding refresh
  refresh-InStanding a token now with_it pair done =
      elim (Result-cases (crypto.validate_refresh token now)) [
        | inl (user_id, e) ↦
            (user_id, e, standing_of_claimed a.sessions a token with_it user_id pair (rw e at done))
        | inr (x, e) ↦ no_result x (rw e at done)
      ]

  refusal_of_got :
      (s : SessionStore) (a : Accounts S) (token user_id : Text) (u : User) (with_it : Renewal)
      → (o : Option SessionEntry) → repo.find_by_id a.users user_id ≡ ok (some u)
      → u.is_active ≡ false
      → (got_session repo crypto a token with_it user_id (Sessions.got s token with_it.got_at o)).1
        ≡ err (entry_refusal with_it.got_at o)
  refusal_of_got s a token user_id u with_it none e off = refl
  refusal_of_got s a token user_id u with_it (some entry) e off =
      elim (Bool-cases (ltb entry.expires_at with_it.got_at)) [
        | inl t ↦ rw t refl
        | inr t ↦ rw t (rw (usable_of_inactive _ with_it.checked_at u e off) refl)
      ]

  refusal_of_inactive :
      (o : Option SessionStore) (a : Accounts S) (token user_id : Text) (u : User)
      → (with_it : Renewal) → repo.find_by_id a.users user_id ≡ ok (some u)
      → u.is_active ≡ false
      → (refresh_claimed repo crypto o a token with_it (ok user_id)).1
        ≡ err (refusal_at token with_it.got_at o)
  unfolding Sessions.get
  refusal_of_inactive none a token user_id u with_it e off =
      rw (usable_of_inactive _ with_it.checked_at u e off) refl
  refusal_of_inactive (some s) a token user_id u with_it e off =
      refusal_of_got s a token user_id u with_it (lookup token s) e off

  stored_sessions :
      (a : Accounts S) (s : S × Option Error) (u : User)
      → (stored repo crypto a u s).0.sessions ≡ a.sessions
  stored_sessions a (users, none) u = refl
  stored_sessions a (users, some e) u = refl

  status_sessions :
      (a : Accounts S) (r : Result Error User)
      → (stored_checked repo crypto a r).0.sessions ≡ a.sessions
  status_sessions a (err e) = refl
  status_sessions a (ok u) = stored_sessions a _ u

  stored_is_found :
      (finds : FindsById repo) (a : Accounts S) (user_id : Text) (u v w : User)
      → repo.find_by_id a.users user_id ≡ ok (some u)
      → v.id ≡ u.id
      → (r : S × Option Error) → repo.save a.users v ≡ r
      → (stored repo crypto a v r).1 ≡ ok w
      → (v ≡ w) × (repo.find_by_id (stored repo crypto a v r).0.users user_id ≡ ok (some v))
  stored_is_found finds a user_id u v w e same (users, none) s done =
      (ok_injective v w _ _ refl refl done, finds a.users users user_id u v e same s)
  stored_is_found finds a user_id u v w e same (users, some x) s done = no_result x done

  status_of_found :
      (finds : FindsById repo) (a : Accounts S) (user_id : Text) (active : Bool) (w : User)
      → (found : Result Error (Option User)) → repo.find_by_id a.users user_id ≡ found
      → (stored_checked repo crypto a (found_user found >>= λ u. ok (set_active u active))).1 ≡ ok w
      → (v : User) × (repo.find_by_id
            (stored_checked repo crypto a
              (found_user found >>= λ u. ok (set_active u active))).0.users
            user_id
          ≡ ok (some v))
        × (v.is_active ≡ active)
  unfolding set_active
  status_of_found finds a user_id active w (err e) f done = no_result e done
  status_of_found finds a user_id active w (ok none) f done = no_result _ done
  status_of_found finds a user_id active w (ok (some u)) f done = (
    set_active u active,
    (stored_is_found finds a user_id u (set_active u active) w f refl _ refl done).1,
    refl,
  )

  status_stored :
      (finds : FindsById repo) (a : Accounts S) (user_id : Text) (active : Bool) (w : User)
      → (set_user_status repo crypto a user_id active).1 ≡ ok w
      → (v : User) × (repo.find_by_id (set_user_status repo crypto a user_id active).0.users user_id
          ≡ ok (some v))
        × (v.is_active ≡ active)
  unfolding set_user_status find_user_by_id
  status_stored finds a user_id active w done = status_of_found finds a user_id active w _ refl done

  -- Over a table that finds what it saved without an error: after a deactivation that was stored, every
  -- access token of the user is refused as deactivated, and so is every refresh token that its validator
  -- accepts, except that with a session store a token without an unexpired session is refused as invalid.
  pub deactivated_refused :
      (finds : FindsById repo) (a b : Accounts S) (user_id : Text) (w : User)
      → (access token : Text) (now later : ℕ) (with_it : Renewal)
      → set_user_status repo crypto a user_id false ≡ (b, ok w)
      → crypto.validate_access access now ≡ ok user_id
      → crypto.validate_refresh token now ≡ ok user_id
      → (get_me repo crypto b access now later ≡ err account_deactivated)
        × ((refresh repo crypto b token now with_it).1
            ≡ err (refusal_at token with_it.got_at a.sessions))
  unfolding refresh get_me set_user_status
  deactivated_refused finds a b user_id w access token now later with_it done is_access is_refresh =
      let (v, found, off) = status_stored finds a user_id false w (ap (λ r. r.1) done) in
      let stands : repo.find_by_id b.users user_id ≡ ok (some v) =
        ap (λ r. repo.find_by_id r.0.users user_id) (sym done) ∙ found in
      let same : b.sessions ≡ a.sessions =
        ap (λ r. r.0.sessions) (sym done) ∙ status_sessions a _ in
      (
        rw is_access (usable_of_inactive _ later v stands off),
        rw is_refresh (refusal_of_inactive b.sessions b token user_id v with_it stands off)
            ∙ ap (λ o. err (refusal_at token with_it.got_at o)) same,
      )
