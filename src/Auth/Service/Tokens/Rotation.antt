-- ===== src/Auth/Service/Tokens/Rotation.antt =====
-- A refresh token that was rotated or logged out: no later call brings it back.
use schick.Prelude.{
  ℕ, ◌≡◌, ◌≢◌, refl, inl, inr, List, [], ◌∷◌, Option, none, some, Text, arith, All, Result, ok, err,
  Result-cases,
}
use schick.Auth.{User}
use schick.Auth.Sessions
use schick.Auth.Sessions.{SessionStore, set, got, get, rotated, rotate, evict_expired}
use schick.Auth.Service.{Error, invalid_token, UserRepository, Crypto, Accounts, login, logout}
use schick.Auth.Service.Lockout.{Attempt, attempt}
use schick.Auth.Service.Tokens.{
  Renewal, renew_session, renewed, got_session, refresh_claimed, refresh,
}
use schick.Auth.Service.Tokens.Absent.{SpentIn, Spent, deleted_absent, rotate_spends}
use schick.Auth.Service.Tokens.Keeping.{
  no_result, rotated_session_keeps, refresh_claimed_keeps, login_found_keeps, logout_keeps,
  evict_keeps,
}

-- Calls of the service that touch sessions, and the store's own collection.
pub data Call : Type 0 where
  logs_in : Text → Attempt → Call
  renews : Text → ℕ → Renewal → Call
  logs_out : Text → Call
  evicts : ℕ → Call

-- The generator does not make this token again.
abbrev pub MakesOther : Text → Call → Type 0
MakesOther token (logs_in email t) = t.token ≢ ok token
MakesOther token (renews other now with_it) = with_it.fresh ≢ ok token
MakesOther token (logs_out other) = Unit {0}
MakesOther token (evicts now) = Unit {0}

module _ {S : Type 0} (repo : UserRepository S) (crypto : Crypto) where
  abbrev pub serve : Accounts S → Call → Accounts S
  serve a (logs_in email t) = (attempt repo crypto a email t).0
  serve a (renews other now with_it) = (refresh repo crypto a other now with_it).0
  serve a (logs_out other) = logout repo crypto a other
  serve a (evicts now) = record a {
    sessions = elim a.sessions [ none ↦ none | some s ↦ some (Sessions.evict_expired now s) ];
  }

  abbrev pub serve_all : Accounts S → List Call → Accounts S
  serve_all a [] = a
  serve_all a (c ∷ cs) = serve_all (serve a c) cs

  serve_keeps :
      (token : Text) (a : Accounts S) (c : Call)
      → MakesOther token c
      → Spent token a
      → Spent token (serve a c)
  unfolding login refresh logout
  serve_keeps token a (logs_in email t) makes spent =
      login_found_keeps repo crypto token _ a t makes spent
  serve_keeps token a (renews other now with_it) makes spent =
      refresh_claimed_keeps repo crypto token a.sessions a other with_it _ makes spent spent
  serve_keeps token a (logs_out other) makes spent =
      logout_keeps repo crypto token a.sessions other spent
  serve_keeps token a (evicts now) makes spent = evict_keeps repo crypto token a.sessions now spent

  serve_all_keeps :
      (token : Text) (cs : List Call) (a : Accounts S)
      → All (MakesOther token) cs
      → Spent token a
      → Spent token (serve_all a cs)
  serve_all_keeps token [] a makes spent = spent
  serve_all_keeps token (c ∷ cs) a (m, ms) spent =
      serve_all_keeps token cs (serve a c) ms (serve_keeps token a c m spent)

  -- What refresh answers for a token that is spent.
  abbrev pub refusal : Result Error Text → Result Error (Text × Text)
  refusal (ok _) = err invalid_token
  refusal (err e) = err e

  refused :
      (token : Text) (o : Option SessionStore) (a : Accounts S) (with_it : Renewal)
      → (r : Result Error Text) → SpentIn token o
      → (refresh_claimed repo crypto o a token with_it r).1 ≡ refusal r
  unfolding Sessions.get
  refused token o a with_it (err e) absent = refl
  refused token none a with_it (ok user_id) absent = ground arith
  refused token (some s) a with_it (ok user_id) absent = rw absent refl

  refresh-refused :
      (token : Text) (a : Accounts S) (now : ℕ) (with_it : Renewal)
      → Spent token a
      → (refresh repo crypto a token now with_it).1 ≡ refusal (crypto.validate_refresh token now)
  unfolding refresh
  refresh-refused token a now with_it spent = refused token a.sessions a with_it _ spent

  renew_session_spends :
      (s : SessionStore) (a : Accounts S) (token : Text) (u : User) (with_it : Renewal)
      → (access : Text) (pair : Text × Text)
      → (renew_session repo crypto (some s) a token u with_it access).1 ≡ ok pair
      → Spent token (renew_session repo crypto (some s) a token u with_it access).0
  renew_session_spends s a token u with_it access pair done = elim (Result-cases with_it.fresh) [
    | inl (fresh, e) ↦ rw e (
        rotated_session_keeps repo crypto token a access fresh _
          (rotate_spends s token fresh u.id with_it.rotated_at with_it.stored_at with_it.expiry))
    | inr (x, e) ↦ no_result x (rw e at done)
  ]

  renewed_spends :
      (s : SessionStore) (a : Accounts S) (token : Text) (with_it : Renewal)
      → (r : Result Error User) (pair : Text × Text)
      → (renewed repo crypto (record a { sessions = some s }) token with_it r).1 ≡ ok pair
      → Spent token (renewed repo crypto (record a { sessions = some s }) token with_it r).0
  renewed_spends s a token with_it (err e) pair done = no_result e done
  renewed_spends s a token with_it (ok u) pair done = elim (Result-cases with_it.access) [
    | inl (access, e) ↦ rw e (
        renew_session_spends s (record a { sessions = some s }) token u with_it access pair
          (rw e at done))
    | inr (x, e) ↦ no_result x (rw e at done)
  ]

  got_session_spends :
      (a : Accounts S) (token : Text) (with_it : Renewal) (user_id : Text)
      → (r : SessionStore × Option Text) (pair : Text × Text)
      → (got_session repo crypto a token with_it user_id r).1 ≡ ok pair
      → Spent token (got_session repo crypto a token with_it user_id r).0
  got_session_spends a token with_it user_id (s, none) pair done = no_result invalid_token done
  got_session_spends a token with_it user_id (s, some _) pair done =
      renewed_spends s a token with_it _ pair done

  refresh_claimed_spends :
      (s : SessionStore) (a : Accounts S) (token : Text) (with_it : Renewal)
      → (r : Result Error Text) (pair : Text × Text)
      → (refresh_claimed repo crypto (some s) a token with_it r).1 ≡ ok pair
      → Spent token (refresh_claimed repo crypto (some s) a token with_it r).0
  refresh_claimed_spends s a token with_it (err e) pair done = no_result e done
  refresh_claimed_spends s a token with_it (ok user_id) pair done =
      got_session_spends a token with_it user_id _ pair done

  refresh_spends :
      (token : Text) (a : Accounts S) (s : SessionStore) (now : ℕ) (with_it : Renewal)
      → (pair : Text × Text) → a.sessions ≡ some s
      → (refresh repo crypto a token now with_it).1 ≡ ok pair
      → Spent token (refresh repo crypto a token now with_it).0
  unfolding refresh
  refresh_spends token a s now with_it pair on done = rw on (
      refresh_claimed_spends s (record a { sessions = some s }) token with_it _ pair
        (rw on at done))

  -- A refresh with a session store succeeds; after any calls whose generator does not make the token
  -- again, the old token is refused: with the validator's error, or as an invalid token.
  pub refresh_twice :
      (token : Text) (a : Accounts S) (s : SessionStore) (cs : List Call)
      → (now later : ℕ) (first again : Renewal) (pair : Text × Text) → a.sessions ≡ some s
      → (refresh repo crypto a token now first).1 ≡ ok pair
      → All (MakesOther token) cs
      → (refresh repo crypto
          (serve_all (refresh repo crypto a token now first).0 cs)
          token
          later
          again).1
        ≡ refusal (crypto.validate_refresh token later)
  refresh_twice token a s cs now later first again pair on done makes =
      refresh-refused token _ later again
        (serve_all_keeps token cs _ makes (refresh_spends token a s now first pair on done))

  -- A logout, then any calls whose generator does not make the token again.
  refresh-logout :
      (token : Text) (a : Accounts S) (s : SessionStore) (cs : List Call)
      → (now : ℕ) (with_it : Renewal) → a.sessions ≡ some s
      → All (MakesOther token) cs
      → (refresh repo crypto (serve_all (logout repo crypto a token) cs) token now with_it).1
        ≡ refusal (crypto.validate_refresh token now)
  unfolding logout Sessions.delete_session
  refresh-logout token a s cs now with_it on makes =
      refresh-refused token _ now with_it (
        serve_all_keeps token cs (logout repo crypto a token) makes
          (rw on (deleted_absent token s)))
