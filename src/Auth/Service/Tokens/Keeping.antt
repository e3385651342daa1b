-- ===== src/Auth/Service/Tokens/Keeping.antt =====
-- No login, refresh, logout or collection puts an absent token back.
use schick.Prelude.{
  ℕ, ◌≡◌, ◌≢◌, refl, ap, ◌∙◌, inl, inr, Bool, true, false, not, Option, none, some, Text, arith,
  lookup, if_rule, Result, ok, err, Result-cases,
}
use schick.Auth.{User, is_lock_exempt, is_locked}
use schick.Auth.Sessions
use schick.Auth.Sessions.{SessionStore, set, got, get, rotated, rotate, evict_expired}
use schick.Auth.Service.{
  Error, UserRepository, Crypto, Accounts, with_session, logged_in, exempt_attempt, failed_attempt,
  try_password, try_cleared, login_found,
}
use schick.Auth.Service.Lockout.{Attempt}
use schick.Auth.Service.Tokens.{
  Renewal, rotated_session, renew_session, renewed, got_session, refresh_claimed,
}
use schick.Auth.Service.Tokens.Absent.{
  SpentIn, Spent, insert_absent, delete_absent, get_absent, rotate_absent, evict_absent,
}

pub no_result :
    {A : Type 0} {P : Type 0} (e : Error) {pair : A}
    → ◌≡◌ {A = Result Error A} (err e) (ok pair)
    → P
no_result e done = ground arith

module _ {S : Type 0} (repo : UserRepository S) (crypto : Crypto) where
  pub rotated_session_keeps :
      (token : Text) (a : Accounts S) (access fresh : Text) (r : SessionStore × Bool)
      → lookup token r.0 ≡ none
      → Spent token (rotated_session repo crypto a access fresh r).0
  rotated_session_keeps token a access fresh (s, true) absent = absent
  rotated_session_keeps token a access fresh (s, false) absent = absent

  pub renew_session_keeps :
      (token : Text) (s : SessionStore) (a : Accounts S) (other : Text) (u : User)
      → (with_it : Renewal) (access : Text) → Spent token a
      → with_it.fresh ≢ ok token
      → lookup token s ≡ none
      → Spent token (renew_session repo crypto (some s) a other u with_it access).0
  renew_session_keeps token s a other u with_it access spent makes absent =
      elim (Result-cases with_it.fresh) [
        | inl (fresh, e) ↦ rw e (
            rotated_session_keeps token a access fresh _ (
              rotate_absent s other fresh token u.id with_it.rotated_at with_it.stored_at
                with_it.expiry (λ same. makes (e ∙ ap ok same)) absent))
        | inr (x, e) ↦ rw e spent
      ]

  pub renewed_keeps :
      (token : Text) (s : SessionStore) (a : Accounts S) (other : Text) (with_it : Renewal)
      → (r : Result Error User) → with_it.fresh ≢ ok token
      → lookup token s ≡ none
      → Spent token (renewed repo crypto (record a { sessions = some s }) other with_it r).0
  renewed_keeps token s a other with_it (err e) makes absent = absent
  renewed_keeps token s a other with_it (ok u) makes absent = elim (Result-cases with_it.access) [
    | inl (access, e) ↦ rw e (
        renew_session_keeps token s (record a { sessions = some s }) other u with_it access absent
          makes absent)
    | inr (x, e) ↦ rw e absent
  ]

  pub got_session_keeps :
      (token : Text) (a : Accounts S) (other : Text) (with_it : Renewal) (user_id : Text)
      → (r : SessionStore × Option Text) → with_it.fresh ≢ ok token
      → lookup token r.0 ≡ none
      → Spent token (got_session repo crypto a other with_it user_id r).0
  got_session_keeps token a other with_it user_id (s, none) makes absent = absent
  got_session_keeps token a other with_it user_id (s, some _) makes absent =
      renewed_keeps token s a other with_it _ makes absent

  pub refresh_claimed_keeps :
      (token : Text) (o : Option SessionStore) (a : Accounts S) (other : Text)
      → (with_it : Renewal) (r : Result Error Text) → with_it.fresh ≢ ok token
      → SpentIn token o
      → Spent token a
      → Spent token (refresh_claimed repo crypto o a other with_it r).0
  refresh_claimed_keeps token o a other with_it (err e) makes absent spent = spent
  refresh_claimed_keeps token none a other with_it (ok user_id) makes absent spent = ground arith
  refresh_claimed_keeps token (some s) a other with_it (ok user_id) makes absent spent =
      got_session_keeps token a other with_it user_id _ makes
        (get_absent s other token with_it.got_at absent)

  pub stores_keeps :
      (token : Text) (o : Option SessionStore) (made : Text) (value : Text) (now expiry : ℕ)
      → made ≢ token
      → SpentIn token o
      → SpentIn token
          (elim o [ none ↦ none | some s ↦ some (Sessions.set s made value now expiry) ])
  unfolding set
  stores_keeps token none made value now expiry other absent = absent
  stores_keeps token (some s) made value now expiry other absent =
      insert_absent made token _ s other absent

  pub with_session_keeps :
      (token : Text) (a : Accounts S) (u : User) (now expiry : ℕ) (r : Result Error Text)
      → r ≢ ok token
      → Spent token a
      → Spent token (with_session repo crypto a u now expiry r).0
  with_session_keeps token a u now expiry (err e) makes spent = spent
  with_session_keeps token a u now expiry (ok made) makes spent =
      stores_keeps token a.sessions made u.id now expiry (λ same. makes (ap ok same)) spent

  pub exempt_attempt_sessions :
      (o : Option ℕ) (a : Accounts S) (u : User)
      → (exempt_attempt repo crypto o a u).sessions ≡ a.sessions
  exempt_attempt_sessions none a u = refl
  exempt_attempt_sessions (some _) a u = refl

  pub failed_attempt_sessions :
      (a : Accounts S) (u : User) (now : ℕ)
      → (failed_attempt repo crypto a u now).sessions ≡ a.sessions
  unfolding failed_attempt
  failed_attempt_sessions a u now =
      if_rule (λ (b : Accounts S). b.sessions ≡ a.sessions) (is_lock_exempt (some u))
        (exempt_attempt_sessions u.locked_at a u) refl

  pub try_password_keeps :
      (token : Text) (a : Accounts S) (u : User) (p : Text) (later expiry : ℕ)
      → (r : Result Error Text) → r ≢ ok token
      → Spent token a
      → Spent token (try_password repo crypto a u p later expiry r).0
  unfolding try_password logged_in
  try_password_keeps token a u p later expiry r makes spent =
      if_rule (λ (b : Accounts S × Result Error Text). Spent token b.0) (not u.is_active) spent
        (if_rule (λ (b : Accounts S × Result Error Text). Spent token b.0)
          (not (crypto.matches u.password p)) (rw (failed_attempt_sessions a u later) spent)
          (with_session_keeps token _ u later expiry r makes
            (if_rule (λ (b : Accounts S). Spent token b) _ spent spent)))

  pub try_cleared_keeps :
      (token : Text) (o : Option ℕ) (a : Accounts S) (u : User) (p : Text) (later expiry : ℕ)
      → (r : Result Error Text) → r ≢ ok token
      → Spent token a
      → Spent token (try_cleared repo crypto o a u p later expiry r).0
  try_cleared_keeps token none a u p later expiry r makes spent =
      try_password_keeps token a u p later expiry r makes spent
  try_cleared_keeps token (some _) a u p later expiry r makes spent =
      try_password_keeps token _ _ p later expiry r makes spent

  pub login_found_keeps :
      (token : Text) (found : Result Error (Option User)) (a : Accounts S) (t : Attempt)
      → t.token ≢ ok token
      → Spent token a
      → Spent token (login_found repo crypto found a t.password t.now t.later t.expiry t.token).0
  login_found_keeps token (err e) a t makes spent = spent
  login_found_keeps token (ok none) a t makes spent = spent
  login_found_keeps token (ok (some u)) a t makes spent =
      if_rule (λ (b : Accounts S × Result Error Text). Spent token b.0) (is_locked (some u) t.now)
        spent
        (try_cleared_keeps token u.locked_at a u t.password t.later t.expiry t.token makes spent)

  pub logout_keeps :
      (token : Text) (o : Option SessionStore) (other : Text)
      → SpentIn token o
      → SpentIn token (elim o [ none ↦ none | some s ↦ some (Sessions.delete_session other s) ])
  unfolding Sessions.delete_session
  logout_keeps token none other absent = absent
  logout_keeps token (some s) other absent = delete_absent other token s absent

  pub evict_keeps :
      (token : Text) (o : Option SessionStore) (now : ℕ)
      → SpentIn token o
      → SpentIn token (elim o [ none ↦ none | some s ↦ some (Sessions.evict_expired now s) ])
  evict_keeps token none now absent = absent
  evict_keeps token (some s) now absent = evict_absent token now s absent
