-- ===== src/Auth/Service/Lockout.antt =====
-- Login's answer for a user that is found, and the lock after five wrong passwords in a row.
use schick.Prelude.{
  ℕ, ◌+◌, ◌<◌, ◌≡◌, refl, sym, ap, ◌∙◌, pos, true, false, List, [], ◌∷◌, Option, none, some, Text,
  arith, ltb, if◌then◌else◌, not, length, All, Result, ok, err, subst,
}
use schick.Prelude.Word
use schick.Auth.{User, user_class, is_lock_exempt, is_locked, lock, unlock, account_lock_duration}
use schick.Auth.Service.{
  Error, invalid_credentials, account_locked, account_deactivated, UserRepository, Crypto, Accounts,
  saved, with_session, logged_in, failed_attempt, try_password, try_cleared, login,
}

pub record Attempt : Type 0 where
  pub password : Text
  pub now : ℕ
  pub later : ℕ
  pub expiry : ℕ
  pub token : Result Error Text

-- A user who can be locked out, with `n` failures and no lock.
pub record Open (u : User) (n : ℕ) : Type 0 where
  pub active : u.is_active ≡ true
  pub unlocked : u.locked_at ≡ none
  pub count : u.failed_login_attempts ≡ pos n
  pub plain : is_lock_exempt (some u) ≡ false

-- A saved user is found by the same address, with what was saved.
abbrev pub FindsSaved : {S : Type 0} → UserRepository S → Type 0
FindsSaved {S} repo =
    (s : S) (email : Text) (u v : User)
    → repo.find_by_email s email ≡ ok (some u)
    → v.id ≡ u.id
    → v.email ≡ u.email
    → repo.find_by_email (repo.save s v).0 email ≡ ok (some v)

-- What login answers for a user.
abbrev pub answer_for : Crypto → User → Attempt → Result Error Text
answer_for crypto u t =
    if is_locked (some u) t.now
    then err account_locked
    else if not u.is_active
    then err account_deactivated
    else if not (crypto.matches u.password t.password)
    then err invalid_credentials
    else t.token

module _ {S : Type 0} (repo : UserRepository S) (crypto : Crypto) where
  abbrev pub attempt : Accounts S → Text → Attempt → Accounts S × Result Error Text
  attempt a email t = login repo crypto a email t.password t.now t.later t.expiry t.token

  abbrev pub attempt_all : Accounts S → Text → List Attempt → Accounts S
  attempt_all a email [] = a
  attempt_all a email (t ∷ ts) = attempt_all (attempt a email t).0 email ts

  with_session_result :
      (a : Accounts S) (u : User) (now expiry : ℕ) (token : Result Error Text)
      → (with_session repo crypto a u now expiry token).1 ≡ token
  with_session_result a u now expiry (ok t) = refl
  with_session_result a u now expiry (err e) = refl

  try_password_result :
      (a : Accounts S) (u : User) (p : Text) (later expiry : ℕ) (token : Result Error Text)
      → (try_password repo crypto a u p later expiry token).1 ≡ (
          if not u.is_active
          then err account_deactivated
          else if not (crypto.matches u.password p)
          then err invalid_credentials
          else token)
  unfolding try_password logged_in
  try_password_result a u p later expiry token = grind (arith, with_session_result)

  try_cleared_result :
      (o : Option ℕ) (a : Accounts S) (u : User) (p : Text) (later expiry : ℕ)
      → (token : Result Error Text)
      → (try_cleared repo crypto o a u p later expiry token).1 ≡ (
          if not u.is_active
          then err account_deactivated
          else if not (crypto.matches u.password p)
          then err invalid_credentials
          else token)
  unfolding unlock
  try_cleared_result none a u p later expiry token = try_password_result a u p later expiry token
  try_cleared_result (some _) a u p later expiry token =
      try_password_result _ (unlock u) p later expiry token

  -- A user who is found is refused while locked, then while deactivated, then for a wrong password, and
  -- otherwise gets the token of the generator, whatever is stored on the way.
  login_result :
      (a : Accounts S) (email : Text) (u : User) (t : Attempt)
      → repo.find_by_email a.users email ≡ ok (some u)
      → (attempt a email t).1 ≡ answer_for crypto u t
  unfolding login
  login_result a email u t found =
      rw found
        (ground (arith, try_cleared_result u.locked_at a u t.password t.later t.expiry t.token))

  module _ (finds : FindsSaved repo) where
    tries_open :
        (a : Accounts S) (email : Text) (u : User) (t : Attempt)
        → repo.find_by_email a.users email ≡ ok (some u)
        → u.locked_at ≡ none
        → (attempt a email t) ≡ try_password repo crypto a u t.password t.later t.expiry t.token
    unfolding login is_locked
    tries_open a email u t found unlocked = rw found (rw unlocked (ground arith))

    counts :
        (a : Accounts S) (u : User) (n later : ℕ)
        → u.locked_at ≡ none
        → u.failed_login_attempts ≡ pos n
        → n < 5
        → is_lock_exempt (some u) ≡ false
        → failed_attempt repo crypto a u later
          ≡ saved repo crypto a (record u {
            failed_login_attempts = pos (n + 1);
            locked_at = if ltb n 4 then none else some later;
          })
    unfolding failed_attempt lock is_lock_exempt user_class
    counts a u n later unlocked count few plain =
        rw count (rw (Word.add-pos n 1 (omega arith)) (rw unlocked (ground arith)))

    guesses :
        (a : Accounts S) (u : User) (t : Attempt)
        → u.is_active ≡ true
        → crypto.matches u.password t.password ≡ false
        → try_password repo crypto a u t.password t.later t.expiry t.token
          ≡ (failed_attempt repo crypto a u t.later, err invalid_credentials)
    unfolding try_password
    guesses a u t active wrong = ground arith

    abbrev after_failure : User → ℕ → ℕ → User
    after_failure u n later = record u {
      failed_login_attempts = pos (n + 1);
      locked_at = if ltb n 4 then none else some later;
    }

    -- A wrong password on an account that is open to lockout.
    wrong_password :
        (a : Accounts S) (email : Text) (u : User) (t : Attempt) (n : ℕ)
        → repo.find_by_email a.users email ≡ ok (some u)
        → Open u n
        → n < 5
        → crypto.matches u.password t.password ≡ false
        → (attempt a email t).0 ≡ saved repo crypto a (after_failure u n t.later)
    wrong_password a email u t n found o few wrong =
        ap (λ r. r.0) (tries_open a email u t found o.unlocked ∙ guesses a u t o.active wrong)
        ∙ counts a u n t.later o.unlocked o.count few o.plain

    exempt_after :
        (u : User) (n later : ℕ)
        → is_lock_exempt (some (after_failure u n later)) ≡ is_lock_exempt (some u)
    unfolding is_lock_exempt user_class
    exempt_after u n later = refl

    found_after :
        (a : Accounts S) (email : Text) (u : User) (t : Attempt) (n : ℕ)
        → repo.find_by_email a.users email ≡ ok (some u)
        → Open u n
        → n < 5
        → crypto.matches u.password t.password ≡ false
        → repo.find_by_email (attempt a email t).0.users email
          ≡ ok (some (after_failure u n t.later))
    found_after a email u t n found o few wrong =
        rw (wrong_password a email u t n found o few wrong)
          (finds a.users email u (after_failure u n t.later) found refl refl)

    after_failure-Open :
        (u : User) (n later : ℕ) → Open u n → n < 4 → Open (after_failure u n later) (n + 1)
    after_failure-Open u n later o few = record {
      active = o.active;
      unlocked = ground arith;
      count = refl;
      plain = exempt_after u n later ∙ o.plain;
    }

    -- The user is found locked at the last failure.
    locked_after :
        (ts : List Attempt) (last : Attempt) (a : Accounts S) (email : Text) (u : User) (n : ℕ)
        → repo.find_by_email a.users email ≡ ok (some u)
        → Open u n
        → n + length ts ≡ 4
        → All (λ t. crypto.matches u.password t.password ≡ false) ts
        → crypto.matches u.password last.password ≡ false
        → repo.find_by_email (attempt (attempt_all a email ts) email last).0.users email
          ≡ ok (some (record u { failed_login_attempts = pos 5; locked_at = some last.later }))
    locked_after [] last a email u n found o sum wrongs wrong =
        let four : n ≡ 4 = omega arith in
        subst
          (λ m.
            repo.find_by_email (attempt a email last).0.users email
            ≡ ok (some (after_failure u m last.later)))
          four (found_after a email u last n found o (omega arith) wrong)
    locked_after (t ∷ ts) last a email u n found o sum (w, ws) wrong =
        locked_after ts last (attempt a email t).0 email (after_failure u n t.later) (n + 1)
          (found_after a email u t n found o (omega arith) w)
          (after_failure-Open u n t.later o (omega arith)) (omega arith) ws wrong

    locked_answer :
        (u : User) (last later : ℕ) (t : Attempt)
        → Open u later
        → answer_for crypto (record u { failed_login_attempts = pos 5; locked_at = some last }) t
          ≡ (if ltb t.now (last + account_lock_duration)
              then err account_locked
              else if not (crypto.matches u.password t.password)
              then err invalid_credentials
              else t.token)
    unfolding is_locked is_lock_exempt user_class
    locked_answer u last later t o = rw o.active (rw (o.plain) refl)

    -- While the account is locked an attempt is refused and changes nothing.
    refused_while_locked :
        (ts : List Attempt) (a : Accounts S) (email : Text) (u : User)
        → repo.find_by_email a.users email ≡ ok (some u)
        → All (λ t. is_locked (some u) t.now ≡ true) ts
        → attempt_all a email ts ≡ a
    unfolding login
    refused_while_locked [] a email u found locked = refl
    refused_while_locked (t ∷ ts) a email u found (h, hs) =
        let same : (attempt a email t).0 ≡ a = rw found (rw h refl) in
        ap (λ b. attempt_all b email ts) same ∙ refused_while_locked ts a email u found hs

    locked_at-All :
        (u : User) (last : ℕ) (ts : List Attempt)
        → is_lock_exempt (some u) ≡ false
        → All (λ t. ltb t.now (last + account_lock_duration) ≡ true) ts
        → All
            (λ t.
              is_locked
                (some (record u { failed_login_attempts = pos 5; locked_at = some last }))
                t.now
              ≡ true)
            ts
    unfolding is_locked is_lock_exempt user_class
    locked_at-All u last [] plain within = tt
    locked_at-All u last (t ∷ ts) plain (w, ws) = (rw plain w, locked_at-All u last ts plain ws)

    -- Over a table that finds what it saved, an active account that can be locked out, with no failures
    -- and no lock, is tried with five wrong passwords in a row. For the lock's duration from the fifth,
    -- any number of further attempts change nothing; the attempt after them is refused as locked within
    -- that duration, with the right password too, and afterwards gets its token for the right password and
    -- is refused for a wrong one.
    pub locked_out :
        (ts : List Attempt) (last : Attempt) (more : List Attempt) (t : Attempt)
        → (a : Accounts S) (email : Text) (u : User) (b : Accounts S)
        → repo.find_by_email a.users email ≡ ok (some u)
        → Open u 0
        → length ts ≡ 4
        → All (λ s. crypto.matches u.password s.password ≡ false) ts
        → crypto.matches u.password last.password ≡ false
        → All (λ s. ltb s.now (last.later + account_lock_duration) ≡ true) more
        → b ≡ (attempt (attempt_all a email ts) email last).0
        → (attempt_all b email more ≡ b)
          × ((attempt (attempt_all b email more) email t).1 ≡ (
              if ltb t.now (last.later + account_lock_duration)
              then err account_locked
              else if not (crypto.matches u.password t.password)
              then err invalid_credentials
              else t.token))
    locked_out ts last more t a email u b found o four wrongs wrong within start =
        let there =
          subst
            (λ c.
              repo.find_by_email c.users email
              ≡ ok (some (record u { failed_login_attempts = pos 5; locked_at = some last.later })))
            (sym start) (locked_after ts last a email u 0 found o (omega arith) wrongs wrong) in
        let unchanged =
          refused_while_locked more b email _ there
            (locked_at-All u last.later more o.plain within) in
        (
          unchanged,
          ap (λ c. (attempt c email t).1) unchanged
              ∙ login_result b email _ t there
              ∙ locked_answer u last.later 0 t o,
        )
