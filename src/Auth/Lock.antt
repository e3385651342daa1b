-- ===== src/Auth/Lock.antt =====
-- The account lock: who is exempt, how long it lasts, and what ends it.
use schick.Prelude.{ℕ, ◌+◌, ◌≡◌, false, some, arith, ltb, if◌then◌else◌}
use schick.Auth.{User, user_class, is_lock_exempt, is_locked, lock, unlock, account_lock_duration}

-- After a lock the account is locked for the lock's duration and no longer, unless it is an admin
-- or the owner: those are left as they were and are never locked. An unlock ends the lock at once.
is_locked-lock :
    (u : User) (now later : ℕ)
    → (is_locked (some (lock u now)) later
        ≡ (if is_lock_exempt (some u) then false else ltb later (now + account_lock_duration)))
      × (is_locked (some (unlock u)) later ≡ false)
unfolding is_locked is_lock_exempt lock unlock user_class
is_locked-lock u now later = ground arith
