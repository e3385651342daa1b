-- ===== src/Auth/Sessions.antt =====
-- auth/pkg/infra/memory/session_store.go: refresh tokens in memory, with the user they stand for. A call
-- holds the lock while it changes the map; a context that is done before it starts is left out.
use schick.Prelude.{
  ℕ, ◌+◌, Bool, true, false, List, [], ◌∷◌, Option, none, some, Text, ltb, if◌then◌else◌, lookup,
  insert, delete,
}

pub record SessionEntry : Type 0 where
  pub value : Text
  pub expires_at : ℕ

abbrev pub SessionStore : Type 0
SessionStore = List (Text × SessionEntry)

unfoldable pub set : SessionStore → Text → Text → ℕ → ℕ → SessionStore
set s key value now expiry = insert key (record { value = value; expires_at = now + expiry }) s

-- An entry whose time is over goes.
abbrev pub got : SessionStore → Text → ℕ → Option SessionEntry → SessionStore × Option Text
got s key now none = (s, none)
got s key now (some entry) =
    if ltb entry.expires_at now then (delete key s, none) else (s, some entry.value)

-- `none` is ErrSessionNotFound.
unfoldable pub get : SessionStore → Text → ℕ → SessionStore × Option Text
get s key now = got s key now (lookup key s)

unfoldable pub delete_session : Text → SessionStore → SessionStore
delete_session key s = delete key s

abbrev pub rotated :
    SessionStore → Text → Text → Text → ℕ → ℕ → ℕ → Option SessionEntry → SessionStore × Bool
rotated s old_key new_key value now later expiry none = (s, false)
rotated s old_key new_key value now later expiry (some entry) =
    if ltb entry.expires_at now
    then (delete old_key s, false)
    else (delete old_key (set s new_key value later expiry), true)

-- The clock is read for the test and for the new entry; `false` is ErrSessionNotFound.
unfoldable pub rotate : SessionStore → Text → Text → Text → ℕ → ℕ → ℕ → SessionStore × Bool
rotate s old_key new_key value now later expiry =
    rotated s old_key new_key value now later expiry (lookup old_key s)

unfoldable pub evict_expired : ℕ → SessionStore → SessionStore
evict_expired now [] = []
evict_expired now ((key, entry) ∷ s) =
    if ltb entry.expires_at now then evict_expired now s else (key, entry) ∷ evict_expired now s
