-- ===== src/Sync/Client.antt =====
-- prism/internal/features/gateway/adapters/aegis: auth_sync.go and the backoff of client.go. Redis and JSON
-- are parameters; times and durations are nanoseconds.
use abraxis.Base.{
  ℕ, zero, suc, ◌-◌, ◌*◌, ◌%◌, ◌++◌, Text, bytes, Bool, true, false, not, Option, none, some, List,
  [], ◌∷◌, ltb, is_empty, sle64, i64_mod, if◌then◌else◌,
}
use abraxis.Sync.Server.{AuthEvent, user_roles, token_revoked, sync_complete}

abbrev pub sync_version_key : Text
sync_version_key = bytes "aegis:sync:version"

abbrev pub roles_key_prefix : Text
roles_key_prefix = bytes "aegis:roles:"

abbrev pub revoked_key_prefix : Text
revoked_key_prefix = bytes "aegis:revoked:"

pub data Got : Type 0 where
  missing : Got
  found : Text → Got
  get_failed : Got

-- The commands of Redis that the client uses, at a time: `GET`, and `SET` with a time to live, which also
-- says whether it succeeded.
pub record Redis (S : Type 0) : Type 0 where
  pub get : ℕ → Text → S → Got
  pub set : ℕ → Text → Text → ℕ → S → S × Bool

-- `cachedUserRoles`
pub record CachedRoles : Type 0 where
  pub roles : List Text
  pub permissions : List Text
  pub tenant_id : Text

-- `json.Marshal` and `json.Unmarshal` at that type.
pub record Json : Type 0 where
  pub encode : CachedRoles → Text
  pub decode : Text → Option CachedRoles

pub record Client (S : Type 0) : Type 0 where
  pub store : S
  pub ready : Bool

-- A message with the time at which it is handled.
pub record Received : Type 0 where
  pub time : ℕ
  pub version : Text
  pub content : AuthEvent

module _ {S : Type 0} (redis : Redis S) (json : Json) (cache_ttl : ℕ) where
  -- `handleUserRoles`; its error is only logged.
  unfoldable pub handle_user_roles : ℕ → Text → Text → List Text → List Text → S → S
  handle_user_roles now user tenant roles permissions s =
      (redis.set now (roles_key_prefix ++ user)
        (json.encode (record { roles = roles; permissions = permissions; tenant_id = tenant }))
        cache_ttl s).0

  -- `handleTokenRevoked`; a difference below zero is 0.
  unfoldable pub handle_token_revoked : ℕ → Text → ℕ → S → S
  handle_token_revoked now jti expires_at s =
      let ttl = expires_at * 1000000000 - now in
      if ltb 0 ttl then (redis.set now (revoked_key_prefix ++ jti) (bytes "1") ttl s).0 else s

  -- The `switch` of `runAuthSync`.
  unfoldable pub handle_event : ℕ → AuthEvent → Client S → Client S
  handle_event now (user_roles user tenant roles permissions) c = record c {
    store = handle_user_roles now user tenant roles permissions c.store;
  }
  handle_event now (token_revoked jti expires_at) c = record c {
    store = handle_token_revoked now jti expires_at c.store;
  }
  handle_event now sync_complete c = record c { ready = true }

  -- The version that is kept after each event.
  unfoldable pub persist_version : ℕ → Text → Client S → Client S
  persist_version now version c =
      if not (is_empty version)
      then record c { store = (redis.set now sync_version_key version cache_ttl c.store).0 }
      else c

  -- The loop of `runAuthSync`, on the messages that come before the stream ends.
  unfoldable pub play : List Received → Client S → Client S
  play [] c = c
  play (m ∷ ms) c = play ms (persist_version m.time m.version (handle_event m.time m.content c))

  -- The version that `runAuthSync` asks to resume from.
  unfoldable pub last_version : ℕ → S → Text
  last_version now s = elim (redis.get now sync_version_key s) [ found v ↦ v | _ ↦ [] ]

  -- `IsTokenRevoked`; `none` is an error.
  unfoldable pub is_token_revoked : ℕ → Text → S → Option Bool
  is_token_revoked now jti s = elim (redis.get now (revoked_key_prefix ++ jti) s) [
    | missing ↦ some false
    | found v ↦ some true
    | get_failed ↦ none
  ]

  -- `GetCachedRoles`; the outer `none` is an error, the inner one an entry that does not exist.
  unfoldable pub get_cached_roles : ℕ → Text → S → Option (Option CachedRoles)
  get_cached_roles now user s = elim (redis.get now (roles_key_prefix ++ user) s) [
    | missing ↦ some none
    | get_failed ↦ none
    | found v ↦ elim (json.decode v) [ none ↦ none | some r ↦ some (some r) ]
  ]

-- The loop of `backoff`, with the rounds that are left.
unfoldable pub backoff_loop : ℕ → ℕ → ℕ → ℕ
backoff_loop max zero d = d
backoff_loop max (suc n) d =
    let doubled = d * 2 % i64_mod in
    let rest = backoff_loop max n doubled in if sle64 max doubled then max else rest

-- `backoff`
unfoldable pub backoff : ℕ → ℕ → ℕ
backoff max attempt = backoff_loop max attempt 1000000000
