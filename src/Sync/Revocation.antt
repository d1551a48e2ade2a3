-- ===== src/Sync/Revocation.antt =====
-- How long the gateway knows of a revoked token:
-- prism/internal/features/gateway/adapters/aegis/auth_sync.go.
use abraxis.Base.{
  ℕ, ◌+◌, ◌-◌, ◌*◌, ◌<◌, ◌≤◌, ◌≡◌, inl, inr, refl, ◌∙◌, Text, bytes, true, false, some, List, [],
  ◌∷◌, ◌++◌, ltb, is_empty, text_eq, text_eq_refl, if◌then◌else◌, arith, All, Bool-cases,
}
use abraxis.Sync.Server.{AuthEvent, user_roles, token_revoked, sync_complete}
use abraxis.Sync.Client.{
  Redis, Json, Client, Received, missing, found, sync_version_key, roles_key_prefix,
  revoked_key_prefix, handle_user_roles, handle_token_revoked, handle_event, persist_version, play,
  is_token_revoked,
}

-- Redis can be reached, and keeps a value that is set until its time to live has passed.
pub record Available {S : Type 0} (redis : Redis S) : Type 0 where
  pub get_set :
      (now ttl : ℕ) (k v : Text) (s : S) (t : ℕ) (j : Text)
      → 0 < ttl
      → now ≤ t
      → redis.get t j (redis.set now k v ttl s).0 ≡ (
          if text_eq k j then (if ltb t (now + ttl) then found v else missing) else redis.get t j s)

-- No message revokes this token.
abbrev LeavesToken : Text → AuthEvent → Type 0
LeavesToken jti (token_revoked j e) = text_eq j jti ≡ false
LeavesToken jti _ = Unit

module _ {S : Type 0} (redis : Redis S) (laws : Available redis) (json : Json) (cache_ttl : ℕ)
    (keeps : 0 < cache_ttl) where
  -- A write to another key.
  get-set_other :
      (now ttl : ℕ) (k v : Text) (s : S) (t : ℕ) (j : Text)
      → 0 < ttl
      → now ≤ t
      → text_eq k j ≡ false
      → redis.get t j (redis.set now k v ttl s).0 ≡ redis.get t j s
  get-set_other now ttl k v s t j pos le ne = laws.get_set now ttl k v s t j pos le ∙ rw ne refl

  pub get-persist_version :
      (now : ℕ) (version : Text) (c : Client S) (t : ℕ) (j : Text)
      → now ≤ t
      → text_eq sync_version_key j ≡ false
      → redis.get t j (persist_version redis json cache_ttl now version c).store
        ≡ redis.get t j c.store
  unfolding persist_version
  get-persist_version now version c t j le ne =
      let other = get-set_other now cache_ttl sync_version_key version c.store t j keeps le ne in
      elim (Bool-cases (is_empty version)) [ inl e ↦ rw e refl | inr e ↦ rw e other ]

  pub get-handle_token_revoked :
      (now : ℕ) (jti : Text) (expires_at : ℕ) (s : S) (t : ℕ) (j : Text)
      → now ≤ t
      → text_eq (revoked_key_prefix ++ jti) j ≡ false
      → redis.get t j (handle_token_revoked redis json cache_ttl now jti expires_at s)
        ≡ redis.get t j s
  unfolding handle_token_revoked
  get-handle_token_revoked now jti expires_at s t j le ne =
      let ttl = expires_at * 1000000000 - now in
      elim (Bool-cases (ltb 0 ttl)) [
        | inl e ↦ rw e (
            get-set_other now ttl (revoked_key_prefix ++ jti) (bytes "1") s t j (ground arith) le
              ne)
        | inr e ↦ rw e refl
      ]

  get-handle_event_other :
      (now : ℕ) (e : AuthEvent) (c : Client S) (t : ℕ) (jti : Text)
      → now ≤ t
      → LeavesToken jti e
      → redis.get t (revoked_key_prefix ++ jti) (handle_event redis json cache_ttl now e c).store
        ≡ redis.get t (revoked_key_prefix ++ jti) c.store
  unfolding handle_event handle_user_roles text_eq
  get-handle_event_other now (user_roles user tenant roles permissions) c t jti le h =
      get-set_other now cache_ttl (roles_key_prefix ++ user)
        (json.encode (record { roles = roles; permissions = permissions; tenant_id = tenant }))
        c.store t (revoked_key_prefix ++ jti) keeps le refl
  get-handle_event_other now (token_revoked j e) c t jti le h =
      get-handle_token_revoked now j e c.store t (revoked_key_prefix ++ jti) le h
  get-handle_event_other now sync_complete c t jti le h = refl

  play_other :
      (ms : List Received) (c : Client S) (t : ℕ) (jti : Text)
      → All (λ m. (m.time ≤ t) × LeavesToken jti m.content) ms
      → redis.get t (revoked_key_prefix ++ jti) (play redis json cache_ttl ms c).store
        ≡ redis.get t (revoked_key_prefix ++ jti) c.store
  unfolding play text_eq
  play_other [] c t jti h = refl
  play_other (m ∷ ms) c t jti h =
      let c1 = handle_event redis json cache_ttl m.time m.content c in
      play_other ms (persist_version redis json cache_ttl m.time m.version c1) t jti h.1
      ∙ get-persist_version m.time m.version c1 t (revoked_key_prefix ++ jti) h.0.0 refl
      ∙ get-handle_event_other m.time m.content c t jti h.0.0 h.0.1

  get-revoked :
      (now expires_at : ℕ) (jti : Text) (s : S) (t : ℕ)
      → now ≤ t
      → t < expires_at * 1000000000
      → redis.get t
          (revoked_key_prefix ++ jti)
          (handle_token_revoked redis json cache_ttl now jti expires_at s)
        ≡ found (bytes "1")
  unfolding handle_token_revoked
  get-revoked now expires_at jti s t le before =
      let key = revoked_key_prefix ++ jti in
      let ttl = expires_at * 1000000000 - now in
      let pos : 0 < ttl = omega arith in
      let in_time : t < now + ttl = omega arith in
      ground
        (arith, laws.get_set now ttl key (bytes "1") s t key pos le, text_eq_refl key, in_time, pos)

  revoked_found :
      (t : ℕ) (jti : Text) (s : S)
      → redis.get t (revoked_key_prefix ++ jti) s ≡ found (bytes "1")
      → is_token_revoked redis json cache_ttl t jti s ≡ some true
  unfolding is_token_revoked
  revoked_found t jti s h = ground arith

  -- A revoked token stays revoked: a client that has handled the revocation answers IsTokenRevoked with
  -- true at every later time before the token expires, whatever messages follow it until then, if no other
  -- one revokes the same token, if Redis keeps a value until its time to live has passed, and if the time
  -- to live of the cache is positive.
  pub play-is_token_revoked :
      (now t expires_at : ℕ) (version jti : Text) (ms : List Received) (c : Client S)
      → now ≤ t
      → t < expires_at * 1000000000
      → All (λ m. (m.time ≤ t) × LeavesToken jti m.content) ms
      → let m : Received = record {
        time = now;
        version = version;
        content = token_revoked jti expires_at;
      } in
        is_token_revoked redis json cache_ttl t jti (play redis json cache_ttl (m ∷ ms) c).store
        ≡ some true
  play-is_token_revoked now t expires_at version jti ms c le before h =
      let e = token_revoked jti expires_at in
      let c1 = handle_event redis json cache_ttl now e c in
      let c2 = persist_version redis json cache_ttl now version c1 in
      let seen : redis.get t (revoked_key_prefix ++ jti) (play redis json cache_ttl ms c2).store
          ≡ found (bytes "1") =
        play_other ms c2 t jti h
        ∙ get-persist_version now version c1 t (revoked_key_prefix ++ jti) le
            (unfold text_eq in refl)
        ∙ (unfold handle_event in get-revoked now expires_at jti c.store t le before) in
      unfold play in revoked_found t jti (play redis json cache_ttl ms c2).store seen
