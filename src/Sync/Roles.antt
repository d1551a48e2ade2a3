-- ===== src/Sync/Roles.antt =====
-- Which roles of a user the gateway has after a stream:
-- prism/internal/features/gateway/adapters/aegis/auth_sync.go, fed by aegis/internal/grpc/sync_auth.go.

use mathlib.Core.Option.{some-injective}
use abraxis.Base.{
  ℕ, ◌+◌, ◌*◌, ◌<◌, ◌≤◌, ◌≡◌, inl, inr, refl, sym, ap, ◌∙◌, Text, true, Option, none, some, List,
  [], ◌∷◌, ◌++◌, length, drop, text_eq, if◌then◌else◌, arith, All, Bool-cases, Option-cases,
}
use abraxis.Sync.Server.{
  User, AuthEvent, user_roles, token_revoked, sync_complete, Message, going, send_snapshot,
  list_all, sync_auth_page_size,
}
use abraxis.Sync.Client.{
  Redis, Json, Client, Received, CachedRoles, Got, missing, found, roles_key_prefix,
  handle_user_roles, handle_event, persist_version, play, get_cached_roles,
}
use abraxis.Sync.Revocation.{Available, get-persist_version, get-handle_token_revoked}
use abraxis.Sync.Pages.{contents, all_pairs}
use abraxis.Sync.Snapshot.{send_snapshot-all_pairs}

-- What the last event on the roles of a user says.
abbrev pub last_for : Text → List AuthEvent → Option CachedRoles
last_for user [] = none
last_for user (user_roles u tenant roles permissions ∷ es) = elim (last_for user es) [
  | some r ↦ some r
  | none ↦
      if text_eq u user
      then some (record { roles = roles; permissions = permissions; tenant_id = tenant })
      else none
]
last_for user (token_revoked jti e ∷ es) = last_for user es
last_for user (sync_complete ∷ es) = last_for user es

abbrev pub events : List Received → List AuthEvent
events [] = []
events (m ∷ ms) = m.content ∷ events ms

last_for-append_marker :
    (user : Text) (es : List AuthEvent)
    → last_for user (es ++ sync_complete ∷ []) ≡ last_for user es
last_for-append_marker user [] = refl
last_for-append_marker user (user_roles u tenant roles permissions ∷ es) =
    rw (last_for-append_marker user es) refl
last_for-append_marker user (token_revoked jti e ∷ es) = last_for-append_marker user es
last_for-append_marker user (sync_complete ∷ es) = last_for-append_marker user es

going-injective : (a b : List Message) → going a ≡ going b → a ≡ b
going-injective a b h = cc

-- Handled by a time, and still cached at it.
abbrev IsTimely : ℕ → ℕ → Received → Type 0
IsTimely cache_ttl t m = (m.time ≤ t) × (t < m.time + cache_ttl)

module _ {S : Type 0} (redis : Redis S) (laws : Available redis) (json : Json) (cache_ttl : ℕ)
    (keeps : 0 < cache_ttl) where
  -- The entry of a user, or what there was.
  abbrev entry : Option CachedRoles → Got → Got
  entry none g = g
  entry (some r) g = found (json.encode r)

  get-handle_event :
      (now : ℕ) (e : AuthEvent) (c : Client S) (t : ℕ) (user : Text)
      → now ≤ t
      → t < now + cache_ttl
      → redis.get t (roles_key_prefix ++ user) (handle_event redis json cache_ttl now e c).store
        ≡ entry (last_for user (e ∷ [])) (redis.get t (roles_key_prefix ++ user) c.store)
  unfolding handle_event handle_user_roles text_eq
  get-handle_event now (user_roles u tenant roles permissions) c t user le lt =
      let r : CachedRoles = record {
        roles = roles;
        permissions = permissions;
        tenant_id = tenant;
      } in
      let written =
        laws.get_set now cache_ttl (roles_key_prefix ++ u) (json.encode r) c.store t
          (roles_key_prefix ++ user) keeps le in
      elim (Bool-cases (text_eq u user)) [
        | inl e ↦ ground (arith, written, lt)
        | inr e ↦ ground (arith, written)
      ]
  get-handle_event now (token_revoked jti e) c t user le lt =
      get-handle_token_revoked redis laws json cache_ttl keeps now jti e c.store t
        (roles_key_prefix ++ user) le refl
  get-handle_event now sync_complete c t user le lt = refl

  entry-cons :
      (user : Text) (e : AuthEvent) (es : List AuthEvent) (g : Got)
      → entry (last_for user es) (entry (last_for user (e ∷ [])) g)
        ≡ entry (last_for user (e ∷ es)) g
  entry-cons user (user_roles u tenant roles permissions) es g =
      elim (Option-cases (last_for user es)) [ inl q ↦ rw q refl | inr (r, q) ↦ rw q refl ]
  entry-cons user (token_revoked jti e) es g = refl
  entry-cons user sync_complete es g = refl

  get-play :
      (ms : List Received) (c : Client S) (t : ℕ) (user : Text)
      → All (IsTimely cache_ttl t) ms
      → redis.get t (roles_key_prefix ++ user) (play redis json cache_ttl ms c).store
        ≡ entry (last_for user (events ms)) (redis.get t (roles_key_prefix ++ user) c.store)
  unfolding play text_eq
  get-play [] c t user h = refl
  get-play (m ∷ ms) c t user h =
      let key = roles_key_prefix ++ user in
      let c1 = handle_event redis json cache_ttl m.time m.content c in
      let rest = last_for user (events ms) in
      get-play ms (persist_version redis json cache_ttl m.time m.version c1) t user h.1
      ∙ ap (entry rest) (
          get-persist_version redis laws json cache_ttl keeps m.time m.version c1 t key h.0.0 refl
          ∙ get-handle_event m.time m.content c t user h.0.0 h.0.1)
      ∙ entry-cons user m.content (events ms) (redis.get t key c.store)

  module _ (decodes : (r : CachedRoles) → json.decode (json.encode r) ≡ some r) where
    cached :
        (t : ℕ) (user : Text) (s : S) (o : Option CachedRoles)
        → redis.get t (roles_key_prefix ++ user) s ≡ entry o missing
        → get_cached_roles redis json cache_ttl t user s ≡ some o
    unfolding get_cached_roles
    cached t user s none h = ground arith
    cached t user s (some r) h = ground (arith, decodes r)

    -- What the gateway knows after the snapshot: a client with no entry for a user, which has handled the
    -- messages of an undisturbed snapshot of users that do not change and asks before any of its entries
    -- expires, finds for the user what the last event of the snapshot says of them, the role in one tenant,
    -- and finds nothing if no user after the first hundred has the id. Redis keeps what is set until its
    -- time to live has passed, and JSON reads back what it wrote.
    pub send_snapshot-get_cached_roles :
        (version_at : ℕ → Text) (users : List User) (fuel : ℕ) (sent : List Message)
        (ms : List Received) (c : Client S) (t : ℕ) (user : Text)
        → length users < sync_auth_page_size * fuel
        → send_snapshot (λ n. true) version_at (λ k n. some (list_all users k n)) fuel
          ≡ some (going sent)
        → events ms ≡ contents sent
        → All (IsTimely cache_ttl t) ms
        → redis.get t (roles_key_prefix ++ user) c.store ≡ missing
        → get_cached_roles redis json cache_ttl t user (play redis json cache_ttl ms c).store
          ≡ some (last_for user (all_pairs (drop sync_auth_page_size users)))
    send_snapshot-get_cached_roles version_at users fuel sent ms c t user few ran same timely
          empty =
        let late = all_pairs (drop sync_auth_page_size users) in
        let (sent', ran', sent_all) =
          send_snapshot-all_pairs (λ n. true) version_at (λ n. refl) users fuel few in
        let one : contents sent ≡ contents sent' = ap contents (
          going-injective sent sent'
            (some-injective (going sent) (going sent') (sym ran ∙ ran'))) in
        let seen : events ms ≡ late ++ sync_complete ∷ [] = same ∙ one ∙ sent_all in
        let last : last_for user (events ms) ≡ last_for user late =
          ap (last_for user) seen ∙ last_for-append_marker user late in
        cached t user (play redis json cache_ttl ms c).store (last_for user late) (
          get-play ms c t user timely
          ∙ ap (λ g. entry (last_for user (events ms)) g) empty
          ∙ ap (λ o. entry o missing) last)
