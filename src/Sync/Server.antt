-- ===== src/Sync/Server.antt =====
-- `SyncAuthData` of aegis/internal/grpc/sync_auth.go, and `ListAll` of
-- aegis/internal/adapters/postgres/user_repository.go, whose query it reads page by page. `accepts n` says
-- whether the stream takes the message after `n` others, and `version_at n` is what the bus then gives as
-- the next version.
use abraxis.Base.{
  ℕ, zero, suc, ◌+◌, ◌*◌, Text, Bool, Option, none, some, List, [], ◌∷◌, ◌++◌, length, take, drop,
  ltb, if◌then◌else◌,
}

-- What of `domain.User` is sent: the id, and the role in each tenant.
pub record User : Type 0 where
  pub id : Text
  pub roles : List (Text × Text)

-- `AuthDataEvent`: the user, the tenant, the roles and the permissions; the token and the second of its
-- expiry; the end of the snapshot.
pub data AuthEvent : Type 0 where
  user_roles : Text → Text → List Text → List Text → AuthEvent
  token_revoked : Text → ℕ → AuthEvent
  sync_complete : AuthEvent

pub record Message : Type 0 where
  pub version : Text
  pub content : AuthEvent

-- The messages sent so far, and whether the handler has returned an error.
pub data Progress : Type 0 where
  going : List Message → Progress
  failed : List Message → Progress

abbrev pub and_then : Progress → (List Message → Progress) → Progress
and_then (going sent) f = f sent
and_then (failed sent) f = failed sent

abbrev pub sync_auth_page_size : ℕ
sync_auth_page_size = 100

-- `ListAll`: `LIMIT pageSize OFFSET page*pageSize` of the users in the order of the query.
unfoldable pub list_all : List User → ℕ → ℕ → List User
list_all users page size = take size (drop (page * size) users)

module _ (accepts : ℕ → Bool) (version_at : ℕ → Text) where
  -- `stream.Send`
  unfoldable pub send : AuthEvent → List Message → Progress
  send e sent =
      if accepts (length sent)
      then going (sent ++ record { version = version_at (length sent); content = e } ∷ [])
      else failed sent

  -- The loop over the roles of a user.
  unfoldable pub send_roles : Text → List (Text × Text) → List Message → Progress
  send_roles id [] sent = going sent
  send_roles id ((tenant, role) ∷ m) sent =
      and_then (send (user_roles id tenant (role ∷ []) []) sent) (send_roles id m)

  -- The loop over the users of a page. A user with no role is skipped by a loop over no role.
  unfoldable pub send_users : List User → List Message → Progress
  send_users [] sent = going sent
  send_users (u ∷ us) sent = and_then (send_roles u.id u.roles sent) (send_users us)

  module _ (list : ℕ → ℕ → Option (List User)) (size : ℕ) where
    -- The loop over the pages, on fuel; the outer `none` means that the fuel ran out. The repository answers
    -- `none` for an error.
    unfoldable pub send_pages : ℕ → ℕ → List Message → Option Progress
    send_pages zero page sent = none
    send_pages (suc fuel) page sent = elim (list page size) [
      | none ↦ some (failed sent)
      | some us ↦ elim (send_users us sent) [
        | failed sent' ↦ some (failed sent')
        | going sent' ↦
            let rest = send_pages fuel (page + 1) sent' in
            if ltb (length us) size then some (going sent') else rest
      ]
    ]

  -- `SyncAuthData` up to the marker.
  unfoldable pub send_snapshot : (ℕ → ℕ → Option (List User)) → ℕ → Option Progress
  send_snapshot list fuel = elim (send_pages list sync_auth_page_size fuel 1 []) [
    | none ↦ none
    | some p ↦ some (and_then p (send sync_complete))
  ]

  -- The incremental phase, on the events that the subscription yields until it or the context ends.
  unfoldable pub forward : List Message → List Message → Progress
  forward [] sent = going sent
  forward (m ∷ ms) sent = if accepts (length sent) then forward ms (sent ++ m ∷ []) else failed sent
