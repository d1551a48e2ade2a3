-- ===== src/Sessions/Requests.antt =====
-- What is done with the tokens of a login: `ValidateAccessToken`, `RefreshTokens` and `RevokeAllSessions` of
-- aegis/internal/service/auth_manager.go, and `Logout` of logout.go.
use abraxis.Base.{
  ℕ, Text, bytes, Bool, true, ◌||◌, Option, none, some, List, ◌∷◌, is_empty, text_eq, has_prefix,
  if◌then◌else◌,
}
use abraxis.Sessions.Manager.{
  not_found, Result, ok, err, Place, SessionData, Redis, Json, get_session, update_session,
  invalidate_user_session, revoke_all_sessions,
}
use abraxis.Sessions.Tokens.{
  RoleMap, OAuthToken, Claims, Jwt, TokenManager, UserContext, Validation, valid, expired, invalid,
  crashed, get_user_context_data, generate_token_pair, validate_token, type_refresh_token,
}
use abraxis.Sessions.Logins.{
  crash, user_not_found, users_failed, token_failed, token_expired, invalid_token, invalid_session,
  token_revoked, oauth_failed, invalid_user_id, invalid_session_id, logout_failed, session_failed,
  Answer, answered, refused, User, user_found, nil_user, no_rows, lookup_failed, Users, Providers,
  World, Login, Fresh, kept_token,
}

module _ {S W P : Type 0} (redis : Redis S) (json : Json (SessionData RoleMap OAuthToken))
    (jwt : Jwt) (users : Users W P) (providers : Providers P) (tm : TokenManager) where
  abbrev pub admitted : Claims → Result (SessionData RoleMap OAuthToken) → Answer UserContext
  admitted c (ok d) =
      if d.revoked then refused token_revoked else answered (get_user_context_data c)
  admitted c (err not_found) = refused invalid_session
  admitted c (err e) = refused (session_failed e)

  abbrev pub admit : Validation → S → Answer UserContext
  admit crashed s = refused crash
  admit expired s = refused token_expired
  admit invalid s = refused invalid_token
  admit (valid c) s = admitted c (get_session redis json c.session_id c.subject s)

  -- `ValidateAccessToken`
  unfoldable pub validate_access_token : ℕ → Text → S → Answer UserContext
  validate_access_token now t s = admit (validate_token jwt now tm t) s

  -- `providerLogout`: without a token nothing is sent.
  unfoldable pub provider_logout : Text → Option OAuthToken → Bool
  provider_logout provider none = true
  provider_logout provider (some t) =
      if text_eq provider (bytes "facebook")
        || text_eq provider (bytes "google")
        || text_eq provider (bytes "github")
        || text_eq provider (bytes "twitter")
      then providers.revoke provider t
      else true

  abbrev pub published : Option (Text × ℕ) → List (Text × ℕ) → List (Text × ℕ)
  published none rs = rs
  published (some (jti, expires)) rs = if is_empty jti then rs else (jti, expires) ∷ rs

  -- `Logout` once the session was looked up.
  abbrev pub end_session :
      Text
      → Text
      → Option (Text × ℕ)
      → World S W
      → Result (SessionData RoleMap OAuthToken)
      → World S W × Answer (Unit {0})
  end_session user session request w (err e) = (w, refused (session_failed e))
  end_session user session request w (ok d) =
      let (s, invalidated) = invalidate_user_session redis json user session w.sessions in
      elim invalidated [
        | err e ↦ (record w { sessions = s }, refused (session_failed e))
        | ok _ ↦ (
          record w { sessions = s; revocations = published request w.revocations },
          if provider_logout d.provider d.oauth_token then answered tt else refused logout_failed,
        )
      ]

  -- `Logout`, with the token of the request where there is one and a revoker.
  unfoldable pub logout :
      Text → Text → Option (Text × ℕ) → World S W → World S W × Answer (Unit {0})
  logout user session request w =
      if has_prefix user (bytes "usr_")
      then (if is_empty session
          then (w, refused invalid_session_id)
          else end_session user session request w (get_session redis json session user w.sessions))
      else (w, refused invalid_user_id)

  -- The tokens of `RefreshTokens` for a user, who is dereferenced.
  unfoldable pub login_again : Fresh → Option User → Text → Text → Option OAuthToken → Answer Login
  login_again f none session provider token = refused crash
  login_again f (some u) session provider token =
      elim (generate_token_pair jwt f.now f.jti u.id session provider u.roles token tm) [
        | none ↦ refused token_failed
        | some (a, r) ↦
            answered (record { access_token = a; refresh_token = r; session_id = session })
      ]

  -- `RefreshTokens` of an OAuth session; `request` is the token of the request, for `Logout`.
  unfoldable pub refresh_oauth :
      Fresh
      → Option (Text × ℕ)
      → Claims
      → Option User
      → SessionData RoleMap OAuthToken
      → Place
      → World S W
      → World S W × Answer Login
  refresh_oauth f request c user d place w = elim d.oauth_token [
    | none ↦ (w, refused crash)
    | some old ↦ elim (providers.refresh d.provider old.refresh_token) [
      | none ↦ ((logout c.subject c.session_id request w).0, refused oauth_failed)
      | some fresh ↦
          let token = kept_token redis json jwt users providers tm fresh in
          let (s, stored) =
            update_session redis json f.now c.subject c.session_id
              (record {
                roles = none;
                session_params = some place;
                auth_method = d.auth_method;
                provider = d.provider;
                oauth_token = some token;
              })
              w.sessions in
          (
            record w { sessions = s },
            elim stored [
              | err e ↦ refused (session_failed e)
              | ok _ ↦ login_again f user c.session_id d.provider (some token)
            ],
          )
    ]
  ]

  -- `RefreshTokens` of a user, once the session was looked up.
  unfoldable pub refresh_found :
      Fresh
      → Option (Text × ℕ)
      → Claims
      → Option User
      → Place
      → World S W
      → Result (SessionData RoleMap OAuthToken)
      → World S W × Answer Login
  refresh_found f request c user place w (err e) = (w, refused (session_failed e))
  refresh_found f request c user place w (ok d) =
      if text_eq d.auth_method (bytes "oauth")
      then refresh_oauth f request c user d place w
      else (w, login_again f user c.session_id d.provider none)

  -- `GetUserByID`, up to the user, which may be nil.
  unfoldable pub get_user_by_id : Text → W → Answer (Option User)
  get_user_by_id id us = elim (users.get_by_id id us) [
    | user_found u ↦ answered (some u)
    | nil_user ↦ answered none
    | no_rows ↦ refused user_not_found
    | lookup_failed ↦ refused users_failed
  ]

  abbrev pub refresh_for :
      Fresh
      → Option (Text × ℕ)
      → Claims
      → Place
      → World S W
      → Answer (Option User)
      → World S W × Answer Login
  refresh_for f request c place w (refused e) = (w, refused e)
  refresh_for f request c place w (answered user) =
      refresh_found f request c user place w
        (get_session redis json c.session_id c.subject w.sessions)

  abbrev pub refresh_checked :
      Fresh → Option (Text × ℕ) → Place → World S W → Validation → World S W × Answer Login
  refresh_checked f request place w crashed = (w, refused crash)
  refresh_checked f request place w expired = (w, refused token_expired)
  refresh_checked f request place w invalid = (w, refused invalid_token)
  refresh_checked f request place w (valid c) =
      if text_eq c.token_type type_refresh_token
      then refresh_for f request c place w (get_user_by_id c.subject w.users)
      else (w, refused invalid_token)

  -- `RefreshTokens`
  unfoldable pub refresh_tokens :
      Fresh → Option (Text × ℕ) → Text → Place → World S W → World S W × Answer Login
  refresh_tokens f request t place w =
      refresh_checked f request place w (validate_token jwt f.now tm t)

  -- `RevokeAllSessions`
  unfoldable pub revoke_everywhere : Text → World S W → World S W × Answer (Unit {0})
  revoke_everywhere user w =
      let (s, revoked) = revoke_all_sessions redis json user w.sessions in
      (
        record w { sessions = s },
        elim revoked [ ok _ ↦ answered tt | err e ↦ refused (session_failed e) ],
      )
