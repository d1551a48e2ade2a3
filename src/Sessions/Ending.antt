-- ===== src/Sessions/Ending.antt =====
-- What ends a login, and what does not: aegis/internal/service/auth_manager.go and logout.go, over
-- aegis/internal/adapters/session/redisSessionManager.go.

use mathlib.Core.Path.{subst}
use abraxis.Base.{
  ℕ, ◌≡◌, refl, sym, ap, ◌∙◌, Text, bytes, true, Option, none, some, List, [], ◌∷◌, is_empty,
  has_prefix, text_eq, inl, inr, Bool-cases, arith, if◌then◌else◌,
}
use abraxis.Sessions.Manager.{
  get_failed, Result, ok, err, Place, SessionData, Redis, Json, make_session_key, session_in,
  get_session, invalidate_user_session,
}
use abraxis.Sessions.Lifetime.{Documented}
use abraxis.Sessions.Tokens.{
  RoleMap, OAuthToken, Claims, Jwt, TokenManager, Validation, valid, type_refresh_token,
  validate_token,
}
use abraxis.Sessions.Logins.{
  invalid_session_id, invalid_user_id, session_failed, Answer, answered, refused, User, Users,
  Providers, World, Fresh,
}
use abraxis.Sessions.Requests.{
  admitted, admit, validate_access_token, provider_logout, published, logout, refresh_found,
  refresh_tokens, refresh_for, refresh_checked, login_again, end_session, get_user_by_id,
}

-- The revocations before and after the token of a request is published: one that has no id is not.
pub data IsPublished : Option (Text × ℕ) → List (Text × ℕ) → List (Text × ℕ) → Type 0 where
  no_token : {rs : List (Text × ℕ)} → IsPublished none rs rs
  no_id : {expires : ℕ} {rs : List (Text × ℕ)} → IsPublished (some ([], expires)) rs rs
  sent :
      {b expires : ℕ} {jti : Text} {rs : List (Text × ℕ)}
      → IsPublished (some (b ∷ jti, expires)) rs ((b ∷ jti, expires) ∷ rs)

module _ {S W P : Type 0} (redis : Redis S) (json : Json (SessionData RoleMap OAuthToken))
    (jwt : Jwt) (users : Users W P) (providers : Providers P) (tm : TokenManager) where
  ended-del :
      (user session : Text) (request : Option (Text × ℕ)) (w : World S W)
      (r : Result (SessionData RoleMap OAuthToken))
      → (end_session redis json jwt users providers tm user session request w r).1 ≡ answered tt
      → ((redis.del (make_session_key user session) w.sessions).1 ≡ true)
        × ((end_session redis json jwt users providers tm user session request w r).0 ≡ record w {
          sessions = (redis.del (make_session_key user session) w.sessions).0;
          revocations = published redis json jwt users providers tm request w.revocations;
        })
  unfolding invalidate_user_session
  ended-del user session request w (err e) done = absurd cc
  ended-del user session request w (ok d) done = ground (arith, done)

  -- Logout that succeeds has sent a DEL that succeeded.
  logout-del :
      (user session : Text) (request : Option (Text × ℕ)) (w : World S W)
      → (logout redis json jwt users providers tm user session request w).1 ≡ answered tt
      → ((redis.del (make_session_key user session) w.sessions).1 ≡ true)
        × ((logout redis json jwt users providers tm user session request w).0 ≡ record w {
          sessions = (redis.del (make_session_key user session) w.sessions).0;
          revocations = published redis json jwt users providers tm request w.revocations;
        })
  unfolding logout
  logout-del user session request w done = elim (Bool-cases (has_prefix user (bytes "usr_"))) [
    | inr foreign ↦ absurd (ground (arith, done))
    | inl own ↦ elim (Bool-cases (is_empty session)) [
      | inl empty ↦ absurd (ground (arith, done))
      | inr named ↦
          rw (own, named, logout)
            (ended-del user session request w (get_session redis json session user w.sessions)
              (rw (own, named, logout) at done))
    ]
  ]

  published-IsPublished :
      (request : Option (Text × ℕ)) (rs : List (Text × ℕ))
      → IsPublished request rs (published redis json jwt users providers tm request rs)
  published-IsPublished none rs = no_token
  published-IsPublished (some ([], expires)) rs = no_id
  published-IsPublished (some (b ∷ jti, expires)) rs = sent

  -- A logout ends access: after Logout has succeeded no token of the session is accepted any more, of
  -- either type, and the token of the request is published as revoked, with its expiry, exactly if it has
  -- an id. The token is valid else, and Redis does what is documented, a DEL where it succeeds.
  pub logout-validate_access_token :
      (user session : Text) (request : Option (Text × ℕ)) (w : World S W) (now : ℕ) (t : Text)
      (c : Claims)
      → Documented redis json
      → (logout redis json jwt users providers tm user session request w).1 ≡ answered tt
      → validate_token jwt now tm t ≡ valid c
      → c.subject ≡ user
      → c.session_id ≡ session
      → (validate_access_token redis json jwt users providers tm now t
            (logout redis json jwt users providers tm user session request w).0.sessions
          ≡ refused (session_failed get_failed))
        × IsPublished request w.revocations
            (logout redis json jwt users providers tm user session request w).0.revocations
  logout-validate_access_token user session request w now t c stores done v own same =
      let key = make_session_key user session in
      let (deleted, out) = logout-del user session request w done in
      let gone : get_session redis json session user (redis.del key w.sessions).0 ≡ err get_failed =
        unfold get_session in
        ap (session_in redis json session) (stores.del_get key w.sessions deleted) in
      let seen : get_session redis json c.session_id c.subject (redis.del key w.sessions).0
          ≡ err get_failed =
        rw (own, same) gone in
      (
        ap
              (λ (x : World S W).
                validate_access_token redis json jwt users providers tm now t x.sessions)
              out
            ∙ unfold validate_access_token in
              ap (λ x. admit redis json jwt users providers tm x (redis.del key w.sessions).0) v
              ∙ ap (admitted redis json jwt users providers tm c) seen,
        subst (λ (x : World S W). IsPublished request w.revocations x.revocations) (sym out)
            (published-IsPublished request w.revocations),
      )

  -- What GetSession finds has no method of authentication and no OAuth token.
  get_session-bare :
      (session user : Text) (s : S) (d : SessionData RoleMap OAuthToken)
      → get_session redis json session user s ≡ ok d
      → (d.auth_method ≡ []) × (d.oauth_token ≡ none)
  unfolding get_session
  get_session-bare session user s d found = ground arith

  refresh_found-provider :
      (others : Providers P) (f : Fresh) (request : Option (Text × ℕ)) (c : Claims)
      (user : Option User) (place : Place) (w : World S W)
      (r : Result (SessionData RoleMap OAuthToken))
      → ((d : SessionData RoleMap OAuthToken) → r ≡ ok d → d.auth_method ≡ [])
      → (refresh_found redis json jwt users providers tm f request c user place w r
          ≡ refresh_found redis json jwt users others tm f request c user place w r)
        × ((refresh_found redis json jwt users providers tm f request c user place w r).0 ≡ w)
  unfolding refresh_found login_again text_eq
  refresh_found-provider others f request c user place w (err e) bare = (refl, refl)
  refresh_found-provider others f request c none place w (ok d) bare = rw (bare d refl) (refl, refl)
  refresh_found-provider others f request c (some u) place w (ok d) bare =
      rw (bare d refl) (refl, refl)

  refresh_for-provider :
      (others : Providers P) (f : Fresh) (request : Option (Text × ℕ)) (c : Claims) (place : Place)
      (w : World S W) (a : Answer (Option User))
      → (refresh_for redis json jwt users providers tm f request c place w a
          ≡ refresh_for redis json jwt users others tm f request c place w a)
        × ((refresh_for redis json jwt users providers tm f request c place w a).0 ≡ w)
  refresh_for-provider others f request c place w (refused e) = (refl, refl)
  refresh_for-provider others f request c place w (answered user) =
      refresh_found-provider others f request c user place w
        (get_session redis json c.session_id c.subject w.sessions)
        (λ d e. (get_session-bare c.session_id c.subject w.sessions d e).0)

  refresh_checked-provider :
      (others : Providers P) (f : Fresh) (request : Option (Text × ℕ)) (place : Place)
      (w : World S W) (v : Validation)
      → (refresh_checked redis json jwt users providers tm f request place w v
          ≡ refresh_checked redis json jwt users others tm f request place w v)
        × ((refresh_checked redis json jwt users providers tm f request place w v).0 ≡ w)
  unfolding get_user_by_id
  refresh_checked-provider others f request place w Validation.crashed = (refl, refl)
  refresh_checked-provider others f request place w Validation.expired = (refl, refl)
  refresh_checked-provider others f request place w Validation.invalid = (refl, refl)
  refresh_checked-provider others f request place w (valid c) =
      elim (Bool-cases (text_eq c.token_type type_refresh_token)) [
        | inr e ↦ rw e (refl, refl)
        | inl e ↦ rw e (
            refresh_for-provider others f request c place w
              (get_user_by_id redis json jwt users providers tm c.subject w.users))
      ]

  end_session-provider :
      (others : Providers P) (user session : Text) (request : Option (Text × ℕ)) (w : World S W)
      (r : Result (SessionData RoleMap OAuthToken))
      → ((d : SessionData RoleMap OAuthToken) → r ≡ ok d → d.oauth_token ≡ none)
      → end_session redis json jwt users providers tm user session request w r
        ≡ end_session redis json jwt users others tm user session request w r
  unfolding provider_logout
  end_session-provider others user session request w (err e) bare = refl
  end_session-provider others user session request w (ok d) bare = rw (bare d refl) refl

  -- No login is refreshed or ended at its provider: whatever is stored, RefreshTokens and Logout do and answer
  -- the same for all providers, and RefreshTokens changes nothing.
  pub refresh_tokens-provider :
      (others : Providers P) (f : Fresh) (request : Option (Text × ℕ)) (t user session : Text)
      (place : Place) (w : World S W)
      → (refresh_tokens redis json jwt users providers tm f request t place w
          ≡ refresh_tokens redis json jwt users others tm f request t place w)
        × ((refresh_tokens redis json jwt users providers tm f request t place w).0 ≡ w)
        × (logout redis json jwt users providers tm user session request w
            ≡ logout redis json jwt users others tm user session request w)
  unfolding refresh_tokens logout
  refresh_tokens-provider others f request t user session place w =
      let (same, kept) =
        refresh_checked-provider others f request place w (validate_token jwt f.now tm t) in
      let ended =
        end_session-provider others user session request w
          (get_session redis json session user w.sessions)
          (λ d e. (get_session-bare session user w.sessions d e).1) in
      (
        same,
        kept,
        ap
            (λ x.
              if has_prefix user (bytes "usr_")
              then (if is_empty session then (w, refused invalid_session_id) else x)
              else (w, refused invalid_user_id))
            ended,
      )
