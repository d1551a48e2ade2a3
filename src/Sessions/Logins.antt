-- ===== src/Sessions/Logins.antt =====
-- Logins over the session manager and the tokens: aegis/internal/service/auth_manager.go and logout.go. The users,
-- the OAuth providers and the calls that end a login at a provider are interfaces.
use abraxis.Base.{
  ℕ, Text, bytes, Bool, true, false, Option, none, some, List, [], to_lower, trim_space_left,
  trim_space_right,
}
use abraxis.Sessions.Manager.{Error, ok, err, Place, SessionData, Redis, Json, create_session}
use abraxis.Sessions.Tokens.{RoleMap, OAuthToken, Jwt, TokenManager, generate_token_pair}

-- The errors; `crash` is a nil pointer that is dereferenced.
pub data Failure : Type 0 where
  user_not_found users_failed hash_failed invalid_credentials token_failed : Failure
  token_expired invalid_token invalid_session token_revoked oauth_failed : Failure
  invalid_user_id invalid_session_id logout_failed crash : Failure
  session_failed : Error → Failure

pub data Answer (A : Type 0) : Type 0 where
  answered : A → Answer A
  refused : Failure → Answer A

-- Of `domain.User`: the formatted id, the roles and the hash of the password.
pub record User : Type 0 where
  pub id : Text
  pub roles : Option RoleMap
  pub password_hash : Text

-- What the users answer: a user, a nil user without an error, `sql.ErrNoRows`, or another error.
pub data Found : Type 0 where
  user_found : User → Found
  nil_user no_rows lookup_failed : Found

-- `UserService`, on users and on parameters of new ones, and the verification of a password by its hash.
pub record Users (W P : Type 0) : Type 0 where
  pub get_by_id : Text → W → Found
  pub get_by_email : Text → W → Found
  pub get_by_provider : Text → Text → W → Found
  pub create : P → W → W × Option User
  pub delete : Text → W → W
  pub provider_of : P → Text
  pub verify : Text → Text → Option Bool

-- `OAuthManager`, at the times of the calls, with what is created of the information on a user; and the
-- request that revokes a token at a provider.
pub record Providers (P : Type 0) : Type 0 where
  pub exchange_code : Text → Text → Text → Option OAuthToken
  pub get_user_info : Text → OAuthToken → Option (Text × P)
  pub refresh : Text → Text → Option OAuthToken
  pub revoke : Text → OAuthToken → Bool

-- The sessions, the users, and the revocations that were published, the newest first.
pub record World (S W : Type 0) : Type 0 where
  pub sessions : S
  pub users : W
  pub revocations : List (Text × ℕ)

-- `AuthResponse`: the access token, the refresh token and the session.
pub record Login : Type 0 where
  pub access_token : Text
  pub refresh_token : Text
  pub session_id : Text

-- The new ids and the time of a login.
pub record Fresh : Type 0 where
  pub now : ℕ
  pub session : Text
  pub jti : Text

module _ {S W P : Type 0} (redis : Redis S) (json : Json (SessionData RoleMap OAuthToken))
    (jwt : Jwt) (users : Users W P) (providers : Providers P) (tm : TokenManager) where
  -- `CreateSession` and then `GenerateTokenPair`, with what is done when the first fails.
  unfoldable pub start_session :
      Fresh
      → Text
      → Option RoleMap
      → Place
      → Text
      → Text
      → Option OAuthToken
      → (W → W)
      → World S W
      → World S W × Answer Login
  start_session f user roles place method provider token undo w =
      let (s, made) =
        create_session redis json f.now f.session user
          (record {
            roles = roles;
            session_params = place;
            auth_method = method;
            provider = provider;
            oauth_token = token;
          })
          w.sessions in
      elim made [
        | err e ↦ (record w { sessions = s; users = undo w.users }, refused (session_failed e))
        | ok session ↦ (
          record w { sessions = s },
          elim (generate_token_pair jwt f.now f.jti user session provider roles token tm) [
            | none ↦ refused token_failed
            | some (a, r) ↦
                answered (record { access_token = a; refresh_token = r; session_id = session })
          ],
        )
      ]

  -- `RegisterUser`
  unfoldable pub register_user : Fresh → P → Place → World S W → World S W × Answer Login
  register_user f p place w =
      let (us, created) = users.create p w.users in
      elim created [
        | none ↦ (record w { users = us }, refused users_failed)
        | some u ↦
            start_session f u.id (some []) place (bytes "password") (users.provider_of p) none
              (users.delete u.id) (record w { users = us })
      ]

  -- `GetUserByEmail`, up to the user, which may be nil.
  unfoldable pub get_user_by_email : Text → W → Answer (Option User)
  get_user_by_email email us =
      elim (users.get_by_email (to_lower (trim_space_right (trim_space_left email))) us) [
        | user_found u ↦ answered (some u)
        | nil_user ↦ answered none
        | no_rows ↦ refused user_not_found
        | lookup_failed ↦ refused users_failed
      ]

  -- `AuthenticateWithPassword`
  unfoldable pub authenticate_with_password :
      Fresh → Text → Text → Place → World S W → World S W × Answer Login
  authenticate_with_password f email password place w = elim (get_user_by_email email w.users) [
    | refused e ↦ (w, refused e)
    | answered none ↦ (w, refused crash)
    | answered (some u) ↦ elim (users.verify password u.password_hash) [
      | none ↦ (w, refused hash_failed)
      | some false ↦ (w, refused invalid_credentials)
      | some true ↦
          start_session f u.id u.roles place (bytes "password") (bytes "password") none (λ us. us) w
    ]
  ]

  -- The user of `getOrCreateUserFromOAuth`.
  unfoldable pub get_or_create_user : Text → OAuthToken → W → W × Answer (Option User)
  get_or_create_user provider token us = elim (providers.get_user_info provider token) [
    | none ↦ (us, refused oauth_failed)
    | some (id, p) ↦ elim (users.get_by_provider provider id us) [
      | user_found u ↦ (us, answered (some u))
      | nil_user ↦ (us, answered none)
      | lookup_failed ↦ (us, refused users_failed)
      | no_rows ↦
          let (us', created) = users.create p us in
          (us', elim created [ none ↦ refused users_failed | some u ↦ answered (some u) ])
    ]
  ]

  -- The parts of the token that are kept.
  abbrev pub kept_token : OAuthToken → OAuthToken
  kept_token t = record t { provider = [] }

  -- `OAuthCallback`
  unfoldable pub oauth_callback :
      Fresh → Text → Text → Text → Place → World S W → World S W × Answer Login
  oauth_callback f provider code state place w =
      elim (providers.exchange_code provider code state) [
        | none ↦ (w, refused oauth_failed)
        | some token ↦
            let (us, user) = get_or_create_user provider token w.users in
            elim user [
              | refused e ↦ (record w { users = us }, refused e)
              | answered none ↦ (record w { users = us }, refused crash)
              | answered (some u) ↦
                  start_session f u.id u.roles place (bytes "oauth") provider
                    (some (kept_token token)) (λ x. x) (record w { users = us })
            ]
      ]
