-- ===== src/Sessions/Access.antt =====
-- What a login gives access to, and for how long: aegis/internal/service/auth_manager.go and logout.go, over
-- aegis/internal/domain/jwt.go and aegis/internal/adapters/session/redisSessionManager.go.
use mathlib.Core.Path.{subst}
use abraxis.Base.{
  ℕ, ◌+◌, ◌*◌, ◌/◌, ◌≤◌, ◌<◌, ◌≡◌, refl, sym, ap, ◌∙◌, Text, bytes, false, Option, none, some, List,
  [], arith,
}
use abraxis.Sessions.Manager.{
  ok, Place, SessionData, CreateParams, Redis, Json, create_session, get_session,
}
use abraxis.Sessions.Lifetime.{Documented, create_session-get_session}
use abraxis.Sessions.Tokens.{
  RoleMap, OAuthToken, Claims, SigningKey, Jwt, TokenManager, second, signed, both, access_claims,
  refresh_claims, get_user_context_data, generate_token_pair,
}
use abraxis.Sessions.Logins.{
  Answer, answered, User, Users, Providers, World, Login, Fresh, start_session, get_user_by_email,
  authenticate_with_password,
}
use abraxis.Sessions.Requests.{admitted, admit, validate_access_token}
use abraxis.Sessions.Trust.{Trusted, Knows, rotated, IsNew, signed-validate_token}

module _ {S W P : Type 0} (redis : Redis S) (json : Json (SessionData RoleMap OAuthToken))
    (jwt : Jwt) (users : Users W P) (providers : Providers P) (tm : TokenManager) where
  -- The parameters of `CreateSession` in a login.
  abbrev session_params :
      Option RoleMap → Place → Text → Text → Option OAuthToken → CreateParams RoleMap OAuthToken
  session_params roles place method provider token = record {
    roles = roles;
    session_params = place;
    auth_method = method;
    provider = provider;
    oauth_token = token;
  }

  -- What a login that succeeded has done.
  record Started (f : Fresh) (user : Text) (p : CreateParams RoleMap OAuthToken) (w w' : World S W)
      (l : Login) : Type 0 where
    stored : (create_session redis json f.now f.session user p w.sessions).1 ≡ ok f.session
    sessions : w'.sessions ≡ (create_session redis json f.now f.session user p w.sessions).0
    tokens :
        generate_token_pair jwt f.now f.jti user f.session p.provider p.roles p.oauth_token tm
        ≡ some (l.access_token, l.refresh_token)

  start_session-Started :
      (f : Fresh) (user : Text) (roles : Option RoleMap) (place : Place) (method provider : Text)
      (token : Option OAuthToken) (undo : W → W) (w : World S W) (l : Login)
      → (start_session redis json jwt users providers tm f user roles place method provider token
          undo w).1
        ≡ answered l
      → Started f user
          (session_params roles place method provider token)
          w
          (start_session redis json jwt users providers tm f user roles place method provider token
            undo w).0
          l
  unfolding start_session create_session
  start_session-Started f user roles place method provider token undo w l h = ground arith

both-some :
    (jwt : Jwt) (a r : Option Text) (x y : Text)
    → both jwt a r ≡ some (x, y)
    → (a ≡ some x) × (r ≡ some y)
both-some jwt none r x y h = absurd cc
both-some jwt (some a) none x y h = absurd cc
both-some jwt (some a) (some r) x y h = ground arith

floor-le : (n : ℕ) → n / second * second ≤ n
floor-le n = omega arith

module _ {S W P : Type 0} {redis : Redis S} {json : Json (SessionData RoleMap OAuthToken)}
    {jwt : Jwt} {public_of : Text → Text} (stores : Documented redis json)
    (trusts : Trusted jwt public_of) (users : Users W P) (providers : Providers P)
    (tm : TokenManager) where
  abbrev pub keys_later : List SigningKey → TokenManager
  keys_later new = record tm { key_manager = rotated new tm.key_manager }

  -- The answer of `GetSession` after `CreateSession`.
  abbrev session_found : ℕ → Text → CreateParams RoleMap OAuthToken → SessionData RoleMap OAuthToken
  session_found now session p = record {
    user_id = [];
    session_id = session;
    place = p.session_params;
    created_at = now;
    last_login = now;
    roles = p.roles;
    auth_method = [];
    provider = [];
    oauth_token = none;
    revoked = false;
  }

  -- A token of the session is accepted while the session is there.
  token-validate_access_token :
      (new : List SigningKey) (now later e n : ℕ) (t user session : Text)
      (p : CreateParams RoleMap OAuthToken) (s : S) (c : Claims)
      → Knows public_of tm.key_manager.active_key tm.key_manager
      → IsNew tm.key_manager.active_key.kid new
      → (create_session redis json now session user p s).1 ≡ ok session
      → signed jwt tm c ≡ some t
      → c.expires_at ≡ some e
      → c.not_before ≡ some n
      → n * second ≤ later
      → later < e * second
      → c.session_id ≡ session
      → c.subject ≡ user
      → validate_access_token redis json jwt users providers
          (record tm { key_manager = rotated new tm.key_manager })
          later
          t
          (create_session redis json now session user p s).0
        ≡ answered (get_user_context_data c)
  unfolding validate_access_token
  token-validate_access_token new now later e n t user session p s c k fresh made sign ends starts
        from_ until same own =
      let v =
        signed-validate_token trusts tm new later e n t c k fresh sign ends starts from_ until in
      let found = create_session-get_session stores now session user p s made in
      let seen : get_session redis json c.session_id c.subject
            (create_session redis json now session user p s).0
          ≡ ok (session_found now session p) =
        rw (same, own) found in
      ap
        (λ x.
          admit redis json jwt users providers (keys_later new) x
            (create_session redis json now session user p s).0)
        v
      ∙ ap (admitted redis json jwt users providers (keys_later new) c) seen

  authenticate-eq :
      (f : Fresh) (email password : Text) (place : Place) (w : World S W) (u : User) (l : Login)
      → get_user_by_email redis json jwt users providers tm email w.users ≡ answered (some u)
      → (authenticate_with_password redis json jwt users providers tm f email password place w).1
        ≡ answered l
      → authenticate_with_password redis json jwt users providers tm f email password place w
        ≡ start_session redis json jwt users providers tm f u.id u.roles place
            (bytes "password")
            (bytes "password")
            none
            (λ us. us)
            w
  unfolding authenticate_with_password
  authenticate-eq f email password place w u l known done = ground (arith, known, done)

  authenticate-Started :
      (f : Fresh) (email password : Text) (place : Place) (w : World S W) (u : User) (l : Login)
      → get_user_by_email redis json jwt users providers tm email w.users ≡ answered (some u)
      → (authenticate_with_password redis json jwt users providers tm f email password place w).1
        ≡ answered l
      → Started redis json jwt users providers tm f u.id
          (session_params redis json jwt users providers tm u.roles place
            (bytes "password")
            (bytes "password")
            none)
          w
          (authenticate_with_password redis json jwt users providers tm f email password place w).0
          l
  authenticate-Started f email password place w u l known done =
      let same = authenticate-eq f email password place w u l known done in
      subst
        (λ (x : World S W × Answer Login).
          Started redis json jwt users providers tm f u.id
            (session_params redis json jwt users providers tm u.roles place (bytes "password")
              (bytes "password") none)
            w x.0 l)
        (sym same)
        (start_session-Started redis json jwt users providers tm f u.id u.roles place
          (bytes "password") (bytes "password") none (λ us. us) w l
          (sym (ap (λ (x : World S W × Answer Login). x.1) same) ∙ done))

  -- A login by password gives access: after AuthenticateWithPassword has succeeded, ValidateAccessToken
  -- accepts its access token from the time of the login on until the second in which it expires, also after
  -- the key was rotated, to keys with other ids, and answers with the user, the roles, the session and the
  -- id of the token. The active key is one that the key manager knows; Redis, JSON and the library of tokens
  -- do what is documented, and the session is not touched.
  pub authenticate_with_password-validate_access_token :
      (f : Fresh) (email password : Text) (place : Place) (w : World S W) (u : User) (l : Login)
      (new : List SigningKey) (later : ℕ)
      → Knows public_of tm.key_manager.active_key tm.key_manager
      → IsNew tm.key_manager.active_key.kid new
      → get_user_by_email redis json jwt users providers tm email w.users ≡ answered (some u)
      → (authenticate_with_password redis json jwt users providers tm f email password place w).1
        ≡ answered l
      → f.now ≤ later
      → later < (f.now + tm.access_expiration) / second * second
      → validate_access_token redis json jwt users providers
          (keys_later new)
          later
          l.access_token
          (authenticate_with_password redis json jwt users providers tm f email password place
            w).0.sessions
        ≡ answered (record {
          user_id = u.id;
          roles = u.roles;
          auth_provider = bytes "password";
          session_id = f.session;
          jti = f.jti;
          expires_at = (f.now + tm.access_expiration) / second;
        })
  unfolding generate_token_pair access_claims get_user_context_data
  authenticate_with_password-validate_access_token f email password place w u l new later k fresh
        known done from_ until =
      let p =
        session_params redis json jwt users providers tm u.roles place (bytes "password")
          (bytes "password") none in
      let started = authenticate-Started f email password place w u l known done in
      let c = access_claims f.now f.jti u.id f.session (bytes "password") u.roles none tm in
      let (access, _) =
        both-some jwt (signed jwt tm c) _ l.access_token l.refresh_token started.tokens in
      let low = floor-le f.now in
      ap
        (λ s.
          validate_access_token redis json jwt users providers (keys_later new) later l.access_token
            s)
        started.sessions
      ∙ token-validate_access_token new f.now later ((f.now + tm.access_expiration) / second)
          (f.now / second) l.access_token u.id f.session p w.sessions c k fresh started.stored
          access refl refl (omega arith) until refl refl

  -- The refresh token is an access token as well: after such a login ValidateAccessToken accepts the refresh
  -- token until it expires, under the same conditions, with the same user, session and id, and without roles.
  pub authenticate_with_password-refresh_token :
      (f : Fresh) (email password : Text) (place : Place) (w : World S W) (u : User) (l : Login)
      (new : List SigningKey) (later : ℕ)
      → Knows public_of tm.key_manager.active_key tm.key_manager
      → IsNew tm.key_manager.active_key.kid new
      → get_user_by_email redis json jwt users providers tm email w.users ≡ answered (some u)
      → (authenticate_with_password redis json jwt users providers tm f email password place w).1
        ≡ answered l
      → f.now ≤ later
      → later < (f.now + tm.refresh_expiration) / second * second
      → validate_access_token redis json jwt users providers
          (keys_later new)
          later
          l.refresh_token
          (authenticate_with_password redis json jwt users providers tm f email password place
            w).0.sessions
        ≡ answered (record {
          user_id = u.id;
          roles = none;
          auth_provider = bytes "password";
          session_id = f.session;
          jti = f.jti;
          expires_at = (f.now + tm.refresh_expiration) / second;
        })
  unfolding generate_token_pair refresh_claims get_user_context_data
  authenticate_with_password-refresh_token f email password place w u l new later k fresh known done
        from_ until =
      let p =
        session_params redis json jwt users providers tm u.roles place (bytes "password")
          (bytes "password") none in
      let started = authenticate-Started f email password place w u l known done in
      let c = refresh_claims f.now f.jti u.id f.session (bytes "password") none tm in
      let (_, refresh) =
        both-some jwt _ (signed jwt tm c) l.access_token l.refresh_token started.tokens in
      let low = floor-le f.now in
      ap
        (λ s.
          validate_access_token redis json jwt users providers (keys_later new) later
            l.refresh_token s)
        started.sessions
      ∙ token-validate_access_token new f.now later ((f.now + tm.refresh_expiration) / second)
          (f.now / second) l.refresh_token u.id f.session p w.sessions c k fresh started.stored
          refresh refl refl (omega arith) until refl refl
