-- ===== src/Sessions/Tokens.antt =====
-- The tokens of the authentication service: aegis/internal/domain/jwt.go, with the keys of jwks.go and the tenants
-- of roles.go. Signatures and the format of tokens are a parameter. Times are nanoseconds; a date in a token
-- is a number of seconds.
use abraxis.Base.{
  ℕ, ◌+◌, ◌*◌, ◌/◌, Text, bytes, Option, none, some, List, [], ◌∷◌, ◌++◌, map, is_empty, text_eq,
  lookup, insert, ltb, if◌then◌else◌,
}

abbrev pub second : ℕ
second = 1000000000

-- `RoleMap`; the nil map is `none` where it counts.
abbrev pub RoleMap : Type 0
RoleMap = List (Text × Text)

-- `FormatTenantID` and `GetTenantIDsAsStrings`
abbrev format_tenant_id : Text → Text
format_tenant_id tenant = bytes "ten_" ++ tenant

unfoldable pub get_tenant_ids_as_strings : Option RoleMap → List Text
get_tenant_ids_as_strings none = []
get_tenant_ids_as_strings (some roles) = map (λ r. format_tenant_id r.0) roles

pub record OAuthToken : Type 0 where
  pub access_token : Text
  pub refresh_token : Text
  pub expiry : ℕ
  pub provider : Text

-- `CustomClaims` with the registered claims.
pub record Claims : Type 0 where
  pub id : Text
  pub issuer : Text
  pub subject : Text
  pub audience : List Text
  pub expires_at : Option ℕ
  pub issued_at : Option ℕ
  pub not_before : Option ℕ
  pub token_type : Text
  pub roles : Option RoleMap
  pub session_id : Text
  pub auth_provider : Text
  pub oauth_refresh_token : Text
  pub oauth_provider : Text

abbrev type_access_token : Text
type_access_token = bytes "access_token"

abbrev pub type_refresh_token : Text
type_refresh_token = bytes "refresh_token"

pub record SigningKey : Type 0 where
  pub kid : Text
  pub private_key : Text
  pub public_key : Text

pub record KeyManager : Type 0 where
  pub active_key : SigningKey
  pub keys : List (Text × SigningKey)

-- `NewKeyManager` and `RotateKey`, with the key that is generated.
unfoldable pub new_key_manager : SigningKey → KeyManager
new_key_manager key = record { active_key = key; keys = (key.kid, key) ∷ [] }

unfoldable pub rotate_key : SigningKey → KeyManager → KeyManager
rotate_key key km = record { active_key = key; keys = insert key.kid key km.keys }

-- `FindPublicKey`
unfoldable pub find_public_key : Text → KeyManager → Option Text
find_public_key kid km = elim (lookup kid km.keys) [ none ↦ none | some key ↦ some key.public_key ]

-- `SignedString` of a token with a key id and a private key; `ParseWithClaims` at a time, with the function
-- that gives the public key for the algorithm and the key id of the header.
pub record Jwt : Type 0 where
  pub sign : Text → Text → Claims → Option Text
  pub parse : ℕ → (Text → Option Text → Option Text) → Text → Option Claims

pub record TokenManager : Type 0 where
  pub key_manager : KeyManager
  pub issuer : Text
  pub access_expiration : ℕ
  pub refresh_expiration : ℕ

-- The key function of `ValidateToken`.
unfoldable pub key_of : KeyManager → Text → Option Text → Option Text
key_of km alg none = none
key_of km alg (some kid) =
    if text_eq alg (bytes "EdDSA")
    then (if is_empty kid then none else find_public_key kid km)
    else none

-- `ValidateToken`; a nil expiry is dereferenced.
pub data Validation : Type 0 where
  valid : Claims → Validation
  expired invalid crashed : Validation

-- `UserContextData`
pub record UserContext : Type 0 where
  pub user_id : Text
  pub roles : Option RoleMap
  pub auth_provider : Text
  pub session_id : Text
  pub jti : Text
  pub expires_at : ℕ

abbrev pub or_zero : Option ℕ → ℕ
or_zero none = 0
or_zero (some n) = n

-- `GetUserContextData`
unfoldable pub get_user_context_data : Claims → UserContext
get_user_context_data c = record {
  user_id = c.subject;
  roles = c.roles;
  auth_provider = c.auth_provider;
  session_id = c.session_id;
  jti = c.id;
  expires_at = or_zero c.expires_at;
}

abbrev text_of : (OAuthToken → Text) → Option OAuthToken → Text
text_of f none = []
text_of f (some t) = f t

-- The claims of `GenerateTokenPair` and of `makeRefreshToken`.
unfoldable pub access_claims :
    ℕ → Text → Text → Text → Text → Option RoleMap → Option OAuthToken → TokenManager → Claims
access_claims now jti user session provider roles token tm = record {
  id = jti;
  issuer = tm.issuer;
  subject = user;
  audience = get_tenant_ids_as_strings roles;
  expires_at = some ((now + tm.access_expiration) / second);
  issued_at = some (now / second);
  not_before = some (now / second);
  token_type = type_access_token;
  roles = roles;
  session_id = session;
  auth_provider = provider;
  oauth_refresh_token = text_of (λ t. t.refresh_token) token;
  oauth_provider = text_of (λ t. t.provider) token;
}

unfoldable pub refresh_claims :
    ℕ → Text → Text → Text → Text → Option OAuthToken → TokenManager → Claims
refresh_claims now jti user session provider token tm = record {
  id = jti;
  issuer = tm.issuer;
  subject = user;
  audience = [];
  expires_at = some ((now + tm.refresh_expiration) / second);
  issued_at = some (now / second);
  not_before = some (now / second);
  token_type = type_refresh_token;
  roles = none;
  session_id = session;
  auth_provider = provider;
  oauth_refresh_token = text_of (λ t. t.refresh_token) token;
  oauth_provider = text_of (λ t. t.provider) token;
}

module _ (jwt : Jwt) where
  -- A token signed by the active key.
  unfoldable pub signed : TokenManager → Claims → Option Text
  signed tm c = jwt.sign tm.key_manager.active_key.kid tm.key_manager.active_key.private_key c

  abbrev pub both : Option Text → Option Text → Option (Text × Text)
  both (some a) (some r) = some (a, r)
  both _ _ = none

  -- `GenerateTokenPair`, with the id that is drawn: the access token and the refresh token.
  unfoldable pub generate_token_pair :
      ℕ
      → Text
      → Text
      → Text
      → Text
      → Option RoleMap
      → Option OAuthToken
      → TokenManager
      → Option (Text × Text)
  generate_token_pair now jti user session provider roles token tm =
      both (signed tm (access_claims now jti user session provider roles token tm))
        (signed tm (refresh_claims now jti user session provider token tm))

  abbrev pub checked : ℕ → Option Claims → Validation
  checked now none = invalid
  checked now (some c) = elim c.expires_at [
    | none ↦ crashed
    | some e ↦ if ltb (e * second) now then expired else valid c
  ]

  -- `ValidateToken`
  unfoldable pub validate_token : ℕ → TokenManager → Text → Validation
  validate_token now tm t = checked now (jwt.parse now (key_of tm.key_manager) t)

  -- `ParseRefreshToken`
  unfoldable pub parse_refresh_token : ℕ → TokenManager → Text → Option Claims
  parse_refresh_token now tm t = jwt.parse now (key_of tm.key_manager) t

  -- `RefreshToken`: the same claims for another time, and a refresh token.
  unfoldable pub refresh_token : ℕ → TokenManager → Option OAuthToken → Text → Option (Text × Text)
  refresh_token now tm token t = elim (validate_token now tm t) [
    | valid c ↦
        if text_eq c.token_type type_refresh_token
        then both
            (signed tm (record c {
              expires_at = some ((now + tm.refresh_expiration) / second);
              issued_at = some (now / second);
              not_before = some (now / second);
            }))
            (signed tm (refresh_claims now c.id c.subject c.session_id c.auth_provider token tm))
        else none
    | _ ↦ none
  ]
