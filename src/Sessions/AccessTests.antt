-- ===== src/Sessions/AccessTests.antt =====
-- Users, providers and runs of logins, and the theorems at concrete inputs.
use abraxis.Base.{
  ◌≡◌, refl, Text, bytes, Bool, true, false, none, some, [], ◌∷◌, text_eq, has_prefix, to_lower,
  lower_byte, trim_space_left, trim_space_right, lookup, insert, arith, if◌then◌else◌,
}
use abraxis.Sessions.Manager.{
  get_failed, make_session_key, create_session, get_session, invalidate_user_session,
  revoke_all_sessions, refresh_token_expiration,
}
use abraxis.Sessions.Tokens.{
  SigningKey, TokenManager, new_key_manager, rotate_key, find_public_key, key_of, signed,
  access_claims, refresh_claims, generate_token_pair, get_tenant_ids_as_strings, validate_token,
  parse_refresh_token, refresh_token, get_user_context_data,
}
use abraxis.Sessions.Logins.{
  session_failed, crash, oauth_failed, invalid_token, Answer, answered, refused, User, user_found,
  nil_user, Users, Providers, World, Login, Fresh, start_session, register_user, get_user_by_email,
  authenticate_with_password, get_or_create_user, oauth_callback,
}
use abraxis.Sessions.Requests.{
  validate_access_token, provider_logout, logout, login_again, refresh_oauth, refresh_found,
  get_user_by_id, refresh_tokens, revoke_everywhere,
}
use abraxis.Sessions.Trust.{Knows, rotated, IsNew}
use abraxis.Sessions.Access.{
  keys_later, authenticate_with_password-validate_access_token,
  authenticate_with_password-refresh_token,
}
use abraxis.Sessions.Ending.{IsPublished, logout-validate_access_token, refresh_tokens-provider}
use abraxis.Sessions.Keeps.{Store, redis, json, home, redis-Documented}
use abraxis.Sessions.Signing.{claims, first_key, jwt, public_of, jwt-Trusted}

abbrev alice : User
alice = record { id = bytes "usr_a"; roles = some []; password_hash = bytes "h" }

abbrev users : Users (Unit {0}) (Unit {0})
users = record {
  get_by_id = λ id us. user_found alice;
  get_by_email = λ email us. if text_eq email (bytes "a@b") then user_found alice else nil_user;
  get_by_provider = λ provider id us. nil_user;
  create = λ p us. (us, some alice);
  delete = λ id us. us;
  provider_of = λ p. bytes "password";
  verify = λ password hash. some (text_eq password (bytes "pw"));
}

abbrev answers : Bool → Providers (Unit {0})
answers revokes = record {
  exchange_code = λ provider code state. none;
  get_user_info = λ provider token. none;
  refresh = λ provider token. none;
  revoke = λ provider token. revokes;
}

abbrev key : SigningKey
key = record { kid = first_key; private_key = bytes "priv"; public_key = bytes "pub" }

abbrev next_key : SigningKey
next_key = record { kid = bytes "k2"; private_key = bytes "priv2"; public_key = bytes "pub2" }

abbrev tm : TokenManager
tm = record {
  key_manager = record { active_key = key; keys = (first_key, key) ∷ [] };
  issuer = bytes "aegis";
  access_expiration = 60000000000;
  refresh_expiration = 600000000000;
}

abbrev before : World Store (Unit {0})
before = record {
  sessions = record { values = λ _. none; keys = [] };
  users = tt;
  revocations = [];
}

abbrev ids : Fresh
ids = record { now = 5000000007; session = bytes "s1"; jti = bytes "j" }

program : Unit {0}
unfolding text_eq has_prefix to_lower lower_byte trim_space_left trim_space_right lookup insert
    make_session_key create_session get_session invalidate_user_session revoke_all_sessions
    refresh_token_expiration new_key_manager rotate_key find_public_key key_of signed access_claims
    refresh_claims generate_token_pair get_tenant_ids_as_strings validate_token parse_refresh_token
    refresh_token get_user_context_data start_session register_user get_user_by_email
    authenticate_with_password get_or_create_user oauth_callback validate_access_token
    provider_logout logout login_again refresh_oauth refresh_found get_user_by_id refresh_tokens
    revoke_everywhere rotated
program = tt

abbrev enters : Text → World Store (Unit {0}) × Answer Login
enters email =
    authenticate_with_password redis json jwt users (answers true) tm ids email (bytes "pw") home
      before

abbrev alice_login : Login
alice_login = record {
  access_token = bytes "A";
  refresh_token = bytes "R";
  session_id = bytes "s1";
}

logs_in : (enters (bytes " A@b")).1 ≡ answered alice_login
unfolding program
logs_in = refl

-- A login with an address that nobody has dereferences the nil user.
nobody : (enters (bytes "x@y")).1 ≡ refused crash
unfolding program
nobody = refl

key-Knows : Knows public_of key tm.key_manager
unfolding program
key-Knows = record { listed = refl; named = refl; pair = refl }

next_key-IsNew : IsNew first_key (next_key ∷ [])
unfolding program
next_key-IsNew = (refl, tt)

authenticate_with_password-validate_access_token_example :
    validate_access_token redis json jwt users
      (answers true)
      (keys_later redis-Documented jwt-Trusted users (answers true) tm (next_key ∷ []))
      64999999999
      (bytes "A")
      (enters (bytes "a@b")).0.sessions
    ≡ answered (record {
      user_id = bytes "usr_a";
      roles = some [];
      auth_provider = bytes "password";
      session_id = bytes "s1";
      jti = bytes "j";
      expires_at = 65;
    })
unfolding program
authenticate_with_password-validate_access_token_example =
    authenticate_with_password-validate_access_token redis-Documented jwt-Trusted users
      (answers true) tm ids (bytes "a@b") (bytes "pw") home before alice alice_login (next_key ∷ [])
      64999999999 key-Knows next_key-IsNew refl refl (omega arith) (omega arith)

authenticate_with_password-refresh_token_example :
    validate_access_token redis json jwt users
      (answers true)
      (keys_later redis-Documented jwt-Trusted users (answers true) tm [])
      600000000000
      (bytes "R")
      (enters (bytes "a@b")).0.sessions
    ≡ answered (record {
      user_id = bytes "usr_a";
      roles = none;
      auth_provider = bytes "password";
      session_id = bytes "s1";
      jti = bytes "j";
      expires_at = 605;
    })
unfolding program
authenticate_with_password-refresh_token_example =
    authenticate_with_password-refresh_token redis-Documented jwt-Trusted users (answers true) tm
      ids (bytes "a@b") (bytes "pw") home before alice alice_login [] 600000000000 key-Knows tt refl
      refl (omega arith) (omega arith)

abbrev inside : World Store (Unit {0})
inside = (enters (bytes "a@b")).0

logout-validate_access_token_example :
    (validate_access_token redis json jwt users
        (answers true)
        tm
        6000000000
        (bytes "A")
        (logout redis json jwt users
          (answers true)
          tm
          (bytes "usr_a")
          (bytes "s1")
          (some (bytes "j", 65))
          inside).0.sessions
      ≡ refused (session_failed get_failed))
    × IsPublished
        (some (bytes "j", 65))
        inside.revocations
        (logout redis json jwt users
          (answers true)
          tm
          (bytes "usr_a")
          (bytes "s1")
          (some (bytes "j", 65))
          inside).0.revocations
unfolding program
logout-validate_access_token_example =
    logout-validate_access_token redis json jwt users (answers true) tm (bytes "usr_a") (bytes "s1")
      (some (bytes "j", 65)) inside 6000000000 (bytes "A")
      (claims 65 (bytes "access_token") (some [])) redis-Documented refl refl refl refl

refresh_tokens-provider_example :
    (refresh_tokens redis json jwt users (answers true) tm ids none (bytes "R") home inside
      ≡ refresh_tokens redis json jwt users (answers false) tm ids none (bytes "R") home inside)
    × ((refresh_tokens redis json jwt users (answers true) tm ids none (bytes "R") home inside).0
        ≡ inside)
    × (logout redis json jwt users (answers true) tm (bytes "usr_a") (bytes "s1") none inside
        ≡ logout redis json jwt users (answers false) tm (bytes "usr_a") (bytes "s1") none inside)
refresh_tokens-provider_example =
    refresh_tokens-provider redis json jwt users (answers true) tm (answers false) ids none
      (bytes "R") (bytes "usr_a") (bytes "s1") home inside

registers :
    (register_user redis json jwt users (answers true) tm ids tt home before).1
    ≡ answered alice_login
unfolding program
registers = refl

no_callback :
    oauth_callback redis json jwt users
      (answers true)
      tm
      ids
      (bytes "google")
      (bytes "c")
      (bytes "s")
      home
      before
    ≡ (before, refused oauth_failed)
unfolding program
no_callback = refl

-- The token is accepted after its session was revoked with all others.
revoked_in_vain :
    (let (after, answer) =
        revoke_everywhere redis json jwt users (answers true) tm (bytes "usr_a") inside in
      (answer ≡ answered tt)
      × (validate_access_token redis json jwt users
            (answers true)
            tm
            6000000000
            (bytes "A")
            after.sessions
          ≡ validate_access_token redis json jwt users
              (answers true)
              tm
              6000000000
              (bytes "A")
              inside.sessions))
unfolding program
revoked_in_vain = (refl, refl)

-- An access token does not refresh, and a refresh token is read by its own parser.
token_types :
    ((refresh_tokens redis json jwt users (answers true) tm ids none (bytes "A") home inside).1
      ≡ refused invalid_token)
    × (refresh_token jwt 6000000000 tm none (bytes "A") ≡ none)
    × (parse_refresh_token jwt 6000000000 tm (bytes "R")
        ≡ some (claims 605 (bytes "refresh_token") none))
    × ((new_key_manager key).keys ≡ (first_key, key) ∷ [])
unfolding program
token_types = (refl, refl, refl, refl)
