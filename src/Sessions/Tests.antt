-- ===== src/Sessions/Tests.antt =====
-- Runs of the session manager on an association list, and the theorems at concrete inputs.

use abraxis.Base.{◌≡◌, refl, bytes, false, none, some, [], ◌∷◌, text_eq, sle64, split_on, arith}
use abraxis.Sessions.Manager.{
  ok, err, get_failed, bad_key, SessionData, UpdateParams, make_session_key, user_and_session,
  user_id_from_session_key, session_id_from_session_key, create_session, get_session,
  get_session_data, update_session, updated, list_entries, list_sessions_by_user,
  invalidate_user_session, revoke_all_sessions, deletions, cleanup_from, refresh_token_expiration,
}
use abraxis.Sessions.Lifetime.{revoke_all_sessions-get_session}
use abraxis.Sessions.Cleanup.{Sweep, ends, cleanup_from-get_session}
use abraxis.Sessions.Tokens.{RoleMap, OAuthToken}
use abraxis.Sessions.Keeps.{
  Store, put, without, redis, alice, first, home, params, data_of, json, redis-Documented,
}

program : Unit {0}
unfolding text_eq split_on sle64 make_session_key user_and_session user_id_from_session_key
    session_id_from_session_key create_session get_session get_session_data update_session updated
    list_entries list_sessions_by_user invalidate_user_session revoke_all_sessions deletions
    cleanup_from refresh_token_expiration
program = tt

abbrev fresh : Store
fresh = record { values = λ _. none; keys = [] }

abbrev created : Store
created = put (bytes "session:alice:s1") (some (7 ∷ bytes "session:alice:s1")) fresh

abbrev found : SessionData RoleMap OAuthToken
found = record (data_of 7 first) { auth_method = []; provider = [] }

-- A session is created under its key.
creates : create_session redis json 7 first alice params fresh ≡ (created, ok first)
unfolding program
creates = refl

revoke_all_sessions-get_session_example :
    get_session redis json first alice (revoke_all_sessions redis json alice created).0
    ≡ get_session redis json first alice created
revoke_all_sessions-get_session_example =
    revoke_all_sessions-get_session redis-Documented alice alice first created (omega arith)
      (omega arith) (omega arith) (λ e. absurd cc)

scanned_all :
    Sweep redis 1 0 created
      (bytes "session:alice:s1" ∷ [])
      (without (bytes "session:alice:s1" ∷ []) created)
scanned_all = ends 0 0 (bytes "session:alice:s1" ∷ []) created refl refl

cleanup_from-get_session_example :
    ((cleanup_from redis json 1 0 created).1 ≡ some (ok tt))
    × (get_session redis json first alice (cleanup_from redis json 1 0 created).0 ≡ err get_failed)
unfolding program
cleanup_from-get_session_example =
    cleanup_from-get_session redis-Documented 1 alice first (bytes "session:alice:s1" ∷ []) created
      (without (bytes "session:alice:s1" ∷ []) created) scanned_all refl

-- A key is taken apart only if it has three parts.
keys_of_sessions :
    (user_and_session (bytes "session:alice:s1") ≡ ok (alice, first))
    × (user_id_from_session_key (bytes "session:alice:s1") ≡ ok alice)
    × (session_id_from_session_key (bytes "session:a:b:s1") ≡ err bad_key)
unfolding program
keys_of_sessions = (refl, refl, refl)

-- A list of n sessions has n empty maps before them.
lists_empty_maps :
    list_sessions_by_user redis json alice 0 10 created
    ≡ ok (
      none
          ∷ some (
            bytes "session:alice:s1",
            record {
              user_id = [];
              session_id = bytes "session:alice:s1";
              place = home;
              created_at = 0;
              last_login = 0;
              roles = none;
              auth_method = [];
              provider = [];
              oauth_token = none;
              revoked = false;
            },
          )
          ∷ [],
      0,
    )
unfolding program
lists_empty_maps = refl

abbrev no_change : UpdateParams RoleMap OAuthToken
no_change = record {
  roles = none;
  session_params = none;
  auth_method = [];
  provider = [];
  oauth_token = none;
}

-- An update moves the last login and keeps what it is not given.
updates :
    updated redis json 9 no_change (data_of 7 (bytes "k"))
    ≡ record (data_of 7 (bytes "k")) { last_login = 9 }
unfolding program
updates = refl

-- An update of a session that is gone fails, and so does a look at one that was invalidated.
gone :
    ((update_session redis json 9 alice first no_change fresh).1 ≡ err get_failed)
    × (get_session redis json first alice (invalidate_user_session redis json alice first created).0
        ≡ err get_failed)
unfolding program
gone = (refl, refl)
