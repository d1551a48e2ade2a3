-- ===== src/Sessions/Manager.antt =====
-- The session manager: aegis/internal/adapters/session/redisSessionManager.go, and the keys and the data of
-- aegis/internal/domain/session.go. The commands of Redis and JSON are parameters, and so are the types of the
-- roles and of the OAuth token.
use abraxis.Base.{
  ℕ, zero, suc, Text, bytes, Bool, true, false, Option, none, some, List, [], ◌∷◌, ◌++◌, map,
  is_empty, split_on, sle64, ◌==◌, if◌then◌else◌,
}

pub data Error : Type 0 where
  creation_failed not_found get_failed marshal_failed unmarshal_failed set_failed : Error
  del_failed scan_failed pipeline_failed bad_key : Error

pub data Result (A : Type 0) : Type 0 where
  ok : A → Result A
  err : Error → Result A

module _ {A B : Type 0} where
  abbrev pub and_then : Result A → (A → Result B) → Result B
  and_then (ok a) f = f a
  and_then (err e) f = err e

-- `MakeSessionKey`
unfoldable pub make_session_key : Text → Text → Text
make_session_key user session = bytes "session:" ++ (user ++ b':' ∷ session)

abbrev pub pair_of : List Text → Result (Text × Text)
pair_of (_ ∷ user ∷ session ∷ []) = ok (user, session)
pair_of _ = err bad_key

-- `UserAndSessionIDFromSessionKey`
unfoldable pub user_and_session : Text → Result (Text × Text)
user_and_session key = pair_of (split_on b':' key)

-- `UserIDFromSessionKey` and `SessionIDFromSessionKey`
unfoldable pub user_id_from_session_key : Text → Result Text
user_id_from_session_key key = elim (split_on b':' key) [
  | _ ∷ user ∷ _ ∷ [] ↦ ok user
  | _ ↦ err bad_key
]

unfoldable pub session_id_from_session_key : Text → Result Text
session_id_from_session_key key = elim (split_on b':' key) [
  | _ ∷ _ ∷ session ∷ [] ↦ ok session
  | _ ↦ err bad_key
]

-- `SessionMetaDataParams`, as far as the manager reads it.
pub record Place : Type 0 where
  pub ip : Text
  pub user_agent : Text
  pub device_fingerprint : Text
  pub location : Text

-- `SessionData`; nil roles and a nil token are `none`.
pub record SessionData (R T : Type 0) : Type 0 where
  pub user_id : Text
  pub session_id : Text
  pub place : Place
  pub created_at : ℕ
  pub last_login : ℕ
  pub roles : Option R
  pub auth_method : Text
  pub provider : Text
  pub oauth_token : Option T
  pub revoked : Bool

pub record CreateParams (R T : Type 0) : Type 0 where
  pub roles : Option R
  pub session_params : Place
  pub auth_method : Text
  pub provider : Text
  pub oauth_token : Option T

pub record UpdateParams (R T : Type 0) : Type 0 where
  pub roles : Option R
  pub session_params : Option Place
  pub auth_method : Text
  pub provider : Text
  pub oauth_token : Option T

-- The commands. `get` is `none` for a missing key and for an error; `set_watched` is the transaction with one
-- `SET`; a number is a time to live. `queued_ttl` is what `Result` of a `TTL` gives before its pipeline is
-- executed, and `exec` executes a pipeline with those `TTL`s and these `DEL`s.
pub record Redis (S : Type 0) : Type 0 where
  pub get : Text → S → Option Text
  pub set : Text → Text → ℕ → S → S × Bool
  pub set_watched : Text → Text → ℕ → S → S × Bool
  pub del : Text → S → S × Bool
  pub scan : ℕ → Text → ℕ → S → Option (List Text × ℕ)
  pub queued_ttl : Text → Option ℕ
  pub exec : List Text → S → S × Bool

pub record Json (A : Type 0) : Type 0 where
  pub marshal : A → Option Text
  pub unmarshal : Text → Option A

-- A zero time to live stands for none.
unfoldable pub refresh_token_expiration : ℕ
refresh_token_expiration = 0

module _ {S R T : Type 0} (redis : Redis S) (json : Json (SessionData R T)) where
  -- The data of a new session.
  abbrev pub new_data : ℕ → Text → CreateParams R T → SessionData R T
  new_data now key p = record {
    user_id = [];
    session_id = key;
    place = p.session_params;
    created_at = now;
    last_login = now;
    roles = p.roles;
    auth_method = p.auth_method;
    provider = p.provider;
    oauth_token = p.oauth_token;
    revoked = false;
  }

  abbrev pub store_new : Text → Text → Option Text → S → S × Result Text
  store_new key session none s = (s, err marshal_failed)
  store_new key session (some t) s =
      let (s', stored) = redis.set_watched key t refresh_token_expiration s in
      (s', if stored then ok session else err creation_failed)

  -- `CreateSession`, with the id that is drawn.
  unfoldable pub create_session : ℕ → Text → Text → CreateParams R T → S → S × Result Text
  create_session now session user p s =
      let key = make_session_key user session in
      store_new key session (json.marshal (new_data now key p)) s

  -- The fields that `GetSession` passes on.
  abbrev shown : Text → SessionData R T → SessionData R T
  shown session d = record {
    user_id = [];
    session_id = session;
    place = d.place;
    created_at = d.created_at;
    last_login = d.last_login;
    roles = d.roles;
    auth_method = [];
    provider = [];
    oauth_token = none;
    revoked = false;
  }

  abbrev pub session_in : Text → Option Text → Result (SessionData R T)
  session_in session none = err get_failed
  session_in session (some t) =
      if is_empty t
      then err not_found
      else elim (json.unmarshal t) [ none ↦ err unmarshal_failed | some d ↦ ok (shown session d) ]

  -- `GetSession`
  unfoldable pub get_session : Text → Text → S → Result (SessionData R T)
  get_session session user s = session_in session (redis.get (make_session_key user session) s)

  -- `getSessionData`
  unfoldable pub get_session_data : Text → S → Result (SessionData R T)
  get_session_data key s = elim (redis.get key s) [
    | none ↦ err get_failed
    | some t ↦ elim (json.unmarshal t) [ none ↦ err unmarshal_failed | some d ↦ ok d ]
  ]

  abbrev or_kept : {A : Type 0} → A → Option A → A
  or_kept old none = old
  or_kept old (some new) = new

  abbrev some_or_kept : {A : Type 0} → Option A → Option A → Option A
  some_or_kept old none = old
  some_or_kept old (some new) = some new

  abbrev text_or_kept : Text → Text → Text
  text_or_kept old new = if is_empty new then old else new

  -- The fields that are given replace those of the session.
  unfoldable pub updated : ℕ → UpdateParams R T → SessionData R T → SessionData R T
  updated now p d = record d {
    place = or_kept d.place p.session_params;
    roles = some_or_kept d.roles p.roles;
    auth_method = text_or_kept d.auth_method p.auth_method;
    provider = text_or_kept d.provider p.provider;
    oauth_token = some_or_kept d.oauth_token p.oauth_token;
    last_login = now;
  }

  -- `UpdateSession`
  unfoldable pub update_session : ℕ → Text → Text → UpdateParams R T → S → S × Result (Unit {0})
  update_session now user session p s =
      let key = make_session_key user session in
      elim (get_session_data key s) [
        | err e ↦ (s, err e)
        | ok d ↦ elim (json.marshal (updated now p d)) [
          | none ↦ (s, err marshal_failed)
          | some t ↦
              let (s', stored) = redis.set key t refresh_token_expiration s in
              (s', if stored then ok tt else err set_failed)
        ]
      ]

  -- `ListSessionsByUser`: a map with one entry for each key, or an empty one.
  unfoldable pub list_entries : List Text → S → Result (List (Option (Text × SessionData R T)))
  list_entries [] s = ok []
  list_entries (key ∷ keys) s = and_then (get_session_data key s) (λ d.
      and_then (list_entries keys s) (λ rest.
        ok (
          some (key, record (shown key d) { created_at = 0; last_login = 0; roles = none })
          ∷ rest)))

  unfoldable pub list_sessions_by_user :
      Text → ℕ → ℕ → S → Result (List (Option (Text × SessionData R T)) × ℕ)
  list_sessions_by_user user cursor count s =
      elim (redis.scan cursor (bytes "session:" ++ (user ++ bytes ":*")) count s) [
        | none ↦ err scan_failed
        | some (keys, next) ↦
            and_then (list_entries keys s) (λ entries. ok (map (λ _. none) keys ++ entries, next))
      ]

  -- `InvalidateUserSession`
  unfoldable pub invalidate_user_session : Text → Text → S → S × Result (Unit {0})
  invalidate_user_session user session s =
      let (s', deleted) = redis.del (make_session_key user session) s in
      (s', if deleted then ok tt else err del_failed)

  -- `RevokeAllSessions`
  unfoldable pub revoke_all_sessions : Text → S → S × Result (Unit {0})
  revoke_all_sessions user s =
      let (s', deleted) = redis.del (bytes "session:" ++ (user ++ bytes ":*")) s in
      (s', if deleted then ok tt else err del_failed)

  -- The `DEL`s that `CleanupExpiredSessions` adds to a pipeline.
  unfoldable pub deletions : List Text → List Text
  deletions [] = []
  deletions (key ∷ keys) =
      let rest = deletions keys in
      elim (redis.queued_ttl key) [
        | none ↦ rest
        | some ttl ↦ if sle64 ttl 0 then key ∷ rest else rest
      ]

  abbrev pub clean_batch : List Text → S → S × Bool
  clean_batch [] s = (s, true)
  clean_batch (key ∷ keys) s = redis.exec (deletions (key ∷ keys)) s

  -- `CleanupExpiredSessions` from a cursor on, with fuel for the batches; `none` when it runs out.
  unfoldable pub cleanup_from : ℕ → ℕ → S → S × Option (Result (Unit {0}))
  cleanup_from zero cursor s = (s, none)
  cleanup_from (suc fuel) cursor s = elim (redis.scan cursor (bytes "session:*") 1000 s) [
    | none ↦ (s, some (err scan_failed))
    | some (keys, next) ↦
        let (s', done) = clean_batch keys s in
        let rest = cleanup_from fuel next s' in
        if done
        then (if next == 0 then (s', some (ok tt)) else rest)
        else (s', some (err pipeline_failed))
  ]
