-- ===== src/Sessions/Lifetime.antt =====
-- What becomes of a session: aegis/internal/adapters/session/redisSessionManager.go.
use abraxis.Base.{
  Lacks, ℕ, ◌≡◌, ◌≢◌, refl, sym, ap, ◌∙◌, Text, bytes, true, false, Option, none, some, List, [],
  ◌++◌, is_empty, text_eq, text_eq_ne, inl, inr, Bool-cases, arith, if◌then◌else◌,
}
use abraxis.Keys.Params.{contains}
use abraxis.Sessions.Manager.{
  Result, ok, err, session_in, make_session_key, user_and_session, SessionData, CreateParams, Redis,
  Json, create_session, store_new, new_data, get_session, revoke_all_sessions,
  refresh_token_expiration,
}
use abraxis.Sessions.Names.{user_and_session-make_session_key}

-- What is documented of the commands while no entry expires: what a command does where it succeeds, and
-- that a `DEL`, which takes keys and not patterns, leaves every other key, also where it fails. JSON reads
-- back what it wrote, which is not empty. Before its pipeline is executed a command has the zero reply.
pub record Documented {S R T : Type 0} (redis : Redis S) (json : Json (SessionData R T))
    : Type 0 where
  pub read_back :
      (d : SessionData R T) (t : Text) → json.marshal d ≡ some t → json.unmarshal t ≡ some d
  pub not_empty : (d : SessionData R T) (t : Text) → json.marshal d ≡ some t → is_empty t ≡ false
  pub set_watched_get :
      (k v : Text) (ttl : ℕ) (s : S)
      → (redis.set_watched k v ttl s).1 ≡ true
      → redis.get k (redis.set_watched k v ttl s).0 ≡ some v
  pub del_get : (k : Text) (s : S) → (redis.del k s).1 ≡ true → redis.get k (redis.del k s).0 ≡ none
  pub del_other :
      (k : Text) (s : S) (j : Text)
      → text_eq k j ≡ false
      → redis.get j (redis.del k s).0 ≡ redis.get j s
  pub exec_get :
      (ks : List Text) (s : S) (j : Text)
      → (redis.exec ks s).1 ≡ true
      → redis.get j (redis.exec ks s).0 ≡ (if contains j ks then none else redis.get j s)
  pub queued : (k : Text) → redis.queued_ttl k ≡ some 0

module _ {S R T : Type 0} {redis : Redis S} {json : Json (SessionData R T)}
    (laws : Documented redis json) where
  store_new-get :
      (key session : Text) (o : Option Text) (s : S)
      → (store_new redis json key session o s).1 ≡ ok session
      → (t : Text) × (o ≡ some t)
        × (redis.get key (store_new redis json key session o s).0 ≡ some t)
  store_new-get key session none s made = absurd cc
  store_new-get key session (some t) s made =
      elim (Bool-cases (redis.set_watched key t refresh_token_expiration s).1) [
        | inl stored ↦ (t, refl, laws.set_watched_get key t refresh_token_expiration s stored)
        | inr lost ↦ absurd (ground arith)
      ]

  -- A session that was created is found, for its user and by its id, with the place, the times and the roles
  -- that it was created with, but without its user, its method of authentication, its provider and its
  -- token, if Redis and JSON do what is documented and the entry does not expire.
  pub create_session-get_session :
      (now : ℕ) (session user : Text) (p : CreateParams R T) (s : S)
      → (create_session redis json now session user p s).1 ≡ ok session
      → get_session redis json session user (create_session redis json now session user p s).0
        ≡ ok (record {
          user_id = [];
          session_id = session;
          place = p.session_params;
          created_at = now;
          last_login = now;
          roles = p.roles;
          auth_method = [];
          provider = [];
          oauth_token = none;
          revoked = false;
        })
  unfolding create_session get_session
  create_session-get_session now session user p s made =
      let key = make_session_key user session in
      let d = new_data redis json now key p in
      let (t, written, kept) = store_new-get key session (json.marshal d) s made in
      ap (session_in redis json session) kept
      ∙ rw (laws.not_empty d t written, laws.read_back d t written) refl

  abbrev session_part : Result (Text × Text) → Text
  session_part (ok p) = p.1
  session_part (err e) = []

  names_differ :
      (user user' session : Text)
      → Lacks b':' user
      → Lacks b':' user'
      → Lacks b':' session
      → session ≢ bytes "*"
      → text_eq (bytes "session:" ++ (user ++ bytes ":*")) (make_session_key user' session) ≡ false
  unfolding make_session_key
  names_differ user user' session lu lu' ls ne =
      text_eq_ne (bytes "session:" ++ (user ++ bytes ":*")) (make_session_key user' session) (λ e.
        ne (
          sym (
            ap session_part (
              sym (user_and_session-make_session_key user (bytes "*") lu (omega arith))
              ∙ ap user_and_session e
              ∙ user_and_session-make_session_key user' session lu' ls))))

  -- RevokeAllSessions revokes nothing: whatever it answers, every session of every user, of this one too, is
  -- found afterwards as before. Ids have no colon, that of a session is not a star, and Redis does what is
  -- documented: DEL takes keys, not patterns.
  pub revoke_all_sessions-get_session :
      (user user' session : Text) (s : S)
      → Lacks b':' user
      → Lacks b':' user'
      → Lacks b':' session
      → session ≢ bytes "*"
      → get_session redis json session user' (revoke_all_sessions redis json user s).0
        ≡ get_session redis json session user' s
  unfolding get_session revoke_all_sessions
  revoke_all_sessions-get_session user user' session s lu lu' ls ne =
      let kept = names_differ user user' session lu lu' ls ne in
      ap (session_in redis json session) (
        laws.del_other (bytes "session:" ++ (user ++ bytes ":*")) s (make_session_key user' session)
          kept)
