-- ===== src/Sessions/Keeps.antt =====
-- A Redis as an association list and a form of JSON, for the runs of the sessions of
-- aegis/internal/adapters/session/redisSessionManager.go.
use mathlib.Core.Option.{some-injective}
use abraxis.Base.{
  ℕ, ◌≡◌, refl, Text, bytes, Bool, true, false, Option, none, some, List, [], ◌∷◌, text_eq,
  text_eq_refl, is_empty, not, ◌&&◌, ◌==◌, eq_of_text_eq, sym, ◌∙◌, inl, inr, Bool-cases, arith,
  if◌then◌else◌, ap,
}
use abraxis.Keys.Params.{contains}
use abraxis.Sessions.Manager.{Place, SessionData, CreateParams, Redis, Json}
use abraxis.Sessions.Lifetime.{Documented}
use abraxis.Sessions.Tokens.{RoleMap, OAuthToken}

-- The values under the keys, with the keys that were ever set.
pub record Store : Type 0 where
  pub values : Text → Option Text
  pub keys : List Text

abbrev pub put : Text → Option Text → Store → Store
put k v s = record { values = λ j. if text_eq k j then v else s.values j; keys = k ∷ s.keys }

abbrev pub without : List Text → Store → Store
without ks s = record s { values = λ j. if contains j ks then none else s.values j }

abbrev pub redis : Redis Store
redis = record {
  get = λ k s. s.values k;
  set = λ k v ttl s. (put k (some v) s, true);
  set_watched = λ k v ttl s. (put k (some v) s, true);
  del = λ k s. (put k none s, true);
  scan = λ cursor pattern count s. some (s.keys, 0);
  queued_ttl = λ k. some 0;
  exec = λ ks s. (without ks s, true);
}

abbrev pub alice : Text
alice = bytes "alice"

abbrev pub first : Text
first = bytes "s1"

abbrev pub home : Place
home = record {
  ip = bytes "10.0.0.1";
  user_agent = bytes "curl";
  device_fingerprint = bytes "f";
  location = bytes "Bern";
}

abbrev pub params : CreateParams RoleMap OAuthToken
params = record {
  roles = some [];
  session_params = home;
  auth_method = bytes "password";
  provider = bytes "password";
  oauth_token = none;
}

-- The data of the sessions that are written here.
abbrev pub data_of : ℕ → Text → SessionData RoleMap OAuthToken
data_of now key = record {
  user_id = [];
  session_id = key;
  place = home;
  created_at = now;
  last_login = now;
  roles = some [];
  auth_method = bytes "password";
  provider = bytes "password";
  oauth_token = none;
  revoked = false;
}

abbrev is_empty_map : Option RoleMap → Bool
is_empty_map none = false
is_empty_map (some []) = true
is_empty_map (some (_ ∷ _)) = false

abbrev is_absent : Option OAuthToken → Bool
is_absent none = true
is_absent (some _) = false

empty_map-eq : (o : Option RoleMap) → is_empty_map o ≡ true → some [] ≡ o
empty_map-eq none h = absurd cc
empty_map-eq (some []) h = refl
empty_map-eq (some (x ∷ xs)) h = absurd cc

absent-eq : (o : Option OAuthToken) → is_absent o ≡ true → none ≡ o
absent-eq none h = refl
absent-eq (some x) h = absurd cc

abbrev same_place : Place → Bool
same_place p =
    text_eq home.ip p.ip
    && text_eq home.user_agent p.user_agent
    && text_eq home.device_fingerprint p.device_fingerprint
    && text_eq home.location p.location

same_place-eq : (p : Place) → same_place p ≡ true → home ≡ p
same_place-eq p h =
    let a = eq_of_text_eq home.ip p.ip (ground arith) in
    let b = eq_of_text_eq home.user_agent p.user_agent (ground arith) in
    let c = eq_of_text_eq home.device_fingerprint p.device_fingerprint (ground arith) in
    let d = eq_of_text_eq home.location p.location (ground arith) in
    λ i. record { ip = a i; user_agent = b i; device_fingerprint = c i; location = d i }

abbrev is_written : SessionData RoleMap OAuthToken → Bool
is_written d =
    text_eq [] d.user_id
    && same_place d.place
    && (d.created_at == d.last_login)
    && is_empty_map d.roles
    && text_eq (bytes "password") d.auth_method
    && text_eq (bytes "password") d.provider
    && is_absent d.oauth_token
    && not d.revoked

written-eq :
    (d : SessionData RoleMap OAuthToken)
    → is_written d ≡ true
    → data_of d.created_at d.session_id ≡ d
written-eq d h =
    let user = eq_of_text_eq [] d.user_id (ground arith) in
    let place = same_place-eq d.place (ground arith) in
    let times : d.created_at ≡ d.last_login = ground arith in
    let roles = empty_map-eq d.roles (ground arith) in
    let method = eq_of_text_eq (bytes "password") d.auth_method (ground arith) in
    let provider = eq_of_text_eq (bytes "password") d.provider (ground arith) in
    let token = absent-eq d.oauth_token (ground arith) in
    let revoked : false ≡ d.revoked = ground arith in
    λ i. record {
      user_id = user i;
      session_id = d.session_id;
      place = place i;
      created_at = d.created_at;
      last_login = times i;
      roles = roles i;
      auth_method = method i;
      provider = provider i;
      oauth_token = token i;
      revoked = revoked i;
    }

abbrev pub parsed : Text → Option (SessionData RoleMap OAuthToken)
parsed [] = none
parsed (n ∷ t) = some (data_of n t)

abbrev pub json : Json (SessionData RoleMap OAuthToken)
json = record {
  marshal = λ d. if is_written d then some (d.created_at ∷ d.session_id) else none;
  unmarshal = parsed;
}

written-cases :
    (d : SessionData RoleMap OAuthToken) (t : Text)
    → json.marshal d ≡ some t
    → (is_written d ≡ true) × (t ≡ d.created_at ∷ d.session_id)
written-cases d t e = elim (Bool-cases (is_written d)) [
  | inl w ↦ (w, sym (some-injective (d.created_at ∷ d.session_id) t (sym (rw w refl) ∙ e)))
  | inr w ↦ absurd (ground arith)
]

pub redis-Documented : Documented redis json
redis-Documented = record {
  read_back =
      λ d t e. let (w, same) = written-cases d t e in ap parsed same ∙ ap some (written-eq d w);
  not_empty = λ d t e. ap is_empty (written-cases d t e).1;
  set_watched_get = λ k v ttl s done. rw (text_eq_refl k) refl;
  del_get = λ k s done. rw (text_eq_refl k) refl;
  del_other = λ k s j other. rw other refl;
  exec_get = λ ks s j done. refl;
  queued = λ k. refl;
}
