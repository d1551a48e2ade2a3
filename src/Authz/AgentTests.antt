-- ===== src/Authz/AgentTests.antt =====
-- The agent on a concrete engine, and the theorems on its answers at concrete inputs.
use abraxis.Base.{
  List, Option, ◌≡◌, ◌∷◌, ◌&&◌, ◌+◌, refl, Text, bytes, Bool, true, false, some, none, [], ltb,
  lookup, insert, text_eq, slt64, split_on, has_prefix,
}
use abraxis.Authz.Cache
use abraxis.Authz.Cache.{Decision, MemoryCache, room_for, is_expired, touch}
use abraxis.Authz.Value.{
  Items, Value, array, boolean, cons, end, field, find_field, nil, object, put_field, string,
}
use abraxis.Authz.Hash.{
  text_lt, normalize, sort_texts, sort_fields, insert_text, insert_field, hash_input,
}
use abraxis.Authz.Agent.{
  evaluate, Engine, no_result, first_value, not_sent, local, memory_cache, Agent, ok, transform_all,
  cache_enabled, generate_cache_key, allowed_of, reason_of, decision_of_eval, evaluate_local_policy,
  evaluate_policy, evaluate_query, decide, consult, update_policies, prepare_local_policies,
  external_path,
}
use abraxis.Authz.Consult.{stamp}
use abraxis.Authz.Answers.{
  Justified, evaluate_query-Justified, evaluate_query-again, update_policies-evaluate_query,
}
use abraxis.Authz.Middleware.{
  passed_on, refused, enriched, default_input_transformer, middleware, middleware-Justified,
}
use abraxis.Authz.InMemory.{memory_decision_cache}

program : Unit {0}
unfolding reason_of has_prefix room_for is_expired touch Cache.get Cache.set text_lt normalize
    sort_texts sort_fields insert_text insert_field hash_input transform_all cache_enabled
    generate_cache_key allowed_of decision_of_eval evaluate_local_policy evaluate_policy
    evaluate_query decide consult update_policies prepare_local_policies lookup insert text_eq slt64
    external_path split_on evaluate middleware default_input_transformer find_field put_field
program = tt

-- The digest that forgets nothing.
abbrev pub plain : Text → Text
plain s = s

abbrev pub path : Text
path = bytes "data.authz.allow"

-- A query is the Boolean that it answers with; policies with a module grant.
abbrev pub toy : Engine Bool
toy = record {
  prepare = λ policies q. elim policies [ [] ↦ none | p ∷ ps ↦ some true ];
  eval = λ q input. first_value (boolean q);
  post = λ url input. not_sent;
}

abbrev refusing : Engine Bool
refusing = record toy { eval = λ q input. no_result }

abbrev pub agent : Agent MemoryCache Bool
agent = record {
  config = record {
    source = local;
    external_opa_url = [];
    local_policies = [];
    default_query = path;
    cache_config = record { type = memory_cache; ttl = 100; cache_key_fields = [] };
    context_transformers = [];
  };
  queries = (path, true) ∷ [];
  cache = some (record { entries = []; keys_by_time = []; max_entries = 4 });
}

abbrev input : Value
input = object (field (bytes "user") (string (bytes "alice")) end)

abbrev granted : Decision
granted = record { allowed = true; reason = []; cached = false; timestamp = 0 }

abbrev no_cache_yet : MemoryCache
no_cache_yet = record { entries = []; keys_by_time = []; max_entries = 4 }

in_order : text_lt (bytes "user") (bytes "role") ≡ false
unfolding program
in_order = refl

answers :
    (evaluate_query toy memory_decision_cache plain 5 6 agent path input).1
    ≡ ok (record granted { timestamp = 6 })
unfolding program
answers = refl

evaluate_query-Justified_example :
    (t : Value) × (transform_all agent.config.context_transformers input ≡ some t)
    × Justified toy memory_decision_cache plain 5 agent path t
evaluate_query-Justified_example =
    evaluate_query-Justified toy memory_decision_cache plain 5 6 agent path input
      (record granted { timestamp = 6 }) answers refl

-- A []string as an array of its strings.
abbrev items_of : List Text → Items
items_of [] = nil
items_of (s ∷ ss) = cons (string s) (items_of ss)

abbrev array_of : List Text → Value
array_of ss = array (items_of ss)

abbrev admin_roles : Text → Option (List Text)
admin_roles id = some (bytes "admin" ∷ [])

abbrev extracted : Value → Option Value
extracted v = some v

passes :
    (middleware toy memory_decision_cache plain array_of extracted
      (some admin_roles)
      5
      6
      input
      agent).1
    ≡ passed_on
unfolding program
passes = refl

middleware-Justified_example :
    (i : Value) × (extracted input ≡ some i)
    × ((t : Value) × (transform_all agent.config.context_transformers
            (enriched array_of (some admin_roles) i)
          ≡ some t)
        × Justified toy memory_decision_cache plain 5 agent agent.config.default_query t)
middleware-Justified_example =
    middleware-Justified toy memory_decision_cache plain array_of extracted (some admin_roles) 5 6
      input agent passes

-- A policy that gives nothing refuses.
forbidden_reply :
    (middleware refusing memory_decision_cache plain array_of extracted none 5 6 input agent).1
    ≡ refused 403 (bytes "Forbidden")
unfolding program
forbidden_reply = refl

-- The roles that a client wrote into its input are replaced by the provider's, and stay if the provider
-- fails.
abbrev claims : Value
claims = object (
    field (bytes "user")
      (object (
        field (bytes "id") (string (bytes "u1"))
          (field (bytes "roles") (array_of (bytes "root" ∷ [])) end)))
      end)

roles_replaced :
    enriched array_of (some admin_roles) claims
    ≡ object (
        field
          (bytes "user")
          (object (
            field
              (bytes "id")
              (string (bytes "u1"))
              (field (bytes "roles") (array_of (bytes "admin" ∷ [])) end)))
          end)
unfolding program
roles_replaced = refl

roles_kept : enriched array_of (some (λ id. none)) claims ≡ claims
unfolding program
roles_kept = refl

header_trusted :
    default_input_transformer array_of
      (record { method = bytes "GET"; path = bytes "/"; user_roles = bytes "admin" })
    ≡ object (
        field (bytes "method") (string (bytes "GET")) (
          field (bytes "path") (string (bytes "/")) (
            field (bytes "headers") (object end) (
              field
                (bytes "user")
                (object (field (bytes "roles") (array_of (bytes "admin" ∷ [])) end))
                end))))
unfolding program
header_trusted = refl

untouched : transform_all agent.config.context_transformers input ≡ some input
unfolding program
untouched = refl

enabled : cache_enabled agent.config ≡ true
unfolding program
enabled = refl

missed :
    (memory_decision_cache.get 5 (generate_cache_key plain agent.config path input) no_cache_yet).1
    ≡ none
unfolding program
missed = refl

says : evaluate_policy toy memory_decision_cache plain agent path input ≡ ok granted
unfolding program
says = refl

alive :
    (slt64 0 agent.config.cache_config.ttl && ltb (6 + agent.config.cache_config.ttl) 50) ≡ false
unfolding program
alive = refl

evaluate_query-again_example :
    (evaluate_query refusing memory_decision_cache plain 50 51
      (evaluate_query toy memory_decision_cache plain 5 6 agent path input).0
      path
      input).1
    ≡ ok (record granted { cached = true; timestamp = 6 })
evaluate_query-again_example =
    evaluate_query-again toy memory_decision_cache plain refusing 5 6 50 51 agent path path input
      input input input no_cache_yet granted untouched untouched refl enabled missed says refl alive

update_policies-evaluate_query_example :
    (evaluate_query toy memory_decision_cache plain 5 6
      (update_policies toy memory_decision_cache plain ((path, path) ∷ []) agent).0
      agent.config.default_query
      input).1
    ≡ stamp 6 (decision_of_eval (toy.eval true input))
update_policies-evaluate_query_example =
    update_policies-evaluate_query toy memory_decision_cache plain 5 6 ((path, path) ∷ []) agent
      input input true refl refl untouched

-- Paths of the external server: three of them end in a panic.
path_of_default : external_path path ≡ some (bytes "authz.allow")
unfolding program
path_of_default = refl

path_of_data : external_path (bytes "data") ≡ none
unfolding program
path_of_data = refl

path_of_dim : external_path (bytes "dim") ≡ none
unfolding program
path_of_dim = refl

path_of_empty : external_path [] ≡ none
unfolding program
path_of_empty = refl
