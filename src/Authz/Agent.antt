-- ===== src/Authz/Agent.antt =====
-- The agent: authz/agent.go, with the interface `Cache` of authz/types/interfaces.go. The policy
-- engine (package rego) and the server of an external engine are parameters.
use abraxis.Base.{
  ℕ, ◌+◌, ◌≡◌, Text, bytes, Bool, true, false, ◌&&◌, Option, none, some, List, [], ◌∷◌, ◌++◌, ltb,
  ◌==◌, slt64, has_prefix, drop, length, lookup, insert, if◌then◌else◌,
}
use abraxis.Authz.Cache.{Decision}
use abraxis.Authz.Value.{Value, boolean, string, object, find_field, filter_input_fields}
use abraxis.Authz.Hash.{hash_input}

-- The interface `Cache`, each call with the clock that it reads, and what the agent relies on: a
-- cleared cache answers nothing, and a decision that was set is answered while it lives.
pub record DecisionCache (C : Type 0) : Type 0 where
  pub get : ℕ → Text → C → C × Option Decision
  pub set : ℕ → Text → Decision → ℕ → C → C
  pub clear : C → C
  pub get-clear : (now : ℕ) (key : Text) (c : C) → (get now key (clear c)).1 ≡ none
  pub get-set :
      (now later : ℕ) (key : Text) (d : Decision) (ttl : ℕ) (c : C)
      → (slt64 0 ttl && ltb (now + ttl) later) ≡ false
      → (get later key (set now key d ttl c)).1 ≡ some d

-- What an evaluation of a prepared query gives: an error, an empty result set, or the value of the
-- first expression of the first result.
pub data EvalResult : Type 0 where
  eval_error : EvalResult
  no_result : EvalResult
  first_value : Value → EvalResult

-- What the external server answers to a POST: a failure on the way, another status than 200, a
-- body that does not decode, or the field `result`.
pub data PostResult : Type 0 where
  not_sent bad_status bad_body : PostResult
  result : Value → PostResult

pub record Engine (Query : Type 0) : Type 0 where
  pub prepare : List (Text × Text) → Text → Option Query
  pub eval : Query → Value → EvalResult
  pub post : Text → Value → PostResult

pub data PolicySource : Type 0 where
  local external : PolicySource
  other_source : ℕ → PolicySource

pub data CacheType : Type 0 where
  no_cache memory_cache external_cache : CacheType

pub record CacheConfig : Type 0 where
  pub type : CacheType
  pub ttl : ℕ  -- int64
  pub cache_key_fields : List Text

pub record Config : Type 0 where
  pub source : PolicySource
  pub external_opa_url : Text
  pub local_policies : List (Text × Text)
  pub default_query : Text
  pub cache_config : CacheConfig
  pub context_transformers : List (Value → Option Value)

-- The agent: `cache` is nil where no cache was configured.
pub record Agent (C Query : Type 0) : Type 0 where
  pub config : Config
  pub queries : List (Text × Query)
  pub cache : Option C

pub data AgentError : Type 0 where
  transform_failed unknown_source not_prepared eval_failed : AgentError
  post_failed update_source prepare_failed url_required policies_required cache_required :
      AgentError
  -- a slice expression out of range
  panic : AgentError

pub data Result (A : Type 0) : Type 0 where
  ok : A → Result A
  err : AgentError → Result A

-- The loop over the transformers.
unfoldable pub transform_all : List (Value → Option Value) → Value → Option Value
transform_all [] input = some input
transform_all (t ∷ ts) input = elim (t input) [ none ↦ none | some v ↦ transform_all ts v ]

-- The decision in a value of the policy: a Boolean, or an object with `allowed` and `reason`.
unfoldable pub allowed_of : Value → Bool
allowed_of (boolean b) = b
allowed_of (object m) = elim (find_field (bytes "allowed") m) [
  | none ↦ false
  | some v ↦ elim v [ boolean b ↦ b | _ ↦ false ]
]
allowed_of v = false

unfoldable pub reason_of : Value → Text
reason_of (object m) = elim (find_field (bytes "reason") m) [
  | none ↦ []
  | some v ↦ elim v [ string s ↦ s | _ ↦ [] ]
]
reason_of v = []

abbrev pub decision_of : Bool → Text → Decision
decision_of allowed reason = record {
  allowed = allowed;
  reason = reason;
  cached = false;
  timestamp = 0;
}

-- The path of `evaluateExternalPolicy`; `none` is a slice expression out of range, which panics.
unfoldable pub external_path : Text → Option Text
external_path [] = none
external_path (c ∷ rest) =
    if c == b'd'
    then (if ltb (length (c ∷ rest)) 4
        then none
        else (if has_prefix (c ∷ rest) (bytes "data")
            then (if ltb (length (c ∷ rest)) 5 then none else some (drop 5 (c ∷ rest)))
            else some (c ∷ rest)))
    else some (c ∷ rest)

unfoldable pub cache_enabled : Config → Bool
cache_enabled c = elim c.cache_config.type [ no_cache ↦ false | _ ↦ true ]

-- `generateCacheKey`
unfoldable pub generate_cache_key : (Text → Text) → Config → Text → Value → Text
generate_cache_key digest c query_path input = elim c.cache_config.cache_key_fields [
  | [] ↦ hash_input digest query_path input
  | f ∷ fs ↦ hash_input digest query_path (filter_input_fields input (f ∷ fs))
]

-- The decision on the outcome of a prepared query.
unfoldable pub decision_of_eval : EvalResult → Result Decision
decision_of_eval eval_error = err eval_failed
decision_of_eval no_result = ok (decision_of false [])
decision_of_eval (first_value v) = ok (decision_of (allowed_of v) (reason_of v))

-- The decision on the answer of the external server.
unfoldable pub decision_of_post : PostResult → Result Decision
decision_of_post (result v) = ok (decision_of (allowed_of v) (reason_of v))
decision_of_post _ = err post_failed

-- The URL of the external server for a path.
abbrev pub policy_url : Text → Text → Text
policy_url base path = base ++ (bytes "/v1/data/" ++ path)

module _ {C Query : Type 0} (engine : Engine Query) (ops : DecisionCache C)
    (digest : Text → Text) where
  -- `evaluateLocalPolicy`; the time of the last use, which nothing reads, is left out.
  unfoldable pub evaluate_local_policy : Agent C Query → Text → Value → Result Decision
  evaluate_local_policy a query_path input = elim (lookup query_path a.queries) [
    | none ↦ err not_prepared
    | some q ↦ decision_of_eval (engine.eval q input)
  ]

  -- `evaluateExternalPolicy`
  unfoldable pub evaluate_external_policy : Agent C Query → Text → Value → Result Decision
  evaluate_external_policy a query_path input = elim (external_path query_path) [
    | none ↦ err panic
    | some path ↦ decision_of_post (engine.post (policy_url a.config.external_opa_url path) input)
  ]

  unfoldable pub evaluate_policy : Agent C Query → Text → Value → Result Decision
  unfolding evaluate_local_policy evaluate_external_policy
  evaluate_policy a query_path input = elim a.config.source [
    | local ↦ evaluate_local_policy a query_path input
    | external ↦ evaluate_external_policy a query_path input
    | other_source n ↦ err unknown_source
  ]

  -- `EvaluateQuery` after a miss: the policy, the timestamp and the store.
  unfoldable pub decide : ℕ → Agent C Query → Text → Value → Agent C Query × Result Decision
  decide later a query_path input = elim (evaluate_policy a query_path input) [
    | err e ↦ (a, err e)
    | ok d ↦
        let stamped = record d { timestamp = later } in
        elim a.cache [
          | none ↦ (a, ok stamped)
          | some c ↦
              if cache_enabled a.config
              then (
                record a {
                  cache = some (
                      ops.set later (generate_cache_key digest a.config query_path input) stamped
                        a.config.cache_config.ttl c);
                },
                ok stamped,
              )
              else (a, ok stamped)
        ]
  ]

  -- `EvaluateQuery` on the transformed input: the cache, then the policy.
  unfoldable pub consult : ℕ → ℕ → Agent C Query → Text → Value → Agent C Query × Result Decision
  consult now later a query_path input = elim a.cache [
    | none ↦ decide later a query_path input
    | some c ↦
        if cache_enabled a.config
        then (let (c', hit) = ops.get now (generate_cache_key digest a.config query_path input) c in
            elim hit [
              | some d ↦ (record a { cache = some c' }, ok (record d { cached = true }))
              | none ↦ decide later (record a { cache = some c' }) query_path input
            ])
        else decide later a query_path input
  ]

  -- `EvaluateQuery`: `now` is the clock at the look into the cache, `later` at the decision.
  unfoldable pub evaluate_query :
      ℕ → ℕ → Agent C Query → Text → Value → Agent C Query × Result Decision
  evaluate_query now later a query_path input =
      elim (transform_all a.config.context_transformers input) [
        | none ↦ (a, err transform_failed)
        | some transformed ↦ consult now later a query_path transformed
      ]

  -- `Evaluate`
  unfoldable pub evaluate : ℕ → ℕ → Agent C Query → Value → Agent C Query × Result Decision
  evaluate now later a input = evaluate_query now later a a.config.default_query input

  -- `prepareLocalPolicies`
  unfoldable pub prepare_local_policies : Agent C Query → Agent C Query × Option AgentError
  prepare_local_policies a = elim (engine.prepare a.config.local_policies a.config.default_query) [
    | none ↦ (a, some prepare_failed)
    | some q ↦ (record a { queries = insert a.config.default_query q a.queries }, none)
  ]

  abbrev pub is_local : PolicySource → Bool
  is_local local = true
  is_local _ = false

  abbrev pub clear_cache : Agent C Query → Agent C Query
  clear_cache a = elim a.cache [
    | none ↦ a
    | some c ↦ if cache_enabled a.config then record a { cache = some (ops.clear c) } else a
  ]

  -- `UpdatePolicies`
  unfoldable pub update_policies :
      List (Text × Text) → Agent C Query → Agent C Query × Option AgentError
  unfolding prepare_local_policies
  update_policies policies a =
      if is_local a.config.source
      then (let updated : Agent C Query = record a {
        config = record a.config { local_policies = policies };
      } in
          let (a', failure) = prepare_local_policies updated in
          elim failure [ some e ↦ (a', some e) | none ↦ (clear_cache a', none) ])
      else (a, some update_source)
