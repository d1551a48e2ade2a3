-- ===== src/Authz/Consult.antt =====
-- `EvaluateQuery` and `UpdatePolicies` of authz/agent.go, one equation for each way through the cache.

use abraxis.Base.{
  ℕ, ◌≡◌, ◌⊎◌, inl, inr, refl, sym, ap, ◌∙◌, Text, true, false, Option, none, some, List, lookup,
  insert, arith, Bool-cases, Option-cases,
}
use abraxis.Authz.Cache.{Decision}
use abraxis.Authz.Value.{Value}
use abraxis.Authz.Agent.{
  DecisionCache, Engine, local, Agent, Result, ok, err, AgentError, transform_all, decision_of_eval,
  cache_enabled, evaluate_local_policy, evaluate_external_policy, evaluate_policy,
  generate_cache_key, decide, consult, evaluate_query, prepare_local_policies, clear_cache,
  update_policies,
}
use abraxis.Authz.Decide.{Grants, PolicySays, evaluate_policy-PolicySays}

-- A decision gets its time.
abbrev pub stamp : ℕ → Result Decision → Result Decision
stamp now (err e) = err e
stamp now (ok d) = ok (record d { timestamp = now })

stamp_ok :
    (now : ℕ) (r : Result Decision) (d : Decision)
    → stamp now r ≡ ok d
    → (d0 : Decision) × (r ≡ ok d0) × (d0.allowed ≡ d.allowed)
stamp_ok now (err e) d h = cc
stamp_ok now (ok d0) d h = (d0, refl, cc)

Result-cases :
    (r : Result Decision) → ((e : AgentError) × (r ≡ err e)) ⊎ ((d : Decision) × (r ≡ ok d))
Result-cases (err e) = inl (e, refl)
Result-cases (ok d) = inr (d, refl)

module _ {C Query : Type 0} (engine : Engine Query) (ops : DecisionCache C)
    (digest : Text → Text) where
  -- A miss is answered by the policy.
  decide-answer :
      (later : ℕ) (a : Agent C Query) (query_path : Text) (input : Value)
      → (decide engine ops digest later a query_path input).1
        ≡ stamp later (evaluate_policy engine ops digest a query_path input)
  unfolding decide
  decide-answer later a query_path input =
      elim (Result-cases (evaluate_policy engine ops digest a query_path input)) [
        | inl (e, h) ↦ rw (h, decide) refl
        | inr (d, h) ↦ elim (Option-cases a.cache) [
          | inl no_cache_here ↦ rw (h, no_cache_here, decide) refl
          | inr (c, some_cache) ↦ elim (Bool-cases (cache_enabled a.config)) [
            | inl on ↦ rw (h, some_cache, on, decide) refl
            | inr off ↦ rw (h, some_cache, off, decide) refl
          ]
        ]
      ]

  pub decide-PolicySays :
      (later : ℕ) (a : Agent C Query) (query_path : Text) (input : Value) (d : Decision)
      → (decide engine ops digest later a query_path input).1 ≡ ok d
      → d.allowed ≡ true
      → (v : Value) × PolicySays engine ops digest a query_path input v × Grants v
  decide-PolicySays later a query_path input d h granted =
      let (d0, answer, same) =
        stamp_ok later (evaluate_policy engine ops digest a query_path input) d
          (sym (decide-answer later a query_path input) ∙ h) in
      evaluate_policy-PolicySays engine ops digest a query_path input d0 answer (same ∙ granted)

  -- The three ways through the look into the cache.
  pub consult_uncached :
      (now later : ℕ) (a : Agent C Query) (query_path : Text) (input : Value)
      → (a.cache ≡ none) ⊎ (cache_enabled a.config ≡ false)
      → consult engine ops digest now later a query_path input
        ≡ decide engine ops digest later a query_path input
  unfolding consult
  consult_uncached now later a query_path input (inl h) = ground arith
  consult_uncached now later a query_path input (inr h) = ground arith

  pub consult_hit :
      (now later : ℕ) (a : Agent C Query) (query_path : Text) (input : Value) (c : C) (d : Decision)
      → a.cache ≡ some c
      → cache_enabled a.config ≡ true
      → (ops.get now (generate_cache_key digest a.config query_path input) c).1 ≡ some d
      → (consult engine ops digest now later a query_path input).1 ≡ ok (record d { cached = true })
  unfolding consult
  consult_hit now later a query_path input c d h on hit = ground arith

  pub consult_miss :
      (now later : ℕ) (a : Agent C Query) (query_path : Text) (input : Value) (c : C)
      → a.cache ≡ some c
      → cache_enabled a.config ≡ true
      → (ops.get now (generate_cache_key digest a.config query_path input) c).1 ≡ none
      → consult engine ops digest now later a query_path input
        ≡ decide engine ops digest later
            (record a {
              cache = some (ops.get now (generate_cache_key digest a.config query_path input) c).0;
            })
            query_path
            input
  unfolding consult
  consult_miss now later a query_path input c h on miss = ground arith

  pub evaluate_policy-cache :
      (a : Agent C Query) (c : Option C) (query_path : Text) (input : Value)
      → evaluate_policy engine ops digest (record a { cache = c }) query_path input
        ≡ evaluate_policy engine ops digest a query_path input
  unfolding evaluate_policy evaluate_local_policy evaluate_external_policy
  evaluate_policy-cache a c query_path input = refl

  pub evaluate_query_ok :
      (now later : ℕ) (a : Agent C Query) (query_path : Text) (input t : Value)
      → transform_all a.config.context_transformers input ≡ some t
      → evaluate_query engine ops digest now later a query_path input
        ≡ consult engine ops digest now later a query_path t
  unfolding evaluate_query
  evaluate_query_ok now later a query_path input t h = rw (h, evaluate_query) refl

  pub decide_stores :
      (later : ℕ) (a : Agent C Query) (query_path : Text) (input : Value) (c : C) (d : Decision)
      → evaluate_policy engine ops digest a query_path input ≡ ok d
      → a.cache ≡ some c
      → cache_enabled a.config ≡ true
      → (decide engine ops digest later a query_path input).0 ≡ record a {
        cache = some (
            ops.set later
              (generate_cache_key digest a.config query_path input)
              (record d { timestamp = later })
              a.config.cache_config.ttl
              c);
      }
  unfolding decide
  decide_stores later a query_path input c d says cached on = rw (says, decide) (ground arith)

  -- The policy of a prepared query answers for it.
  pub evaluate_policy_prepared :
      (a : Agent C Query) (query_path : Text) (input : Value) (q : Query)
      → a.config.source ≡ local
      → lookup query_path a.queries ≡ some q
      → evaluate_policy engine ops digest a query_path input
        ≡ decision_of_eval (engine.eval q input)
  unfolding evaluate_policy evaluate_local_policy
  evaluate_policy_prepared a query_path input q s e = ground arith

  clear_cache_off :
      (a : Agent C Query)
      → (a.cache ≡ none) ⊎ (cache_enabled a.config ≡ false)
      → clear_cache engine ops digest a ≡ a
  clear_cache_off a (inl h) = ground arith
  clear_cache_off a (inr h) = ground arith

  clear_cache_on :
      (a : Agent C Query) (c : C)
      → a.cache ≡ some c
      → cache_enabled a.config ≡ true
      → clear_cache engine ops digest a ≡ record a { cache = some (ops.clear c) }
  clear_cache_on a c h on = ground arith

  pub config-clear_cache : (a : Agent C Query) → (clear_cache engine ops digest a).config ≡ a.config
  config-clear_cache a = elim (Option-cases a.cache) [
    | inl h ↦ ap (λ b. b.config) (clear_cache_off a (inl h))
    | inr (c, h) ↦ elim (Bool-cases (cache_enabled a.config)) [
      | inl on ↦ ap (λ b. b.config) (clear_cache_on a c h on)
      | inr off ↦ ap (λ b. b.config) (clear_cache_off a (inr off))
    ]
  ]

  consult_off :
      (now later : ℕ) (a : Agent C Query) (query_path : Text) (input : Value)
      → (a.cache ≡ none) ⊎ (cache_enabled a.config ≡ false)
      → (consult engine ops digest now later (clear_cache engine ops digest a) query_path input).1
        ≡ stamp later (evaluate_policy engine ops digest a query_path input)
  consult_off now later a query_path input off =
      ap (λ b. (consult engine ops digest now later b query_path input).1) (clear_cache_off a off)
      ∙ ap (λ r. r.1) (consult_uncached now later a query_path input off)
      ∙ decide-answer later a query_path input

  -- After a clear the policy answers.
  pub consult-clear_cache :
      (now later : ℕ) (a : Agent C Query) (query_path : Text) (input : Value)
      → (consult engine ops digest now later (clear_cache engine ops digest a) query_path input).1
        ≡ stamp later (evaluate_policy engine ops digest a query_path input)
  consult-clear_cache now later a query_path input = elim (Option-cases a.cache) [
    | inl uncached ↦ consult_off now later a query_path input (inl uncached)
    | inr (c, cached) ↦ elim (Bool-cases (cache_enabled a.config)) [
      | inl on ↦
          ap (λ b. (consult engine ops digest now later b query_path input).1)
            (clear_cache_on a c cached on)
          ∙ ap (λ r. r.1)
              (consult_miss now later (record a { cache = some (ops.clear c) }) query_path input
                (ops.clear c) refl on (ops.get-clear now _ c))
          ∙ decide-answer later _ query_path input
          ∙ ap (stamp later) (evaluate_policy-cache a _ query_path input)
      | inr off ↦ consult_off now later a query_path input (inr off)
    ]
  ]

  -- An update whose policies the engine prepares.
  pub update_policies_ok :
      (policies : List (Text × Text)) (a : Agent C Query) (q : Query)
      → a.config.source ≡ local
      → engine.prepare policies a.config.default_query ≡ some q
      → update_policies engine ops digest policies a ≡ (
        clear_cache engine ops digest (record a {
          config = record a.config { local_policies = policies };
          queries = insert a.config.default_query q a.queries;
        }),
        none,
      )
  unfolding update_policies prepare_local_policies
  update_policies_ok policies a q src prep = ground arith
