-- ===== src/Authz/Answers.antt =====
-- `EvaluateQuery` of authz/agent.go as a whole, and after `UpdatePolicies`.

use abraxis.Base.{
  ℕ, ◌+◌, ◌≡◌, inl, inr, refl, sym, ap, ◌∙◌, Text, true, false, ◌&&◌, none, some, List, ltb, slt64,
  text_eq_refl, lookup-insert, insert, arith, Bool-cases, Option-cases,
}
use abraxis.Authz.Cache.{Decision}
use abraxis.Authz.Value.{Value}
use abraxis.Authz.Agent.{
  DecisionCache, Engine, local, Agent, ok, transform_all, decision_of_eval, cache_enabled,
  evaluate_policy, generate_cache_key, consult, evaluate_query, update_policies,
}
use abraxis.Authz.Decide.{Grants, PolicySays, PolicySays-cache}
use abraxis.Authz.Consult.{
  stamp, decide-PolicySays, consult_uncached, consult_hit, consult_miss, evaluate_policy-cache,
  evaluate_query_ok, decide_stores, evaluate_policy_prepared, update_policies_ok,
  config-clear_cache, consult-clear_cache,
}

module _ {C Query : Type 0} (engine : Engine Query) (ops : DecisionCache C)
    (digest : Text → Text) where
  -- Where an answer that allows comes from.
  pub data Justified (now : ℕ) (a : Agent C Query) (query_path : Text) (input : Value)
      : Type 0 where
    by_policy :
        (v : Value)
        → PolicySays engine ops digest a query_path input v
        → Grants v
        → Justified now a query_path input
    by_cache :
        (c : C) (d : Decision)
        → a.cache ≡ some c
        → (ops.get now (generate_cache_key digest a.config query_path input) c).1 ≡ some d
        → d.allowed ≡ true
        → Justified now a query_path input

  consult-Justified :
      (now later : ℕ) (a : Agent C Query) (query_path : Text) (input : Value) (d : Decision)
      → (consult engine ops digest now later a query_path input).1 ≡ ok d
      → d.allowed ≡ true
      → Justified now a query_path input
  consult-Justified now later a query_path input d h granted = elim (Option-cases a.cache) [
    | inl uncached ↦
        let (v, says, g) =
          decide-PolicySays engine ops digest later a query_path input d
            (ap (λ r. r.1)
                (sym
                  (consult_uncached engine ops digest now later a query_path input (inl uncached)))
              ∙ h)
            granted in
        by_policy v says g
    | inr (c, cached) ↦ elim (Bool-cases (cache_enabled a.config)) [
      | inr off ↦
          let (v, says, g) =
            decide-PolicySays engine ops digest later a query_path input d
              (ap (λ r. r.1)
                  (sym (consult_uncached engine ops digest now later a query_path input (inr off)))
                ∙ h)
              granted in
          by_policy v says g
      | inl on ↦
          elim (Option-cases
            (ops.get now (generate_cache_key digest a.config query_path input) c).1) [
              | inl miss ↦
                  let (v, says, g) =
                    decide-PolicySays engine ops digest later _ query_path input d
                      (ap (λ r. r.1)
                          (sym (
                            consult_miss engine ops digest now later a query_path input c cached on
                              miss))
                        ∙ h)
                      granted in
                  by_policy v (PolicySays-cache engine ops digest a _ query_path input v says) g
              | inr (d0, hit) ↦ by_cache c d0 cached hit (
                  cc (
                    sym (
                      consult_hit engine ops digest now later a query_path input c d0 cached on hit)
                    ∙ h))
            ]
    ]
  ]

  -- The agent fails closed: `EvaluateQuery` answers `allowed` only on an input that every transformer
  -- accepted, and only if the policy gives for it the Boolean true or an object whose field `allowed`
  -- is the Boolean true, or the cache holds an allowing decision under the key of the input.
  pub evaluate_query-Justified :
      (now later : ℕ) (a : Agent C Query) (query_path : Text) (input : Value) (d : Decision)
      → (evaluate_query engine ops digest now later a query_path input).1 ≡ ok d
      → d.allowed ≡ true
      → (t : Value) × (transform_all a.config.context_transformers input ≡ some t)
        × Justified now a query_path t
  unfolding evaluate_query
  evaluate_query-Justified now later a query_path input d h granted =
      elim (Option-cases (transform_all a.config.context_transformers input)) [
        | inl failed ↦ cc (rw (failed, evaluate_query) at h)
        | inr (t, e) ↦ (
          t,
          e,
          consult-Justified now later a query_path t d (rw (e, evaluate_query) at h) granted,
        )
      ]

  -- What was computed once is answered again from the cache: on an agent whose cache is enabled, after
  -- a miss that the policy answered, every query and input with the same key is answered, until the
  -- entry expires, by that decision and its time, marked as cached, whatever another policy engine
  -- would say.
  pub evaluate_query-again :
      (engine' : Engine Query) (now later now' later' : ℕ) (a : Agent C Query)
      (query_path query_path' : Text) (input input' t t' : Value) (c : C) (d : Decision)
      → transform_all a.config.context_transformers input ≡ some t
      → transform_all a.config.context_transformers input' ≡ some t'
      → a.cache ≡ some c
      → cache_enabled a.config ≡ true
      → (ops.get now (generate_cache_key digest a.config query_path t) c).1 ≡ none
      → evaluate_policy engine ops digest a query_path t ≡ ok d
      → generate_cache_key digest a.config query_path' t'
        ≡ generate_cache_key digest a.config query_path t
      → (slt64 0 a.config.cache_config.ttl && ltb (later + a.config.cache_config.ttl) now') ≡ false
      → (evaluate_query engine' ops digest now' later'
          (evaluate_query engine ops digest now later a query_path input).0
          query_path'
          input').1
        ≡ ok (record d { cached = true; timestamp = later })
  evaluate_query-again engine' now later now' later' a query_path query_path' input input' t t' c d
        ht ht' hc on miss says same alive =
      let key : Text = generate_cache_key digest a.config query_path t in
      let c1 : C = (ops.get now key c).0 in
      let kept : Decision = record d { timestamp = later } in
      let c2 : C = ops.set later key kept a.config.cache_config.ttl c1 in
      let stored : (evaluate_query engine ops digest now later a query_path input).0
          ≡ record a { cache = some c2 } =
        ap (λ r. r.0)
          (evaluate_query_ok engine ops digest now later a query_path input t ht
            ∙ consult_miss engine ops digest now later a query_path t c hc on miss)
        ∙ decide_stores engine ops digest later (record a { cache = some c1 }) query_path t c1 d
            (evaluate_policy-cache engine ops digest a (some c1) query_path t ∙ says) refl on in
      let hit : (ops.get now' (generate_cache_key digest a.config query_path' t') c2).1
          ≡ some kept =
        rw same (ops.get-set later now' key kept a.config.cache_config.ttl c1 alive) in
      rw stored (
        ap (λ r. r.1)
          (evaluate_query_ok engine' ops digest now' later' (record a { cache = some c2 })
            query_path' input' t' ht')
        ∙ consult_hit engine' ops digest now' later' (record a { cache = some c2 }) query_path' t'
            c2 kept refl on hit)

  -- No stale answer after an update: on an agent with local policies, when the engine prepares the new
  -- policies, a query of the default path after the update is answered by them, on the input as
  -- transformed, and not from the cache.
  pub update_policies-evaluate_query :
      (now later : ℕ) (policies : List (Text × Text)) (a : Agent C Query) (input t : Value)
      (q : Query)
      → a.config.source ≡ local
      → engine.prepare policies a.config.default_query ≡ some q
      → transform_all a.config.context_transformers input ≡ some t
      → (evaluate_query engine ops digest now later
          (update_policies engine ops digest policies a).0
          a.config.default_query
          input).1
        ≡ stamp later (decision_of_eval (engine.eval q t))
  update_policies-evaluate_query now later policies a input t q src prep ht =
      let b : Agent C Query = record a {
        config = record a.config { local_policies = policies };
        queries = insert a.config.default_query q a.queries;
      } in
      ap (λ r. (evaluate_query engine ops digest now later r.0 a.config.default_query input).1)
        (update_policies_ok engine ops digest policies a q src prep)
      ∙ ap (λ r. r.1)
          (evaluate_query_ok engine ops digest now later _ a.config.default_query input t
            (rw (config-clear_cache engine ops digest b) ht))
      ∙ consult-clear_cache engine ops digest now later b a.config.default_query t
      ∙ ap (stamp later) (
          evaluate_policy_prepared engine ops digest b a.config.default_query t q src (
            ground (
              arith,
              lookup-insert a.config.default_query a.config.default_query q a.queries,
              text_eq_refl a.config.default_query,
            )))
