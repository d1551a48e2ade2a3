-- ===== src/Authz/Decide.antt =====
-- The evaluation of a policy in authz/agent.go, `evaluateLocalPolicy` and `evaluateExternalPolicy`,
-- and the values that grant access.

use abraxis.Base.{
  ℕ, ◌≡◌, ◌⊎◌, inl, inr, refl, Text, bytes, true, false, Option, some, lookup, Option-cases,
}
use abraxis.Authz.Cache.{Decision}
use abraxis.Authz.Value.{Value, null, boolean, number, string, array, object, Fields, find_field}
use abraxis.Authz.Agent.{
  DecisionCache, Engine, EvalResult, eval_error, no_result, first_value, PostResult, not_sent,
  bad_status, bad_body, result, PolicySource, local, external, other_source, Agent, ok, policy_url,
  decision_of_eval, decision_of_post, allowed_of, external_path, evaluate_local_policy,
  evaluate_external_policy, evaluate_policy,
}

-- A value of the policy that grants access: the Boolean true, or an object whose field `allowed` is
-- the Boolean true.
pub data Grants : Value → Type 0 where
  by_boolean : Grants (boolean true)
  by_field : (m : Fields) → find_field (bytes "allowed") m ≡ some (boolean true) → Grants (object m)

object-Grants :
    (m : Fields) (v : Value)
    → find_field (bytes "allowed") m ≡ some v
    → allowed_of (object m) ≡ true
    → Grants (object m)
unfolding allowed_of
object-Grants m (boolean true) e h = by_field m e
object-Grants m (boolean false) e h = cc (rw (e, allowed_of) at h)
object-Grants m null e h = cc (rw (e, allowed_of) at h)
object-Grants m (number t) e h = cc (rw (e, allowed_of) at h)
object-Grants m (string t) e h = cc (rw (e, allowed_of) at h)
object-Grants m (array xs) e h = cc (rw (e, allowed_of) at h)
object-Grants m (object fs) e h = cc (rw (e, allowed_of) at h)

allowed_of-Grants : (v : Value) → allowed_of v ≡ true → Grants v
unfolding allowed_of
allowed_of-Grants (boolean true) h = by_boolean
allowed_of-Grants (boolean false) h = cc
allowed_of-Grants null h = cc
allowed_of-Grants (number t) h = cc
allowed_of-Grants (string t) h = cc
allowed_of-Grants (array xs) h = cc
allowed_of-Grants (object m) h = elim (Option-cases (find_field (bytes "allowed") m)) [
  | inl e ↦ cc (rw (e, allowed_of) at h)
  | inr (v, e) ↦ object-Grants m v e h
]

-- An allowing decision was computed from a value that grants access.
decision_of_eval-Grants :
    (r : EvalResult) (d : Decision)
    → decision_of_eval r ≡ ok d
    → d.allowed ≡ true
    → (v : Value) × (r ≡ first_value v) × Grants v
unfolding decision_of_eval
decision_of_eval-Grants eval_error d h granted = cc
decision_of_eval-Grants no_result d h granted = cc
decision_of_eval-Grants (first_value v) d h granted = (v, refl, allowed_of-Grants v cc)

decision_of_post-Grants :
    (r : PostResult) (d : Decision)
    → decision_of_post r ≡ ok d
    → d.allowed ≡ true
    → (v : Value) × (r ≡ result v) × Grants v
unfolding decision_of_post
decision_of_post-Grants not_sent d h granted = cc
decision_of_post-Grants bad_status d h granted = cc
decision_of_post-Grants bad_body d h granted = cc
decision_of_post-Grants (result v) d h granted = (v, refl, allowed_of-Grants v cc)

Source-cases :
    (s : PolicySource) → (s ≡ local) ⊎ ((s ≡ external) ⊎ ((n : ℕ) × (s ≡ other_source n)))
Source-cases local = inl refl
Source-cases external = inr (inl refl)
Source-cases (other_source n) = inr (inr (n, refl))

module _ {C Query : Type 0} (engine : Engine Query) (ops : DecisionCache C)
    (digest : Text → Text) where
  -- The value that the policy gives for a query.
  pub data PolicySays (a : Agent C Query) (query_path : Text) (input : Value) (v : Value)
      : Type 0 where
    by_query :
        (q : Query)
        → a.config.source ≡ local
        → lookup query_path a.queries ≡ some q
        → engine.eval q input ≡ first_value v
        → PolicySays a query_path input v
    by_server :
        (path : Text)
        → a.config.source ≡ external
        → external_path query_path ≡ some path
        → engine.post (policy_url a.config.external_opa_url path) input ≡ result v
        → PolicySays a query_path input v

  evaluate_local_policy-PolicySays :
      (a : Agent C Query) (query_path : Text) (input : Value) (d : Decision)
      → a.config.source ≡ local
      → evaluate_local_policy engine ops digest a query_path input ≡ ok d
      → d.allowed ≡ true
      → (v : Value) × PolicySays a query_path input v × Grants v
  unfolding evaluate_local_policy
  evaluate_local_policy-PolicySays a query_path input d s h granted =
      elim (Option-cases (lookup query_path a.queries)) [
        | inl e ↦ cc (rw (e, evaluate_local_policy) at h)
        | inr (q, e) ↦
            let (v, r, g) =
              decision_of_eval-Grants (engine.eval q input) d (rw (e, evaluate_local_policy) at h)
                granted in
            (v, by_query q s e r, g)
      ]

  evaluate_external_policy-PolicySays :
      (a : Agent C Query) (query_path : Text) (input : Value) (d : Decision)
      → a.config.source ≡ external
      → evaluate_external_policy engine ops digest a query_path input ≡ ok d
      → d.allowed ≡ true
      → (v : Value) × PolicySays a query_path input v × Grants v
  unfolding evaluate_external_policy
  evaluate_external_policy-PolicySays a query_path input d s h granted =
      elim (Option-cases (external_path query_path)) [
        | inl e ↦ cc (rw (e, evaluate_external_policy) at h)
        | inr (path, e) ↦
            let (v, r, g) =
              decision_of_post-Grants
                (engine.post (policy_url a.config.external_opa_url path) input) d
                (rw (e, evaluate_external_policy) at h) granted in
            (v, by_server path s e r, g)
      ]

  pub evaluate_policy-PolicySays :
      (a : Agent C Query) (query_path : Text) (input : Value) (d : Decision)
      → evaluate_policy engine ops digest a query_path input ≡ ok d
      → d.allowed ≡ true
      → (v : Value) × PolicySays a query_path input v × Grants v
  unfolding evaluate_policy evaluate_local_policy evaluate_external_policy
  evaluate_policy-PolicySays a query_path input d h granted = elim (Source-cases a.config.source) [
    | inl e ↦
        evaluate_local_policy-PolicySays a query_path input d e (rw (e, evaluate_policy) at h)
          granted
    | inr (inl e) ↦
        evaluate_external_policy-PolicySays a query_path input d e (rw (e, evaluate_policy) at h)
          granted
    | inr (inr (n, e)) ↦ cc (rw (e, evaluate_policy) at h)
  ]

  -- The agent apart from its cache is what the policy's answer depends on.
  pub PolicySays-cache :
      (a : Agent C Query) (c : Option C) (query_path : Text) (input v : Value)
      → PolicySays (record a { cache = c }) query_path input v
      → PolicySays a query_path input v
  PolicySays-cache a c query_path input v (by_query q s l e) = by_query q s l e
  PolicySays-cache a c query_path input v (by_server p s l e) = by_server p s l e
