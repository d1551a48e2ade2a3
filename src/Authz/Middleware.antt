-- ===== src/Authz/Middleware.antt =====
-- The middleware of HTTP servers: `RequireAuth` and `Middleware` of authz/middleware.go, with the roles
-- of authz/roles/roles.go. A request is of a type `R`, since only functions that are given read it. A
-- []string among the values of an input is a parameter, `roles_value`.
use abraxis.Base.{
  ℕ, ◌≡◌, inl, inr, refl, Text, bytes, true, Option, none, some, List, is_empty, if◌then◌else◌,
  arith, [], ◌∷◌, Option-cases,
}
use abraxis.Authz.Cache.{Decision}
use abraxis.Authz.Value.{Value, string, object, end, field, find_field, put_field}
use abraxis.Authz.Agent.{Agent, DecisionCache, Engine, Result, ok, err, transform_all, evaluate}
use abraxis.Authz.Answers.{Justified, evaluate_query-Justified}

-- What becomes of a request: it goes to the next handler, or a status and a text are sent.
pub data Reply : Type 0 where
  passed_on : Reply
  refused : ℕ → Text → Reply

abbrev string_of : Option Value → Option Text
string_of none = none
string_of (some (string s)) = some s
string_of (some _) = none

abbrev id_of : Option Value → Option Text
id_of none = none
id_of (some (object user)) = string_of (find_field (bytes "id") user)
id_of (some _) = none

-- `extractUserID`, and `ExtractUserID` of package roles.
abbrev extract_user_id : Value → Option Text
extract_user_id (object m) = elim (id_of (find_field (bytes "user") m)) [
  | some id ↦ some id
  | none ↦ string_of (find_field (bytes "subject") m)
]
extract_user_id _ = none

module _ (roles_value : List Text → Value) where
  abbrev with_roles : List Text → Option Value → Value
  with_roles roles none = object (field (bytes "roles") (roles_value roles) end)
  with_roles roles (some (object user)) =
      object (put_field (bytes "roles") (roles_value roles) user)
  with_roles roles (some _) = object (field (bytes "roles") (roles_value roles) end)

  -- `enrichInputWithRoles`, and `EnrichInputWithRoles` of package roles.
  abbrev enrich_input_with_roles : Value → List Text → Value
  enrich_input_with_roles (object m) roles =
      object (put_field (bytes "user") (with_roles roles (find_field (bytes "user") m)) m)
  enrich_input_with_roles v roles = v

  -- The enrichment of `Middleware`, and of the transformer that `CreateRoleTransformer` makes: without a
  -- user id or the roles the input stays as it is.
  abbrev enrich_from : (Text → Option (List Text)) → Value → Value
  enrich_from get_roles input = elim (extract_user_id input) [
    | none ↦ input
    | some id ↦ elim (get_roles id) [
      | none ↦ input
      | some roles ↦ enrich_input_with_roles input roles
    ]
  ]

  abbrev pub enriched : Option (Text → Option (List Text)) → Value → Value
  enriched none input = input
  enriched (some get_roles) input = enrich_from get_roles input

-- What the default transformer reads of a request; `user_roles` is the header X-User-Roles.
pub record DefaultRequest : Type 0 where
  pub method : Text
  pub path : Text
  pub user_roles : Text

-- `defaultInputTransformer`
unfoldable pub default_input_transformer : (List Text → Value) → DefaultRequest → Value
default_input_transformer roles_value r =
    let roles = object (field (bytes "roles") (roles_value (r.user_roles ∷ [])) end) in
    object (
      field (bytes "method") (string r.method) (
        field (bytes "path") (string r.path) (
          field (bytes "headers") (object end)
            (if is_empty r.user_roles then end else field (bytes "user") roles end))))

-- `on_refusal` gives the status and the text for a decision that does not allow.
abbrev reply_with : (Decision → ℕ × Text) → Result Decision → Reply
reply_with on_refusal (err e) = refused 401 (bytes "Unauthorized")
reply_with on_refusal (ok d) =
    if d.allowed then passed_on else refused (on_refusal d).0 (on_refusal d).1

abbrev forbidden : Decision → ℕ × Text
forbidden d = (403, if is_empty d.reason then bytes "Forbidden" else d.reason)

passed-reply_with :
    (on_refusal : Decision → ℕ × Text) (result : Result Decision)
    → reply_with on_refusal result ≡ passed_on
    → (d : Decision) × (result ≡ ok d) × (d.allowed ≡ true)
passed-reply_with on_refusal (err e) h = cc
passed-reply_with on_refusal (ok d) h = (d, refl, ground arith)

module _ {C Query R : Type 0} (engine : Engine Query) (ops : DecisionCache C)
    (digest : Text → Text) where
  -- `RequireAuth`, with the transformer and the handler of its options; the handler sends a status.
  unfoldable require_auth :
      (R → Value) → (R → ℕ × Text) → ℕ → ℕ → R → Agent C Query → Agent C Query × Reply
  require_auth transform on_refusal now later r a =
      let (a', result) = evaluate engine ops digest now later a (transform r) in
      (a', reply_with (λ d. on_refusal r) result)

  -- `Middleware`, with the role provider of the configuration.
  unfoldable pub middleware :
      (List Text → Value)
      → (R → Option Value)
      → Option (Text → Option (List Text))
      → ℕ
      → ℕ
      → R
      → Agent C Query
      → Agent C Query × Reply
  middleware roles_value extract provider now later r a = elim (extract r) [
    | none ↦ (a, refused 401 (bytes "Unauthorized"))
    | some input ↦
        let (a', result) =
          evaluate engine ops digest now later a (enriched roles_value provider input) in
        (a', reply_with forbidden result)
  ]

  -- `Middleware` fails closed: it passes a request on only if an input was extracted from it, every
  -- transformer accepted this input with the provider's roles, and the policy grants what came of it, or
  -- the cache holds an allowing decision under its key.
  pub middleware-Justified :
      (roles_value : List Text → Value) (extract : R → Option Value)
      (provider : Option (Text → Option (List Text))) (now later : ℕ) (r : R) (a : Agent C Query)
      → (middleware roles_value extract provider now later r a).1 ≡ passed_on
      → (i : Value) × (extract r ≡ some i)
        × ((t : Value) × (transform_all a.config.context_transformers
                (enriched roles_value provider i)
              ≡ some t)
            × Justified engine ops digest now a a.config.default_query t)
  unfolding middleware evaluate
  middleware-Justified roles_value extract provider now later r a h =
      elim (Option-cases (extract r)) [
        | inl q ↦ cc (rw (q, middleware) at h)
        | inr (i, q) ↦
            let input = enriched roles_value provider i in
            let (d, answered, allowed) =
              passed-reply_with forbidden (evaluate engine ops digest now later a input).1
                (rw (q, middleware) at h) in
            (
              i,
              q,
              evaluate_query-Justified engine ops digest now later a a.config.default_query input d
                  answered allowed,
            )
      ]
