-- ===== src/Keys/Lifecycle.antt =====
-- What a created key and an updated key accept, and which parameters are valid.
use abraxis.Base.{
  ℕ, ◌≤◌, ◌≡◌, ◌≢◌, ◌⊎◌, ◌↔◌, inl, inr, refl, sym, ap, ◌∙◌, Text, bytes, Bool, true, false, not,
  ◌&&◌, Option, none, some, List, [], ◌∷◌, ◌++◌, slt64, arith,
}
use abraxis.Keys.ApiKey.{
  ApiKey, KeyError, inactive, Checked, ok, err, generate_api_key, validate, CreateParams,
  validate_create, new_api_key, add_if, verdict,
}
use abraxis.Keys.Lookup.{validate_iff}
use abraxis.Keys.Params.{
  is_scope, contains, check_scopes, check_scope_list, check_days, UpdateParams, update_errors,
  or_else, update_metadata, ListParams, given, validate_list,
}

append-ne-nil : {A : Type 0} → (xs : List A) (x : A) → xs ++ x ∷ [] ≢ []
append-ne-nil [] x = λ h. cc
append-ne-nil (y ∷ ys) x = λ h. cc

-- A check that leaves no error did not fail, and found none.
add_if_nil :
    (failed : Bool) (on_field message : Text) (errors : List (Text × Text))
    → add_if failed on_field message errors ≡ []
    → (failed ≡ false) × (errors ≡ [])
add_if_nil true f m errors h = absurd (append-ne-nil errors (f, m) h)
add_if_nil false f m errors h = (refl, h)

-- Scopes of the form that is wanted, none twice and none of those seen before.
abbrev GoodScopes : List Text → List Text → Type 0
GoodScopes seen [] = Unit
GoodScopes seen (s ∷ ss) =
    (is_scope false s ≡ true) × (contains s seen ≡ false) × GoodScopes (s ∷ seen) ss

check_scopes_nil :
    (ss seen : List Text) (errors : List (Text × Text))
    → check_scopes ss seen errors ≡ []
    → (errors ≡ []) × GoodScopes seen ss
unfolding check_scopes
check_scopes_nil [] seen errors h = (h, tt)
check_scopes_nil (s ∷ ss) seen errors h =
    let (e1, good) = check_scopes_nil ss (s ∷ seen) _ h in
    let (fresh, e2) = add_if_nil _ _ _ _ e1 in
    let (matches, e3) = add_if_nil _ _ _ _ e2 in
    ((add_if_nil _ _ _ _ e3).1, (ground arith, fresh, good))

check_days_nil :
    (d : Option ℕ) (errors : List (Text × Text)) → check_days d errors ≡ [] → errors ≡ []
check_days_nil none errors h = h
check_days_nil (some d) errors h = (add_if_nil _ _ _ _ (add_if_nil _ _ _ _ h).1).1

verdict_ok :
    {A : Type 0}
    → (x y : A) (errors : List (Text × Text)) → verdict x errors ≡ ok y
    → (errors ≡ []) × (x ≡ y)
verdict_ok x y [] h = (refl, cc)
verdict_ok x y (e ∷ es) h = cc

Checked-cases :
    {A : Type 0} → (r : Checked A) → ((e : KeyError) × (r ≡ err e)) ⊎ ((x : A) × (r ≡ ok x))
Checked-cases (err e) = inl (e, refl)
Checked-cases (ok x) = inr (x, refl)

scope_list_nil :
    (ss : List Text) (errors : List (Text × Text))
    → check_scope_list (some ss) errors ≡ []
    → (ss ≢ []) × GoodScopes [] ss
unfolding check_scopes
scope_list_nil [] errors h = absurd (append-ne-nil errors _ h)
scope_list_nil (s ∷ ss) errors h = (λ e. cc, (check_scopes_nil (s ∷ ss) [] _ h).1)

-- An update that is accepted and gives scopes gives at least one, each of them of the form
-- `resource:action`, and none twice; the key then has these scopes.
update_metadata-GoodScopes :
    (after_days : ℕ → ℕ) (p : UpdateParams) (a a' : ApiKey) (ss : List Text)
    → update_metadata after_days p a ≡ ok a'
    → p.scopes ≡ some ss
    → (ss ≢ []) × GoodScopes [] ss × (a'.scopes ≡ ss)
unfolding update_metadata update_errors
update_metadata-GoodScopes after_days p a a' ss h given_scopes =
    let (none_failed, same) = verdict_ok _ a' (update_errors p) h in
    let scopes_ok = check_days_nil p.expires_in_days _ none_failed in
    let (nonempty, good) = scope_list_nil ss _ (rw given_scopes at scopes_ok) in
    (nonempty, good, ap (λ k. k.scopes) (sym same) ∙ ap (λ o. or_else o a.scopes) given_scopes)

-- A key that an accepted update turns off is refused from then on, whatever is presented and
-- whenever.
update_metadata-validate :
    (hash_api_key : Text → Text) (after_days : ℕ → ℕ) (p : UpdateParams) (a a' : ApiKey)
    (raw : Text) (now : ℕ)
    → update_metadata after_days p a ≡ ok a'
    → p.is_active ≡ some false
    → validate hash_api_key a' raw now ≡ some inactive
unfolding update_metadata validate
update_metadata-validate hash_api_key after_days p a a' raw now h off =
    let (none_failed, same) = verdict_ok _ a' (update_errors p) h in
    let inactive_now : a'.is_active ≡ false =
      ap (λ k. k.is_active) (sym same) ∙ ap (λ o. or_else o a.is_active) off in
    ground arith

-- A created key accepts its own raw text until the time of its expiry has passed.
pub new_api_key-validate :
    (hash_api_key : Text → Text) (split_host_port : Text → Option Text) (after_days : ℕ → ℕ)
    (parse_ip : Text → Text) (encoded : Option Text) (p : CreateParams) (a : ApiKey) (now : ℕ)
    → new_api_key hash_api_key split_host_port after_days parse_ip encoded p ≡ ok a
    → now ≤ a.expires_at
    → validate hash_api_key a a.raw_api_key now ≡ none
unfolding new_api_key generate_api_key
new_api_key-validate hash_api_key split_host_port after_days parse_ip none p a now h live =
    elim (Checked-cases (validate_create split_host_port p)) [
      | inl (e, failed) ↦ cc (rw (failed, new_api_key) at h)
      | inr (q, valid) ↦ cc (rw (valid, new_api_key) at h)
    ]
new_api_key-validate hash_api_key split_host_port after_days parse_ip (some key) p a now h live =
    elim (Checked-cases (validate_create split_host_port p)) [
      | inl (e, failed) ↦ cc (rw (failed, new_api_key) at h)
      | inr (q, valid) ↦
          let made = rw (valid, new_api_key) at h in
          (validate_iff hash_api_key a a.raw_api_key now).1 (cc, inr live, cc)
    ]

exactly_one : (a b : Bool) → a && b ≡ false → not a && not b ≡ false → a ≡ not b
exactly_one a b both neither = ground arith

-- A listing is valid exactly if it names a tenant or a user and not both, and its page and page size
-- are at least one.
validate_list_iff :
    (p : ListParams)
    → (validate_list p ≡ ok p) ↔ (
        (given p.tenant_id ≡ not (given p.user_id))
        × (slt64 p.page 1 ≡ false)
        × (slt64 p.page_size 1 ≡ false))
unfolding validate_list
validate_list_iff p = (
  λ h.
      let (e0, same) = verdict_ok p p _ h in
      let (size, e1) = add_if_nil _ (bytes "page_size") (bytes "must be greater than 0") _ e0 in
      let (page, e2) = add_if_nil _ (bytes "page") (bytes "must be greater than 0") _ e1 in
      let (neither, e3) =
        add_if_nil _ (bytes "tenant_id") (bytes "must provide either tenant_id or user_id") _ e2 in
      let (both, e4) =
        add_if_nil _ (bytes "tenant_id") (bytes "cannot provide both tenant_id and user_id") []
          e3 in
      (exactly_one _ _ both neither, page, size),
  λ h. ground (arith, h.0, h.1, h.2),
)
