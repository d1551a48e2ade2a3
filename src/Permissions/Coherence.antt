-- ===== src/Permissions/Coherence.antt =====
-- The cache of `HasPermission` against the permissions of the roles:
-- aegis/internal/service/service_permission.go.
use mathlib.Core.Path.{subst}
use abraxis.Base.{
  ◌≡◌, inl, inr, refl, sym, ap, ◌∙◌, Text, Bool, false, Option, none, some, List, [], ◌∷◌, ◌++◌,
  text_eq, eq_of_text_eq, lookup, lookup-insert, lookup-insert_self, arith, Bool-cases,
  Option-cases,
}
use abraxis.Permissions.Service.{
  Repository, Service, Result, ok, err, Error, no_roles, check_roles, role_ids, has_permission,
  remember, after_write, clear_cache,
}
use abraxis.Permissions.Keys.{
  Question, key, IsPlain, key-injective, make_cache_key-shift, IsNonempty,
}

module _ {S : Type 0} (repo : Repository S) (parse : Text → Option Text) where
  abbrev pub ask : Question → Service S → Service S × Result Bool
  ask q = has_permission repo parse q.roles q.action q.resource

  -- The answer that the permissions of the roles give.
  abbrev pub fresh : Question → S → Result Bool
  fresh q s = check_roles repo q.action q.resource (role_ids parse q.roles) s

  -- What is cached under the key of a plain question is its answer.
  abbrev pub IsCoherent : Service S → Type 0
  IsCoherent s =
      (q : Question) (b : Bool)
      → IsPlain q
      → lookup (key q) s.cache ≡ some b
      → fresh q s.store ≡ ok b

  check_roles-same :
      (action resource : Text) (ids : List Text) (s t : S)
      → ((id : Text) → repo.get_role_permissions id t ≡ repo.get_role_permissions id s)
      → check_roles repo action resource ids t ≡ check_roles repo action resource ids s
  unfolding check_roles
  check_roles-same action resource [] s t h = refl
  check_roles-same action resource (id ∷ ids) s t h =
      ground (arith, h id, check_roles-same action resource ids s t h)

  pub cleared-IsCoherent : (t : S) → IsCoherent (clear_cache t)
  unfolding lookup
  cleared-IsCoherent t q b plain h = cc

  after_write-IsCoherent {ℓ} :
      {A : Type ℓ} (e : Error) (s : Service S) (t : S) (r : Option A)
      → (r ≡ none
          → (id : Text) → repo.get_role_permissions id t ≡ repo.get_role_permissions id s.store)
      → IsCoherent s
      → IsCoherent (after_write repo e s (t, r)).0
  after_write-IsCoherent e s t none keeps c q b plain h =
      check_roles-same q.action q.resource (role_ids parse q.roles) s.store t (keeps refl)
      ∙ c q b plain h
  after_write-IsCoherent e s t (some a) keeps c q b plain h = cleared-IsCoherent t q b plain h

  -- The same for a write that is one value.
  pub write-IsCoherent {ℓ} :
      {A : Type ℓ} (e : Error) (s : Service S) (w : S × Option A)
      → (w.1 ≡ none
          → (id : Text) → repo.get_role_permissions id w.0 ≡ repo.get_role_permissions id s.store)
      → IsCoherent s
      → IsCoherent (after_write repo e s w).0
  write-IsCoherent e s w keeps c = after_write-IsCoherent e s w.0 w.1 keeps c

  has_roles : (q : Question) → IsPlain q → no_roles repo q.roles ≡ false
  has_roles q plain = go q.roles plain.has_roles
    where
      go : (rs : List Text) → IsNonempty rs → no_roles repo rs ≡ false
      go [] h = absurd h.1
      go (r ∷ rs) h = refl

  -- A plain question is answered from the cache or from the roles.
  ask_new :
      (q : Question) (s : Service S)
      → no_roles repo q.roles ≡ false
      → lookup (key q) s.cache ≡ none
      → ask q s ≡ remember repo (key q) (fresh q s.store) s
  unfolding has_permission
  ask_new q s some_role h = ground arith

  ask_known :
      (q : Question) (s : Service S) (b : Bool)
      → lookup (key q) s.cache ≡ some b
      → ask q s ≡ (s, ok b)
  unfolding has_permission
  ask_known q s b h = ground arith

  remember-IsCoherent :
      (q : Question) (s : Service S) (r : Result Bool)
      → IsPlain q
      → fresh q s.store ≡ r
      → IsCoherent s
      → IsCoherent (remember repo (key q) r s).0
  remember-IsCoherent q s (err e) plain f c p d plain' h = c p d plain' h
  remember-IsCoherent q s (ok b) plain f c p d plain' h =
      let written = lookup-insert (key q) (key p) b s.cache in
      elim (Bool-cases (text_eq (key q) (key p))) [
        | inl e ↦
            let same : q ≡ p = key-injective q p plain plain' (eq_of_text_eq (key q) (key p) e) in
            let found : some b ≡ some d = ground arith in
            subst (λ x. fresh x s.store ≡ ok d) same (f ∙ cc)
        | inr e ↦ c p d plain' (ground arith)
      ]

  pub ask-IsCoherent :
      (q : Question) (s : Service S) → IsPlain q → IsCoherent s → IsCoherent (ask q s).0
  ask-IsCoherent q s plain c = elim (Option-cases (lookup (key q) s.cache)) [
    | inl e ↦
        subst (λ x. IsCoherent x.0) (sym (ask_new q s (has_roles q plain) e))
          (remember-IsCoherent q s (fresh q s.store) plain refl c)
    | inr (b, e) ↦ subst (λ x. IsCoherent x.0) (sym (ask_known q s b e)) c
  ]

  answer-remember : (k : Text) (r : Result Bool) (s : Service S) → (remember repo k r s).1 ≡ r
  answer-remember k (ok b) s = refl
  answer-remember k (err e) s = refl

  pub ask-fresh :
      (q : Question) (s : Service S) → IsPlain q → IsCoherent s → (ask q s).1 ≡ fresh q s.store
  ask-fresh q s plain c = elim (Option-cases (lookup (key q) s.cache)) [
    | inl e ↦
        ap (λ x. x.1) (ask_new q s (has_roles q plain) e)
        ∙ answer-remember (key q) (fresh q s.store) s
    | inr (b, e) ↦ ap (λ x. x.1) (ask_known q s b e) ∙ sym (c q b plain e)
  ]

  remember-lookup :
      (k : Text) (r : Result Bool) (s : Service S) (x : Bool)
      → (remember repo k r s).1 ≡ ok x
      → lookup k (remember repo k r s).0.cache ≡ some x
  remember-lookup k (ok b) s x h = lookup-insert_self k b s.cache ∙ cc
  remember-lookup k (err e) s x h = cc

  -- An answer is in the cache once it is given, if there are roles.
  ask-lookup :
      (q : Question) (s : Service S) (x : Bool)
      → no_roles repo q.roles ≡ false
      → (ask q s).1 ≡ ok x
      → lookup (key q) (ask q s).0.cache ≡ some x
  ask-lookup q s x some_role h = elim (Option-cases (lookup (key q) s.cache)) [
    | inl e ↦
        let new = ask_new q s some_role e in
        ap (λ r. lookup (key q) r.0.cache) new
        ∙ remember-lookup (key q) (fresh q s.store) s x (sym (ap (λ r. r.1) new) ∙ h)
    | inr (b, e) ↦
        let known = ask_known q s b e in ap (λ r. lookup (key q) r.0.cache) known ∙ e ∙ cc
  ]

  -- The cache does not tell a colon in the resource from one in the action: whatever is answered on an
  -- action for a resource `b:c`, for at least one role, is then answered on the action that `:b` is added
  -- to for the resource `c`.
  pub has_permission-shift :
      (roles : List Text) (a b c : Text) (s : Service S) (x : Bool)
      → no_roles repo roles ≡ false
      → (has_permission repo parse roles a (b ++ b':' ∷ c) s).1 ≡ ok x
      → (has_permission repo parse roles
          (a ++ b':' ∷ b)
          c
          (has_permission repo parse roles a (b ++ b':' ∷ c) s).0).1
        ≡ ok x
  has_permission-shift roles a b c s x some_role h =
      let p : Question = record { roles = roles; action = a; resource = b ++ b':' ∷ c } in
      let q : Question = record { roles = roles; action = a ++ b':' ∷ b; resource = c } in
      let found : lookup (key p) (ask p s).0.cache ≡ some x = ask-lookup p s x some_role h in
      ap (λ r. r.1)
        (ask_known q (ask p s).0 x
          (ap (λ k. lookup k (ask p s).0.cache) (sym (make_cache_key-shift roles a b c)) ∙ found))
