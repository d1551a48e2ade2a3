-- ===== src/Permissions/Creation.antt =====
-- What `CreatePermission` of aegis/internal/service/service_permission.go does, and what
-- `CreateDefaultPermissions` leaves.
use mathlib.Core.Path.{subst}
use abraxis.Base.{
  ℕ, ◌≡◌, ◌⊎◌, inl, inr, refl, sym, ap, ◌∙◌, Text, Bool, is_empty, true, false, Option, none, some,
  List, [], ◌∷◌, arith, All, Bool-cases, Option-cases,
}
use abraxis.Permissions.Service.{
  Permission, Repository, Service, Result, ok, err, Error, name_required, action_required,
  resource_required, name_exists, pair_exists, create_failed, is_some, create_permission,
  after_write,
}
use abraxis.Permissions.Defaults.{
  Default, create_each, create_default_permissions, default_permissions,
}

-- A permission that was created is found by its name, and no creation loses one that was found.
pub record Finds {S : Type 0} (repo : Repository S) : Type 0 where
  pub create_finds :
      (p q : Permission) (s : S)
      → (repo.create p s).1 ≡ some q
      → is_some (repo.get_by_name p.name (repo.create p s).0) ≡ true
  pub create_leaves :
      (p : Permission) (name : Text) (s : S)
      → is_some (repo.get_by_name name s) ≡ true
      → is_some (repo.get_by_name name (repo.create p s).0) ≡ true

module _ {S : Type 0} (repo : Repository S) where
  -- The permission that `CreatePermission` writes.
  abbrev pub made : ℕ → Text → Text → Text → Text → Permission
  made now name description action resource = record {
    id = [];
    name = name;
    description = description;
    action = action;
    resource = resource;
    is_system = false;
    created_at = now;
    updated_at = now;
  }

  pub create_cases :
      (now : ℕ) (name description action resource : Text) (system : Bool) (s : Service S)
      → let r = create_permission repo now name description action resource system s in
        ((e : Error) × (r ≡ (s, err e)))
        ⊎ (r
            ≡ after_write repo create_failed s
                (repo.create (made now name description action resource) s.store))
  unfolding create_permission
  create_cases now name description action resource system s = elim (Bool-cases (is_empty name)) [
    | inl e ↦ inl (name_required, ground arith)
    | inr e1 ↦ elim (Bool-cases (is_empty action)) [
      | inl e ↦ inl (action_required, ground arith)
      | inr e2 ↦ elim (Bool-cases (is_empty resource)) [
        | inl e ↦ inl (resource_required, ground arith)
        | inr e3 ↦ elim (Bool-cases (is_some (repo.get_by_name name s.store))) [
          | inl e ↦ inl (name_exists, ground arith)
          | inr e4 ↦
              elim (Bool-cases
                (is_some (repo.get_by_action_and_resource action resource s.store))) [
                  | inl e ↦ inl (pair_exists, ground arith)
                  | inr e5 ↦ inr (ground arith)
                ]
        ]
      ]
    ]
  ]

  module _ (clock : Text → ℕ) (laws : Finds repo) where
    abbrev IsFound : Service S → Default → Type 0
    IsFound s d = is_some (repo.get_by_name d.name s.store) ≡ true

    abbrev created : Default → Service S → Service S × Result Permission
    created d s =
        create_permission repo (clock d.name) d.name d.description d.action d.resource false s

    found_after :
        (s : Service S) (w : S × Option Permission) (name : Text)
        → is_some (repo.get_by_name name w.0) ≡ true
        → is_some (repo.get_by_name name (after_write repo create_failed s w).0.store) ≡ true
    found_after s (t, some p) name h = h
    found_after s (t, none) name h = h

    written :
        (s : Service S) (w : S × Option Permission) (p : Permission)
        → (after_write repo create_failed s w).1 ≡ ok p
        → (q : Permission) × (w.1 ≡ some q)
    written s (t, some q) p h = (q, refl)
    written s (t, none) p h = cc

    created-IsFound :
        (d : Default) (s : Service S) (p : Permission)
        → (created d s).1 ≡ ok p
        → IsFound (created d s).0 d
    created-IsFound d s p h =
        elim (create_cases (clock d.name) d.name d.description d.action d.resource false s) [
          | inl (f, e) ↦ cc (ap (λ r. r.1) e)
          | inr e ↦
              let m = made (clock d.name) d.name d.description d.action d.resource in
              let w = repo.create m s.store in
              let (q, made_one) = written s w p (sym (ap (λ r. r.1) e) ∙ h) in
              subst (λ r. IsFound r.0 d) (sym e)
                (found_after s w d.name (laws.create_finds m q s.store made_one))
        ]

    created_leaves : (d e : Default) (s : Service S) → IsFound s e → IsFound (created d s).0 e
    created_leaves d e s h =
        elim (create_cases (clock d.name) d.name d.description d.action d.resource false s) [
          | inl (f, q) ↦ subst (λ r. IsFound r.0 e) (sym q) h
          | inr q ↦
              let m = made (clock d.name) d.name d.description d.action d.resource in
              subst (λ r. IsFound r.0 e) (sym q)
                (found_after s (repo.create m s.store) e.name
                  (laws.create_leaves m e.name s.store h))
        ]

    Result-cases :
        (r : Result Permission) → ((p : Permission) × (r ≡ ok p)) ⊎ ((e : Error) × (r ≡ err e))
    Result-cases (ok p) = inl (p, refl)
    Result-cases (err e) = inr (e, refl)

    -- How the loop goes on from one permission: with the next ones, or with an error.
    each_cases :
        (d : Default) (ds : List Default) (s : Service S)
        → ((t : Service S) × (create_each repo clock (d ∷ ds) s ≡ create_each repo clock ds t)
            × IsFound t d
            × ((e : Default) → IsFound s e → IsFound t e))
          ⊎ ((f : Error) × (create_each repo clock (d ∷ ds) s ≡ ((created d s).0, err f)))
    unfolding create_each
    each_cases d ds s = elim (Option-cases (repo.get_by_name d.name s.store)) [
      | inl e ↦ elim (Result-cases (created d s).1) [
        | inl (p, q) ↦
            inl ((created d s).0, ground arith, created-IsFound d s p q, λ x. created_leaves d x s)
        | inr (f, q) ↦ inr (f, ground arith)
      ]
      | inr (p, e) ↦ inl (s, ground arith, ground arith, λ x h. h)
    ]

    create_each_leaves :
        (ds : List Default) (x : Default) (s : Service S)
        → IsFound s x
        → IsFound (create_each repo clock ds s).0 x
    create_each_leaves [] x s h = unfold create_each in h
    create_each_leaves (d ∷ ds) x s h = elim (each_cases d ds s) [
      | inl (t, e, here, kept) ↦
          subst (λ r. IsFound r.0 x) (sym e) (create_each_leaves ds x t (kept x h))
      | inr (f, e) ↦ subst (λ r. IsFound r.0 x) (sym e) (created_leaves d x s h)
    ]

    create_each-IsFound :
        (ds : List Default) (s : Service S)
        → (create_each repo clock ds s).1 ≡ ok tt
        → All (IsFound (create_each repo clock ds s).0) ds
    create_each-IsFound [] s h = tt
    create_each-IsFound (d ∷ ds) s h = elim (each_cases d ds s) [
      | inl (t, e, here, kept) ↦
          subst (λ r. All (IsFound r.0) (d ∷ ds)) (sym e)
            (create_each_leaves ds d t here, create_each-IsFound ds t (sym (ap (λ r. r.1) e) ∙ h))
      | inr (f, e) ↦ cc (ap (λ r. r.1) e)
    ]

    create_each-again :
        (ds : List Default) (s : Service S)
        → All (IsFound s) ds
        → create_each repo clock ds s ≡ (s, ok tt)
    unfolding create_each
    create_each-again [] s h = refl
    create_each-again (d ∷ ds) s h = ground (arith, create_each-again ds s h.1)

    -- After CreateDefaultPermissions has succeeded each default permission is found by its name, and a
    -- second run changes nothing and succeeds, if what is created is found and creations lose nothing.
    pub create_default_permissions-again :
        (s : Service S)
        → let r = create_default_permissions repo clock s in
          r.1 ≡ ok tt
          → All (λ d. is_some (repo.get_by_name d.name r.0.store) ≡ true) default_permissions
            × (create_default_permissions repo clock r.0 ≡ (r.0, ok tt))
    unfolding create_default_permissions
    create_default_permissions-again s h =
        let found = create_each-IsFound default_permissions s h in
        (
          found,
          create_each-again default_permissions (create_each repo clock default_permissions s).0
              found,
        )
