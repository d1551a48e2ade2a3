-- ===== src/Permissions/Answers.antt =====
-- Which permissions answer a question, told apart from the tests of `HasPermission`:
-- aegis/internal/service/service_permission.go.
use abraxis.Base.{
  ◌≡◌, ◌↔◌, ◌⊎◌, inl, inr, refl, sym, ◌∙◌, Text, Bool, true, false, ◌&&◌, ◌||◌, Option, none, some,
  List, [], ◌∷◌, ◌++◌, text_eq, text_eq_iff, has_prefix, arith, All, Any, Bool-cases, Option-cases,
}
use mathlib.Core.Path.{subst}
use mathlib.Core.List.{append_assoc}
use abraxis.Permissions.Service.{
  Permission, Repository, Result, ok, err, list_failed, action_manage, star, grants, any_grants,
  role_ids, check_roles,
}

prefix_rest : (s p : Text) → has_prefix s p ≡ true → (rest : Text) × (s ≡ p ++ rest)
unfolding has_prefix
prefix_rest s [] h = (s, refl)
prefix_rest [] (b ∷ p) h = cc
prefix_rest (a ∷ s) (b ∷ p) h =
    let (rest, e) = prefix_rest s p (ground arith) in (rest, ground arith)

has_prefix-append : (p rest : Text) → has_prefix (p ++ rest) p ≡ true
unfolding has_prefix
has_prefix-append [] rest = refl
has_prefix-append (b ∷ p) rest = ground (arith, has_prefix-append p rest)

-- The permission is for the action, for every action, or to manage.
abbrev Acts : Text → Permission → Type 0
Acts action p = (p.action ≡ action) ⊎ (p.action ≡ star) ⊎ (p.action ≡ action_manage)

-- The resource is that of the permission, or one below it.
abbrev IsUnder : Text → Permission → Type 0
IsUnder resource p =
    (p.resource ≡ resource) ⊎ ((rest : Text) × (resource ≡ p.resource ++ b':' ∷ rest))

abbrev Permits : Text → Text → Permission → Type 0
Permits action resource p =
    (Acts action p × IsUnder resource p)
    ⊎ (((p.action ≡ action) ⊎ (p.action ≡ star)) × (p.resource ≡ star))

under : (resource : Text) (p : Permission) → Bool
under resource p = text_eq p.resource resource || has_prefix resource (p.resource ++ b':' ∷ [])

under_iff : (resource : Text) (p : Permission) → (under resource p ≡ true) ↔ IsUnder resource p
unfolding under
under_iff resource p =
    let colon = p.resource ++ b':' ∷ [] in
    let same = text_eq_iff p.resource resource in
    (
      λ h. elim (Bool-cases (text_eq p.resource resource)) [
        | inl e ↦ inl (same.0 e)
        | inr ne ↦
            let (rest, e) = prefix_rest resource colon (ground arith) in
            inr (rest, e ∙ append_assoc p.resource (b':' ∷ []) rest)
      ],
      λ u. elim u [
        | inl e ↦ ground (arith, same)
        | inr (rest, e) ↦
            let q : resource ≡ colon ++ rest = e ∙ sym (append_assoc p.resource (b':' ∷ []) rest) in
            let pre : has_prefix resource colon ≡ true = rw q (has_prefix-append colon rest) in
            ground arith
      ],
    )

acts : Text → Permission → Bool
acts action p = text_eq p.action action || text_eq p.action star || text_eq p.action action_manage

acts_iff : (action : Text) (p : Permission) → (acts action p ≡ true) ↔ Acts action p
unfolding acts
acts_iff action p =
    let (to, from) = text_eq_iff p.action action in
    let (to_star, from_star) = text_eq_iff p.action star in
    let (to_manage, from_manage) = text_eq_iff p.action action_manage in
    (
      λ h. elim (Bool-cases (text_eq p.action action)) [
        | inl e ↦ inl (to e)
        | inr e ↦ elim (Bool-cases (text_eq p.action star)) [
          | inl q ↦ inr (inl (to_star q))
          | inr q ↦ inr (inr (to_manage (ground arith)))
        ]
      ],
      λ a. elim a [
        | inl e ↦ ground (arith, from e)
        | inr (inl e) ↦ ground (arith, from_star e)
        | inr (inr e) ↦ ground (arith, from_manage e)
      ],
    )

-- The six tests, put in order.
grants_lem :
    (action resource : Text) (p : Permission)
    → grants action resource p ≡ (
        acts action p && under resource p
        || (text_eq p.action action || text_eq p.action star) && text_eq p.resource star)
unfolding grants acts under
grants_lem action resource p = ground arith

grants_iff :
    (action resource : Text) (p : Permission)
    → (grants action resource p ≡ true) ↔ Permits action resource p
grants_iff action resource p =
    let here = grants_lem action resource p in
    let is_star = text_eq_iff p.resource star in
    let (to, from) = text_eq_iff p.action action in
    let (to_star, from_star) = text_eq_iff p.action star in
    (
      λ h. elim (Bool-cases (acts action p && under resource p)) [
        | inl e ↦
            inl ((acts_iff action p).0 (ground arith), (under_iff resource p).0 (ground arith))
        | inr ne ↦ elim (Bool-cases (text_eq p.action action)) [
          | inl e ↦ inr (inl (to e), is_star.0 (ground arith))
          | inr q ↦ inr (inr (to_star (ground arith)), is_star.0 (ground arith))
        ]
      ],
      λ g. elim g [
        | inl (a, at) ↦ ground (arith, (acts_iff action p).1 a, (under_iff resource p).1 at)
        | inr (inl e, all) ↦ ground (arith, from e, is_star.1 all)
        | inr (inr e, all) ↦ ground (arith, from_star e, is_star.1 all)
      ],
    )

any_grants_iff :
    (action resource : Text) (ps : List Permission)
    → (any_grants action resource ps ≡ true) ↔ Any (Permits action resource) ps
unfolding any_grants
any_grants_iff action resource [] = (λ h. cc, λ a. absurd a.1)
any_grants_iff action resource (p ∷ ps) =
    let (to, from) = any_grants_iff action resource ps in
    let (here, back) = grants_iff action resource p in
    elim (Bool-cases (grants action resource p)) [
      | inl e ↦ rw e (λ h. inl (here e), λ a. refl)
      | inr e ↦ rw e (λ h. inr (to h), λ a. elim a [ inl g ↦ cc (back g) | inr r ↦ from r ])
    ]

module _ {S : Type 0} (repo : Repository S) (parse : Text → Option Text) where
  module _ (action resource : Text) (s : S) where
    -- A role that has a permission for it.
    abbrev pub Grants : Text → Type 0
    Grants role =
        (id : Text) × (ps : List Permission) × (parse role ≡ some id)
        × (repo.get_role_permissions id s ≡ some ps)
        × Any (Permits action resource) ps

    -- A role that is no id, or none of whose permissions is for it.
    abbrev pub Refuses : Text → Type 0
    Refuses role =
        (parse role ≡ none)
        ⊎ ((id : Text) × (ps : List Permission) × (parse role ≡ some id)
            × (repo.get_role_permissions id s ≡ some ps)
            × (¬ Any (Permits action resource) ps))

    -- A role whose permissions cannot be read.
    abbrev pub Fails : Text → Type 0
    Fails role = (id : Text) × (parse role ≡ some id) × (repo.get_role_permissions id s ≡ none)

    -- What an answer says of the roles.
    abbrev pub Explained : Result Bool → List Text → Type 0
    Explained (ok true) roles = Any Grants roles
    Explained (ok false) roles = All Refuses roles
    Explained (err e) roles = Any Fails roles

    abbrev checked : List Text → Result Bool
    checked roles = check_roles repo action resource (role_ids parse roles) s

    later :
        (r : Result Bool) (role : Text) (roles : List Text)
        → Refuses role
        → Explained r roles
        → Explained r (role ∷ roles)
    later (ok true) role roles h e = inr e
    later (ok false) role roles h e = (h, e)
    later (err e) role roles h f = inr f

    -- The first role decides by `r`.
    abbrev Gives : Text → List Text → Result Bool → Type 0
    Gives role roles r = checked (role ∷ roles) ≡ r

    explain :
        (role : Text) (roles : List Text) (r : Result Bool)
        → Gives role roles r
        → Explained r (role ∷ roles)
        → Explained (checked (role ∷ roles)) (role ∷ roles)
    explain role roles r e x = subst (λ q. Explained q (role ∷ roles)) (sym e) x

    pub check_roles-Explained : (roles : List Text) → Explained (checked roles) roles
    unfolding check_roles role_ids
    check_roles-Explained [] = tt
    check_roles-Explained (role ∷ roles) =
        let ih = check_roles-Explained roles in
        elim (Option-cases (parse role)) [
          | inl e ↦
              explain role roles (checked roles) (ground arith)
                (later (checked roles) role roles (inl e) ih)
          | inr (id, e) ↦ elim (Option-cases (repo.get_role_permissions id s)) [
            | inl q ↦ explain role roles (err list_failed) (ground arith) (inl (id, e, q))
            | inr (ps, q) ↦ elim (Bool-cases (any_grants action resource ps)) [
              | inl g ↦
                  explain role roles (ok true) (ground arith)
                    (inl (id, ps, e, q, (any_grants_iff action resource ps).0 g))
              | inr g ↦
                  let never : ¬ Any (Permits action resource) ps =
                    λ a. cc ((any_grants_iff action resource ps).1 a) in
                  explain role roles (checked roles) (ground arith)
                    (later (checked roles) role roles (inr (id, ps, e, q, never)) ih)
            ]
          ]
        ]
