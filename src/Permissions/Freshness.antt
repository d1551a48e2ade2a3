-- ===== src/Permissions/Freshness.antt =====
-- The answers of `HasPermission` after any operations of the service:
-- aegis/internal/service/service_permission.go.
use mathlib.Core.Path.{subst}
use abraxis.Base.{
  ℕ, ◌≡◌, inl, inr, sym, ap, Text, Bool, Option, none, List, [], ◌∷◌, bytes, has_prefix, arith, All,
  Bool-cases, Option-cases,
}
use abraxis.Permissions.Service.{
  Permission, Repository, Service, create_failed, update_failed, delete_failed, add_failed,
  remove_failed, after_write, clear_cache, new_service, create_permission, update_permission,
  delete_permission, add_permission_to_role, remove_permission_from_role,
}
use abraxis.Permissions.Answers.{Explained, check_roles-Explained}
use abraxis.Permissions.Creation.{made, create_cases}
use abraxis.Permissions.Keys.{Question, IsPlain}
use abraxis.Permissions.Coherence.{
  ask, IsCoherent, write-IsCoherent, cleared-IsCoherent, ask-IsCoherent, ask-fresh,
}

-- A write that fails leaves the permissions of all roles as they were.
pub record Documented {S : Type 0} (repo : Repository S) : Type 0 where
  pub create_keeps :
      (p : Permission) (s : S) (id : Text)
      → (repo.create p s).1 ≡ none
      → repo.get_role_permissions id (repo.create p s).0 ≡ repo.get_role_permissions id s
  pub update_keeps :
      (i : Text) (p : Permission) (s : S) (id : Text)
      → (repo.update i p s).1 ≡ none
      → repo.get_role_permissions id (repo.update i p s).0 ≡ repo.get_role_permissions id s
  pub delete_keeps :
      (i : Text) (s : S) (id : Text)
      → (repo.delete i s).1 ≡ none
      → repo.get_role_permissions id (repo.delete i s).0 ≡ repo.get_role_permissions id s
  pub add_keeps :
      (role i : Text) (s : S) (id : Text)
      → (repo.add_permission_to_role role i s).1 ≡ none
      → repo.get_role_permissions id (repo.add_permission_to_role role i s).0
        ≡ repo.get_role_permissions id s
  pub remove_keeps :
      (role i : Text) (s : S) (id : Text)
      → (repo.remove_permission_from_role role i s).1 ≡ none
      → repo.get_role_permissions id (repo.remove_permission_from_role role i s).0
        ≡ repo.get_role_permissions id s

-- What is asked of the service, with the clock of those that read it.
pub data Operation : Type 0 where
  asks : Question → Operation
  creates : ℕ → Text → Text → Text → Text → Bool → Operation
  updates : ℕ → Text → Text → Operation
  deletes : Text → Operation
  adds removes : Text → Text → Operation
  clears : Operation

-- All questions are plain.
abbrev AsksPlain : Operation → Type 0
AsksPlain (asks q) = IsPlain q
AsksPlain _ = Unit

module _ {S : Type 0} (repo : Repository S) (parse : Text → Option Text) where
  unfoldable pub operate : Operation → Service S → Service S
  operate (asks q) s = (ask repo parse q s).0
  operate (creates now name description action resource system) s =
      (create_permission repo now name description action resource system s).0
  operate (updates now id description) s = (update_permission repo now id description s).0
  operate (deletes id) s = (delete_permission repo id s).0
  operate (adds role id) s = (add_permission_to_role repo role id s).0
  operate (removes role id) s = (remove_permission_from_role repo role id s).0
  operate clears s = clear_cache s.store

  unfoldable pub run : List Operation → Service S → Service S
  run [] s = s
  run (o ∷ os) s = run os (operate o s)

  moved : (s r : Service S) → r ≡ s → IsCoherent repo parse s → IsCoherent repo parse r
  moved s r e c = subst (IsCoherent repo parse) (sym e) c

  new-IsCoherent : (t : S) → IsCoherent repo parse (new_service t)
  unfolding new_service
  new-IsCoherent t = cleared-IsCoherent repo parse t

  module _ (laws : Documented repo) where
    create-IsCoherent :
        (now : ℕ) (name description action resource : Text) (system : Bool) (s : Service S)
        → IsCoherent repo parse s
        → IsCoherent repo parse
            (create_permission repo now name description action resource system s).0
    create-IsCoherent now name description action resource system s c =
        let p = made repo now name description action resource in
        elim (create_cases repo now name description action resource system s) [
          | inl (f, e) ↦
              moved s (create_permission repo now name description action resource system s).0
                (ap (λ r. r.0) e) c
          | inr e ↦
              subst (λ r. IsCoherent repo parse r.0) (sym e)
                (write-IsCoherent repo parse create_failed s (repo.create p s.store)
                  (λ failed id. laws.create_keeps p s.store id failed) c)
        ]

    update-IsCoherent :
        (now : ℕ) (id description : Text) (s : Service S)
        → IsCoherent repo parse s
        → IsCoherent repo parse (update_permission repo now id description s).0
    unfolding update_permission
    update-IsCoherent now id description s c =
        let r = (update_permission repo now id description s).0 in
        elim (Option-cases (repo.get_by_id id s.store)) [
          | inl e ↦ moved s r (ground arith) c
          | inr (p, e) ↦
              let p' : Permission = record p { description = description; updated_at = now } in
              let w = repo.update id p' s.store in
              moved (after_write repo update_failed s w).0 r (ground arith) (
                write-IsCoherent repo parse update_failed s w
                  (λ failed i. laws.update_keeps id p' s.store i failed) c)
        ]

    delete-IsCoherent :
        (id : Text) (s : Service S)
        → IsCoherent repo parse s
        → IsCoherent repo parse (delete_permission repo id s).0
    unfolding delete_permission
    delete-IsCoherent id s c =
        let r = (delete_permission repo id s).0 in
        let w = repo.delete id s.store in
        elim (Option-cases (repo.get_by_id id s.store)) [
          | inl e ↦ moved s r (ground arith) c
          | inr (p, e) ↦ elim (Bool-cases (has_prefix p.name (bytes "system:"))) [
            | inl q ↦ moved s r (ground arith) c
            | inr q ↦ moved (after_write repo delete_failed s w).0 r (ground arith) (
                write-IsCoherent repo parse delete_failed s w
                  (λ failed i. laws.delete_keeps id s.store i failed) c)
          ]
        ]

    operate-IsCoherent :
        (o : Operation) (s : Service S)
        → AsksPlain o
        → IsCoherent repo parse s
        → IsCoherent repo parse (operate o s)
    unfolding operate add_permission_to_role remove_permission_from_role
    operate-IsCoherent (asks q) s plain c = ask-IsCoherent repo parse q s plain c
    operate-IsCoherent (creates now name description action resource system) s plain c =
        create-IsCoherent now name description action resource system s c
    operate-IsCoherent (updates now id description) s plain c =
        update-IsCoherent now id description s c
    operate-IsCoherent (deletes id) s plain c = delete-IsCoherent id s c
    operate-IsCoherent (adds role id) s plain c =
        write-IsCoherent repo parse add_failed s (repo.add_permission_to_role role id s.store)
          (λ failed i. laws.add_keeps role id s.store i failed) c
    operate-IsCoherent (removes role id) s plain c =
        write-IsCoherent repo parse remove_failed s
          (repo.remove_permission_from_role role id s.store)
          (λ failed i. laws.remove_keeps role id s.store i failed) c
    operate-IsCoherent clears s plain c = cleared-IsCoherent repo parse s.store

    pub run-IsCoherent :
        (os : List Operation) (s : Service S)
        → All AsksPlain os
        → IsCoherent repo parse s
        → IsCoherent repo parse (run os s)
    unfolding run
    run-IsCoherent [] s plain c = c
    run-IsCoherent (o ∷ os) s plain c =
        run-IsCoherent os (operate o s) plain.1 (operate-IsCoherent o s plain.0 c)

    -- No stale answer: after any operations on a new service, if every question was plain (it has roles,
    -- without commas and colons, and no colon in its action), a plain question is answered by the
    -- permissions that the roles have now: true only if a role has a permission that permits it, false
    -- only if every role that is an id can be read and has none, and an error only if one cannot be read,
    -- provided that a write that fails leaves the permissions of the roles as they were.
    pub run-Explained :
        (os : List Operation) (q : Question) (t : S)
        → All AsksPlain os
        → IsPlain q
        → let s = run os (new_service t) in
          Explained repo parse q.action q.resource s.store (ask repo parse q s).1 q.roles
    run-Explained os q t all_plain plain =
        let s = run os (new_service t) in
        let c : IsCoherent repo parse s =
          run-IsCoherent os (new_service t) all_plain (new-IsCoherent t) in
        subst (λ r. Explained repo parse q.action q.resource s.store r q.roles)
          (sym (ask-fresh repo parse q s plain c))
          (check_roles-Explained repo parse q.action q.resource s.store q.roles)
