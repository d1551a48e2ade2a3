-- ===== src/Permissions/Service.antt =====
-- aegis/internal/service/service_permission.go: permissions, their grants to roles and the check that
-- `HasPermission` makes, with its cache. The two repositories are one interface on a state `S`, in which
-- `none` is an error; `parse` is `uuid.Parse`, on the text of an id.
use abraxis.Base.{
  ℕ, Text, bytes, Bool, true, false, ◌&&◌, ◌||◌, Option, none, some, List, [], ◌∷◌, ◌++◌, text_eq,
  is_empty, has_prefix, join_with, lookup, insert, if◌then◌else◌,
}

abbrev pub action_manage : Text
action_manage = bytes "manage"

abbrev pub star : Text
star = bytes "*"

pub record Permission : Type 0 where
  pub id : Text
  pub name : Text
  pub description : Text
  pub action : Text
  pub resource : Text
  pub is_system : Bool
  pub created_at : ℕ
  pub updated_at : ℕ

-- `ports.PermissionRepository` and `ports.RolePermissionRepository`, as far as the service changes or
-- asks them. A write gives the state after it, and what it returns.
pub record Repository (S : Type 0) : Type 0 where
  pub get_by_id : Text → S → Option Permission
  pub get_by_name : Text → S → Option Permission
  pub get_by_action_and_resource : Text → Text → S → Option Permission
  pub create : Permission → S → S × Option Permission
  pub update : Text → Permission → S → S × Option Permission
  pub delete : Text → S → S × Option (Unit {0})
  pub add_permission_to_role : Text → Text → S → S × Option (Unit {0})
  pub remove_permission_from_role : Text → Text → S → S × Option (Unit {0})
  pub get_role_permissions : Text → S → Option (List Permission)

pub record Service (S : Type 0) : Type 0 where
  pub store : S
  pub cache : List (Text × Bool)

pub data Error : Type 0 where
  name_required action_required resource_required name_exists pair_exists : Error
  get_failed create_failed update_failed delete_failed is_system_permission : Error
  add_failed remove_failed list_failed : Error

pub data Result {ℓ} (A : Type ℓ) : Type ℓ where
  ok : A → Result A
  err : Error → Result A

abbrev pub is_some {ℓ} : {A : Type ℓ} → Option A → Bool
is_some none = false
is_some (some a) = true

-- `makeCacheKey`
unfoldable pub make_cache_key : List Text → Text → Text → Text
make_cache_key roles action resource =
    join_with b',' roles ++ (b':' ∷ (action ++ (b':' ∷ resource)))

-- The tests of `HasPermission` on one permission, in their order.
unfoldable pub grants : Text → Text → Permission → Bool
grants action resource p =
    text_eq p.action action && text_eq p.resource resource
    || text_eq p.action star && text_eq p.resource resource
    || text_eq p.action action && text_eq p.resource star
    || text_eq p.action star && text_eq p.resource star
    || text_eq p.action action_manage && text_eq p.resource resource
    || has_prefix resource (p.resource ++ b':' ∷ [])
      && (text_eq p.action action || text_eq p.action star || text_eq p.action action_manage)

unfoldable pub any_grants : Text → Text → List Permission → Bool
any_grants action resource [] = false
any_grants action resource (p ∷ ps) =
    if grants action resource p then true else any_grants action resource ps

-- A role whose text is no id is skipped.
unfoldable pub role_ids : (Text → Option Text) → List Text → List Text
role_ids parse [] = []
role_ids parse (r ∷ rs) = elim (parse r) [
  | none ↦ role_ids parse rs
  | some id ↦ id ∷ role_ids parse rs
]

-- `NewPermissionService`
unfoldable pub new_service : {S : Type 0} → S → Service S
new_service s = record { store = s; cache = [] }

abbrev pub clear_cache : {S : Type 0} → S → Service S
clear_cache s = record { store = s; cache = [] }

module _ {S : Type 0} (repo : Repository S) where
  -- The loop over the roles.
  unfoldable pub check_roles : Text → Text → List Text → S → Result Bool
  check_roles action resource [] s = ok false
  check_roles action resource (id ∷ ids) s = elim (repo.get_role_permissions id s) [
    | none ↦ err list_failed
    | some ps ↦ if any_grants action resource ps then ok true else check_roles action resource ids s
  ]

  -- What `HasPermission` does where its cache has no entry; an error is not cached.
  abbrev pub remember : Text → Result Bool → Service S → Service S × Result Bool
  remember key (ok b) s = (record s { cache = insert key b s.cache }, ok b)
  remember key (err e) s = (s, err e)

  abbrev pub no_roles : List Text → Bool
  no_roles [] = true
  no_roles (_ ∷ _) = false

  -- `HasPermission`
  unfoldable pub has_permission :
      (Text → Option Text) → List Text → Text → Text → Service S → Service S × Result Bool
  has_permission parse roles action resource s =
      let key = make_cache_key roles action resource in
      elim (lookup key s.cache) [
        | some b ↦ (s, ok b)
        | none ↦
            if no_roles roles
            then (s, ok false)
            else remember key (check_roles action resource (role_ids parse roles) s.store) s
      ]

  -- What a write leaves and returns: the cache is cleared only after a write that succeeded.
  abbrev pub after_write {ℓ} :
      {A : Type ℓ} → Error → Service S → S × Option A → Service S × Result A
  after_write e s (t, some a) = (clear_cache t, ok a)
  after_write e s (t, none) = (record s { store = t }, err e)

  -- `CreatePermission`; `now` is the clock, and the parameter `isSystem` is not read.
  unfoldable pub create_permission :
      ℕ → Text → Text → Text → Text → Bool → Service S → Service S × Result Permission
  create_permission now name description action resource is_system s =
      if is_empty name
      then (s, err name_required)
      else (if is_empty action
          then (s, err action_required)
          else (if is_empty resource
              then (s, err resource_required)
              else (if is_some (repo.get_by_name name s.store)
                  then (s, err name_exists)
                  else (if is_some (repo.get_by_action_and_resource action resource s.store)
                      then (s, err pair_exists)
                      else after_write create_failed s (
                          repo.create
                            (record {
                              id = [];
                              name = name;
                              description = description;
                              action = action;
                              resource = resource;
                              is_system = false;
                              created_at = now;
                              updated_at = now;
                            })
                            s.store)))))

  -- `UpdatePermission`
  unfoldable pub update_permission : ℕ → Text → Text → Service S → Service S × Result Permission
  update_permission now id description s = elim (repo.get_by_id id s.store) [
    | none ↦ (s, err get_failed)
    | some p ↦
        after_write update_failed s
          (repo.update id (record p { description = description; updated_at = now }) s.store)
  ]

  -- `DeletePermission`
  unfoldable pub delete_permission : Text → Service S → Service S × Result (Unit {0})
  delete_permission id s = elim (repo.get_by_id id s.store) [
    | none ↦ (s, err get_failed)
    | some p ↦
        if has_prefix p.name (bytes "system:")
        then (s, err is_system_permission)
        else after_write delete_failed s (repo.delete id s.store)
  ]

  -- `AddPermissionToRole` and `RemovePermissionFromRole`
  unfoldable pub add_permission_to_role : Text → Text → Service S → Service S × Result (Unit {0})
  add_permission_to_role role id s =
      after_write add_failed s (repo.add_permission_to_role role id s.store)

  unfoldable pub remove_permission_from_role :
      Text → Text → Service S → Service S × Result (Unit {0})
  remove_permission_from_role role id s =
      after_write remove_failed s (repo.remove_permission_from_role role id s.store)
