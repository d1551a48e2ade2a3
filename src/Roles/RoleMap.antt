-- ===== src/Roles/RoleMap.antt =====
-- `UserRole` and `RoleMap` of prism/internal/domain/roles.go. A tenant is the text of its UUID.
use abraxis.Base.{
  ℕ, Text, bytes, Bool, true, false, Option, none, some, List, [], ◌∷◌, leb, text_eq, lookup,
  insert, erase, to_lower, if◌then◌else◌,
}

abbrev pub role_admin : Text
role_admin = bytes "admin"

abbrev pub role_editor : Text
role_editor = bytes "editor"

abbrev pub role_viewer : Text
role_viewer = bytes "viewer"

-- `roleHierarchy[r]`: zero for a text that is no role.
unfoldable pub role_hierarchy : Text → ℕ
role_hierarchy r =
    if text_eq r role_viewer
    then 1
    else (if text_eq r role_editor then 2 else (if text_eq r role_admin then 3 else 0))

-- `HasPermission`
unfoldable pub has_permission : Text → Text → Bool
has_permission r required = leb (role_hierarchy required) (role_hierarchy r)

-- `RoleFromString`; `strings.ToLower` is read on ASCII text.
unfoldable pub role_from_string : Text → Option Text
role_from_string role =
    let lower = to_lower role in
    if text_eq lower role_admin
    then some role_admin
    else (if text_eq lower role_editor
        then some role_editor
        else (if text_eq lower role_viewer then some role_viewer else none))

-- `HasRole`
unfoldable pub has_role : Text → Text → List (Text × Text) → Bool
has_role tenant required m = elim (lookup tenant m) [
  | none ↦ false
  | some r ↦ has_permission r required
]

-- `SetRole`; `none` is its error.
unfoldable pub set_role : Text → Text → List (Text × Text) → Option (List (Text × Text))
set_role tenant role m = elim (role_from_string role) [
  | none ↦ none
  | some r ↦ some (insert tenant r m)
]

-- `RemoveRole`
unfoldable pub remove_role : Text → List (Text × Text) → List (Text × Text)
remove_role tenant m = erase tenant m

-- `HasAllRoles`
unfoldable pub has_all_roles : Text → List Text → List (Text × Text) → Bool
has_all_roles tenant [] m = true
has_all_roles tenant (r ∷ rs) m =
    let rest = has_all_roles tenant rs m in if has_role tenant r m then rest else false
