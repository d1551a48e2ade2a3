-- ===== src/Roles/Tests.antt =====
-- Roles of a concrete user, and the theorems on them at concrete inputs.
use abraxis.Base.{
  ◌≡◌, ◌∷◌, refl, Text, bytes, some, [], List, text_eq, lookup, insert, erase, has_key, to_lower,
  lower_byte,
}
use abraxis.Roles.RoleMap.{
  role_admin, role_viewer, role_hierarchy, has_permission, role_from_string, has_role, set_role,
  remove_role, has_all_roles,
}

program : Unit {0}
unfolding role_hierarchy has_permission role_from_string has_role set_role remove_role has_all_roles
    text_eq lookup insert erase has_key to_lower lower_byte
program = tt

abbrev acme : Text
acme = bytes "acme"

abbrev globex : Text
globex = bytes "globex"

abbrev roles : List (Text × Text)
roles = (acme, role_viewer) ∷ []

abbrev promoted : List (Text × Text)
promoted = (acme, role_admin) ∷ []

parsed : role_from_string (bytes "Admin") ≡ some role_admin
unfolding program
parsed = refl

set_admin : set_role acme (bytes "Admin") roles ≡ some promoted
unfolding program
set_admin = refl

no_such_role : role_hierarchy (bytes "owner") ≡ 0
unfolding program
no_such_role = refl

viewer_found : lookup acme roles ≡ some role_viewer
unfolding program
viewer_found = refl
