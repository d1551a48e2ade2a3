-- ===== src/Permissions/Defaults.antt =====
-- The permissions that aegis creates when it starts: `CreateDefaultPermissions` of
-- aegis/internal/service/service_permission.go.
use abraxis.Base.{ℕ, Text, bytes, String, false, none, some, List, [], ◌∷◌}
use abraxis.Permissions.Service.{Repository, Service, Result, ok, err, create_permission}

pub record Default : Type 0 where
  pub name : Text
  pub description : Text
  pub action : Text
  pub resource : Text

abbrev default_of : String → String → String → String → Default
default_of name description action resource = record {
  name = bytes name;
  description = bytes description;
  action = bytes action;
  resource = bytes resource;
}

-- `defaultPermissions`
unfoldable pub default_permissions : List Default
default_permissions =
    default_of "system:user:create" "Create users" "create" "user"
    ∷ default_of "system:user:read" "Read user details" "read" "user"
    ∷ default_of "system:user:update" "Update user details" "update" "user"
    ∷ default_of "system:user:delete" "Delete users" "delete" "user"
    ∷ default_of "system:user:list" "List users" "list" "user"
    ∷ default_of "system:role:create" "Create roles" "create" "role"
    ∷ default_of "system:role:read" "Read role details" "read" "role"
    ∷ default_of "system:role:update" "Update role details" "update" "role"
    ∷ default_of "system:role:delete" "Delete roles" "delete" "role"
    ∷ default_of "system:role:list" "List roles" "list" "role"
    ∷ default_of "system:permission:create" "Create permissions" "create" "permission"
    ∷ default_of "system:permission:read" "Read permission details" "read" "permission"
    ∷ default_of "system:permission:update" "Update permission details" "update" "permission"
    ∷ default_of "system:permission:delete" "Delete permissions" "delete" "permission"
    ∷ default_of "system:permission:list" "List permissions" "list" "permission"
    ∷ default_of "system:apikey:create" "Create API keys" "create" "apikey"
    ∷ default_of "system:apikey:read" "Read API key details" "read" "apikey"
    ∷ default_of "system:apikey:update" "Update API key details" "update" "apikey"
    ∷ default_of "system:apikey:delete" "Delete API keys" "delete" "apikey"
    ∷ default_of "system:apikey:list" "List API keys" "list" "apikey"
    ∷ default_of "system:session:read" "Read session details" "read" "session"
    ∷ default_of "system:session:delete" "Delete sessions" "delete" "session"
    ∷ default_of "system:session:list" "List sessions" "list" "session"
    ∷ default_of "system:auditlog:read" "Read audit log entries" "read" "auditlog"
    ∷ default_of "system:auditlog:list" "List audit log entries" "list" "auditlog"
    ∷ default_of "system:apiroute:create" "Create API routes" "create" "apiroute"
    ∷ default_of "system:apiroute:read" "Read API route details" "read" "apiroute"
    ∷ default_of "system:apiroute:update" "Update API route details" "update" "apiroute"
    ∷ default_of "system:apiroute:delete" "Delete API routes" "delete" "apiroute"
    ∷ default_of "system:apiroute:list" "List API routes" "list" "apiroute"
    ∷ default_of "system:admin:all" "Full administrative access" "*" "*"
    ∷ []

module _ {S : Type 0} (repo : Repository S) (clock : Text → ℕ) where
  -- The loop; `clock` gives the time at which a permission is created.
  unfoldable pub create_each : List Default → Service S → Service S × Result (Unit {0})
  create_each [] s = (s, ok tt)
  create_each (d ∷ ds) s = elim (repo.get_by_name d.name s.store) [
    | some p ↦ create_each ds s
    | none ↦
        let (s', r) =
          create_permission repo (clock d.name) d.name d.description d.action d.resource false s in
        elim r [ ok p ↦ create_each ds s' | err e ↦ (s', err e) ]
  ]

  -- `CreateDefaultPermissions`
  unfoldable pub create_default_permissions : Service S → Service S × Result (Unit {0})
  create_default_permissions = create_each default_permissions
