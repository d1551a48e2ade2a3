-- ===== src/Keys/Params.antt =====
-- The parameters of requests on API keys: `UpdateMetadata`, `APIKey_ListParams` and
-- `APIKey_ValidateParams` of prism/internal/domain/api_key.go, with the checks that they use of
-- prism/internal/common/validator.
use abraxis.Base.{
  ℕ, Text, bytes, Bool, true, false, not, ◌&&◌, ◌||◌, Option, none, some, List, [], ◌∷◌, ◌++◌,
  length, ltb, leb, ◌==◌, text_eq, is_empty, if◌then◌else◌, slt64,
}
use abraxis.Keys.ApiKey.{ApiKey, Checked, add_if, verdict, empty_string, host_of}

-- `[a-z0-9_\-]`
unfoldable pub is_scope_byte : ℕ → Bool
is_scope_byte b = (leb b'a' b && leb b b'z') || (leb b'0' b && leb b b'9') || b == b'_' || b == b'-'

-- `[a-z0-9_\-*]+$`
unfoldable pub is_action : Bool → Text → Bool
is_action seen [] = seen
is_action seen (b ∷ s) = (is_scope_byte b || b == b'*') && is_action true s

-- `^[a-z0-9_\-]+:[a-z0-9_\-*]+$`, `seen` telling whether a byte of the resource was read.
unfoldable pub is_scope : Bool → Text → Bool
is_scope seen [] = false
is_scope seen (b ∷ s) =
    let action = is_action false s in
    let rest = is_scope true s in if b == b':' then seen && action else is_scope_byte b && rest

abbrev pub contains : Text → List Text → Bool
contains s [] = false
contains s (t ∷ ts) = let rest = contains s ts in text_eq t s || rest

abbrev pub scope_pattern : Text
scope_pattern = bytes "does not match pattern ^[a-z0-9_\\-]+:[a-z0-9_\\-*]+$"

-- The loop over the scopes: `seen` is `uniqueScopes`.
unfoldable pub check_scopes : List Text → List Text → List (Text × Text) → List (Text × Text)
check_scopes [] seen errors = errors
check_scopes (s ∷ ss) seen errors = check_scopes ss (s ∷ seen) (
    add_if (contains s seen) (bytes "scopes") (bytes "contains duplicate scope: " ++ s) (
      add_if (not (is_scope false s)) (bytes "scope") scope_pattern
        (add_if (is_empty s) (bytes "scope") empty_string errors)))

-- `APIKey_UpdateMetadataParams`; `updateScopes`, which the validator sets with `Scopes`, is left out.
pub record UpdateParams : Type 0 where
  pub id : ℕ
  pub name : Option Text
  pub scopes : Option (List Text)
  pub is_active : Option Bool
  pub expires_in_days : Option ℕ  -- int

abbrev pub check_name : Option Text → List (Text × Text) → List (Text × Text)
check_name none errors = errors
check_name (some n) errors =
    add_if (ltb (length n) 1 || ltb 255 (length n)) (bytes "name")
      (bytes "length must be between 1 and 255")
      (add_if (is_empty n) (bytes "name") empty_string errors)

abbrev pub check_scope_list : Option (List Text) → List (Text × Text) → List (Text × Text)
check_scope_list none errors = errors
check_scope_list (some ss) errors =
    check_scopes ss []
      (add_if (length ss == 0) (bytes "scopes") (bytes "cannot be empty if provided") errors)

abbrev pub check_days : Option ℕ → List (Text × Text) → List (Text × Text)
check_days none errors = errors
check_days (some d) errors =
    add_if (slt64 3650 d) (bytes "expires_in_days") (bytes "must be at most 3650")
      (add_if (slt64 d 0) (bytes "expires_in_days") (bytes "integer is negative") errors)

-- `APIKey_UpdateMetadataParams.Validate`: the errors, none of them for `nil`.
unfoldable pub update_errors : UpdateParams → List (Text × Text)
update_errors p = check_days p.expires_in_days (
    check_scope_list p.scopes
      (check_name p.name (add_if (p.id == 0) (bytes "id") (bytes "must be provided") [])))

abbrev pub or_else : {A : Type 0} → Option A → A → A
or_else none a = a
or_else (some b) a = b

-- `UpdateMetadata`, over `AddDate` from the clock.
unfoldable pub update_metadata : (ℕ → ℕ) → UpdateParams → ApiKey → Checked ApiKey
update_metadata after_days p a =
    verdict
      (record a {
        name = or_else p.name a.name;
        scopes = or_else p.scopes a.scopes;
        is_active = or_else p.is_active a.is_active;
        expires_at = elim p.expires_in_days [ none ↦ a.expires_at | some d ↦ after_days d ];
      })
      (update_errors p)

pub record ListParams : Type 0 where
  pub tenant_id : Option ℕ
  pub user_id : Option ℕ
  pub page : ℕ  -- int
  pub page_size : ℕ  -- int

abbrev pub given : Option ℕ → Bool
given none = false
given (some n) = true

-- `APIKey_ListParams.Validate`
unfoldable pub validate_list : ListParams → Checked ListParams
validate_list p = verdict p (
    add_if (slt64 p.page_size 1) (bytes "page_size") (bytes "must be greater than 0") (
      add_if (slt64 p.page 1) (bytes "page") (bytes "must be greater than 0") (
        add_if (not (given p.tenant_id) && not (given p.user_id)) (bytes "tenant_id")
          (bytes "must provide either tenant_id or user_id")
          (add_if (given p.tenant_id && given p.user_id) (bytes "tenant_id")
            (bytes "cannot provide both tenant_id and user_id") []))))

pub record ValidateParams : Type 0 where
  pub raw_api_key : Text
  pub ip_address : Text

-- `APIKey_ValidateParams.Validate`: the parameters as it leaves them, or its errors.
unfoldable pub validate_params :
    (Text → Option Text) → (Text → Bool) → ValidateParams → Checked ValidateParams
validate_params split_host_port parses p =
    let host = host_of split_host_port p.ip_address in
    verdict (record p { ip_address = if is_empty p.ip_address then p.ip_address else host })
      (add_if (not (is_empty p.ip_address) && not (parses host)) (bytes "ip_address")
        (bytes "must be a valid IP address")
        (add_if (is_empty p.raw_api_key) (bytes "raw_api_key") (bytes "must be provided") []))
