-- ===== src/Keys/ApiKey.antt =====
-- The API key entity: prism/internal/domain/api_key.go. Parameters: the SHA-256 digest in
-- hexadecimal, `net.SplitHostPort` (`none` is its error), `net.ParseIP` (whether it parses), and the
-- calendar's `AddDate` in days. A UUID is a number, the nil one 0; a day count is an int64 word.
use abraxis.Base.{
  ℕ, Text, bytes, Bool, true, not, ◌&&◌, Option, none, some, List, [], ◌∷◌, ◌++◌, length, take, ltb,
  leb, ◌==◌, text_eq, is_empty, has_prefix, if◌then◌else◌, slt64,
}

abbrev pub api_key_prefix : Text
api_key_prefix = bytes "ak_"

abbrev pub display_length : ℕ
display_length = 8

abbrev pub default_days : ℕ
default_days = 90

-- `APIKey`, without the fields that only storage writes: its identity and its last use.
pub record ApiKey : Type 0 where
  pub name : Text
  pub key_prefix : Text
  pub key_hash : Text
  pub raw_api_key : Text
  pub tenant_id : ℕ
  pub user_id : ℕ
  pub scopes : List Text
  pub expires_at : ℕ
  pub created_ip_address : Text
  pub is_active : Bool

pub data KeyError : Type 0 where
  missing_prefix incorrect_format too_short : KeyError
  inactive expired invalid_key : KeyError
  random_failed : KeyError
  -- what the validator collected: each field with its message
  invalid_fields : List (Text × Text) → KeyError

pub data Checked (A : Type 0) : Type 0 where
  ok : A → Checked A
  err : KeyError → Checked A

-- `strings.SplitN(s, "_", 2)`: the part after the first underscore.
unfoldable pub after_underscore : Text → Option Text
after_underscore [] = none
after_underscore (b ∷ s) = let rest = after_underscore s in if b == b'_' then some s else rest

-- `ExtractKeyPrefixForLookup`
unfoldable pub extract_key_prefix_for_lookup : Text → Checked Text
extract_key_prefix_for_lookup raw =
    if not (has_prefix raw api_key_prefix)
    then err missing_prefix
    else (elim (after_underscore raw) [
      | none ↦ err incorrect_format
      | some value ↦
          if leb (length value) display_length
          then err too_short
          else ok (api_key_prefix ++ take display_length value)
    ])

pub record Generated : Type 0 where
  pub raw_key : Text
  pub prefix : Text
  pub hash : Text

-- The validator: the errors so far, in the order in which they were added.
abbrev pub add_if : Bool → Text → Text → List (Text × Text) → List (Text × Text)
add_if failed on_field message errors =
    if failed then errors ++ (on_field, message) ∷ [] else errors

abbrev pub verdict : {A : Type 0} → A → List (Text × Text) → Checked A
verdict a [] = ok a
verdict a (e ∷ es) = err (invalid_fields (e ∷ es))

-- The message of `is.String`.
abbrev pub empty_string : Text
empty_string = bytes "string is empty"

pub record CreateParams : Type 0 where
  pub name : Text
  pub tenant_id : ℕ
  pub user_id : ℕ
  pub scopes : List Text
  pub ip_address : Text
  pub expires_in_days : ℕ  -- int

module _ (split_host_port : Text → Option Text) where
  -- The host of `ip:port`, and any other text as it is.
  abbrev pub host_of : Text → Text
  host_of address = elim (split_host_port address) [ none ↦ address | some host ↦ host ]

  -- `APIKey_CreateParams.Validate`: the parameters as it leaves them, or its errors.
  unfoldable pub validate_create : CreateParams → Checked CreateParams
  validate_create p =
      verdict
        (record p {
          ip_address = if is_empty p.ip_address then p.ip_address else host_of p.ip_address;
        })
        (add_if (is_empty p.ip_address) (bytes "ip_address") empty_string
          (add_if (is_empty p.name) (bytes "name") empty_string []))

module _ (hash_api_key : Text → Text) where
  -- `generateAPIKey`, on the random bytes in base64: `none` is an error of the random source.
  unfoldable pub generate_api_key : Option Text → Checked Generated
  generate_api_key encoded = elim encoded [
    | none ↦ err random_failed
    | some key ↦ ok (record {
      raw_key = api_key_prefix ++ key;
      prefix = api_key_prefix ++ take display_length key;
      hash = hash_api_key (api_key_prefix ++ key);
    })
  ]

  -- `APIKey_Verify`
  unfoldable pub verify : Text → Text → Bool
  verify raw stored = text_eq (hash_api_key raw) stored

  -- `APIKey.Validate`; `none` is no error.
  unfoldable pub validate : ApiKey → Text → ℕ → Option KeyError
  validate a raw now =
      if not a.is_active
      then some inactive
      else (if not (a.expires_at == 0) && ltb a.expires_at now
          then some expired
          else (if not (verify raw a.key_hash) then some invalid_key else none))

  -- `APIKey_New`, over `AddDate` from the clock and `net.ParseIP`.
  unfoldable pub new_api_key :
      (Text → Option Text) → (ℕ → ℕ) → (Text → Text) → Option Text → CreateParams → Checked ApiKey
  new_api_key split_host_port after_days parse_ip encoded params =
      elim (validate_create split_host_port params) [
        | err e ↦ err e
        | ok p ↦ elim (generate_api_key encoded) [
          | err e ↦ err e
          | ok g ↦ ok (record {
            name = p.name;
            key_prefix = g.prefix;
            key_hash = g.hash;
            raw_api_key = g.raw_key;
            tenant_id = p.tenant_id;
            user_id = p.user_id;
            scopes = p.scopes;
            expires_at =
                if slt64 0 p.expires_in_days
                then after_days p.expires_in_days
                else after_days default_days;
            created_ip_address = parse_ip p.ip_address;
            is_active = true;
          })
        ]
      ]
