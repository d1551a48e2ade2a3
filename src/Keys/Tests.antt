-- ===== src/Keys/Tests.antt =====
-- A key through its life, and the theorems on keys at concrete inputs.
use abraxis.Base.{
  ℕ, ◌≡◌, ◌∷◌, ◌+◌, refl, Text, bytes, true, false, some, none, Option, [], text_eq, has_prefix,
  slt64, arith,
}
use abraxis.Keys.ApiKey.{
  ApiKey, expired, ok, err, missing_prefix, too_short, Generated, CreateParams, after_underscore,
  extract_key_prefix_for_lookup, generate_api_key, validate_create, verify, validate, new_api_key,
}
use abraxis.Keys.Lookup.{generate-extract}
use abraxis.Keys.Params.{
  UpdateParams, is_scope_byte, is_action, is_scope, check_scopes, update_errors, update_metadata,
  ListParams, validate_list,
}
use abraxis.Keys.Lifecycle.{new_api_key-validate}

program : Unit {0}
unfolding after_underscore extract_key_prefix_for_lookup generate_api_key validate_create verify
    validate new_api_key is_scope_byte is_action is_scope check_scopes update_errors update_metadata
    validate_list text_eq has_prefix slt64
program = tt

abbrev plain : Text → Text
plain s = s

abbrev no_port : Text → Option Text
no_port s = none

abbrev after_days : ℕ → ℕ
after_days d = 1000 + d

abbrev encoded : Text
encoded = bytes "Zm9v_YmFy-cXV4"

abbrev params : CreateParams
params = record {
  name = bytes "ci";
  tenant_id = 1;
  user_id = 2;
  scopes = [];
  ip_address = bytes "10.0.0.1";
  expires_in_days = 30;
}

abbrev key : ApiKey
key = record {
  name = bytes "ci";
  key_prefix = bytes "ak_Zm9v_YmF";
  key_hash = bytes "ak_Zm9v_YmFy-cXV4";
  raw_api_key = bytes "ak_Zm9v_YmFy-cXV4";
  tenant_id = 1;
  user_id = 2;
  scopes = [];
  expires_at = 1030;
  created_ip_address = bytes "10.0.0.1";
  is_active = true;
}

abbrev parts : Generated
parts = record { raw_key = key.raw_api_key; prefix = key.key_prefix; hash = key.key_hash }

generated : generate_api_key plain (some encoded) ≡ ok parts
unfolding program
generated = refl

created : new_api_key plain no_port after_days plain (some encoded) params ≡ ok key
unfolding program
created = refl

generate-extract_example : extract_key_prefix_for_lookup parts.raw_key ≡ ok parts.prefix
generate-extract_example = generate-extract plain encoded parts (omega arith) generated

no_prefix : extract_key_prefix_for_lookup (bytes "sk_123456789") ≡ err missing_prefix
unfolding program
no_prefix = refl

eight_characters : extract_key_prefix_for_lookup (bytes "ak_12345678") ≡ err too_short
unfolding program
eight_characters = refl

new_api_key-validate_example : validate plain key key.raw_api_key 1030 ≡ none
new_api_key-validate_example =
    new_api_key-validate plain no_port after_days plain (some encoded) params key 1030 created
      (omega arith)

past_expiry : validate plain key key.raw_api_key 1031 ≡ some expired
unfolding program
past_expiry = refl

abbrev read_users : Text
read_users = bytes "users:read"

abbrev change : UpdateParams
change = record {
  id = 7;
  name = none;
  scopes = some (read_users ∷ []);
  is_active = some false;
  expires_in_days = none;
}

abbrev changed : ApiKey
changed = record key { scopes = read_users ∷ []; is_active = false }

updated : update_metadata after_days change key ≡ ok changed
unfolding program
updated = refl

abbrev listing : ListParams
listing = record { tenant_id = some 1; user_id = none; page = 1; page_size = 20 }
