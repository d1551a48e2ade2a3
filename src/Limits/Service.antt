-- ===== src/Limits/Service.antt =====
-- The configured rate limits and the changes to them: `RateLimitService` of
-- prism/internal/features/ratelimit/service_rate_limit.go. The load is a float64, a parameter `F`.
-- Both maps point to the same configurations: `configs_by_id` holds them, and `configs` holds the id of
-- the one that it points to. `uuid.New()` is an argument, as is the clock.
use abraxis.Base.{
  ℕ, ◌*◌, ◌/◌, ◌%◌, Text, bytes, Bool, true, false, not, ◌||◌, Option, none, some, List, [], ◌∷◌,
  ◌++◌, keep_if, text_eq, is_empty, lookup, insert, erase, if◌then◌else◌, sle64, slt64, i64_mod,
}
use abraxis.Limits.Ring.{Ring, new_ring}

abbrev pub type_ip : Text
type_ip = bytes "ip"

abbrev pub type_user : Text
type_user = bytes "user"

abbrev pub type_api_key : Text
type_api_key = bytes "apikey"

abbrev pub type_tenant : Text
type_tenant = bytes "tenant"

abbrev pub type_route : Text
type_route = bytes "route"

abbrev pub type_global : Text
type_global = bytes "global"

abbrev pub algorithm_fixed : Text
algorithm_fixed = bytes "fixed"

abbrev pub algorithm_adaptive : Text
algorithm_adaptive = bytes "adaptive"

-- `RateLimitConfig`; the rates and the burst are ints.
pub record Limit (F : Type 0) : Type 0 where
  pub id : Text
  pub name : Text
  pub type : Text
  pub strategy : Text
  pub target : Text
  pub requests_per_minute : ℕ
  pub burst_size : ℕ
  pub tenant_id : Option Text
  pub is_active : Bool
  pub created_at : ℕ
  pub updated_at : ℕ
  pub min_requests_per_minute : ℕ
  pub max_requests_per_minute : ℕ
  pub current_load : F

-- `RateLimitViolation`
pub record Violation : Type 0 where
  pub config_id : Text
  pub type : Text
  pub target : Text
  pub ip_address : Option Text
  pub user_id : Option Text
  pub tenant_id : Option Text
  pub api_key_id : Option Text
  pub route : Text
  pub request_count : ℕ
  pub threshold : ℕ
  pub occurred_at : ℕ

-- `pending` is the one place of `adaptiveUpdateCh`.
pub record Service (F : Type 0) : Type 0 where
  pub configs : List (Text × Text)
  pub configs_by_id : List (Text × Limit F)
  pub violations : Ring Violation
  pub pending : Bool

pub data LimitError : Type 0 where
  name_required type_required target_required : LimitError
  requests_not_positive burst_not_positive : LimitError
  min_not_positive max_not_positive min_not_less max_not_greater : LimitError
  not_found load_out_of_range : LimitError

pub data Result (A : Type 0) : Type 0 where
  ok : A → Result A
  err : LimitError → Result A

-- `if !test { return error }`
abbrev pub require : {A : Type 0} → Bool → LimitError → Result A → Result A
require test e next = if test then next else err e

-- `makeCacheKey`
unfoldable pub make_cache_key : Text → Text → Text
make_cache_key type target = type ++ (b':' ∷ target)

pub record CreateParams : Type 0 where
  pub name : Text
  pub type : Text
  pub strategy : Text
  pub target : Text
  pub requests_per_minute : ℕ
  pub burst_size : ℕ
  pub tenant_id : Option Text
  pub min_requests_per_minute : ℕ
  pub max_requests_per_minute : ℕ

-- The defaults of the adaptive strategy; the rate is positive here.
abbrev pub adaptive_defaults : CreateParams → CreateParams
adaptive_defaults p = record p {
  min_requests_per_minute =
      if sle64 p.min_requests_per_minute 0
      then p.requests_per_minute / 2
      else p.min_requests_per_minute;
  max_requests_per_minute =
      if sle64 p.max_requests_per_minute 0
      then (p.requests_per_minute * 2) % i64_mod
      else p.max_requests_per_minute;
}

abbrev pub check_adaptive : CreateParams → Result CreateParams
check_adaptive p =
    require (slt64 p.min_requests_per_minute p.requests_per_minute) min_not_less
      (require (slt64 p.requests_per_minute p.max_requests_per_minute) max_not_greater (ok p))

abbrev pub with_strategy : CreateParams → CreateParams
with_strategy p = record p {
  strategy = if is_empty p.strategy then algorithm_fixed else p.strategy;
}

abbrev pub check_strategy : CreateParams → Result CreateParams
check_strategy p =
    if text_eq p.strategy algorithm_adaptive then check_adaptive (adaptive_defaults p) else ok p

abbrev pub check_rates : CreateParams → Result CreateParams
check_rates p =
    require (slt64 0 p.requests_per_minute) requests_not_positive
      (require (slt64 0 p.burst_size) burst_not_positive (check_strategy (with_strategy p)))

-- The checks of `CreateRateLimit`, and the parameters as they leave them.
unfoldable pub check_create : CreateParams → Result CreateParams
check_create p = require (not (is_empty p.name)) name_required (
    require (not (is_empty p.type)) type_required (
      require (not (is_empty p.target) || text_eq p.type type_global) target_required
        (check_rates p)))

-- `NewRateLimitService`
unfoldable pub new_rate_limit_service : {F : Type 0} → Service F
new_rate_limit_service = record {
  configs = [];
  configs_by_id = [];
  violations = new_ring 1000;
  pending = false;
}

module _ {F : Type 0} where
  -- The configuration that `CreateRateLimit` makes; `middle` is the load 0.5.
  abbrev pub made : Text → ℕ → F → CreateParams → Limit F
  made id now middle p = record {
    id = id;
    name = p.name;
    type = p.type;
    strategy = p.strategy;
    target = p.target;
    requests_per_minute = p.requests_per_minute;
    burst_size = p.burst_size;
    tenant_id = p.tenant_id;
    is_active = true;
    created_at = now;
    updated_at = now;
    min_requests_per_minute = p.min_requests_per_minute;
    max_requests_per_minute = p.max_requests_per_minute;
    current_load = middle;
  }

  -- Both maps get the configuration.
  abbrev pub index : Limit F → Service F → Service F
  index c s = record s {
    configs = insert (make_cache_key c.type c.target) c.id s.configs;
    configs_by_id = insert c.id c s.configs_by_id;
  }

  -- `CreateRateLimit`
  unfoldable pub create_rate_limit :
      Text → ℕ → F → CreateParams → Service F → Service F × Result (Limit F)
  create_rate_limit id now middle params s = elim (check_create params) [
    | err e ↦ (s, err e)
    | ok p ↦ (index (made id now middle p) s, ok (made id now middle p))
  ]

  -- `GetRateLimit`
  unfoldable pub get_rate_limit : Text → Service F → Result (Limit F)
  get_rate_limit id s = elim (lookup id s.configs_by_id) [ none ↦ err not_found | some c ↦ ok c ]

  -- `DeleteRateLimit`; `none` is no error.
  unfoldable pub delete_rate_limit : Text → Service F → Service F × Option LimitError
  delete_rate_limit id s = elim (lookup id s.configs_by_id) [
    | none ↦ (s, some not_found)
    | some c ↦ (
      record s {
        configs = erase (make_cache_key c.type c.target) s.configs;
        configs_by_id = erase id s.configs_by_id;
      },
      none,
    )
  ]

  -- The configuration that `configs` points to for a key.
  unfoldable pub find_config : Text → Service F → Option (Limit F)
  find_config key s = elim (lookup key s.configs) [
    | none ↦ none
    | some id ↦ lookup id s.configs_by_id
  ]

  -- The configurations that a range over `configs` visits.
  unfoldable pub listed : List (Text × Text) → Service F → List (Limit F)
  listed [] s = []
  listed ((key, id) ∷ m) s =
      let rest = listed m s in elim (lookup id s.configs_by_id) [ none ↦ rest | some c ↦ c ∷ rest ]

  -- `ListRateLimits`, `ListRateLimitsByTenant`, `ListRateLimitsByType`
  unfoldable pub list_rate_limits : Service F → List (Limit F)
  list_rate_limits s = listed s.configs s

  abbrev pub is_of_tenant : Text → Limit F → Bool
  is_of_tenant tenant c = elim c.tenant_id [ none ↦ false | some t ↦ text_eq t tenant ]

  unfoldable pub list_rate_limits_by_tenant : Text → Service F → List (Limit F)
  list_rate_limits_by_tenant tenant s = keep_if (is_of_tenant tenant) (list_rate_limits s)

  unfoldable pub list_rate_limits_by_type : Text → Service F → List (Limit F)
  list_rate_limits_by_type type s = keep_if (λ c. text_eq c.type type) (list_rate_limits s)
