-- ===== src/Limits/Check.antt =====
-- The check of a request against the rate limits: `CheckRateLimit`, `checkSpecificRateLimit`,
-- `recordViolation` and the loads of service_rate_limit.go. The limiter behind the service is an
-- interface of prism/internal/ports, a parameter; so are the parsers of addresses and of UUIDs.
use abraxis.Base.{
  ℕ, Text, Bool, true, false, not, ◌&&◌, ◌||◌, Option, none, some, [], map, text_eq, is_empty,
  lookup, insert, if◌then◌else◌, inc64, ◌==◌,
}
use abraxis.Limits.Ring.{store}
use abraxis.Limits.Service.{
  type_ip, type_user, type_tenant, type_api_key, type_route, type_global, algorithm_adaptive, Limit,
  Violation, Service, LimitError, load_out_of_range, find_config, make_cache_key,
}
use abraxis.Limits.Update.{signal_if}

-- `ports.RateLimitInfo`
pub record Info : Type 0 where
  pub limit : ℕ
  pub remaining : ℕ
  pub reset : ℕ
  pub retry_at : ℕ

abbrev pub no_info : Info
no_info = record { limit = 0; remaining = 0; reset = 0; retry_at = 0 }

-- The float64 operations of the loads; `rate` is `int(float64(min) + (1.0-load)*float64(max-min))`.
pub record Floats (F : Type 0) : Type 0 where
  pub no_load : F
  pub full_load : F
  pub tenth : F
  pub plus : F → F → F
  pub below : F → F → Bool
  pub rate : ℕ → ℕ → F → ℕ

pub record Parsers : Type 0 where
  pub parse_ip : Text → Option Text
  pub parse_uuid : Text → Option Text

pub record CheckParams : Type 0 where
  pub type : Text
  pub target : Text
  pub tenant_id : Option Text
  pub user_id : Option Text
  pub ip_address : Option Text
  pub route : Text

module _ {F : Type 0} (floats : Floats F) where
  -- The load kept between 0 and 1.
  abbrev pub clamp_load : F → F
  clamp_load x =
      if floats.below x floats.no_load
      then floats.no_load
      else (if floats.below floats.full_load x then floats.full_load else x)

  -- `updateAdaptiveLoad`
  unfoldable pub update_adaptive_load : Text → F → Service F → Service F
  update_adaptive_load id delta s = elim (lookup id s.configs_by_id) [
    | none ↦ s
    | some c ↦
        if text_eq c.strategy algorithm_adaptive
        then signal_if true (record s {
          configs_by_id =
              insert id (record c { current_load = clamp_load (floats.plus c.current_load delta) })
                s.configs_by_id;
        })
        else s
  ]

  -- `UpdateSystemLoad`; the comparisons of floats are those of the code.
  unfoldable pub update_system_load : F → Service F → Service F × Option LimitError
  update_system_load load s =
      if floats.below load floats.no_load || floats.below floats.full_load load
      then (s, some load_out_of_range)
      else (
        signal_if true (record s {
          configs_by_id =
              map
                (λ e. (
                  e.0,
                  if text_eq e.1.strategy algorithm_adaptive
                      then record e.1 { current_load = load }
                      else e.1,
                ))
                s.configs_by_id;
        }),
        none,
      )

  -- One round of `updateAdaptiveRateLimits`.
  abbrev pub adapt : ℕ → Limit F → Limit F
  adapt now c =
      if text_eq c.strategy algorithm_adaptive
      then (let new_rate =
            floats.rate c.min_requests_per_minute c.max_requests_per_minute c.current_load in
          if new_rate == c.requests_per_minute
          then c
          else record c { requests_per_minute = new_rate; updated_at = now })
      else c

  -- `updateAdaptiveRateLimits`
  unfoldable pub update_adaptive_rate_limits : ℕ → Service F → Service F
  update_adaptive_rate_limits now s = record s {
    configs_by_id = map (λ e. (e.0, adapt now e.1)) s.configs_by_id;
  }

module _ {F : Type 0} (floats : Floats F) (parsers : Parsers) where
  -- The violation that `recordViolation` makes; `config.Type` says which field gets the target.
  abbrev pub violation_of : ℕ → Limit F → Text → ℕ → Violation
  violation_of now c target threshold = record {
    config_id = c.id;
    type = c.type;
    target = target;
    ip_address = if text_eq c.type type_ip then parsers.parse_ip target else none;
    user_id = if text_eq c.type type_user then parsers.parse_uuid target else none;
    tenant_id = if text_eq c.type type_tenant then parsers.parse_uuid target else none;
    api_key_id = if text_eq c.type type_api_key then parsers.parse_uuid target else none;
    route = if text_eq c.type type_route then target else [];
    request_count = inc64 threshold;
    threshold = threshold;
    occurred_at = now;
  }

  -- `recordViolation`
  unfoldable pub record_violation : ℕ → Limit F → Text → ℕ → Service F → Service F
  record_violation now c target threshold s =
      let kept = record s {
        violations = store (violation_of now c target threshold) s.violations;
      } in
      if text_eq c.strategy algorithm_adaptive
      then update_adaptive_load floats c.id floats.tenth kept
      else kept

-- A check of one limit: the service and the limiter after it, and the answer, `none` where no limit
-- is configured.
abbrev pub Checked : Type 0 → Type 0 → Type 0
Checked F L = Service F × L × Option (Bool × Info)

module _ {F L : Type 0} where
  abbrev pub or_next : Checked F L → (Service F → L → Checked F L) → Checked F L
  or_next (s, l, some answer) next = (s, l, some answer)
  or_next (s, l, none) next = next s l

  abbrev pub finish : Checked F L → Service F × L × Bool × Info
  finish (s, l, none) = (s, l, true, no_info)
  finish (s, l, some (allowed, info)) = (s, l, allowed, info)

module _ {F L : Type 0} (floats : Floats F) (parsers : Parsers)
    (allow : Text → L → L × Bool × Info) where
  abbrev pub after_allow : ℕ → Limit F → Text → Service F → L × Bool × Info → Checked F L
  after_allow now c target s (l, true, info) = (s, l, some (true, info))
  after_allow now c target s (l, false, info) =
      (record_violation floats parsers now c target info.limit s, l, some (false, info))

  -- `checkSpecificRateLimit`
  unfoldable pub check_specific : ℕ → Text → Text → Service F → L → Checked F L
  check_specific now type target s l = elim (find_config (make_cache_key type target) s) [
    | none ↦ (s, l, none)
    | some c ↦
        if c.is_active
        then after_allow now c target s (allow (make_cache_key type target) l)
        else (s, l, some (true, no_info))
  ]

  abbrev pub check_some : ℕ → Text → Option Text → Service F → L → Checked F L
  check_some now type none s l = (s, l, none)
  check_some now type (some target) s l = check_specific now type target s l

  -- The specific limit, then those of the tenant, the user, the address and the route, then the global
  -- one.
  abbrev pub check_limits : ℕ → CheckParams → Service F → L → Checked F L
  check_limits now p s l =
      or_next
        (if not (is_empty p.type) && not (is_empty p.target)
          then check_specific now p.type p.target s l
          else (s, l, none))
        (λ s1 l1. or_next (check_some now type_tenant p.tenant_id s1 l1) (λ s2 l2.
          or_next (check_some now type_user p.user_id s2 l2) (λ s3 l3.
            or_next (check_some now type_ip p.ip_address s3 l3) (λ s4 l4.
              or_next
                (if not (is_empty p.route)
                  then check_specific now type_route p.route s4 l4
                  else (s4, l4, none))
                (check_specific now type_global [])))))

  -- `CheckRateLimit`; without a limit that applies the request is allowed.
  unfoldable pub check_rate_limit : ℕ → CheckParams → Service F → L → Service F × L × Bool × Info
  check_rate_limit now p s l = finish (check_limits now p s l)
