-- ===== src/Limits/Limiter.antt =====
-- The limiters of prism/internal/features/ratelimit/ratelimiter.go: their parameters, the script and the
-- answer of the limiter in Redis, the keys of requests and the middleware. The limit is a float64, a
-- parameter `F`; so are the commands of Redis, and the token buckets of golang.org/x/time/rate behind
-- the limiter in memory. Times and durations are nanoseconds.
use abraxis.Base.{
  ℕ, ◌+◌, ◌-◌, ◌/◌, ◌%◌, Text, bytes, Bool, true, false, not, ◌&&◌, Option, none, some, List, [],
  ◌∷◌, ◌++◌, text_eq, is_empty, ltb, slt64, i64_mod, ◌==◌, split_on, trim_space_left,
  trim_space_right, first_part, if◌then◌else◌,
}
use abraxis.Limits.Check.{Info}

abbrev pub strategy_ip : Text
strategy_ip = bytes "ip"

abbrev pub strategy_route : Text
strategy_route = bytes "route"

abbrev pub strategy_token : Text
strategy_token = bytes "token"

abbrev pub strategy_custom : Text
strategy_custom = bytes "custom"

abbrev pub strategy_auth : Text
strategy_auth = bytes "auth"

-- What the middleware reads of a request; `user_id` is the value in its context, if it is a string.
pub record Request : Type 0 where
  pub path : Text
  pub remote_addr : Text
  pub forwarded_for : Text
  pub real_ip : Text
  pub authorization : Text
  pub route_pattern : Text
  pub user_id : Option Text

-- `RateLimiterParams`; a key function that fails gives `none`.
pub record LimiterParams (F : Type 0) : Type 0 where
  pub limit : F
  pub burst : ℕ
  pub ttl : ℕ
  pub strategy : Text
  pub key_gen : Option (Request → Option Text)
  pub excluded_paths : List Text
  pub headers : Bool

pub data ParamsError : Type 0 where
  limit_not_positive burst_not_positive key_gen_required : ParamsError

pub data Validated (F : Type 0) : Type 0 where
  valid : LimiterParams F → Validated F
  invalid : ParamsError → Validated F

abbrev pub has_key_gen : {F : Type 0} → LimiterParams F → Bool
has_key_gen p = elim p.key_gen [ none ↦ false | some f ↦ true ]

-- `Validate`, with the parameters as it leaves them; `positive` is `0 < limit` of floats.
unfoldable pub validate_limiter : {F : Type 0} → (F → Bool) → LimiterParams F → Validated F
validate_limiter positive p =
    if not (positive p.limit)
    then invalid limit_not_positive
    else (if not (slt64 0 p.burst)
        then invalid burst_not_positive
        else (if text_eq p.strategy strategy_custom && not (has_key_gen p)
            then invalid key_gen_required
            else valid
                (record p { strategy = if is_empty p.strategy then strategy_ip else p.strategy })))

-- The commands of Redis that the script uses, at a time: `GET` of a number with 0 where there is none,
-- `INCR` and `EXPIRE` in seconds.
pub record Commands (S : Type 0) : Type 0 where
  pub get : ℕ → Text → S → ℕ
  pub incr : ℕ → Text → S → S × ℕ
  pub expire : ℕ → Text → ℕ → S → S

module _ {S : Type 0} (redis : Commands S) where
  -- The script of `Allow`: the store after it, whether to allow, and the count that it returns.
  unfoldable pub run_script : ℕ → Text → ℕ → ℕ → S → S × Bool × ℕ
  run_script now key burst seconds s =
      let current = redis.get now key s in
      let (s', count) = redis.incr now key s in
      if ltb burst (current + 1)
      then (s, false, current)
      else (if count == 1 then redis.expire now key seconds s' else s', true, count)

module _ {F S : Type 0} (redis : Commands S) where
  -- `Allow` of `RedisRateLimiter`. A run that fails leaves the store that `outage` gives; `retry_at` is the
  -- time of a next try, made of the limit.
  unfoldable pub allow : (ℕ → F → ℕ) → LimiterParams F → ℕ → Option S → Text → S → S × Bool × Info
  allow retry_at p now outage key s = elim outage [
    | some s' ↦ (
      s',
      true,
      record { limit = p.burst; remaining = p.burst; reset = now + p.ttl; retry_at = 0 },
    )
    | none ↦
        let (s', allowed, current) = run_script redis now key p.burst (p.ttl / 1000000000) s in
        (
          s',
          allowed,
          record {
            limit = p.burst;
            remaining = (p.burst + (i64_mod - current)) % i64_mod;
            reset = now + p.ttl;
            retry_at = if allowed then 0 else retry_at now p.limit;
          },
        )
  ]

abbrev pub trimmed : Text → Text
trimmed s = trim_space_right (trim_space_left s)

-- `getClientIP`
unfoldable pub get_client_address : Request → Text
get_client_address r =
    if not (is_empty r.forwarded_for)
    then trimmed (first_part (split_on b',' r.forwarded_for))
    else (if not (is_empty r.real_ip)
        then trimmed r.real_ip
        else first_part (split_on b':' r.remote_addr))

-- `generateKey`; `none` is an error.
unfoldable pub generate_key : {F : Type 0} → LimiterParams F → Request → Option Text
generate_key p r =
    if text_eq p.strategy strategy_ip
    then some (get_client_address r)
    else (if text_eq p.strategy strategy_route
        then some r.route_pattern
        else (if text_eq p.strategy strategy_token
            then (if is_empty r.authorization then none else some r.authorization)
            else (if text_eq p.strategy strategy_custom
                then (elim p.key_gen [ none ↦ none | some key_gen ↦ key_gen r ])
                else (if text_eq p.strategy strategy_auth
                    then (elim r.user_id [ none ↦ none | some id ↦ some (bytes "auth:" ++ id) ])
                    else none))))

-- What becomes of a request; the headers are written if there is an `Info` for them.
pub data Reply : Type 0 where
  passed_on : Option Info → Reply
  internal_error : Reply
  too_many_requests : Option Info → ℕ → Reply

unfoldable pub is_excluded : Text → List Text → Bool
is_excluded path [] = false
is_excluded path (p ∷ ps) = if text_eq path p then true else is_excluded path ps

module _ {F L : Type 0} (allow_key : Text → L → L × Bool × Info) where
  abbrev pub reply_to : LimiterParams F → ℕ → L × Bool × Info → L × Reply
  reply_to p now (l, true, info) = (l, passed_on (if p.headers then some info else none))
  reply_to p now (l, false, info) = (
    l,
    too_many_requests (if p.headers then some info else none) ((info.retry_at - now) / 1000000000),
  )

  -- `rateLimitMiddleware`; `now` is the clock when the header Retry-After is made. A time of retry that
  -- is past by less than a second gives 0 seconds, as here every one that is past.
  unfoldable pub serve : LimiterParams F → ℕ → Request → L → L × Reply
  serve p now r l =
      if is_excluded r.path p.excluded_paths
      then (l, passed_on none)
      else (elim (generate_key p r) [
        | none ↦ (l, internal_error)
        | some key ↦ reply_to p now (allow_key key l)
      ])
