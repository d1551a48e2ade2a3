-- ===== src/Breaker/Shared/Call.antt =====
-- A whole call of `RedisCircuitBreaker`, and the operations beside it:
-- prism/internal/features/gateway/adapters/circuitbreaker/redis.go.
use abraxis.Base.{ℕ, ◌-◌, Text, Bool, false, Option, none, some, [], ltb, ◌&&◌, ◌*◌, if◌then◌else◌}
use abraxis.Breaker.Circuit.{State, Error, Outcome}
use abraxis.Breaker.Memory.{Config, second, or_default}
use abraxis.Breaker.Shared.Store.{
  state_text, Counter, failures, successes, rejected, timeouts, counter_key, found, Redis, Decimal,
  Breaker,
}
use abraxis.Breaker.Shared.Operations.{
  is_state, get_state, get_last_state_change, try_set_state, try_acquire_execution,
  release_execution, increment, record_failure, record_success,
}

-- The settings of `NewRedisCircuitBreaker`: that of the circuit, and the time to live of the cache.
unfoldable pub shared_config : Config → Config
shared_config c = record {
  threshold = or_default c.threshold 5;
  timeout = or_default c.timeout (10 * second);
  half_open_success_threshold = or_default c.half_open_success_threshold 2;
  max_concurrent_requests = or_default c.max_concurrent_requests 100;
  request_timeout = or_default c.request_timeout (2 * second);
}

unfoldable pub shared_cache_ttl : ℕ → ℕ
shared_cache_ttl ttl = or_default ttl second

unfoldable pub new_redis_circuit_breaker : {S : Type 0} → S → Breaker S
new_redis_circuit_breaker s = record { store = s; local_cache = [] }

-- What `getInt64` of `GetMetrics` reads.
abbrev or_zero : Option ℕ → ℕ
or_zero none = 0
or_zero (some n) = n

-- `ports.CircuitBreakerMetrics`
pub record Metrics : Type 0 where
  pub name : Text
  pub state : Text
  pub failures : ℕ
  pub successes : ℕ
  pub rejected : ℕ
  pub timeout : ℕ
  pub last_state_change : ℕ

module _ {S : Type 0} (redis : Redis S) (decimal : Decimal) (cfg : Config) (cache_ttl : ℕ) where
  abbrev pub or_closed : Option Text → Text
  or_closed none = state_text State.closed
  or_closed (some t) = t

  abbrev pub or_now : ℕ → Option ℕ → ℕ
  or_now now none = now
  or_now now (some n) = n

  abbrev pub rejects : ℕ → Text → Breaker S → Breaker S
  rejects now name b = record b {
    store = increment redis decimal cfg cache_ttl rejected now name b.store;
  }

  abbrev pub releases : ℕ → Text → Breaker S → Breaker S
  releases now name b = record b {
    store = release_execution redis decimal cfg cache_ttl now name b.store;
  }

  -- `GetState`
  unfoldable pub shared_state : ℕ → Text → Breaker S → Breaker S × Text
  shared_state now name b =
      let (b', read) = get_state redis decimal cfg cache_ttl now name b in (b', or_closed read)

  abbrev read_counter : Counter → ℕ → Text → S → ℕ
  read_counter k now name s = elim (redis.get now (counter_key k name) s) [
    | found t ↦ or_zero (decimal.parse t)
    | _ ↦ 0
  ]

  -- `GetMetrics`
  unfoldable pub shared_metrics : ℕ → Text → Breaker S → Breaker S × Metrics
  shared_metrics now name b =
      let (b', read) = get_state redis decimal cfg cache_ttl now name b in
      let (s, last) = get_last_state_change redis decimal cfg cache_ttl now name b'.store in
      (
        record b' { store = s },
        record {
          name = name;
          state = or_closed read;
          failures = read_counter failures now name s;
          successes = read_counter successes now name s;
          rejected = read_counter rejected now name s;
          timeout = read_counter timeouts now name s;
          last_state_change = or_now now last;
        },
      )

  -- `Reset`; the Boolean says whether it succeeded. The pipeline sends all its commands.
  unfoldable pub reset_shared : ℕ → Text → Breaker S → Breaker S × Bool
  reset_shared now name b =
      let (b', changed) =
        try_set_state redis decimal cfg cache_ttl now name (state_text State.closed) b in
      let zero_at =
        λ (k : Counter) (s : S). redis.set now (counter_key k name) (decimal.print 0) s in
      if changed
      then (let (s1, ok1) = zero_at failures b'.store in
          let (s2, ok2) = zero_at successes s1 in
          let (s3, ok3) = zero_at rejected s2 in
          let (s4, ok4) = zero_at timeouts s3 in
          (record b' { store = s4 }, ok1 && ok2 && ok3 && ok4))
      else (b', false)

-- `redis` runs the commands under the context of the caller. After the wait `within` runs them under the
-- context of the request, which has the timeout of the request if that of the caller has no deadline, and
-- `after` those of the deferred release, under the one of the caller. A context that is done fails them.
module _ {S : Type 0} (redis within after : Redis S) (decimal : Decimal) (cfg : Config)
    (cache_ttl : ℕ) where
  -- `Execute` after the wait, with the deferred release; `state` is the one that was found before it.
  unfoldable pub finish_shared : ℕ → Text → Text → Outcome → Breaker S → Breaker S × Option Error
  finish_shared now name state Outcome.returned b = (
    releases after decimal cfg cache_ttl now name
        (record_success within decimal cfg cache_ttl now name state b),
    none,
  )
  finish_shared now name state (Outcome.failed e) b = (
    releases after decimal cfg cache_ttl now name
        (record_failure within decimal cfg cache_ttl now name state b),
    some (Error.call_error e),
  )
  finish_shared now name state (Outcome.ctx_done e) b = (
    releases after decimal cfg cache_ttl now name (
        record_failure within decimal cfg cache_ttl now name state
          (record b { store = increment within decimal cfg cache_ttl timeouts now name b.store })),
    some (Error.call_error e),
  )

  -- `Execute` from the check on concurrent requests on.
  unfoldable pub run_shared : ℕ → ℕ → Text → Text → Outcome → Breaker S → Breaker S × Option Error
  run_shared now later name state o b =
      let (s, acquired) = try_acquire_execution redis decimal cfg cache_ttl now name b.store in
      if acquired then finish_shared later name state o (record b { store = s }) else (
        rejects redis decimal cfg cache_ttl now name (record b { store = s }),
        some Error.too_many_concurrent_requests,
      )

  -- `Execute` of an open circuit that was last changed at that time.
  unfoldable pub try_again : ℕ → ℕ → Text → Outcome → ℕ → Breaker S → Breaker S × Option Error
  try_again now later name o last b =
      if ltb cfg.timeout (now - last)
      then (let (b', changed) =
            try_set_state redis decimal cfg cache_ttl now name (state_text State.half_open) b in
          if changed
          then run_shared now later name (state_text State.half_open) o b'
          else (b', some Error.circuit_open))
      else (rejects redis decimal cfg cache_ttl now name b, some Error.circuit_open)

  -- `Execute`. `now` is the clock when it starts, `later` when the wrapped function ends.
  unfoldable pub execute_shared : ℕ → ℕ → Text → Outcome → Breaker S → Breaker S × Option Error
  execute_shared now later name o b =
      let (b1, read) = get_state redis decimal cfg cache_ttl now name b in
      if is_state State.open_ (or_closed redis decimal cfg cache_ttl read)
      then (let (s, last) = get_last_state_change redis decimal cfg cache_ttl now name b1.store in
          try_again now later name o (or_now redis decimal cfg cache_ttl now last)
            (record b1 { store = s }))
      else run_shared now later name (or_closed redis decimal cfg cache_ttl read) o b1

  -- `ExecuteWithFallback`, with what the fallback returns for an error.
  unfoldable pub execute_shared_with_fallback :
      ℕ → ℕ → Text → Outcome → Option (Error → Option Error) → Breaker S → Breaker S × Option Error
  execute_shared_with_fallback now later name o fallback b =
      let (b', returned) = execute_shared now later name o b in
      elim returned [
        | none ↦ (b', none)
        | some e ↦ elim fallback [ none ↦ (b', some e) | some f ↦ (b', f e) ]
      ]
