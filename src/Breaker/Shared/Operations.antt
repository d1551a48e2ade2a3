-- ===== src/Breaker/Shared/Operations.antt =====
-- The operations of `RedisCircuitBreaker`:
-- prism/internal/features/gateway/adapters/circuitbreaker/redis.go. The readings of the clock before the wrapped
-- function are one time, and those after it another. Durations and times are nanoseconds.
use abraxis.Base.{
  ℕ, ◌-◌, ◌*◌, Text, bytes, Bool, true, false, ◌&&◌, ◌||◌, Option, none, some, text_eq, lookup,
  insert, ltb, ◌==◌, slt64, sle64, if◌then◌else◌,
}
use abraxis.Breaker.Circuit.{State}
use abraxis.Breaker.Memory.{Config, second}
use abraxis.Breaker.Shared.Store.{
  state_text, Counter, failures, successes, concurrent, state_key, lock_key, last_change_key,
  counter_key, missing, found, get_failed, Redis, Decimal, Breaker,
}

abbrev pub lock_timeout : ℕ
lock_timeout = 5 * second

abbrev pub is_state : State → Text → Bool
is_state st t = text_eq t (state_text st)

module _ {S : Type 0} (redis : Redis S) (decimal : Decimal) (cfg : Config) (cache_ttl : ℕ) where
  abbrev with_store : S → Breaker S → Breaker S
  with_store s b = record b { store = s }

  -- A write of the local cache.
  abbrev pub remember : ℕ → Text → Text → Breaker S → Breaker S
  remember now name state b = record b {
    local_cache = insert name (record { state = state; cached_at = now }) b.local_cache;
  }

  -- `getState` past the cache; `none` is an error.
  unfoldable pub read_state : ℕ → Text → Breaker S → Breaker S × Option Text
  read_state now name b = elim (redis.get now (state_key name) b.store) [
    | get_failed ↦ (b, none)
    | found t ↦ (remember now name t b, some t)
    | missing ↦
        let (s, written) = redis.set now (state_key name) (state_text State.closed) b.store in
        if written
        then (
          remember now name (state_text State.closed) (with_store s b),
          some (state_text State.closed),
        )
        else (with_store s b, none)
  ]

  -- `getState`
  unfoldable pub get_state : ℕ → Text → Breaker S → Breaker S × Option Text
  get_state now name b = elim (lookup name b.local_cache) [
    | none ↦ read_state now name b
    | some c ↦
        if ltb (now - c.cached_at) cache_ttl then (b, some c.state) else read_state now name b
  ]

  -- `getLastStateChange`; `none` is an error.
  unfoldable pub get_last_state_change : ℕ → Text → S → S × Option ℕ
  get_last_state_change now name s = elim (redis.get now (last_change_key name) s) [
    | get_failed ↦ (s, none)
    | found t ↦ (s, decimal.parse t)
    | missing ↦
        let (s', written) = redis.set now (last_change_key name) (decimal.print now) s in
        (s', if written then some now else none)
  ]

  -- `trySetState` once it has the lock, with the deferred `Del`.
  unfoldable pub write_state : ℕ → Text → Text → Breaker S → Breaker S × Bool
  write_state now name state b =
      let (s1, set_one) = redis.set now (state_key name) state b.store in
      let (s2, set_two) = redis.set now (last_change_key name) (decimal.print now) s1 in
      if set_one
      then (if set_two
          then (remember now name state (with_store (redis.del now (lock_key name) s2) b), true)
          else (with_store (redis.del now (lock_key name) s2) b, false))
      else (with_store (redis.del now (lock_key name) s1) b, false)

  -- `trySetState`
  unfoldable pub try_set_state : ℕ → Text → Text → Breaker S → Breaker S × Bool
  try_set_state now name state b =
      let (s, locked) = redis.set_nx now (lock_key name) (bytes "1") lock_timeout b.store in
      elim locked [
        | none ↦ (with_store s b, false)
        | some false ↦ (with_store s b, false)
        | some true ↦ write_state now name state (with_store s b)
      ]

  -- `tryAcquireExecution`
  unfoldable pub try_acquire_execution : ℕ → Text → S → S × Bool
  try_acquire_execution now name s =
      let key = counter_key concurrent name in
      let (s1, counted) = redis.incr now key s in
      elim counted [
        | none ↦ (s1, false)
        | some count ↦
            let s2 = if count == 1 then redis.expire now key (30 * second) s1 else s1 in
            if slt64 cfg.max_concurrent_requests count
            then ((redis.decr now key s2).0, false)
            else (s2, true)
      ]

  -- `releaseExecution`
  unfoldable pub release_execution : ℕ → Text → S → S
  release_execution now name s = (redis.decr now (counter_key concurrent name) s).0

  -- `incrementRejected` and `incrementTimeout`
  unfoldable pub increment : Counter → ℕ → Text → S → S
  increment k now name s = (redis.incr now (counter_key k name) s).0

  -- `recordFailure`
  unfoldable pub record_failure : ℕ → Text → Text → Breaker S → Breaker S
  record_failure now name state b =
      let (s, counted) = redis.incr now (counter_key failures name) b.store in
      elim counted [
        | none ↦ with_store s b
        | some n ↦
            if is_state State.closed state && sle64 cfg.threshold n
              || is_state State.half_open state
            then (try_set_state now name (state_text State.open_) (with_store s b)).0
            else with_store s b
      ]

  -- The pipeline that sets two counters to zero.
  abbrev pub reset_counters : ℕ → Text → S → S
  reset_counters now name s =
      (redis.set now (counter_key successes name) (decimal.print 0)
        (redis.set now (counter_key failures name) (decimal.print 0) s).0).0

  abbrev pub close_circuit : ℕ → Text → Breaker S × Bool → Breaker S
  close_circuit now name (b, true) = with_store (reset_counters now name b.store) b
  close_circuit now name (b, false) = b

  -- `recordSuccess`
  unfoldable pub record_success : ℕ → Text → Text → Breaker S → Breaker S
  record_success now name state b =
      let (s, counted) = redis.incr now (counter_key successes name) b.store in
      elim counted [
        | none ↦ with_store s b
        | some n ↦
            if is_state State.half_open state && sle64 cfg.half_open_success_threshold n
            then close_circuit now name
                (try_set_state now name (state_text State.closed) (with_store s b))
            else with_store s b
      ]
