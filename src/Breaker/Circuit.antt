-- ===== src/Breaker/Circuit.antt =====
-- One circuit: `circuitState` of memory.go, with the parts of `Execute` that act on it.
-- Counters are Go words as bit patterns; times and durations are nanoseconds.
use abraxis.Base.{
  ℕ, ◌-◌, Text, Bool, true, false, ◌&&◌, ◌||◌, Option, none, some, ltb, sle32, sle64, inc32, dec32,
  inc64, if◌then◌else◌,
}

-- `ports.CircuitBreakerState`
pub data State : Type 0 where
  closed open_ half_open : State

abbrev pub is_closed : State → Bool
is_closed State.closed = true
is_closed _ = false

abbrev pub is_open : State → Bool
is_open State.open_ = true
is_open _ = false

abbrev pub is_half_open : State → Bool
is_half_open State.half_open = true
is_half_open _ = false

-- What a call returns besides `nil`: the two sentinel errors, or an error of the wrapped function
-- or of the context.
pub data Error : Type 0 where
  circuit_open too_many_concurrent_requests : Error
  call_error : Text → Error

pub record Circuit : Type 0 where
  pub name : Text
  pub state : State
  pub failures : ℕ  -- int64
  pub successes : ℕ  -- int64
  pub rejected : ℕ  -- int64
  pub timeout : ℕ  -- int64
  pub last_state_change : ℕ
  pub open_timeout : ℕ
  pub failure_threshold : ℕ  -- int
  pub success_threshold : ℕ  -- int
  pub concurrent_requests : ℕ  -- int32
  pub max_concurrent : ℕ  -- int32

-- How the wait for the wrapped function ends: it returns, or the context is done first.
pub data Outcome : Type 0 where
  returned : Outcome
  failed : Text → Outcome
  ctx_done : Text → Outcome

-- The check on concurrent requests, and the increment that follows it.
unfoldable pub acquire : Circuit → Circuit × Option Error
acquire c =
    if sle32 c.max_concurrent c.concurrent_requests
    then (record c { rejected = inc64 c.rejected }, some Error.too_many_concurrent_requests)
    else (record c { concurrent_requests = inc32 c.concurrent_requests }, none)

-- `Execute` up to the call of `fn`. Go compares `time.Since` with the timeout; a difference below
-- zero is no longer than any timeout, and so is the truncated one.
unfoldable pub enter : ℕ → Circuit → Circuit × Option Error
unfolding acquire
enter now c =
    if is_open c.state
    then (if ltb c.open_timeout (now - c.last_state_change)
        then acquire (record c { state = State.half_open; last_state_change = now })
        else (record c { rejected = inc64 c.rejected }, some Error.circuit_open))
    else acquire c

unfoldable pub record_success : ℕ → Circuit → Circuit
record_success now c =
    let counted = record c { successes = inc64 c.successes } in
    if is_half_open c.state && sle64 c.success_threshold (inc64 c.successes)
    then record counted {
      state = State.closed;
      last_state_change = now;
      failures = 0;
      successes = 0;
    }
    else counted

unfoldable pub record_failure : ℕ → Circuit → Circuit
record_failure now c =
    let counted = record c { failures = inc64 c.failures } in
    if is_closed c.state && sle64 c.failure_threshold (inc64 c.failures) || is_half_open c.state
    then record counted { state = State.open_; last_state_change = now }
    else counted

-- The deferred decrement.
unfoldable pub release : Circuit → Circuit
release c = record c { concurrent_requests = dec32 c.concurrent_requests }

-- `Execute` after the wait: the counters, then the deferred decrement.
unfoldable pub finish : ℕ → Outcome → Circuit → Circuit × Option Error
unfolding record_success record_failure release
finish now Outcome.returned c = (release (record_success now c), none)
finish now (Outcome.failed e) c = (release (record_failure now c), some (Error.call_error e))
finish now (Outcome.ctx_done e) c = (
  release (record_failure now (record c { timeout = inc64 c.timeout })),
  some (Error.call_error e),
)

-- One whole call. `now` is the clock when it starts, `later` when the wrapped function ends.
unfoldable pub execute : ℕ → ℕ → Outcome → Circuit → Circuit × Option Error
execute now later o c =
    let (entered, refused) = enter now c in
    elim refused [ some e ↦ (entered, some e) | none ↦ finish later o entered ]
