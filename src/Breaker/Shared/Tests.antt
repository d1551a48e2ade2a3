-- ===== src/Breaker/Shared/Tests.antt =====
-- Runs of the breaker over a Redis that keeps everything, and the theorem at a concrete input.
use mathlib.Core.Path.{fun_ext}
use mathlib.Core.Option.{some-injective}
use abraxis.Base.{
  ℕ, ◌≡◌, refl, sym, ap, Option, none, some, List, [], ◌∷◌, ◌+◌, Text, bytes, text_eq, lookup,
  insert, arith, inc64, inc32, dec32, sle32, sle64, slt64,
}
use abraxis.Breaker.Circuit.{State, Error, Circuit, Outcome}
use abraxis.Breaker.Circuit as Memory
use abraxis.Breaker.Memory.{Config}
use abraxis.Breaker.Slots.{IsValid}
use abraxis.Breaker.Shared.Store.{
  Counter, failures, successes, rejected, timeouts, concurrent, state_key, last_change_key,
  counter_key, CachedState, Breaker,
}
use abraxis.Breaker.Shared.Steps.{counter, held_of, IsConfigured, Refines}
use abraxis.Breaker.Shared.Operations.{
  get_state, read_state, get_last_state_change, try_set_state, write_state, try_acquire_execution,
  release_execution, record_failure, record_success, increment,
}
use abraxis.Breaker.Shared.Call.{
  execute_shared, try_again, run_shared, finish_shared, execute_shared_with_fallback, shared_state,
  shared_metrics, reset_shared, shared_config, shared_cache_ttl, new_redis_circuit_breaker,
}
use abraxis.Breaker.Shared.Finish.{Agrees}
use abraxis.Breaker.Shared.Refinement.{timed_out-Refines}
use abraxis.Breaker.Shared.Runs.{answers_memory, answers_shared, answers_shared-answers_memory}
use abraxis.Breaker.Trip.{Call}
use abraxis.Breaker.Shared.Keeps.{
  Keys, digits, view, number, put, keeps, keeps-Steady, too_late, too_late-IsDone,
}

abbrev users : Text
users = bytes "users"

abbrev settings : Config
settings = record {
  threshold = 3;
  timeout = 50;
  half_open_success_threshold = 2;
  max_concurrent_requests = 8;
  request_timeout = 20;
}

abbrev opened : Circuit
opened = record {
  name = users;
  state = State.open_;
  failures = 3;
  successes = 1;
  rejected = 6;
  timeout = 1;
  last_state_change = 10;
  open_timeout = 50;
  failure_threshold = 3;
  success_threshold = 2;
  concurrent_requests = 2;
  max_concurrent = 8;
}

-- Redis with that circuit.
abbrev kept : Keys
kept = put (state_key users) (some (bytes "open")) (
    put (last_change_key users) (some (10 ∷ [])) (
      put (counter_key failures users) (some (3 ∷ [])) (
        put (counter_key successes users) (some (1 ∷ [])) (
          put (counter_key rejected users) (some (6 ∷ [])) (
            put (counter_key timeouts users) (some (1 ∷ []))
              (put (counter_key concurrent users) (some (2 ∷ [])) (λ _. none)))))))

abbrev breaker : Breaker Keys
breaker = record {
  store = kept;
  local_cache = (users, record { state = bytes "open"; cached_at = 55 }) ∷ [];
}

kept-count : (k : Counter) → number (counter_key k users) kept ≡ counter opened k
unfolding text_eq
kept-count failures = refl
kept-count successes = refl
kept-count rejected = refl
kept-count timeouts = refl
kept-count concurrent = refl

breaker-Refines : Refines keeps-Steady users settings 1000 breaker opened
unfolding text_eq lookup
breaker-Refines = record {
  holds = λ i. record (held_of digits opened) { count = fun_ext kept-count i };
  cached = λ e found.
      ap (λ (x : CachedState). x.state)
        (some-injective e (record { state = bytes "open"; cached_at = 55 }) (sym found));
}

opened-IsConfigured : IsConfigured settings opened
opened-IsConfigured = record {
  timeout_is = refl;
  threshold_is = refl;
  success_is = refl;
  max_is = refl;
}

opened-IsValid : IsValid opened
opened-IsValid = ground arith

program : Unit {0}
unfolding execute_shared try_again run_shared finish_shared get_state read_state
    get_last_state_change try_set_state write_state try_acquire_execution release_execution
    record_failure record_success increment execute_shared_with_fallback shared_state shared_metrics
    reset_shared lookup insert text_eq inc64 sle64 slt64
program = tt

-- A failed trial, and then a call that is refused.
abbrev two_calls : List Call
two_calls =
    record { start = 100; end_ = 105; outcome = Outcome.failed (bytes "boom") }
    ∷ record { start = 110; end_ = 112; outcome = Outcome.returned }
    ∷ []

answers_shared-answers_memory_example :
    Refines keeps-Steady users settings 1000
      (answers_shared keeps digits settings 1000 users two_calls breaker).0
      (answers_memory two_calls opened).0
    × ((answers_shared keeps digits settings 1000 users two_calls breaker).1
        ≡ some (Error.call_error (bytes "boom")) ∷ some Error.circuit_open ∷ [])
unfolding program answers_memory Memory.execute Memory.enter Memory.finish Memory.acquire
    Memory.record_failure Memory.release inc32 dec32 sle32
answers_shared-answers_memory_example =
    answers_shared-answers_memory keeps-Steady users settings 1000 two_calls breaker opened
      (refl, (refl, tt)) opened-IsConfigured opened-IsValid breaker-Refines

-- The circuit while it is closed, with its third failure to come.
abbrev calm : Circuit
calm = record opened { state = State.closed; failures = 2 }

abbrev calm_breaker : Breaker Keys
calm_breaker = record {
  store =
      put (state_key users) (some (bytes "closed"))
        (put (counter_key failures users) (some (2 ∷ [])) kept);
  local_cache = [];
}

calm-count : (k : Counter) → number (counter_key k users) calm_breaker.store ≡ counter calm k
unfolding text_eq
calm-count failures = refl
calm-count successes = refl
calm-count rejected = refl
calm-count timeouts = refl
calm-count concurrent = refl

calm-Refines : Refines keeps-Steady users settings 1000 calm_breaker calm
unfolding text_eq lookup
calm-Refines = record {
  holds = λ i. record (held_of digits calm) { count = fun_ext calm-count i };
  cached = λ e found. absurd cc;
}

calm-IsConfigured : IsConfigured settings calm
calm-IsConfigured = record {
  timeout_is = refl;
  threshold_is = refl;
  success_is = refl;
  max_is = refl;
}

calm-IsValid : IsValid calm
calm-IsValid = ground arith

timed_out-Refines_example :
    Agrees keeps-Steady users settings 1000
      (execute_shared keeps too_late keeps digits settings 1000 100 120 users
        (Outcome.ctx_done (bytes "context deadline exceeded"))
        calm_breaker)
      (calm, some (Error.call_error (bytes "context deadline exceeded")))
timed_out-Refines_example =
    timed_out-Refines keeps-Steady users settings 1000 100 120 (bytes "context deadline exceeded")
      calm_breaker calm too_late-IsDone calm-IsConfigured calm-IsValid refl (omega arith)
      calm-Refines

abbrev call : ℕ → Outcome → Breaker Keys × Option Error
call now o = execute_shared keeps keeps keeps digits settings 1000 now (now + 5) users o breaker

abbrev count_of : Counter → Breaker Keys → ℕ
count_of k b = number (counter_key k users) b.store

-- The failed trial opens the circuit again, at the time at which it ended, and frees its slot.
reopens :
    (let after = (call 100 (Outcome.failed (bytes "boom"))).0 in
      (view (state_key users) after.store ≡ some (bytes "open"))
      × (number (last_change_key users) after.store ≡ 105)
      × (count_of concurrent after ≡ 2))
unfolding program
reopens = (refl, refl, refl)

-- Before the timeout it is refused, and counted, and the fallback is asked.
refused :
    (let asked =
        execute_shared_with_fallback keeps keeps keeps digits settings 1000 40 45 users
          Outcome.returned
          (some (λ _. none))
          breaker in
      (count_of rejected asked.0 ≡ 7) × (asked.1 ≡ none))
unfolding program
refused = (refl, refl)

abbrev closed_elsewhere : Breaker Keys
closed_elsewhere = record breaker { store = put (state_key users) (some (bytes "closed")) kept }

abbrev state_at : ℕ → Text
state_at now = (shared_state keeps digits settings 1000 now users closed_elsewhere).1

-- Another process has closed the circuit, and for the life of the cache this one still says it is open.
stale : (state_at 60 ≡ bytes "open") × (state_at 1055 ≡ bytes "closed")
unfolding program
stale = (refl, refl)

-- A success in the closed state is counted, so the first trial closes the circuit.
first_trial_closes :
    (let done = (call 100 Outcome.returned).0 in
      (view (state_key users) done.store ≡ some (bytes "closed")) × (count_of failures done ≡ 0))
unfolding program
first_trial_closes = (refl, refl)

-- A count that ran out while requests ran goes below zero.
below_zero :
    number (counter_key concurrent users) (
      release_execution keeps digits settings 1000 9 users
        (put (counter_key concurrent users) none kept))
    ≡ 18446744073709551615
unfolding program
below_zero = refl

-- A zero in the settings stands for the default.
defaults :
    ((shared_config (record settings { threshold = 0 })).threshold ≡ 5)
    × (shared_cache_ttl 0 ≡ 1000000000)
unfolding program shared_config shared_cache_ttl
defaults = (refl, refl)

-- A reset sets four counters to zero.
metrics_after_reset :
    (shared_metrics keeps digits settings 1000 71 users
      (reset_shared keeps digits settings 1000 70 users (new_redis_circuit_breaker kept)).0).1
    ≡ record {
      name = users;
      state = bytes "closed";
      failures = 0;
      successes = 0;
      rejected = 0;
      timeout = 0;
      last_state_change = 70;
    }
unfolding program new_redis_circuit_breaker
metrics_after_reset = refl
