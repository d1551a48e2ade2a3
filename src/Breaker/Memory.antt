-- ===== src/Breaker/Memory.antt =====
-- `MemoryCircuitBreaker`: the circuits by name, created when first used.
use abraxis.Base.{
  ℕ, ◌*◌, ◌%◌, Text, Option, none, some, List, [], lookup, insert, sle64, i32_mod, if◌then◌else◌,
}
use abraxis.Breaker.Circuit
use abraxis.Breaker.Circuit.{State, Error, Circuit, Outcome}

-- `ports.CircuitBreakerConfig`; every field is an `int` or an `int64`.
pub record Config : Type 0 where
  pub threshold : ℕ
  pub timeout : ℕ
  pub half_open_success_threshold : ℕ
  pub max_concurrent_requests : ℕ
  pub request_timeout : ℕ

pub record Breaker : Type 0 where
  pub circuits : List (Text × Circuit)
  pub config : Config

abbrev pub second : ℕ
second = 1000000000

-- `if x <= 0 { x = fallback }`
abbrev pub or_default : ℕ → ℕ → ℕ
or_default x fallback = if sle64 x 0 then fallback else x

-- `NewMemoryCircuitBreaker`
unfoldable pub new_memory_circuit_breaker : Config → Breaker
new_memory_circuit_breaker c = record {
  circuits = [];
  config = record {
    threshold = or_default c.threshold 5;
    timeout = or_default c.timeout (10 * second);
    half_open_success_threshold = or_default c.half_open_success_threshold 2;
    max_concurrent_requests = or_default c.max_concurrent_requests 100;
    request_timeout = or_default c.request_timeout (2 * second);
  };
}

-- The circuit that `getCircuit` makes for a new name.
unfoldable pub new_circuit : ℕ → Config → Text → Circuit
new_circuit now cfg name = record {
  name = name;
  state = State.closed;
  failures = 0;
  successes = 0;
  rejected = 0;
  timeout = 0;
  last_state_change = now;
  open_timeout = cfg.timeout;
  failure_threshold = cfg.threshold;
  success_threshold = cfg.half_open_success_threshold;
  concurrent_requests = 0;
  max_concurrent = cfg.max_concurrent_requests % i32_mod;
}

-- The circuit that `getCircuit` returns; `execute` writes it back.
unfoldable pub get_circuit : ℕ → Text → Breaker → Circuit
unfolding new_circuit
get_circuit now name b = elim (lookup name b.circuits) [
  | some c ↦ c
  | none ↦ new_circuit now b.config name
]

-- `Execute`, for a wrapped function that does not call the breaker for the same name itself.
unfoldable pub execute : ℕ → ℕ → Text → Outcome → Breaker → Breaker × Option Error
unfolding get_circuit
execute now later name o b =
    let (c, e) = Circuit.execute now later o (get_circuit now name b) in
    (record b { circuits = insert name c b.circuits }, e)

-- `ExecuteWithFallback`: a fallback may be `nil`.
unfoldable pub execute_with_fallback :
    ℕ → ℕ → Text → Outcome → Option (Error → Option Error) → Breaker → Breaker × Option Error
unfolding execute
execute_with_fallback now later name o fallback b =
    let (b', err) = execute now later name o b in
    (b', elim err [ none ↦ none | some e ↦ elim fallback [ none ↦ some e | some f ↦ f e ] ])

-- `GetState`
unfoldable pub get_state : Text → Breaker → State
get_state name b = elim (lookup name b.circuits) [ some c ↦ c.state | none ↦ State.closed ]

-- `ports.CircuitBreakerMetrics`
pub record Metrics : Type 0 where
  pub name : Text
  pub state : State
  pub failures : ℕ
  pub successes : ℕ
  pub rejected : ℕ
  pub timeout : ℕ
  pub last_state_change : ℕ

-- `GetMetrics`; the zero `time.Time` is 0.
unfoldable pub get_metrics : Text → Breaker → Metrics
get_metrics name b = elim (lookup name b.circuits) [
  | some c ↦ record {
    name = c.name;
    state = c.state;
    failures = c.failures;
    successes = c.successes;
    rejected = c.rejected;
    timeout = c.timeout;
    last_state_change = c.last_state_change;
  }
  | none ↦ record {
    name = name;
    state = State.closed;
    failures = 0;
    successes = 0;
    rejected = 0;
    timeout = 0;
    last_state_change = 0;
  }
]

-- `Reset`
unfoldable pub reset_circuit : ℕ → Circuit → Circuit
reset_circuit now c = record c {
  state = State.closed;
  last_state_change = now;
  failures = 0;
  successes = 0;
  rejected = 0;
  timeout = 0;
}

unfoldable pub reset : ℕ → Text → Breaker → Breaker
reset now name b = elim (lookup name b.circuits) [
  | some c ↦ record b { circuits = insert name (reset_circuit now c) b.circuits }
  | none ↦ b
]

-- `Close`
unfoldable pub close : Breaker → Breaker
close b = record b { circuits = [] }
