-- ===== src/Breaker/Tests.antt =====
-- Runs of the breaker on concrete circuits, and the theorems at concrete inputs.
use abraxis.Base.{
  ◌≡◌, refl, List, [], ◌∷◌, ◌++◌, bytes, text_eq, lookup, insert, arith, inc64, dec32, inc32, sle32,
  sle64, Text,
}
use abraxis.Breaker.Circuit
use abraxis.Breaker.Circuit.{State, Error, Circuit, Outcome, enter, finish}
use abraxis.Breaker.Memory.{
  Config, Breaker, new_memory_circuit_breaker, get_circuit, execute, get_state, reset,
  reset_circuit, close,
}
use abraxis.Breaker.Slots.{IsValid, enter_and_execute-IsValid, concurrent_requests-execute}
use abraxis.Breaker.Trip.{Call, run, run-opens}
use abraxis.Breaker.Isolation.{ValidBreaker, new-ValidBreaker}
use abraxis.Breaker.Race.{Slots, Reach, idle, limit_exceeded}

program : Unit {0}
unfolding Circuit.execute enter finish inc64 dec32 inc32 sle32 sle64 execute reset_circuit reset
    close get_state lookup insert text_eq run new_memory_circuit_breaker
program = tt

abbrev users : Text
users = bytes "users"

abbrev orders : Text
orders = bytes "orders"

abbrev zero_config : Config
zero_config = record {
  threshold = 0;
  timeout = 0;
  half_open_success_threshold = 0;
  max_concurrent_requests = 0;
  request_timeout = 0;
}

abbrev fresh : Breaker
fresh = new_memory_circuit_breaker zero_config

abbrev calm : Circuit
calm = record {
  name = users;
  state = State.closed;
  failures = 1;
  successes = 4;
  rejected = 0;
  timeout = 0;
  last_state_change = 10;
  open_timeout = 50;
  failure_threshold = 3;
  success_threshold = 2;
  concurrent_requests = 0;
  max_concurrent = 8;
}

abbrev tripped : Circuit
tripped = record calm { state = State.open_; successes = 0 }

abbrev bad : Outcome
bad = Outcome.failed (bytes "boom")

calm-IsValid : IsValid calm
calm-IsValid = ground arith

tripped-IsValid : IsValid tripped
tripped-IsValid = ground arith

-- Two failures after the one recorded open the circuit, with a success in between.
opens_after_three :
    (run
      (record { start = 20; end_ = 21; outcome = bad }
        ∷ record { start = 22; end_ = 23; outcome = Outcome.returned }
        ∷ record { start = 24; end_ = 25; outcome = bad }
        ∷ [])
      calm).state
    ≡ State.open_
unfolding program
opens_after_three = refl

-- After the timeout one failing trial opens the circuit again.
trial_fails :
    (Circuit.execute 100 110 bad tripped).0
    ≡ record tripped { failures = 2; last_state_change = 110 }
unfolding program
trial_fails = refl

first_call : get_state users (execute 5 6 users bad fresh).0 ≡ State.closed
unfolding program get_circuit
first_call = refl

enter_and_execute-IsValid_example :
    IsValid (enter 20 calm).0 × IsValid (Circuit.execute 20 30 bad calm).0
enter_and_execute-IsValid_example = enter_and_execute-IsValid 20 30 bad calm calm-IsValid

concurrent_requests-execute_example : (Circuit.execute 20 30 bad calm).0.concurrent_requests ≡ 0
concurrent_requests-execute_example = concurrent_requests-execute 20 30 bad calm calm-IsValid

abbrev one_bad : List Call
one_bad = record { start = 20; end_ = 21; outcome = bad } ∷ []

run-opens_example :
    (run (one_bad ++ record { start = 24; end_ = 25; outcome = bad } ∷ []) calm).state ≡ State.open_
run-opens_example =
    run-opens one_bad (record { start = 24; end_ = 25; outcome = bad }) calm calm-IsValid refl
      (omega arith) refl refl

abbrev worn : Circuit
worn = record calm { failures = 2 }

worn-IsValid : IsValid worn
worn-IsValid = ground arith

fresh-ValidBreaker : ValidBreaker fresh
unfolding sle64
fresh-ValidBreaker =
    new-ValidBreaker zero_config (omega arith) (omega arith) (omega arith) (omega arith)

abbrev after_bad : Breaker
after_bad = record fresh { circuits = (users, tripped) ∷ [] }

limit_exceeded_example : (s : Slots) × Reach 2 idle s × (s.concurrent_requests ≡ 5)
limit_exceeded_example = limit_exceeded 2 5 (omega arith) (omega arith) (omega arith)
