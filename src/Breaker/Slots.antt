-- ===== src/Breaker/Slots.antt =====
-- The invariant of a circuit, and the accounting of its slots for concurrent requests.
use abraxis.Base.{
  ℕ, ◌+◌, ◌<◌, ◌≤◌, ◌≡◌, Option-cases, inl, inr, dec32, none, some, i32_half, i64_half, arith,
  inc64, sle32-leb, sle64-leb, inc32_lem, inc64_lem,
}
use abraxis.Breaker.Circuit.{State, Error, Circuit, Outcome, enter, finish, execute}

-- The settings are positive words, no more requests run than there are slots, and a closed circuit
-- has not reached its failure threshold.
pub record IsValid (c : Circuit) : Type 0 where
  pub threshold_pos : 0 < c.failure_threshold
  pub threshold_word : c.failure_threshold < i64_half
  pub success_pos : 0 < c.success_threshold
  pub success_word : c.success_threshold < i64_half
  pub max_word : c.max_concurrent < i32_half
  pub slots : c.concurrent_requests ≤ c.max_concurrent
  pub failures_low : c.state ≡ State.closed → c.failures < c.failure_threshold

-- `enter` keeps the invariant; it takes a slot exactly when it admits the request.
pub enter-IsValid : (now : ℕ) (c : Circuit) → IsValid c → IsValid (enter now c).0
unfolding enter
enter-IsValid now c v =
    ground
      (arith, sle32-leb c.max_concurrent c.concurrent_requests, inc32_lem c.concurrent_requests)

enter-slots :
    (now : ℕ) (c : Circuit)
    → IsValid c
    → (enter now c).1 ≡ none
    → ((enter now c).0.concurrent_requests ≡ c.concurrent_requests + 1)
      × (c.concurrent_requests < c.max_concurrent)
unfolding enter
enter-slots now c v h =
    ground
      (arith, sle32-leb c.max_concurrent c.concurrent_requests, inc32_lem c.concurrent_requests)

enter_refused-slots :
    (now : ℕ) (c : Circuit) (e : Error)
    → (enter now c).1 ≡ some e
    → (enter now c).0.concurrent_requests ≡ c.concurrent_requests
unfolding enter
enter_refused-slots now c e h = ground arith

finish-slots :
    (now : ℕ) (o : Outcome) (c : Circuit)
    → (finish now o c).0.concurrent_requests ≡ dec32 c.concurrent_requests
unfolding finish
finish-slots now Outcome.returned c = ground arith
finish-slots now (Outcome.failed e) c = ground arith
finish-slots now (Outcome.ctx_done e) c = ground arith

dec32-succ : (x : ℕ) → x < i32_half → dec32 (x + 1) ≡ x
unfolding dec32
dec32-succ x h = omega arith

finish-IsValid :
    (now : ℕ) (o : Outcome) (c : Circuit)
    → IsValid c
    → 0 < c.concurrent_requests
    → IsValid (finish now o c).0
unfolding finish dec32
finish-IsValid now Outcome.returned c v h = ground arith
finish-IsValid now (Outcome.failed e) c v h =
    ground (arith, sle64-leb c.failure_threshold (inc64 c.failures), inc64_lem c.failures)
finish-IsValid now (Outcome.ctx_done e) c v h =
    ground (arith, sle64-leb c.failure_threshold (inc64 c.failures), inc64_lem c.failures)

-- The two ways through `Execute`.
pub execute_refused :
    (now later : ℕ) (o : Outcome) (c : Circuit) (e : Error)
    → (enter now c).1 ≡ some e
    → execute now later o c ≡ ((enter now c).0, some e)
unfolding execute
execute_refused now later o c e h = ground arith

pub execute_admitted :
    (now later : ℕ) (o : Outcome) (c : Circuit)
    → (enter now c).1 ≡ none
    → execute now later o c ≡ finish later o (enter now c).0
unfolding execute
execute_admitted now later o c h = ground arith

pub execute-IsValid :
    (now later : ℕ) (o : Outcome) (c : Circuit) → IsValid c → IsValid (execute now later o c).0
execute-IsValid now later o c v = elim (Option-cases (enter now c).1) [
  | inl e ↦ rw (execute_admitted now later o c e) (
      finish-IsValid later o (enter now c).0 (enter-IsValid now c v)
        (omega (arith, (enter-slots now c v e).0)))
  | inr (r, e) ↦ rw (execute_refused now later o c r e) (enter-IsValid now c v)
]

-- Every call keeps the invariant of a circuit, in every state, at every time and with every outcome of the
-- wrapped function: a valid circuit is valid while the function runs, when the call has its slot, and
-- after the call.
pub enter_and_execute-IsValid :
    (now later : ℕ) (o : Outcome) (c : Circuit)
    → IsValid c
    → IsValid (enter now c).0 × IsValid (execute now later o c).0
enter_and_execute-IsValid now later o c v = (enter-IsValid now c v, execute-IsValid now later o c v)

-- No call leaks a slot: on a valid circuit, whether the call is refused, succeeds, fails or runs out
-- of time, the number of concurrent requests is afterwards what it was before.
pub concurrent_requests-execute :
    (now later : ℕ) (o : Outcome) (c : Circuit)
    → IsValid c
    → (execute now later o c).0.concurrent_requests ≡ c.concurrent_requests
concurrent_requests-execute now later o c v = elim (Option-cases (enter now c).1) [
  | inl e ↦
      rw (execute_admitted now later o c e, finish-slots, (enter-slots now c v e).0)
        (dec32-succ c.concurrent_requests (omega arith))
  | inr (r, e) ↦ rw (execute_refused now later o c r e) (enter_refused-slots now c r e)
]
