-- ===== src/Breaker/Diagram.antt =====
-- What a call does to an open and to a half-open circuit.
use abraxis.Base.{
  ℕ, ◌+◌, ◌-◌, ◌<◌, ◌≤◌, ◌≡◌, ◌⊎◌, inl, inr, refl, Bool, true, false, none, some, i64_half, arith,
  ◌∙◌, dec32, inc64, leb, sle32-leb, sle64-leb, inc64_lem,
}
use abraxis.Breaker.Circuit.{State, Error, Circuit, Outcome, enter, finish, execute}
use abraxis.Breaker.Slots.{IsValid, enter-IsValid, execute_admitted, execute-IsValid}
use abraxis.Breaker.Trip.{fails, enter_closed}

-- Until its timeout has passed an open circuit refuses every call with `ErrCircuitOpen`: the outcome
-- that the wrapped function would have is not looked at, and only the counter of refusals changes.
pub open_refuses :
    (now later : ℕ) (o : Outcome) (c : Circuit)
    → c.state ≡ State.open_
    → now - c.last_state_change ≤ c.open_timeout
    → execute now later o c ≡ (record c { rejected = inc64 c.rejected }, some Error.circuit_open)
unfolding execute enter
open_refuses now later o c s h = ground arith

-- A circuit that lets a trial request through: half-open, or open with its timeout passed.
abbrev pub IsTrial : ℕ → Circuit → Type 0
IsTrial now c =
    (c.state ≡ State.half_open)
    ⊎ ((c.state ≡ State.open_) × (c.open_timeout < now - c.last_state_change))

record Admitted (c c' : Circuit) : Type 0 where
  half : c'.state ≡ State.half_open
  successes : c'.successes ≡ c.successes
  success_threshold : c'.success_threshold ≡ c.success_threshold

enter_trial :
    (now : ℕ) (c : Circuit)
    → IsValid c
    → IsTrial now c
    → c.concurrent_requests < c.max_concurrent
    → ((enter now c).1 ≡ none) × Admitted c (enter now c).0
unfolding enter
enter_trial now c v (inl h) free = ground (arith, sle32-leb c.max_concurrent c.concurrent_requests)
enter_trial now c v (inr h) free = ground (arith, sle32-leb c.max_concurrent c.concurrent_requests)

-- The state after a trial request, from its outcome and the count of successes.
abbrev pub trial_state : Bool → Bool → State
trial_state true _ = State.open_
trial_state false true = State.closed
trial_state false false = State.half_open

finish_half_open :
    (later : ℕ) (o : Outcome) (c : Circuit)
    → c.state ≡ State.half_open
    → c.successes + 1 < i64_half
    → c.success_threshold < i64_half
    → (finish later o c).0.state ≡ trial_state (fails o) (leb c.success_threshold (c.successes + 1))
unfolding finish
finish_half_open later Outcome.returned c s h w =
    ground (arith, sle64-leb c.success_threshold (inc64 c.successes), inc64_lem c.successes)
finish_half_open later (Outcome.failed e) c s h w = ground arith
finish_half_open later (Outcome.ctx_done e) c s h w = ground arith

-- A trial request with a free slot decides the state: a failure or a timeout opens the circuit,
-- a success closes it exactly when the success counter reaches the success threshold, and leaves
-- it half-open otherwise. The counter must not be about to overflow.
pub trial_decides :
    (now later : ℕ) (o : Outcome) (c : Circuit)
    → IsValid c
    → IsTrial now c
    → c.concurrent_requests < c.max_concurrent
    → c.successes + 1 < i64_half
    → (execute now later o c).0.state
      ≡ trial_state (fails o) (leb c.success_threshold (c.successes + 1))
trial_decides now later o c v t free word =
    let (admitted, a) = enter_trial now c v t free in
    rw (execute_admitted now later o c admitted) (
      finish_half_open later o (enter now c).0 a.half (rw a.successes word)
        (rw a.success_threshold v.success_word)
      ∙ rw (a.successes, a.success_threshold) refl)

-- What the failure that reaches the threshold leaves.
record Opened (later : ℕ) (c c' : Circuit) : Type 0 where
  opened : c'.state ≡ State.open_
  since : c'.last_state_change ≡ later
  open_timeout : c'.open_timeout ≡ c.open_timeout
  successes : c'.successes ≡ c.successes
  success_threshold : c'.success_threshold ≡ c.success_threshold
  concurrent_requests : c'.concurrent_requests ≡ c.concurrent_requests
  max_concurrent : c'.max_concurrent ≡ c.max_concurrent

finish_opens :
    (later : ℕ) (o : Outcome) (c : Circuit) (n : ℕ)
    → IsValid c
    → c.state ≡ State.closed
    → fails o ≡ true
    → c.failures + 1 ≡ c.failure_threshold
    → c.concurrent_requests ≡ n + 1
    → Opened later (record c { concurrent_requests = n }) (finish later o c).0
unfolding finish dec32
finish_opens later Outcome.returned c n v s bad full busy = cc
finish_opens later (Outcome.failed e) c n v s bad full busy =
    ground (arith, sle64-leb c.failure_threshold (inc64 c.failures), inc64_lem c.failures)
finish_opens later (Outcome.ctx_done e) c n v s bad full busy =
    ground (arith, sle64-leb c.failure_threshold (inc64 c.failures), inc64_lem c.failures)

execute_opens :
    (now later : ℕ) (o : Outcome) (c : Circuit)
    → IsValid c
    → c.state ≡ State.closed
    → c.concurrent_requests < c.max_concurrent
    → fails o ≡ true
    → c.failures + 1 ≡ c.failure_threshold
    → Opened later c (execute now later o c).0
execute_opens now later o c v s free bad full =
    let entered = record c { concurrent_requests = c.concurrent_requests + 1 } in
    let e = enter_closed now c v s free in
    rw (execute_admitted now later o c (rw e refl), e)
      (finish_opens later o entered c.concurrent_requests (rw e at (enter-IsValid now c v)) s bad
        full refl)

-- The success threshold does not count the successes of the half-open state alone: a circuit that
-- opens with enough successes on its counter, all from before it opened, closes on the first trial
-- request that succeeds. (`o` is the failure that opens it, `next` the clock of the trial.)
pub first_trial_closes :
    (now later next end_ : ℕ) (o : Outcome) (c : Circuit)
    → IsValid c
    → c.state ≡ State.closed
    → c.concurrent_requests < c.max_concurrent
    → fails o ≡ true
    → c.failures + 1 ≡ c.failure_threshold
    → c.successes + 1 < i64_half
    → c.success_threshold ≤ c.successes + 1
    → c.open_timeout < next - later
    → (execute next end_ Outcome.returned (execute now later o c).0).0.state ≡ State.closed
first_trial_closes now later next end_ o c v s free bad full word enough wait =
    let after : Opened later c (execute now later o c).0 =
      execute_opens now later o c v s free bad full in
    trial_decides next end_ Outcome.returned (execute now later o c).0
      (execute-IsValid now later o c v) (inr (after.opened, ground arith)) (omega arith)
      (rw after.successes word)
    ∙ ground arith
