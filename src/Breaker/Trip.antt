-- ===== src/Breaker/Trip.antt =====
-- When a circuit opens and closes, over calls that run one after another.
use abraxis.Base.{
  Bool-cases, ◌++◌, ◌∙◌, ℕ, suc, ◌+◌, ◌<◌, ◌≡◌, refl, Bool, true, false, none, List, [], ◌∷◌, arith,
  inc64, sle32-leb, sle64-leb, inc32_lem, inc64_lem, inl, inr,
}
use abraxis.Breaker.Circuit.{State, Circuit, Outcome, enter, finish, execute}
use abraxis.Breaker.Slots.{
  IsValid, enter-IsValid, execute-IsValid, execute_admitted, concurrent_requests-execute,
}

abbrev pub fails : Outcome → Bool
fails Outcome.returned = false
fails (Outcome.failed e) = true
fails (Outcome.ctx_done e) = true

-- A closed circuit with a free slot admits every request and changes nothing but the slots.
pub enter_closed :
    (now : ℕ) (c : Circuit)
    → IsValid c
    → c.state ≡ State.closed
    → c.concurrent_requests < c.max_concurrent
    → enter now c ≡ (record c { concurrent_requests = c.concurrent_requests + 1 }, none)
unfolding enter
enter_closed now c v s free =
    ground
      (arith, sle32-leb c.max_concurrent c.concurrent_requests, inc32_lem c.concurrent_requests)

-- The counters after a call that ends on a closed circuit.
record AfterClosed (o : Outcome) (c c' : Circuit) : Type 0 where
  failures : fails o ≡ true → c'.failures ≡ c.failures + 1
  failures_kept : fails o ≡ false → c'.failures ≡ c.failures
  opens : fails o ≡ true → c.failures + 1 ≡ c.failure_threshold → c'.state ≡ State.open_
  stays : fails o ≡ true → c.failures + 1 < c.failure_threshold → c'.state ≡ State.closed
  stays_closed : fails o ≡ false → c'.state ≡ State.closed
  threshold : c'.failure_threshold ≡ c.failure_threshold
  max : c'.max_concurrent ≡ c.max_concurrent

finish_closed :
    (now : ℕ) (o : Outcome) (c : Circuit)
    → IsValid c
    → c.state ≡ State.closed
    → AfterClosed o c (finish now o c).0
unfolding finish
finish_closed now Outcome.returned c v s = ground arith
finish_closed now (Outcome.failed e) c v s =
    ground (arith, sle64-leb c.failure_threshold (inc64 c.failures), inc64_lem c.failures)
finish_closed now (Outcome.ctx_done e) c v s =
    ground (arith, sle64-leb c.failure_threshold (inc64 c.failures), inc64_lem c.failures)

execute_closed :
    (now later : ℕ) (o : Outcome) (c : Circuit)
    → IsValid c
    → c.state ≡ State.closed
    → c.concurrent_requests < c.max_concurrent
    → AfterClosed o c (execute now later o c).0
execute_closed now later o c v s free =
    let c' = record c { concurrent_requests = c.concurrent_requests + 1 } in
    let e = enter_closed now c v s free in
    let v' : IsValid c' = rw e at (enter-IsValid now c v) in
    let after : AfterClosed o c' (finish later o c').0 = finish_closed later o c' v' s in
    rw (execute_admitted now later o c (rw e refl), e)
      (record {
        failures = after.failures;
        failures_kept = after.failures_kept;
        opens = after.opens;
        stays = after.stays;
        stays_closed = after.stays_closed;
        threshold = after.threshold;
        max = after.max;
      })

pub record Call : Type 0 where
  pub start : ℕ
  pub end_ : ℕ
  pub outcome : Outcome

-- Calls that run one after another.
unfoldable pub run : List Call → Circuit → Circuit
run [] c = c
run (x ∷ xs) c = run xs (execute x.start x.end_ x.outcome c).0

abbrev pub count_fails : List Call → ℕ
count_fails [] = 0
count_fails (x ∷ xs) = elim (fails x.outcome) [
  | true ↦ suc (count_fails xs)
  | false ↦ count_fails xs
]

-- What one call on a closed circuit leaves for the calls after it.
record Carries (x : Call) (xs : List Call) (c c' : Circuit) : Type 0 where
  closed : c'.state ≡ State.closed
  free : c'.concurrent_requests < c'.max_concurrent
  total : c'.failures + count_fails xs ≡ c.failures + count_fails (x ∷ xs)
  threshold : c'.failure_threshold ≡ c.failure_threshold

Carries-on :
    (x : Call) (xs : List Call) (c c' : Circuit)
    → AfterClosed x.outcome c c'
    → c'.concurrent_requests ≡ c.concurrent_requests
    → c.concurrent_requests < c.max_concurrent
    → c.failures + count_fails (x ∷ xs) < c.failure_threshold
    → Carries x xs c c'
Carries-on x xs c c' after slots free h = elim (Bool-cases (fails x.outcome)) [
  | inl e ↦ ground arith
  | inr e ↦ ground arith
]

execute-Carries :
    (x : Call) (xs : List Call) (c : Circuit)
    → IsValid c
    → c.state ≡ State.closed
    → c.concurrent_requests < c.max_concurrent
    → c.failures + count_fails (x ∷ xs) < c.failure_threshold
    → Carries x xs c (execute x.start x.end_ x.outcome c).0
execute-Carries x xs c v s free h =
    Carries-on x xs c _ (execute_closed x.start x.end_ x.outcome c v s free)
      (concurrent_requests-execute x.start x.end_ x.outcome c v) free h

-- A closed circuit counts the failures of its whole life: while the failures recorded and those of
-- the calls stay below the threshold the circuit stays closed, and the counter grows by one for each
-- failed call, however many calls succeed in between. The circuit is valid and has a free slot.
pub run-closed :
    (calls : List Call) (c : Circuit)
    → IsValid c
    → c.state ≡ State.closed
    → c.concurrent_requests < c.max_concurrent
    → c.failures + count_fails calls < c.failure_threshold
    → ((run calls c).state ≡ State.closed)
      × ((run calls c).failures ≡ c.failures + count_fails calls)
unfolding run
run-closed [] c v s free h = (s, omega arith)
run-closed (x ∷ xs) c v s free h =
    let next : Carries x xs c (execute x.start x.end_ x.outcome c).0 =
      execute-Carries x xs c v s free h in
    let (closed, count) =
      run-closed xs (execute x.start x.end_ x.outcome c).0
        (execute-IsValid x.start x.end_ x.outcome c v) next.closed next.free (omega arith) in
    (closed, count ∙ next.total)

-- The failure that brings the count to the threshold opens the circuit, with no regard to the
-- successes before it.
pub run-opens :
    (calls : List Call) (x : Call) (c : Circuit)
    → IsValid c
    → c.state ≡ State.closed
    → c.concurrent_requests < c.max_concurrent
    → fails x.outcome ≡ true
    → c.failures + count_fails calls + 1 ≡ c.failure_threshold
    → (run (calls ++ x ∷ []) c).state ≡ State.open_
unfolding run
run-opens [] x c v s free bad h =
    (execute_closed x.start x.end_ x.outcome c v s free).opens bad (omega arith)
run-opens (y ∷ ys) x c v s free bad h =
    let next : Carries y ys c (execute y.start y.end_ y.outcome c).0 =
      execute-Carries y ys c v s free (omega arith) in
    run-opens ys x (execute y.start y.end_ y.outcome c).0
      (execute-IsValid y.start y.end_ y.outcome c v) next.closed next.free bad (omega arith)
