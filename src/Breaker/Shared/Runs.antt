-- ===== src/Breaker/Shared/Runs.antt =====
-- Calls of the breaker over Redis, one after another, beside those of the breaker in memory:
-- prism/internal/features/gateway/adapters/circuitbreaker, redis.go and memory.go.
use abraxis.Base.{
  ℕ, ◌≡◌, refl, Text, true, Option, List, [], ◌∷◌, All, arith, inl, inr, Option-cases,
}
use abraxis.Breaker.Circuit.{State, Circuit, Outcome, Error}
use abraxis.Breaker.Circuit as Memory
use abraxis.Breaker.Memory.{Config}
use abraxis.Breaker.Slots.{IsValid, execute-IsValid, execute_admitted, execute_refused}
use abraxis.Breaker.Trip.{Call}
use abraxis.Breaker.Shared.Store.{Redis, Decimal, Breaker}
use abraxis.Breaker.Shared.Logical.{Steady}
use abraxis.Breaker.Shared.Call.{execute_shared}
use abraxis.Breaker.Shared.Steps.{IsConfigured, Refines}
use abraxis.Breaker.Shared.Finish.{in_time}
use abraxis.Breaker.Shared.Refinement.{execute_shared-Agrees}

-- The circuit after some calls in memory, and their answers.
unfoldable pub answers_memory : List Call → Circuit → Circuit × List (Option Error)
answers_memory [] c = (c, [])
answers_memory (x ∷ xs) c =
    let (c', answer) = Memory.execute x.start x.end_ x.outcome c in
    let (after, answers) = answers_memory xs c' in (after, answer ∷ answers)

enter-settings :
    (cfg : Config) (now : ℕ) (c : Circuit)
    → IsConfigured cfg c
    → IsConfigured cfg (Memory.enter now c).0
unfolding Memory.enter Memory.acquire
enter-settings cfg now c conf = ground arith

finish-settings :
    (cfg : Config) (now : ℕ) (o : Outcome) (c : Circuit)
    → IsConfigured cfg c
    → IsConfigured cfg (Memory.finish now o c).0
unfolding Memory.finish Memory.record_success Memory.record_failure Memory.release
finish-settings cfg now Outcome.returned c conf = ground arith
finish-settings cfg now (Outcome.failed e) c conf = ground arith
finish-settings cfg now (Outcome.ctx_done e) c conf = ground arith

execute-settings :
    (cfg : Config) (now later : ℕ) (o : Outcome) (c : Circuit)
    → IsConfigured cfg c
    → IsConfigured cfg (Memory.execute now later o c).0
execute-settings cfg now later o c conf = elim (Option-cases (Memory.enter now c).1) [
  | inl e ↦
      rw (execute_admitted now later o c e)
        (finish-settings cfg later o (Memory.enter now c).0 (enter-settings cfg now c conf))
  | inr (r, e) ↦ rw (execute_refused now later o c r e) (enter-settings cfg now c conf)
]

module _ {S : Type 0} (redis : Redis S) (decimal : Decimal) (cfg : Config) (cache_ttl : ℕ)
    (name : Text) where
  -- The breaker over Redis after some calls, and their answers.
  unfoldable pub answers_shared : List Call → Breaker S → Breaker S × List (Option Error)
  answers_shared [] b = (b, [])
  answers_shared (x ∷ xs) b =
      let (b', answer) =
        execute_shared redis redis redis decimal cfg cache_ttl x.start x.end_ name x.outcome b in
      let (after, answers) = answers_shared xs b' in (after, answer ∷ answers)

module _ {S : Type 0} {redis : Redis S} {decimal : Decimal} {view : Text → S → Option Text}
    {number : Text → S → ℕ} (laws : Steady redis decimal view number) (name : Text) (cfg : Config)
    (cache_ttl : ℕ) where
  -- The breaker over Redis refines the one in memory, over all calls: when it stands for a valid circuit with
  -- its settings, and the function of each call ends before its context is done, then calls that run one
  -- after another answer with the same errors as those of that circuit, at the same times and with the same
  -- outcomes, and it stands for the circuit after them: the text of the state, the time of its change, all
  -- five counters and the free lock agree, and the cached state, if there is one. It is the only process at
  -- the circuit, and Redis is steady: its commands succeed and no time to live runs out.
  pub answers_shared-answers_memory :
      (calls : List Call) (b : Breaker S) (c : Circuit)
      → All (λ x. in_time x.outcome ≡ true) calls
      → IsConfigured cfg c
      → IsValid c
      → Refines laws name cfg cache_ttl b c
      → Refines laws name cfg cache_ttl
          (answers_shared redis decimal cfg cache_ttl name calls b).0
          (answers_memory calls c).0
        × ((answers_shared redis decimal cfg cache_ttl name calls b).1 ≡ (answers_memory calls c).1)
  unfolding answers_shared answers_memory
  answers_shared-answers_memory [] b c intime conf v r = (r, refl)
  answers_shared-answers_memory (x ∷ xs) b c intime conf v r =
      let (r', same) =
        execute_shared-Agrees laws name cfg cache_ttl x.start x.end_ x.outcome b c intime.0 conf v
          r in
      let (after, all) =
        answers_shared-answers_memory xs
          (execute_shared redis redis redis decimal cfg cache_ttl x.start x.end_ name x.outcome b).0
          (Memory.execute x.start x.end_ x.outcome c).0 intime.1
          (execute-settings cfg x.start x.end_ x.outcome c conf)
          (execute-IsValid x.start x.end_ x.outcome c v) r' in
      (after, λ i. same i ∷ all i)
