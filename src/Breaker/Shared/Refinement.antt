-- ===== src/Breaker/Shared/Refinement.antt =====
-- The breaker over Redis does what the breaker in memory does, where it is alone and Redis is steady, but
-- for a request that meets its timeout:
-- prism/internal/features/gateway/adapters/circuitbreaker, redis.go and memory.go.

use abraxis.Base.{
  ℕ, ◌<◌, ◌≡◌, refl, sym, Text, true, Option, some, dec32, sle32-leb, arith, inc32_lem,
}
use abraxis.Breaker.Circuit.{State, Circuit, Outcome, Error, is_closed, is_open, is_half_open}
use abraxis.Breaker.Circuit as Memory
use abraxis.Breaker.Memory.{Config}
use abraxis.Breaker.Slots.{IsValid}
use abraxis.Breaker.Shared.Store.{Redis, Decimal, Breaker}
use abraxis.Breaker.Shared.Logical.{Steady}
use abraxis.Breaker.Shared.Call.{execute_shared}
use abraxis.Breaker.Shared.Steps.{IsConfigured, Refines}
use abraxis.Breaker.Shared.Finish.{
  Agrees, agree, in_time, IsDone, finish-Agrees, finish_done-Agrees,
}
use abraxis.Breaker.Shared.Attempt.{attempt}
use abraxis.Breaker.Shared.Entry.{execute_shared-attempt}

-- The slot is taken and given back.
given_back :
    (now : ℕ) (e : Text) (c : Circuit)
    → IsValid c
    → c.state ≡ State.closed
    → c.concurrent_requests < c.max_concurrent
    → attempt (λ c'. (Memory.release c', some (Error.call_error e))) now c
      ≡ (c, some (Error.call_error e))
unfolding Memory.enter Memory.acquire Memory.release dec32
given_back now e c v closed free =
    let full = sle32-leb c.max_concurrent c.concurrent_requests (omega arith) (omega arith) in
    let up = inc32_lem c.concurrent_requests (omega arith) in ground (arith, full, up)

module _ {S : Type 0} {redis : Redis S} {decimal : Decimal} {view : Text → S → Option Text}
    {number : Text → S → ℕ} (laws : Steady redis decimal view number) (name : Text) (cfg : Config)
    (cache_ttl : ℕ) where
  -- The breaker over Redis refines the one in memory: when it stands for a valid circuit with its settings,
  -- a call whose function ends before its context is done answers with the same error as a call of that
  -- circuit, at the same times and with the same outcome, and stands for the circuit after it; so the text of the state, the time of its change, all
  -- five counters and the free lock agree, and the cached state, if there is one. It is the only process
  -- at the circuit, and Redis is steady: its commands succeed and no time to live runs out.
  pub execute_shared-Agrees :
      (now later : ℕ) (o : Outcome) (b : Breaker S) (c : Circuit)
      → in_time o ≡ true
      → IsConfigured cfg c
      → IsValid c
      → Refines laws name cfg cache_ttl b c
      → Agrees laws name cfg cache_ttl
          (execute_shared redis redis redis decimal cfg cache_ttl now later name o b)
          (Memory.execute now later o c)
  unfolding Memory.execute
  execute_shared-Agrees now later o b c intime conf v r =
      execute_shared-attempt redis redis laws name cfg cache_ttl later o (Memory.finish later o)
        (λ b' c' conf' pos low r'.
          finish-Agrees laws name cfg cache_ttl later o b' c' intime conf' pos low r')
        now b c conf v r

  -- The breaker over Redis does not see timeouts: when it stands for a valid circuit with its settings, a
  -- closed one that has a free slot, and the context of the request, but not that of the caller, is done
  -- when the wait ends, then Execute returns the error of the context and stands for the same circuit as
  -- before. Neither the timeout nor the failure is counted, and the circuit stays closed. It is the only
  -- process at the circuit, Redis is steady for the caller, and a command under a context that is done
  -- fails and changes nothing.
  pub timed_out-Refines :
      {within : Redis S} (now later : ℕ) (e : Text) (b : Breaker S) (c : Circuit)
      → IsDone within
      → IsConfigured cfg c
      → IsValid c
      → c.state ≡ State.closed
      → c.concurrent_requests < c.max_concurrent
      → Refines laws name cfg cache_ttl b c
      → Agrees laws name cfg cache_ttl
          (execute_shared redis within redis decimal cfg cache_ttl now later name
            (Outcome.ctx_done e)
            b)
          (c, some (Error.call_error e))
  timed_out-Refines {within} now later e b c done conf v closed free r =
      agree laws name cfg cache_ttl refl (sym (given_back now e c v closed free)) (
        execute_shared-attempt within redis laws name cfg cache_ttl later (Outcome.ctx_done e)
          (λ c'. (Memory.release c', some (Error.call_error e)))
          (λ b' c' conf' pos low r'.
            finish_done-Agrees laws name cfg cache_ttl later e b' c' done pos low r')
          now b c conf v r)
