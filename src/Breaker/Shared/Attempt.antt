-- ===== src/Breaker/Shared/Attempt.antt =====
-- What a call of the breaker in memory does before its function ends:
-- prism/internal/features/gateway/adapters/circuitbreaker/memory.go.
use abraxis.Base.{
  ℕ, ◌-◌, ◌≡◌, ◌∙◌, true, false, Option, none, some, ltb, inc64, inc32, sle32, arith,
}
use abraxis.Breaker.Circuit.{State, Circuit, Outcome, Error, is_closed, is_open, is_half_open}
use abraxis.Breaker.Circuit as Memory
use abraxis.Breaker.Memory.{Config}
use abraxis.Breaker.Shared.Steps.{IsConfigured}

pub same_settings :
    {cfg : Config} (c c' : Circuit)
    → IsConfigured cfg c
    → c'.open_timeout ≡ c.open_timeout
    → c'.failure_threshold ≡ c.failure_threshold
    → c'.success_threshold ≡ c.success_threshold
    → c'.max_concurrent ≡ c.max_concurrent
    → IsConfigured cfg c'
same_settings c c' conf a b d e = record {
  timeout_is = a ∙ conf.timeout_is;
  threshold_is = b ∙ conf.threshold_is;
  success_is = d ∙ conf.success_is;
  max_is = e ∙ conf.max_is;
}

-- Calls whose end, after the wait, is `ends`.
module _ (ends : Circuit → Circuit × Option Error) where
  -- A call of the breaker in memory that ends so.
  abbrev pub attempt : ℕ → Circuit → Circuit × Option Error
  attempt now c =
      let (entered, refused) = Memory.enter now c in
      elim refused [ some e ↦ (entered, some e) | none ↦ ends entered ]

  -- `Execute` of the breaker in memory from the check on concurrent requests on.
  abbrev pub run_memory : Circuit → Circuit × Option Error
  run_memory c =
      let (entered, refused) = Memory.acquire c in
      elim refused [ some e ↦ (entered, some e) | none ↦ ends entered ]

  pub run_memory_full :
      (c : Circuit)
      → sle32 c.max_concurrent c.concurrent_requests ≡ true
      → run_memory c
        ≡ (record c { rejected = inc64 c.rejected }, some Error.too_many_concurrent_requests)
  unfolding Memory.acquire
  run_memory_full c h = ground arith

  pub run_memory_free :
      (c : Circuit)
      → sle32 c.max_concurrent c.concurrent_requests ≡ false
      → run_memory c ≡ ends (record c { concurrent_requests = inc32 c.concurrent_requests })
  unfolding Memory.acquire
  run_memory_free c h = ground arith

  pub memory_runs : (now : ℕ) (c : Circuit) → is_open c.state ≡ false → attempt now c ≡ run_memory c
  unfolding Memory.enter
  memory_runs now c h = ground arith

  pub memory_tries :
      (now : ℕ) (c : Circuit)
      → is_open c.state ≡ true
      → ltb c.open_timeout (now - c.last_state_change) ≡ true
      → attempt now c ≡ run_memory (record c { state = State.half_open; last_state_change = now })
  unfolding Memory.enter
  memory_tries now c h late = ground arith

  pub memory_rejects :
      (now : ℕ) (c : Circuit)
      → is_open c.state ≡ true
      → ltb c.open_timeout (now - c.last_state_change) ≡ false
      → attempt now c ≡ (record c { rejected = inc64 c.rejected }, some Error.circuit_open)
  unfolding Memory.enter
  memory_rejects now c h early = ground arith

-- A call whose end, after the wait, does what `ends` does.
