-- ===== src/Breaker/Shared/Acquire.antt =====
-- The slot that a call of the breaker over Redis takes, beside that of the breaker in memory:
-- prism/internal/features/gateway/adapters/circuitbreaker, redis.go and memory.go.

use abraxis.Base.{
  ℕ, ◌+◌, ◌*◌, ◌<◌, ◌≡◌, sym, ap, ◌∙◌, Text, true, false, Option, some, inl, inr, Bool-cases, ◌==◌,
  inc64, slt64, slt64-ltb, sle32, sle32-leb, if◌then◌else◌, arith, i32_half, inc64_lem,
}
use abraxis.Breaker.Circuit.{Circuit}
use abraxis.Breaker.Memory.{Config, second}
use abraxis.Breaker.Slots.{IsValid}
use abraxis.Breaker.Shared.Store.{concurrent, counter_key, Redis, Decimal}
use abraxis.Breaker.Shared.Logical.{Steady, dec64}
use abraxis.Breaker.Shared.Commands.{held, held-expire}
use abraxis.Breaker.Shared.Operations.{try_acquire_execution}
use abraxis.Breaker.Shared.Steps.{held_of, IsConfigured, held-counted}

module _ {S : Type 0} {redis : Redis S} {decimal : Decimal} {view : Text → S → Option Text}
    {number : Text → S → ℕ} (laws : Steady redis decimal view number) (name : Text) (cfg : Config)
    (cache_ttl : ℕ) where
  -- The store after the increment of `tryAcquireExecution`.
  unfoldable pub taken : ℕ → ℕ → S → S
  taken now count s =
      let s1 = (redis.incr now (counter_key concurrent name) s).0 in
      if count == 1 then redis.expire now (counter_key concurrent name) (30 * second) s1 else s1

  pub try_acquire-eq :
      (now n : ℕ) (s : S)
      → (redis.incr now (counter_key concurrent name) s).1 ≡ some n
      → try_acquire_execution redis decimal cfg cache_ttl now name s ≡ (
          if slt64 cfg.max_concurrent_requests n
          then ((redis.decr now (counter_key concurrent name) (taken now n s)).0, false)
          else (taken now n s, true))
  unfolding try_acquire_execution taken
  try_acquire-eq now n s e = ground arith

  pub held-taken :
      (now n : ℕ) (s : S) (c : Circuit)
      → held laws name s ≡ held_of decimal c
      → held laws name (taken now n s)
        ≡ held_of decimal (record c { concurrent_requests = inc64 c.concurrent_requests })
  unfolding taken
  held-taken now n s c h =
      let key = counter_key concurrent name in
      let up = held-counted laws name cfg cache_ttl now concurrent s c h in
      elim (Bool-cases (n == 1)) [
        | inl e ↦ rw e (held-expire laws name now key (30 * second) (redis.incr now key s).0 ∙ up)
        | inr e ↦ rw e up
      ]

  -- The tests on the slots are the same.
  pub slot_tests :
      (c : Circuit)
      → IsConfigured cfg c
      → IsValid c
      → slt64 cfg.max_concurrent_requests (inc64 c.concurrent_requests)
        ≡ sle32 c.max_concurrent c.concurrent_requests
  slot_tests c conf v =
      let cur = c.concurrent_requests in
      let up : inc64 cur ≡ cur + 1 = inc64_lem cur (omega arith) in
      let wide = slt64-ltb c.max_concurrent (cur + 1) (omega arith) (omega arith) in
      let narrow = sle32-leb c.max_concurrent cur (omega arith) (omega arith) in
      ap (λ m. slt64 m (inc64 cur)) (sym conf.max_is)
      ∙ ap (slt64 c.max_concurrent) up
      ∙ wide
      ∙ (ground arith)
      ∙ sym narrow

  pub up_down : (n : ℕ) → n < i32_half → dec64 (inc64 n) ≡ n
  unfolding inc64
  up_down n h = omega arith
