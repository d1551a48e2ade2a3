-- ===== src/Breaker/Shared/Outcomes.antt =====
-- What is recorded of a call, in both breakers:
-- prism/internal/features/gateway/adapters/circuitbreaker, redis.go and memory.go.
use mathlib.Core.Path.{subst}
use abraxis.Base.{
  ℕ, ◌≡◌, sym, ap, ◌∙◌, Text, Bool, true, false, ◌&&◌, ◌||◌, Option, some, inc64, sle64,
  if◌then◌else◌, arith,
}
use abraxis.Breaker.Circuit.{State, Circuit, is_closed, is_open, is_half_open}
use abraxis.Breaker.Circuit as Memory
use abraxis.Breaker.Memory.{Config}
use abraxis.Breaker.Shared.Store.{
  state_text, Counter, failures, successes, counter_key, Redis, Decimal, Breaker,
}
use abraxis.Breaker.Shared.Logical.{Steady, Held, put_count}
use abraxis.Breaker.Shared.Commands.{held, held-set_zero}
use abraxis.Breaker.Shared.Operations.{
  is_state, try_set_state, record_failure, record_success, reset_counters, close_circuit,
}
use abraxis.Breaker.Shared.Steps.{
  with_count, held_of, held_of-with_count, is_state-closed, is_state-half_open, IsConfigured,
  Refines, counted, try_set_state-eq, wrote, wrote-Refines, counted-Refines,
}

module _ {S : Type 0} {redis : Redis S} {decimal : Decimal} {view : Text → S → Option Text}
    {number : Text → S → ℕ} (laws : Steady redis decimal view number) (name : Text) (cfg : Config)
    (cache_ttl : ℕ) where
  Refines-if :
      (t u : Bool) (x y : Breaker S) (x' y' : Circuit)
      → t ≡ u
      → Refines laws name cfg cache_ttl x x'
      → Refines laws name cfg cache_ttl y y'
      → Refines laws name cfg cache_ttl (if t then x else y) (if u then x' else y')
  Refines-if true u x y x' y' e rx ry =
      subst (λ b. Refines laws name cfg cache_ttl x (if b then x' else y')) e rx
  Refines-if false u x y x' y' e rx ry =
      subst (λ b. Refines laws name cfg cache_ttl y (if b then x' else y')) e ry

  -- `recordFailure` of both.
  record_failure-eq :
      (now : ℕ) (state : Text) (b : Breaker S) (n : ℕ)
      → (redis.incr now (counter_key failures name) b.store).1 ≡ some n
      → let b' = record b { store = (redis.incr now (counter_key failures name) b.store).0 } in
        record_failure redis decimal cfg cache_ttl now name state b ≡ (
          if is_state State.closed state && sle64 cfg.threshold n || is_state State.half_open state
          then (try_set_state redis decimal cfg cache_ttl now name (state_text State.open_) b').0
          else b')
  unfolding record_failure
  record_failure-eq now state b n e = ground arith

  pub record_failure-Refines :
      (now : ℕ) (b : Breaker S) (c : Circuit)
      → IsConfigured cfg c
      → Refines laws name cfg cache_ttl b c
      → Refines laws name cfg cache_ttl
          (record_failure redis decimal cfg cache_ttl now name (state_text c.state) b)
          (Memory.record_failure now c)
  record_failure-Refines now b c conf r =
      let b' = record b { store = (redis.incr now (counter_key failures name) b.store).0 } in
      let c' = record c { failures = inc64 c.failures } in
      let r' : Refines laws name cfg cache_ttl b' c' =
        counted-Refines laws name cfg cache_ttl now failures b c r in
      let opened : Refines laws name cfg cache_ttl
          (try_set_state redis decimal cfg cache_ttl now name (state_text State.open_) b').0
          (record c' { state = State.open_; last_state_change = now }) =
        subst
          (λ x.
            Refines laws name cfg cache_ttl x.0
              (record c' { state = State.open_; last_state_change = now }))
          (sym (try_set_state-eq laws name cfg cache_ttl now State.open_ b' c' r'))
          (wrote-Refines laws name cfg cache_ttl now State.open_ b' c' r') in
      let done =
        record_failure-eq now (state_text c.state) b (inc64 c.failures)
          (counted laws name cfg cache_ttl now failures b.store c r.holds) in
      subst (λ x. Refines laws name cfg cache_ttl x (Memory.record_failure now c)) (sym done)
        (unfold Memory.record_failure in
          Refines-if
            (is_state State.closed (state_text c.state) && sle64 cfg.threshold (inc64 c.failures)
              || is_state State.half_open (state_text c.state))
            (is_closed c.state && sle64 c.failure_threshold (inc64 c.failures)
              || is_half_open c.state)
            (try_set_state redis decimal cfg cache_ttl now name (state_text State.open_) b').0 b'
            (record c' { state = State.open_; last_state_change = now }) c'
            (ground (arith, is_state-closed c.state, is_state-half_open c.state, conf.threshold_is))
            opened r')

  held-zero :
      (now : ℕ) (k : Counter) (s : S) (c : Circuit)
      → held laws name s ≡ held_of decimal c
      → held laws name (redis.set now (counter_key k name) (decimal.print 0) s).0
        ≡ held_of decimal (with_count k 0 c)
  held-zero now k s c h =
      held-set_zero laws name now k s
      ∙ ap (λ (x : Held). record x { count = put_count k 0 x.count }) h
      ∙ held_of-with_count decimal k 0 c

  reset-Refines :
      (now : ℕ) (b : Breaker S) (c : Circuit)
      → Refines laws name cfg cache_ttl b c
      → Refines laws name cfg cache_ttl
          (record b { store = reset_counters redis decimal cfg cache_ttl now name b.store })
          (record c { failures = 0; successes = 0 })
  reset-Refines now b c r =
      let s1 = (redis.set now (counter_key failures name) (decimal.print 0) b.store).0 in
      record {
        holds =
            held-zero now successes s1 (record c { failures = 0 })
              (held-zero now failures b.store c r.holds);
        cached = r.cached;
      }

  record_success-eq :
      (now : ℕ) (state : Text) (b : Breaker S) (n : ℕ)
      → (redis.incr now (counter_key successes name) b.store).1 ≡ some n
      → let b' = record b { store = (redis.incr now (counter_key successes name) b.store).0 } in
        record_success redis decimal cfg cache_ttl now name state b ≡ (
          if is_state State.half_open state && sle64 cfg.half_open_success_threshold n
          then close_circuit redis decimal cfg cache_ttl now name
              (try_set_state redis decimal cfg cache_ttl now name (state_text State.closed) b')
          else b')
  unfolding record_success
  record_success-eq now state b n e = ground arith

  pub record_success-Refines :
      (now : ℕ) (b : Breaker S) (c : Circuit)
      → IsConfigured cfg c
      → Refines laws name cfg cache_ttl b c
      → Refines laws name cfg cache_ttl
          (record_success redis decimal cfg cache_ttl now name (state_text c.state) b)
          (Memory.record_success now c)
  record_success-Refines now b c conf r =
      let b' = record b { store = (redis.incr now (counter_key successes name) b.store).0 } in
      let c' = record c { successes = inc64 c.successes } in
      let r' : Refines laws name cfg cache_ttl b' c' =
        counted-Refines laws name cfg cache_ttl now successes b c r in
      let c'' = record c' { state = State.closed; last_state_change = now } in
      let closed_ : Refines laws name cfg cache_ttl
          (close_circuit redis decimal cfg cache_ttl now name
            (try_set_state redis decimal cfg cache_ttl now name (state_text State.closed) b'))
          (record c'' { failures = 0; successes = 0 }) =
        subst
          (λ x.
            Refines laws name cfg cache_ttl (close_circuit redis decimal cfg cache_ttl now name x)
              (record c'' { failures = 0; successes = 0 }))
          (sym (try_set_state-eq laws name cfg cache_ttl now State.closed b' c' r'))
          (reset-Refines now (wrote laws name cfg cache_ttl now State.closed b') c''
            (wrote-Refines laws name cfg cache_ttl now State.closed b' c' r')) in
      let done =
        record_success-eq now (state_text c.state) b (inc64 c.successes)
          (counted laws name cfg cache_ttl now successes b.store c r.holds) in
      subst (λ x. Refines laws name cfg cache_ttl x (Memory.record_success now c)) (sym done)
        (unfold Memory.record_success in
          Refines-if
            (is_state State.half_open (state_text c.state)
              && sle64 cfg.half_open_success_threshold (inc64 c.successes))
            (is_half_open c.state && sle64 c.success_threshold (inc64 c.successes))
            (close_circuit redis decimal cfg cache_ttl now name
              (try_set_state redis decimal cfg cache_ttl now name (state_text State.closed) b'))
            b' (record c'' { failures = 0; successes = 0 }) c'
            (ground (arith, is_state-half_open c.state, conf.success_is)) closed_ r')
