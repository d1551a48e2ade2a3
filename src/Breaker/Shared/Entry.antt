-- ===== src/Breaker/Shared/Entry.antt =====
-- A call of the breaker over Redis takes the same way to its end as one of the breaker in memory:
-- prism/internal/features/gateway/adapters/circuitbreaker, redis.go and memory.go.

use abraxis.Base.{
  ℕ, ◌-◌, ◌<◌, ◌≤◌, ◌≡◌, refl, sym, ap, ◌∙◌, Text, Bool, true, false, Option, some, inl, inr,
  Bool-cases, ltb, inc64, inc32, sle32, if◌then◌else◌, arith, i32_half, inc32_lem, inc64_lem,
}
use abraxis.Breaker.Circuit.{State, Circuit, Outcome, Error, is_open}
use abraxis.Breaker.Memory.{Config}
use abraxis.Breaker.Slots.{IsValid}
use abraxis.Breaker.Shared.Store.{state_text, concurrent, counter_key, Redis, Decimal, Breaker}
use abraxis.Breaker.Shared.Logical.{Steady, dec64}
use abraxis.Breaker.Shared.Operations.{
  is_state, get_state, get_last_state_change, try_set_state, try_acquire_execution,
}
use abraxis.Breaker.Shared.Call.{
  rejects, finish_shared, run_shared, try_again, execute_shared, or_closed, or_now,
}
use abraxis.Breaker.Shared.Steps.{
  held_of, is_state-open, IsConfigured, Refines, counted, try_set_state-eq, wrote, wrote-Refines,
}
use abraxis.Breaker.Shared.Finish.{Agrees, agree}
use abraxis.Breaker.Shared.Acquire.{taken, try_acquire-eq, held-taken, slot_tests, up_down}
use abraxis.Breaker.Shared.Reads.{
  get_state-Refines, get_last_state_change-eq, rejects-Refines, held-released,
}
use abraxis.Breaker.Shared.Attempt.{
  same_settings, attempt, run_memory, run_memory_full, run_memory_free, memory_runs, memory_tries,
  memory_rejects,
}

-- A call whose end, after the wait, does what `ends` does.
module _ {S : Type 0} {redis : Redis S} (within after : Redis S) {decimal : Decimal}
    {view : Text → S → Option Text} {number : Text → S → ℕ}
    (laws : Steady redis decimal view number) (name : Text) (cfg : Config) (cache_ttl : ℕ)
    (later : ℕ) (o : Outcome) (ends : Circuit → Circuit × Option Error)
    (ends-Agrees : (b : Breaker S) (c : Circuit)
      → IsConfigured cfg c
      → 0 < c.concurrent_requests
      → c.concurrent_requests ≤ i32_half
      → Refines laws name cfg cache_ttl b c
      → Agrees laws name cfg cache_ttl
          (finish_shared redis within after decimal cfg cache_ttl later name
            (state_text c.state)
            o
            b)
          (ends c)) where
  run-eq :
      (now : ℕ) (state : Text) (b : Breaker S) (s : S) (acquired : Bool)
      → try_acquire_execution redis decimal cfg cache_ttl now name b.store ≡ (s, acquired)
      → run_shared redis within after decimal cfg cache_ttl now later name state o b ≡ (
          if acquired
          then finish_shared redis within after decimal cfg cache_ttl later name state o
              (record b { store = s })
          else (
            rejects redis decimal cfg cache_ttl now name (record b { store = s }),
            some Error.too_many_concurrent_requests,
          ))
  unfolding run_shared
  run-eq now state b s acquired e =
      ap
        (λ (x : S × Bool).
          if x.1
          then finish_shared redis within after decimal cfg cache_ttl later name state o
              (record b { store = x.0 })
          else (
            rejects redis decimal cfg cache_ttl now name (record b { store = x.0 }),
            some Error.too_many_concurrent_requests,
          ))
        e

  run-Agrees :
      (now : ℕ) (b : Breaker S) (c : Circuit)
      → IsConfigured cfg c
      → IsValid c
      → Refines laws name cfg cache_ttl b c
      → Agrees laws name cfg cache_ttl
          (run_shared redis within after decimal cfg cache_ttl now later name
            (state_text c.state)
            o
            b)
          (run_memory ends c)
  run-Agrees now b c conf v r =
      let cur = c.concurrent_requests in
      let n = inc64 cur in
      let t = state_text c.state in
      let held_up = held-taken laws name cfg cache_ttl now n b.store c r.holds in
      let acquires =
        try_acquire-eq laws name cfg cache_ttl now n b.store
          (counted laws name cfg cache_ttl now concurrent b.store c r.holds) in
      elim (Bool-cases (sle32 c.max_concurrent cur)) [
        | inl full ↦
            let s =
              (redis.decr now (counter_key concurrent name)
                (taken laws name cfg cache_ttl now n b.store)).0 in
            let b' : Breaker S = record b { store = s } in
            let ran =
              run-eq now t b s false
                (acquires ∙ rw (slot_tests laws name cfg cache_ttl c conf v ∙ full) refl) in
            let down : dec64 n ≡ cur = up_down laws name cfg cache_ttl cur (omega arith) in
            let r' : Refines laws name cfg cache_ttl b' c = record {
              holds =
                  held-released laws name cfg cache_ttl now
                    (taken laws name cfg cache_ttl now n b.store)
                    (record c { concurrent_requests = n }) held_up
                  ∙ ap (λ k. held_of decimal (record c { concurrent_requests = k })) down;
              cached = r.cached;
            } in
            agree laws name cfg cache_ttl ran (run_memory_full ends c full)
              (rejects-Refines laws name cfg cache_ttl now b' c r', refl)
        | inr free ↦
            let s = taken laws name cfg cache_ttl now n b.store in
            let b' : Breaker S = record b { store = s } in
            let ran =
              run-eq now t b s true
                (acquires ∙ rw (slot_tests laws name cfg cache_ttl c conf v ∙ free) refl) in
            let same : n ≡ inc32 cur =
              inc64_lem cur (omega arith) ∙ sym (inc32_lem cur (omega arith)) in
            let c' = record c { concurrent_requests = inc32 cur } in
            let r' : Refines laws name cfg cache_ttl b' c' = record {
              holds =
                  held_up ∙ ap (λ k. held_of decimal (record c { concurrent_requests = k })) same;
              cached = r.cached;
            } in
            let up = inc32_lem cur (omega arith) in
            agree laws name cfg cache_ttl ran (run_memory_free ends c free) (
              ends-Agrees b' c' (same_settings c c' conf refl refl refl refl) (omega arith)
                (omega arith) r')
      ]

  shared_tries :
      (now : ℕ) (last : ℕ) (b b' : Breaker S)
      → try_set_state redis decimal cfg cache_ttl now name (state_text State.half_open) b
        ≡ (b', true)
      → ltb cfg.timeout (now - last) ≡ true
      → try_again redis within after decimal cfg cache_ttl now later name o last b
        ≡ run_shared redis within after decimal cfg cache_ttl now later name
            (state_text State.half_open)
            o
            b'
  unfolding try_again
  shared_tries now last b b' e late = rw late (
      ap
        (λ (x : Breaker S × Bool).
          if x.1
          then run_shared redis within after decimal cfg cache_ttl now later name
              (state_text State.half_open) o x.0
          else (x.0, some Error.circuit_open))
        e)

  shared_rejects :
      (now : ℕ) (last : ℕ) (b : Breaker S)
      → ltb cfg.timeout (now - last) ≡ false
      → try_again redis within after decimal cfg cache_ttl now later name o last b
        ≡ (rejects redis decimal cfg cache_ttl now name b, some Error.circuit_open)
  unfolding try_again
  shared_rejects now last b early = rw early refl

  try_again-Agrees :
      (now : ℕ) (b : Breaker S) (c : Circuit)
      → IsConfigured cfg c
      → IsValid c
      → Refines laws name cfg cache_ttl b c
      → is_open c.state ≡ true
      → Agrees laws name cfg cache_ttl
          (try_again redis within after decimal cfg cache_ttl now later name o c.last_state_change
            b)
          (attempt ends now c)
  try_again-Agrees now b c conf v r open_ =
      let c' = record c { state = State.half_open; last_state_change = now } in
      let b' = wrote laws name cfg cache_ttl now State.half_open b in
      let v' : IsValid c' = record {
        threshold_pos = v.threshold_pos;
        threshold_word = v.threshold_word;
        success_pos = v.success_pos;
        success_word = v.success_word;
        max_word = v.max_word;
        slots = v.slots;
        failures_low = λ e. cc;
      } in
      let waits = ap (λ t. ltb t (now - c.last_state_change)) conf.timeout_is in
      elim (Bool-cases (ltb c.open_timeout (now - c.last_state_change))) [
        | inl late ↦
            agree laws name cfg cache_ttl
              (shared_tries now c.last_state_change b b'
                (try_set_state-eq laws name cfg cache_ttl now State.half_open b c r)
                (sym waits ∙ late))
              (memory_tries ends now c open_ late)
              (run-Agrees now b' c' (same_settings c c' conf refl refl refl refl) v'
                (wrote-Refines laws name cfg cache_ttl now State.half_open b c r))
        | inr early ↦
            agree laws name cfg cache_ttl
              (shared_rejects now c.last_state_change b (sym waits ∙ early))
              (memory_rejects ends now c open_ early)
              (rejects-Refines laws name cfg cache_ttl now b c r, refl)
      ]

  execute_shared-eq :
      (now : ℕ) (b b1 : Breaker S) (t : Text)
      → get_state redis decimal cfg cache_ttl now name b ≡ (b1, some t)
      → execute_shared redis within after decimal cfg cache_ttl now later name o b ≡ (
          if is_state State.open_ t
          then (let (s, last) =
                get_last_state_change redis decimal cfg cache_ttl now name b1.store in
              try_again redis within after decimal cfg cache_ttl now later name o
                (or_now redis decimal cfg cache_ttl now last)
                (record b1 { store = s }))
          else run_shared redis within after decimal cfg cache_ttl now later name t o b1)
  unfolding execute_shared
  execute_shared-eq now b b1 t e =
      ap
        (λ (x : Breaker S × Option Text).
          let u = or_closed redis decimal cfg cache_ttl x.1 in
          if is_state State.open_ u
          then (let (s, last) =
                get_last_state_change redis decimal cfg cache_ttl now name x.0.store in
              try_again redis within after decimal cfg cache_ttl now later name o
                (or_now redis decimal cfg cache_ttl now last) (record x.0 { store = s }))
          else run_shared redis within after decimal cfg cache_ttl now later name u o x.0)
        e

  pub execute_shared-attempt :
      (now : ℕ) (b : Breaker S) (c : Circuit)
      → IsConfigured cfg c
      → IsValid c
      → Refines laws name cfg cache_ttl b c
      → Agrees laws name cfg cache_ttl
          (execute_shared redis within after decimal cfg cache_ttl now later name o b)
          (attempt ends now c)
  execute_shared-attempt now b c conf v r =
      let (b1, read, r1) = get_state-Refines laws name cfg cache_ttl now b c r in
      let ran = execute_shared-eq now b b1 (state_text c.state) read in
      let opens = is_state-open c.state in
      let changed = get_last_state_change-eq laws name cfg cache_ttl now b1.store c r1.holds in
      elim (Bool-cases (is_open c.state)) [
        | inl open_ ↦
            let tried =
              ap
                (λ (x : S × Option ℕ).
                  try_again redis within after decimal cfg cache_ttl now later name o
                    (or_now redis decimal cfg cache_ttl now x.1) (record b1 { store = x.0 }))
                changed in
            agree laws name cfg cache_ttl (ran ∙ rw (opens ∙ open_) tried) refl
              (try_again-Agrees now b1 c conf v r1 open_)
        | inr shut ↦
            agree laws name cfg cache_ttl (ran ∙ rw (opens ∙ shut) refl)
              (memory_runs ends now c shut) (run-Agrees now b1 c conf v r1)
      ]
