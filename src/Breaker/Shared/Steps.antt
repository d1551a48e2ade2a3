-- ===== src/Breaker/Shared/Steps.antt =====
-- How a circuit in memory stands for what Redis holds of one, and how the steps of the two breakers agree:
-- prism/internal/features/gateway/adapters/circuitbreaker, redis.go and memory.go.
use mathlib.Core.Path.{fun_ext}
use mathlib.Core.Option.{some-injective}
use abraxis.Base.{
  ℕ, ◌≡◌, refl, sym, ap, ◌∙◌, Text, bytes, true, Option, none, some, lookup, lookup-insert_self,
  inc64, text_eq, arith,
}
use abraxis.Breaker.Circuit.{State, Circuit, is_closed, is_open, is_half_open}
use abraxis.Breaker.Memory.{Config}
use abraxis.Breaker.Shared.Store.{
  state_text, Counter, failures, successes, rejected, timeouts, concurrent, state_key, lock_key,
  last_change_key, counter_key, Redis, Decimal, CachedState, Breaker,
}
use abraxis.Breaker.Shared.Logical.{Steady, Held, put_count}
use abraxis.Breaker.Shared.Commands.{
  held, held-incr, held-set_state, held-set_change, held-set_nx, held-del,
}
use abraxis.Breaker.Shared.Operations.{is_state, remember, write_state, try_set_state, lock_timeout}

abbrev pub counter : Circuit → Counter → ℕ
counter c failures = c.failures
counter c successes = c.successes
counter c rejected = c.rejected
counter c timeouts = c.timeout
counter c concurrent = c.concurrent_requests

abbrev pub with_count : Counter → ℕ → Circuit → Circuit
with_count failures n c = record c { failures = n }
with_count successes n c = record c { successes = n }
with_count rejected n c = record c { rejected = n }
with_count timeouts n c = record c { timeout = n }
with_count concurrent n c = record c { concurrent_requests = n }

put-with_count :
    (k : Counter) (n : ℕ) (c : Circuit) (j : Counter)
    → put_count k n (counter c) j ≡ counter (with_count k n c) j
put-with_count failures n c failures = refl
put-with_count failures n c successes = refl
put-with_count failures n c rejected = refl
put-with_count failures n c timeouts = refl
put-with_count failures n c concurrent = refl
put-with_count successes n c failures = refl
put-with_count successes n c successes = refl
put-with_count successes n c rejected = refl
put-with_count successes n c timeouts = refl
put-with_count successes n c concurrent = refl
put-with_count rejected n c failures = refl
put-with_count rejected n c successes = refl
put-with_count rejected n c rejected = refl
put-with_count rejected n c timeouts = refl
put-with_count rejected n c concurrent = refl
put-with_count timeouts n c failures = refl
put-with_count timeouts n c successes = refl
put-with_count timeouts n c rejected = refl
put-with_count timeouts n c timeouts = refl
put-with_count timeouts n c concurrent = refl
put-with_count concurrent n c failures = refl
put-with_count concurrent n c successes = refl
put-with_count concurrent n c rejected = refl
put-with_count concurrent n c timeouts = refl
put-with_count concurrent n c concurrent = refl

-- What Redis holds of a circuit.
abbrev pub held_of : Decimal → Circuit → Held
held_of decimal c = record {
  state = some (state_text c.state);
  last_change = some (decimal.print c.last_state_change);
  lock = none;
  count = counter c;
}

counter-moved :
    (c : Circuit) (st : State) (now : ℕ) (j : Counter)
    → counter c j ≡ counter (record c { state = st; last_state_change = now }) j
counter-moved c st now failures = refl
counter-moved c st now successes = refl
counter-moved c st now rejected = refl
counter-moved c st now timeouts = refl
counter-moved c st now concurrent = refl

pub held_of-with_count :
    (d : Decimal) (k : Counter) (n : ℕ) (c : Circuit)
    → record (held_of d c) { count = put_count k n (counter c) } ≡ held_of d (with_count k n c)
held_of-with_count d failures n c =
    λ i. record (held_of d c) { count = fun_ext (put-with_count failures n c) i }
held_of-with_count d successes n c =
    λ i. record (held_of d c) { count = fun_ext (put-with_count successes n c) i }
held_of-with_count d rejected n c =
    λ i. record (held_of d c) { count = fun_ext (put-with_count rejected n c) i }
held_of-with_count d timeouts n c =
    λ i. record (held_of d c) { count = fun_ext (put-with_count timeouts n c) i }
held_of-with_count d concurrent n c =
    λ i. record (held_of d c) { count = fun_ext (put-with_count concurrent n c) i }

pub is_state-closed : (st : State) → is_state State.closed (state_text st) ≡ is_closed st
unfolding text_eq
is_state-closed State.closed = refl
is_state-closed State.open_ = refl
is_state-closed State.half_open = refl

pub is_state-open : (st : State) → is_state State.open_ (state_text st) ≡ is_open st
unfolding text_eq
is_state-open State.closed = refl
is_state-open State.open_ = refl
is_state-open State.half_open = refl

pub is_state-half_open : (st : State) → is_state State.half_open (state_text st) ≡ is_half_open st
unfolding text_eq
is_state-half_open State.closed = refl
is_state-half_open State.open_ = refl
is_state-half_open State.half_open = refl

same_state :
    (k : Counter) (n : ℕ) (c : Circuit) → state_text c.state ≡ state_text (with_count k n c).state
same_state failures n c = refl
same_state successes n c = refl
same_state rejected n c = refl
same_state timeouts n c = refl
same_state concurrent n c = refl

-- The circuit has the settings of the breaker.
pub record IsConfigured (cfg : Config) (c : Circuit) : Type 0 where
  pub timeout_is : c.open_timeout ≡ cfg.timeout
  pub threshold_is : c.failure_threshold ≡ cfg.threshold
  pub success_is : c.success_threshold ≡ cfg.half_open_success_threshold
  pub max_is : c.max_concurrent ≡ cfg.max_concurrent_requests

module _ {S : Type 0} {redis : Redis S} {decimal : Decimal} {view : Text → S → Option Text}
    {number : Text → S → ℕ} (laws : Steady redis decimal view number) (name : Text) (cfg : Config)
    (cache_ttl : ℕ) where
  -- The circuit is what Redis holds, and its state is what the cache has, if that has one.
  pub record Refines (b : Breaker S) (c : Circuit) : Type 0 where
    pub holds : held laws name b.store ≡ held_of decimal c
    pub cached :
        (e : CachedState) → lookup name b.local_cache ≡ some e → e.state ≡ state_text c.state

  pub held-counted :
      (now : ℕ) (k : Counter) (s : S) (c : Circuit)
      → held laws name s ≡ held_of decimal c
      → held laws name (redis.incr now (counter_key k name) s).0
        ≡ held_of decimal (with_count k (inc64 (counter c k)) c)
  held-counted now k s c h =
      held-incr laws name now k s
      ∙ ap (λ (x : Held). record x { count = put_count k (inc64 (x.count k)) x.count }) h
      ∙ held_of-with_count decimal k (inc64 (counter c k)) c

  pub counted :
      (now : ℕ) (k : Counter) (s : S) (c : Circuit)
      → held laws name s ≡ held_of decimal c
      → (redis.incr now (counter_key k name) s).1 ≡ some (inc64 (counter c k))
  counted now k s c h =
      laws.incr_ok now (counter_key k name) s ∙ ap (λ (x : Held). some (inc64 (x.count k))) h

  -- `trySetState` under a free lock.
  abbrev locked : ℕ → S → S
  locked now s = (redis.set_nx now (lock_key name) (bytes "1") lock_timeout s).0

  abbrev changed : ℕ → Text → S → S
  changed now state s =
      redis.del now (lock_key name)
        (redis.set now (last_change_key name) (decimal.print now)
          (redis.set now (state_key name) state (locked now s)).0).0

  held-changed :
      (now : ℕ) (st : State) (s : S) (c : Circuit)
      → held laws name s ≡ held_of decimal c
      → held laws name (changed now (state_text st) s)
        ≡ held_of decimal (record c { state = st; last_state_change = now })
  held-changed now st s c h =
      let s1 = locked now s in
      let s2 = (redis.set now (state_key name) (state_text st) s1).0 in
      let s3 = (redis.set now (last_change_key name) (decimal.print now) s2).0 in
      held-del laws name now s3
      ∙ ap (λ (x : Held). record x { lock = none })
          (held-set_change laws name now (decimal.print now) s2
            ∙ ap (λ (x : Held). record x { last_change = some (decimal.print now) })
                (held-set_state laws name now (state_text st) s1
                  ∙ ap (λ (x : Held). record x { state = some (state_text st) })
                      (held-set_nx laws name now (bytes "1") lock_timeout s
                        ∙ ap (λ (x : Held). record x { lock = view (lock_key name) s1 }) h)))
      ∙ λ i. record {
        state = some (state_text st);
        last_change = some (decimal.print now);
        lock = none;
        count = fun_ext (counter-moved c st now) i;
      }

  write_state-eq :
      (now : ℕ) (state : Text) (b : Breaker S)
      → view (lock_key name) b.store ≡ none
      → try_set_state redis decimal cfg cache_ttl now name state b ≡ (
        remember redis decimal cfg cache_ttl now name state
            (record b { store = changed now state b.store }),
        true,
      )
  unfolding try_set_state write_state
  write_state-eq now state b free =
      let s1 = locked now b.store in
      let s2 = (redis.set now (state_key name) state s1).0 in
      ground (
        arith,
        laws.set_nx_free now (lock_key name) (bytes "1") lock_timeout b.store free,
        laws.set_ok now (state_key name) state s1,
        laws.set_ok now (last_change_key name) (decimal.print now) s2,
      )

  -- What a write of the state leaves.
  pub wrote : ℕ → State → Breaker S → Breaker S
  wrote now st b =
      remember redis decimal cfg cache_ttl now name (state_text st)
        (record b { store = changed now (state_text st) b.store })

  pub try_set_state-eq :
      (now : ℕ) (st : State) (b : Breaker S) (c : Circuit)
      → Refines b c
      → try_set_state redis decimal cfg cache_ttl now name (state_text st) b
        ≡ (wrote now st b, true)
  unfolding wrote
  try_set_state-eq now st b c r =
      write_state-eq now (state_text st) b (ap (λ (x : Held). x.lock) r.holds)

  pub wrote-Refines :
      (now : ℕ) (st : State) (b : Breaker S) (c : Circuit)
      → Refines b c
      → Refines (wrote now st b) (record c { state = st; last_state_change = now })
  unfolding wrote
  wrote-Refines now st b c r = record {
    holds = held-changed now st b.store c r.holds;
    cached = λ e found.
        ap (λ (x : CachedState). x.state)
          (some-injective e (record { state = state_text st; cached_at = now })
            (sym found
              ∙ lookup-insert_self name (record { state = state_text st; cached_at = now })
                  b.local_cache));
  }

  -- A counter goes up.
  pub counted-Refines :
      (now : ℕ) (k : Counter) (b : Breaker S) (c : Circuit)
      → Refines b c
      → Refines
          (record b { store = (redis.incr now (counter_key k name) b.store).0 })
          (with_count k (inc64 (counter c k)) c)
  counted-Refines now k b c r = record {
    holds = held-counted now k b.store c r.holds;
    cached = λ e found. r.cached e found ∙ same_state k (inc64 (counter c k)) c;
  }
