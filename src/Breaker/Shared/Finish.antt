-- ===== src/Breaker/Shared/Finish.antt =====
-- What comes after the wait in a call of the breaker over Redis, where the context is not done, and where it is:
-- prism/internal/features/gateway/adapters/circuitbreaker, redis.go and memory.go.
use mathlib.Core.Path.{subst}
use abraxis.Base.{
  ℕ, ◌<◌, ◌≤◌, ◌≡◌, refl, sym, ap, ◌∙◌, Text, Bool, true, false, Option, none, some, arith,
  i32_half,
}
use abraxis.Breaker.Circuit.{State, Circuit, Outcome, Error, is_closed, is_open, is_half_open}
use abraxis.Breaker.Circuit as Memory
use abraxis.Breaker.Memory.{Config}
use abraxis.Breaker.Shared.Store.{
  state_text, Reply, Counter, failures, timeouts, counter_key, Redis, Decimal, Breaker,
}
use abraxis.Breaker.Shared.Logical.{Steady}
use abraxis.Breaker.Shared.Operations.{increment, record_failure, record_success}
use abraxis.Breaker.Shared.Call.{releases, finish_shared}
use abraxis.Breaker.Shared.Steps.{IsConfigured, Refines}
use abraxis.Breaker.Shared.Outcomes.{record_failure-Refines, record_success-Refines}
use abraxis.Breaker.Shared.Reads.{releases-Refines}

-- The wrapped function ends before its context is done.
abbrev pub in_time : Outcome → Bool
in_time Outcome.returned = true
in_time (Outcome.failed e) = true
in_time (Outcome.ctx_done e) = false

-- The commands under a context that is done: they fail, and nothing is sent.
pub record IsDone {S : Type 0} (redis : Redis S) : Type 0 where
  pub get_fails : (now : ℕ) (k : Text) (s : S) → redis.get now k s ≡ Reply.get_failed
  pub set_fails : (now : ℕ) (k v : Text) (s : S) → redis.set now k v s ≡ (s, false)
  pub set_nx_fails :
      (now : ℕ) (k v : Text) (ttl : ℕ) (s : S) → redis.set_nx now k v ttl s ≡ (s, none)
  pub incr_fails : (now : ℕ) (k : Text) (s : S) → redis.incr now k s ≡ (s, none)
  pub decr_fails : (now : ℕ) (k : Text) (s : S) → redis.decr now k s ≡ (s, none)
  pub expire_fails : (now : ℕ) (k : Text) (ttl : ℕ) (s : S) → redis.expire now k ttl s ≡ s
  pub del_fails : (now : ℕ) (k : Text) (s : S) → redis.del now k s ≡ s

module _ {S : Type 0} {redis : Redis S} {decimal : Decimal} {view : Text → S → Option Text}
    {number : Text → S → ℕ} (laws : Steady redis decimal view number) (name : Text) (cfg : Config)
    (cache_ttl : ℕ) where
  -- The same answer, and states that agree.
  abbrev pub Agrees : Breaker S × Option Error → Circuit × Option Error → Type 0
  Agrees p q = Refines laws name cfg cache_ttl p.0 q.0 × (p.1 ≡ q.1)

  pub agree :
      {p p' : Breaker S × Option Error} {q q' : Circuit × Option Error}
      → p ≡ p'
      → q ≡ q'
      → Agrees p' q'
      → Agrees p q
  agree {p} {p'} {q} {q'} e f a =
      subst (λ x. Agrees x q) (sym e) (subst (λ y. Agrees p' y) (sym f) a)

  slots-record_failure :
      (now : ℕ) (c : Circuit)
      → (Memory.record_failure now c).concurrent_requests ≡ c.concurrent_requests
  unfolding Memory.record_failure
  slots-record_failure now c = ground arith

  slots-record_success :
      (now : ℕ) (c : Circuit)
      → (Memory.record_success now c).concurrent_requests ≡ c.concurrent_requests
  unfolding Memory.record_success
  slots-record_success now c = ground arith

  pub finish-Agrees :
      (now : ℕ) (o : Outcome) (b : Breaker S) (c : Circuit)
      → in_time o ≡ true
      → IsConfigured cfg c
      → 0 < c.concurrent_requests
      → c.concurrent_requests ≤ i32_half
      → Refines laws name cfg cache_ttl b c
      → Agrees
          (finish_shared redis redis redis decimal cfg cache_ttl now name (state_text c.state) o b)
          (Memory.finish now o c)
  unfolding finish_shared Memory.finish
  finish-Agrees now Outcome.returned b c intime conf pos low r =
      let same = slots-record_success now c in
      (
        releases-Refines laws name cfg cache_ttl now
            (record_success redis decimal cfg cache_ttl now name (state_text c.state) b)
            (Memory.record_success now c) (omega arith) (omega arith)
            (record_success-Refines laws name cfg cache_ttl now b c conf r),
        refl,
      )
  finish-Agrees now (Outcome.failed e) b c intime conf pos low r =
      let same = slots-record_failure now c in
      (
        releases-Refines laws name cfg cache_ttl now
            (record_failure redis decimal cfg cache_ttl now name (state_text c.state) b)
            (Memory.record_failure now c) (omega arith) (omega arith)
            (record_failure-Refines laws name cfg cache_ttl now b c conf r),
        refl,
      )
  finish-Agrees now (Outcome.ctx_done e) b c intime conf pos low r = absurd cc

  done-record_failure :
      {within : Redis S} (now : ℕ) (state : Text) (b : Breaker S)
      → IsDone within
      → record_failure within decimal cfg cache_ttl now name state b ≡ b
  unfolding record_failure
  done-record_failure now state b done =
      let fails = done.incr_fails now (counter_key failures name) b.store in ground (arith, fails)

  done-increment :
      {within : Redis S} (now : ℕ) (k : Counter) (s : S)
      → IsDone within
      → increment within decimal cfg cache_ttl k now name s ≡ s
  unfolding increment
  done-increment now k s done =
      ap (λ (x : S × Option ℕ). x.0) (done.incr_fails now (counter_key k name) s)

  -- Under a context that is done only the slot is released.
  pub finish_done-Agrees :
      {within : Redis S} (now : ℕ) (e : Text) (b : Breaker S) (c : Circuit)
      → IsDone within
      → 0 < c.concurrent_requests
      → c.concurrent_requests ≤ i32_half
      → Refines laws name cfg cache_ttl b c
      → Agrees
          (finish_shared redis within redis decimal cfg cache_ttl now name
            (state_text c.state)
            (Outcome.ctx_done e)
            b)
          (Memory.release c, some (Error.call_error e))
  unfolding finish_shared
  finish_done-Agrees {within} now e b c done pos low r =
      let b' : Breaker S = record b {
        store = increment within decimal cfg cache_ttl timeouts now name b.store;
      } in
      let same : record_failure within decimal cfg cache_ttl now name (state_text c.state) b' ≡ b =
        done-record_failure now (state_text c.state) b' done
        ∙ ap (λ s. record b { store = s }) (done-increment now timeouts b.store done) in
      (
        subst
            (λ x.
              Refines laws name cfg cache_ttl (releases redis decimal cfg cache_ttl now name x)
                (Memory.release c))
            (sym same) (releases-Refines laws name cfg cache_ttl now b c pos low r),
        refl,
      )
