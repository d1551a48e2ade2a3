-- ===== src/Breaker/Shared/Commands.antt =====
-- What each command of Redis does to what is held of a circuit:
-- prism/internal/features/gateway/adapters/circuitbreaker/redis.go.
use mathlib.Core.Path.{fun_ext, subst}
use abraxis.Base.{
  ℕ, ◌≡◌, refl, ap, ◌∙◌, Text, false, Option, none, some, inl, inr, Bool-cases, text_eq,
  text_eq_refl, eq_of_text_eq, ◌==◌, inc64, if◌then◌else◌,
}
use abraxis.Breaker.Shared.Store.{
  Counter, state_key, lock_key, last_change_key, counter_key, Redis, Decimal,
}
use abraxis.Breaker.Shared.Logical.{
  Steady, Held, put_count, rank, dec64, counter_key-eq, state-counter, lock-counter, change-counter,
  counter-state, counter-lock, counter-change,
}

module _ {S : Type 0} {redis : Redis S} {decimal : Decimal} {view : Text → S → Option Text}
    {number : Text → S → ℕ} (laws : Steady redis decimal view number) (name : Text) where
  abbrev pub held : S → Held
  held s = record {
    state = view (state_key name) s;
    last_change = view (last_change_key name) s;
    lock = view (lock_key name) s;
    count = λ k. number (counter_key k name) s;
  }

  pub held-incr :
      (now : ℕ) (k : Counter) (s : S)
      → held (redis.incr now (counter_key k name) s).0
        ≡ record (held s) { count = put_count k (inc64 ((held s).count k)) (held s).count }
  held-incr now k s = λ i. record {
    state = laws.incr_view now (counter_key k name) s (state_key name) (counter-state name k) i;
    last_change =
        laws.incr_view now (counter_key k name) s (last_change_key name) (counter-change name k) i;
    lock = laws.incr_view now (counter_key k name) s (lock_key name) (counter-lock name k) i;
    count = counts i;
  }
    where
      counts :
          ◌≡◌ {A = Counter → ℕ}
            (λ j. number (counter_key j name) (redis.incr now (counter_key k name) s).0)
            (put_count k
              (inc64 (number (counter_key k name) s))
              (λ j. number (counter_key j name) s))
      counts = fun_ext (λ j.
          laws.incr_number now (counter_key k name) s (counter_key j name)
          ∙ ap
              (λ b.
                if b then inc64 (number (counter_key k name) s) else number (counter_key j name) s)
              (counter_key-eq name k j))

  number-set_zero :
      (now : ℕ) (k j : Counter) (s : S)
      → number (counter_key j name) (redis.set now (counter_key k name) (decimal.print 0) s).0
        ≡ put_count k 0 (λ m. number (counter_key m name) s) j
  number-set_zero now k j s =
      let same = counter_key-eq name k j in
      elim (Bool-cases (rank k == rank j)) [
        | inl e ↦
            let one : counter_key k name ≡ counter_key j name =
              eq_of_text_eq (counter_key k name) (counter_key j name) (same ∙ e) in
            rw e (
              subst (λ c. number c (redis.set now (counter_key k name) (decimal.print 0) s).0 ≡ 0)
                one (laws.set_number now (counter_key k name) 0 s))
        | inr e ↦ rw e (
            laws.set_number_other now (counter_key k name) (decimal.print 0) s (counter_key j name)
              (same ∙ e))
      ]

  pub held-decr :
      (now : ℕ) (k : Counter) (s : S)
      → held (redis.decr now (counter_key k name) s).0
        ≡ record (held s) { count = put_count k (dec64 ((held s).count k)) (held s).count }
  held-decr now k s = λ i. record {
    state = laws.decr_view now (counter_key k name) s (state_key name) (counter-state name k) i;
    last_change =
        laws.decr_view now (counter_key k name) s (last_change_key name) (counter-change name k) i;
    lock = laws.decr_view now (counter_key k name) s (lock_key name) (counter-lock name k) i;
    count = counts i;
  }
    where
      counts :
          ◌≡◌ {A = Counter → ℕ}
            (λ j. number (counter_key j name) (redis.decr now (counter_key k name) s).0)
            (put_count k
              (dec64 (number (counter_key k name) s))
              (λ j. number (counter_key j name) s))
      counts = fun_ext (λ j.
          laws.decr_number now (counter_key k name) s (counter_key j name)
          ∙ ap
              (λ b.
                if b then dec64 (number (counter_key k name) s) else number (counter_key j name) s)
              (counter_key-eq name k j))

  pub held-expire :
      (now : ℕ) (k : Text) (ttl : ℕ) (s : S) → held (redis.expire now k ttl s) ≡ held s
  held-expire now k ttl s = λ i. record {
    state = laws.expire_view now k ttl s (state_key name) i;
    last_change = laws.expire_view now k ttl s (last_change_key name) i;
    lock = laws.expire_view now k ttl s (lock_key name) i;
    count = λ j. laws.expire_number now k ttl s (counter_key j name) i;
  }

  pub held-set_zero :
      (now : ℕ) (k : Counter) (s : S)
      → held (redis.set now (counter_key k name) (decimal.print 0) s).0
        ≡ record (held s) { count = put_count k 0 (held s).count }
  held-set_zero now k s = λ i. record {
    state = other (state_key name) (counter-state name k) i;
    last_change = other (last_change_key name) (counter-change name k) i;
    lock = other (lock_key name) (counter-lock name k) i;
    count = counts i;
  }
    where
      other :
          (j : Text)
          → text_eq (counter_key k name) j ≡ false
          → view j (redis.set now (counter_key k name) (decimal.print 0) s).0 ≡ view j s
      other j ne =
          laws.set_view now (counter_key k name) (decimal.print 0) s j
          ∙ ap (λ b. if b then some (decimal.print 0) else view j s) ne

      counts :
          ◌≡◌ {A = Counter → ℕ}
            (λ j.
              number
                (counter_key j name)
                (redis.set now (counter_key k name) (decimal.print 0) s).0)
            (put_count k 0 (λ j. number (counter_key j name) s))
      counts = fun_ext (λ j. number-set_zero now k j s)

  pub held-set_state :
      (now : ℕ) (v : Text) (s : S)
      → held (redis.set now (state_key name) v s).0 ≡ record (held s) { state = some v }
  unfolding text_eq
  held-set_state now v s = λ i. record {
    state =
        (laws.set_view now (state_key name) v s (state_key name)
            ∙ ap (λ b. if b then some v else view (state_key name) s)
                (text_eq_refl (state_key name)))
          i;
    last_change = laws.set_view now (state_key name) v s (last_change_key name) i;
    lock = laws.set_view now (state_key name) v s (lock_key name) i;
    count = λ j.
        laws.set_number_other now (state_key name) v s (counter_key j name) (state-counter name j)
          i;
  }

  pub held-set_change :
      (now : ℕ) (v : Text) (s : S)
      → held (redis.set now (last_change_key name) v s).0 ≡ record (held s) { last_change = some v }
  unfolding text_eq
  held-set_change now v s = λ i. record {
    state = laws.set_view now (last_change_key name) v s (state_key name) i;
    last_change =
        (laws.set_view now (last_change_key name) v s (last_change_key name)
            ∙ ap (λ b. if b then some v else view (last_change_key name) s)
                (text_eq_refl (last_change_key name)))
          i;
    lock = laws.set_view now (last_change_key name) v s (lock_key name) i;
    count = λ j.
        laws.set_number_other now (last_change_key name) v s (counter_key j name)
          (change-counter name j) i;
  }

  -- Under the lock, whatever stands in it.
  pub held-set_nx :
      (now : ℕ) (v : Text) (ttl : ℕ) (s : S)
      → held (redis.set_nx now (lock_key name) v ttl s).0 ≡ record (held s) {
        lock = view (lock_key name) (redis.set_nx now (lock_key name) v ttl s).0;
      }
  unfolding text_eq
  held-set_nx now v ttl s = λ i. record {
    state = laws.set_nx_view now (lock_key name) v ttl s (state_key name) refl i;
    last_change = laws.set_nx_view now (lock_key name) v ttl s (last_change_key name) refl i;
    lock = view (lock_key name) (redis.set_nx now (lock_key name) v ttl s).0;
    count = λ j.
        laws.set_nx_number now (lock_key name) v ttl s (counter_key j name) (lock-counter name j) i;
  }

  pub held-del :
      (now : ℕ) (s : S) → held (redis.del now (lock_key name) s) ≡ record (held s) { lock = none }
  unfolding text_eq
  held-del now s = λ i. record {
    state = laws.del_view now (lock_key name) s (state_key name) i;
    last_change = laws.del_view now (lock_key name) s (last_change_key name) i;
    lock =
        (laws.del_view now (lock_key name) s (lock_key name)
            ∙ ap (λ b. if b then none else view (lock_key name) s) (text_eq_refl (lock_key name)))
          i;
    count = λ j. laws.del_number now (lock_key name) s (counter_key j name) (lock-counter name j) i;
  }
