-- ===== src/Breaker/Shared/Reads.antt =====
-- What the breaker over Redis reads of a circuit, and the slots that it releases:
-- prism/internal/features/gateway/adapters/circuitbreaker, redis.go and memory.go.

use mathlib.Core.Option.{some-injective}
use abraxis.Base.{
  ℕ, ◌-◌, ◌<◌, ◌≤◌, ◌≡◌, sym, ap, ◌∙◌, Text, Option, none, some, inl, inr, Bool-cases, Option-cases,
  lookup, lookup-insert_self, ltb, inc64, dec32, if◌then◌else◌, arith, i32_half,
}
use abraxis.Breaker.Circuit.{State, Circuit, Outcome, Error, is_closed, is_open, is_half_open}
use abraxis.Breaker.Circuit as Memory
use abraxis.Breaker.Memory.{Config}
use abraxis.Breaker.Shared.Store.{
  state_text, rejected, concurrent, state_key, last_change_key, counter_key, Redis, Decimal,
  CachedState, Breaker,
}
use abraxis.Breaker.Shared.Logical.{Steady, Held, put_count, dec64}
use abraxis.Breaker.Shared.Commands.{held, held-decr}
use abraxis.Breaker.Shared.Operations.{
  remember, read_state, get_state, get_last_state_change, release_execution, increment,
}
use abraxis.Breaker.Shared.Call.{releases, rejects}
use abraxis.Breaker.Shared.Steps.{held_of, held_of-with_count, Refines, counted-Refines}

module _ {S : Type 0} {redis : Redis S} {decimal : Decimal} {view : Text → S → Option Text}
    {number : Text → S → ℕ} (laws : Steady redis decimal view number) (name : Text) (cfg : Config)
    (cache_ttl : ℕ) where
  remembered-Refines :
      (now : ℕ) (b : Breaker S) (c : Circuit)
      → Refines laws name cfg cache_ttl b c
      → Refines laws name cfg cache_ttl
          (remember redis decimal cfg cache_ttl now name (state_text c.state) b)
          c
  remembered-Refines now b c r =
      let kept : CachedState = record { state = state_text c.state; cached_at = now } in
      record {
        holds = r.holds;
        cached = λ e found.
            ap (λ (x : CachedState). x.state)
              (some-injective e kept (sym found ∙ lookup-insert_self name kept b.local_cache));
      }

  read_state-eq :
      (now : ℕ) (b : Breaker S) (t : Text)
      → view (state_key name) b.store ≡ some t
      → read_state redis decimal cfg cache_ttl now name b
        ≡ (remember redis decimal cfg cache_ttl now name t b, some t)
  unfolding read_state
  read_state-eq now b t h = ground (arith, laws.get_view now (state_key name) b.store)

  known-eq :
      (now : ℕ) (b : Breaker S) (e : CachedState)
      → lookup name b.local_cache ≡ some e
      → get_state redis decimal cfg cache_ttl now name b ≡ (
          if ltb (now - e.cached_at) cache_ttl
          then (b, some e.state)
          else read_state redis decimal cfg cache_ttl now name b)
  unfolding get_state
  known-eq now b e h = ground arith

  unknown-eq :
      (now : ℕ) (b : Breaker S)
      → lookup name b.local_cache ≡ none
      → get_state redis decimal cfg cache_ttl now name b
        ≡ read_state redis decimal cfg cache_ttl now name b
  unfolding get_state
  unknown-eq now b h = ground arith

  pub get_state-Refines :
      (now : ℕ) (b : Breaker S) (c : Circuit)
      → Refines laws name cfg cache_ttl b c
      → (b' : Breaker S) × (get_state redis decimal cfg cache_ttl now name b
          ≡ (b', some (state_text c.state)))
        × Refines laws name cfg cache_ttl b' c
  get_state-Refines now b c r =
      let t = state_text c.state in
      let b' = remember redis decimal cfg cache_ttl now name t b in
      let read = read_state-eq now b t (ap (λ (x : Held). x.state) r.holds) in
      let r' = remembered-Refines now b c r in
      elim (Option-cases (lookup name b.local_cache)) [
        | inl e ↦ (b', unknown-eq now b e ∙ read, r')
        | inr (k, e) ↦ elim (Bool-cases (ltb (now - k.cached_at) cache_ttl)) [
          | inl young ↦ (b, known-eq now b k e ∙ rw young (ap (λ x. (b, some x)) (r.cached k e)), r)
          | inr old ↦ (b', known-eq now b k e ∙ rw old read, r')
        ]
      ]

  pub get_last_state_change-eq :
      (now : ℕ) (s : S) (c : Circuit)
      → held laws name s ≡ held_of decimal c
      → get_last_state_change redis decimal cfg cache_ttl now name s ≡ (s, some c.last_state_change)
  unfolding get_last_state_change
  get_last_state_change-eq now s c h =
      let seen : view (last_change_key name) s ≡ some (decimal.print c.last_state_change) =
        ap (λ (x : Held). x.last_change) h in
      ground
        (arith, laws.get_view now (last_change_key name) s, laws.parse_print c.last_state_change)

  pub rejects-Refines :
      (now : ℕ) (b : Breaker S) (c : Circuit)
      → Refines laws name cfg cache_ttl b c
      → Refines laws name cfg cache_ttl
          (rejects redis decimal cfg cache_ttl now name b)
          (record c { rejected = inc64 c.rejected })
  unfolding increment
  rejects-Refines now b c r = counted-Refines laws name cfg cache_ttl now rejected b c r

  pub held-released :
      (now : ℕ) (s : S) (c : Circuit)
      → held laws name s ≡ held_of decimal c
      → held laws name (redis.decr now (counter_key concurrent name) s).0
        ≡ held_of decimal (record c { concurrent_requests = dec64 c.concurrent_requests })
  held-released now s c h =
      held-decr laws name now concurrent s
      ∙ ap
          (λ (x : Held). record x {
            count = put_count concurrent (dec64 (x.count concurrent)) x.count;
          })
          h
      ∙ held_of-with_count decimal concurrent (dec64 c.concurrent_requests) c

  pub releases-Refines :
      (now : ℕ) (b : Breaker S) (c : Circuit)
      → 0 < c.concurrent_requests
      → c.concurrent_requests ≤ i32_half
      → Refines laws name cfg cache_ttl b c
      → Refines laws name cfg cache_ttl
          (releases redis decimal cfg cache_ttl now name b)
          (Memory.release c)
  unfolding release_execution Memory.release
  releases-Refines now b c pos low r =
      let same : dec64 c.concurrent_requests ≡ dec32 c.concurrent_requests =
        unfold dec32 in omega arith in
      record {
        holds =
            held-released now b.store c r.holds
            ∙ ap (λ n. held_of decimal (record c { concurrent_requests = n })) same;
        cached = r.cached;
      }
