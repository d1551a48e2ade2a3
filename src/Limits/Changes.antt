-- ===== src/Limits/Changes.antt =====
-- What UpdateRateLimit accepts and writes:
-- prism/internal/features/ratelimit/service_rate_limit.go.
use mathlib.Core.Path.{subst}
use abraxis.Base.{ℕ, ◌≡◌, refl, sym, ap, ◌∙◌, Bool, true, Option, none, some, text_eq, slt64, arith}
use abraxis.Limits.Service.{algorithm_adaptive, Limit}
use abraxis.Limits.Update.{
  UpdateParams, Written, and_then, write_names, write_requests, write_burst, write_adaptive,
  write_update,
}

abbrev pub HasBurst : {F : Type 0} → Limit F → Type 0
HasBurst c = slt64 0 c.burst_size ≡ true

-- A number is positive if it was given or the one before it was.
abbrev pub given_or_positive : Option ℕ → ℕ → Bool
given_or_positive none before = slt64 0 before
given_or_positive (some n) before = true

-- What an accepted update leaves: a positive rate exactly if it gives one or the one before was positive, a
-- positive burst likewise, and, where the strategy is adaptive, a rate strictly between its bounds.
pub record IsSoundAfter {F : Type 0} (p : UpdateParams) (before after : Limit F) : Type 0 where
  pub rate :
      slt64 0 after.requests_per_minute
      ≡ given_or_positive p.requests_per_minute before.requests_per_minute
  pub burst : slt64 0 after.burst_size ≡ given_or_positive p.burst_size before.burst_size
  pub low :
      text_eq after.strategy algorithm_adaptive ≡ true
      → slt64 after.min_requests_per_minute after.requests_per_minute ≡ true
  pub high :
      text_eq after.strategy algorithm_adaptive ≡ true
      → slt64 after.requests_per_minute after.max_requests_per_minute ≡ true

write_requests-HasBurst :
    {F : Type 0} → (p : UpdateParams) (c : Limit F) → HasBurst c → HasBurst (write_requests p c).0
write_requests-HasBurst p c h = ground arith

write_burst-HasBurst :
    {F : Type 0} → (p : UpdateParams) (c : Limit F) → HasBurst c → HasBurst (write_burst p c).0
write_burst-HasBurst p c h = ground arith

write_adaptive-HasBurst :
    {F : Type 0} → (p : UpdateParams) (c : Limit F) → HasBurst c → HasBurst (write_adaptive p c).0
write_adaptive-HasBurst p c h = ground arith

write_requests_ok :
    {F : Type 0}
    → (p : UpdateParams) (c : Limit F) → (write_requests p c).1 ≡ none
    → (slt64 0 (write_requests p c).0.requests_per_minute
        ≡ given_or_positive p.requests_per_minute c.requests_per_minute)
      × ((write_requests p c).0.burst_size ≡ c.burst_size)
write_requests_ok p c h = ground arith

write_burst_ok :
    {F : Type 0}
    → (p : UpdateParams) (c : Limit F) → (write_burst p c).1 ≡ none
    → (slt64 0 (write_burst p c).0.burst_size ≡ given_or_positive p.burst_size c.burst_size)
      × ((write_burst p c).0.requests_per_minute ≡ c.requests_per_minute)
write_burst_ok p c h = ground arith

write_adaptive-kept :
    {F : Type 0}
    → (p : UpdateParams) (c : Limit F)
    → ((write_adaptive p c).0.requests_per_minute ≡ c.requests_per_minute)
      × ((write_adaptive p c).0.burst_size ≡ c.burst_size)
write_adaptive-kept p c = ground arith

write_adaptive-order :
    {F : Type 0}
    → (p : UpdateParams) (c : Limit F) → (write_adaptive p c).1 ≡ none
    → text_eq (write_adaptive p c).0.strategy algorithm_adaptive ≡ true
    → (slt64
          (write_adaptive p c).0.min_requests_per_minute
          (write_adaptive p c).0.requests_per_minute
        ≡ true)
      × (slt64
            (write_adaptive p c).0.requests_per_minute
            (write_adaptive p c).0.max_requests_per_minute
          ≡ true)
write_adaptive-order p c h = ground arith

and_then-keeps :
    {F : Type 0}
    → (P : Limit F → Type 0) (w : Written F) (next : Limit F → Written F) → P w.0
    → ((c : Limit F) → P c → P (next c).0)
    → P (and_then w next).0
and_then-keeps P (c, some e) next h step = h
and_then-keeps P (c, none) next h step = step c h

and_then-none :
    {F : Type 0}
    → (w : Written F) (next : Limit F → Written F) → (and_then w next).1 ≡ none
    → (w.1 ≡ none) × (and_then w next ≡ next w.0)
and_then-none (c, some e) next h = absurd cc
and_then-none (c, none) next h = (refl, refl)

pub write_update-HasBurst :
    {F : Type 0} → (p : UpdateParams) (c : Limit F) → HasBurst c → HasBurst (write_update p c).0
unfolding write_update
write_update-HasBurst p c h =
    and_then-keeps HasBurst (write_requests p (write_names p c)) _
      (write_requests-HasBurst p (write_names p c) h)
      (λ c1 h1.
        and_then-keeps HasBurst (write_burst p c1) _ (write_burst-HasBurst p c1 h1)
          (write_adaptive-HasBurst p))

-- After an update that is accepted the rate is positive exactly if the update gives one or the rate before
-- was positive, the burst likewise, and, where the strategy that then holds is adaptive, the rate lies
-- strictly between the bounds.
pub write_update-IsSoundAfter :
    {F : Type 0}
    → (p : UpdateParams) (c : Limit F) → (write_update p c).1 ≡ none
    → IsSoundAfter p c (write_update p c).0
unfolding write_update
write_update-IsSoundAfter {F = F} p c done =
    let w1 = write_requests p (write_names p c) in
    let w2 = write_burst p w1.0 in
    let w3 = write_adaptive p w2.0 in
    let (done1, e1) =
      and_then-none w1 (λ c1. and_then (write_burst p c1) (write_adaptive p)) done in
    let (done2, e2) = and_then-none w2 (write_adaptive p) (ap (λ w. w.1) (sym e1) ∙ done) in
    let same = e1 ∙ e2 in
    let (rate, kept_burst) = write_requests_ok p (write_names p c) done1 in
    let (burst, kept_rate) = write_burst_ok p w1.0 done2 in
    let (last_rate, last_burst) = write_adaptive-kept p w2.0 in
    let order = write_adaptive-order p w2.0 (ap (λ w. w.1) (sym same) ∙ done) in
    let sound : IsSoundAfter p c w3.0 = record {
      rate = ap (slt64 0) (last_rate ∙ kept_rate) ∙ rate;
      burst = ap (slt64 0) last_burst ∙ burst ∙ ap (given_or_positive p.burst_size) kept_burst;
      low = λ e. (order e).0;
      high = λ e. (order e).1;
    } in
    subst (λ (w : Written F). IsSoundAfter p c w.0) (sym same) sound

-- The names under which the maps hold a limit.
abbrev pub HasNames : {F : Type 0} → Limit F → Limit F → Type 0
HasNames c0 c = (c.id ≡ c0.id) × (c.type ≡ c0.type) × (c.target ≡ c0.target)

write_requests-HasNames :
    {F : Type 0}
    → (p : UpdateParams) (c0 c : Limit F) → HasNames c0 c
    → HasNames c0 (write_requests p c).0
write_requests-HasNames p c0 c h = ground arith

write_burst-HasNames :
    {F : Type 0}
    → (p : UpdateParams) (c0 c : Limit F) → HasNames c0 c
    → HasNames c0 (write_burst p c).0
write_burst-HasNames p c0 c h = ground arith

write_adaptive-HasNames :
    {F : Type 0}
    → (p : UpdateParams) (c0 c : Limit F) → HasNames c0 c
    → HasNames c0 (write_adaptive p c).0
write_adaptive-HasNames p c0 c h = ground arith

pub write_update-HasNames :
    {F : Type 0} → (p : UpdateParams) (c : Limit F) → HasNames c (write_update p c).0
unfolding write_update
write_update-HasNames p c =
    and_then-keeps (HasNames c) (write_requests p (write_names p c)) _
      (write_requests-HasNames p c (write_names p c) (refl, refl, refl))
      (λ c1 h1.
        and_then-keeps (HasNames c) (write_burst p c1) _ (write_burst-HasNames p c c1 h1)
          (write_adaptive-HasNames p c))
