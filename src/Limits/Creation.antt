-- ===== src/Limits/Creation.antt =====
-- What CreateRateLimit accepts: prism/internal/features/ratelimit/service_rate_limit.go.
use abraxis.Base.{
  ℕ, ◌≡◌, inl, inr, refl, sym, ap, ◌∙◌, Text, Bool, true, false, not, ◌||◌, text_eq, is_empty,
  slt64, Bool-cases,
}
use abraxis.Limits.Service.{
  algorithm_adaptive, type_global, Limit, LimitError, Result, ok, require, CreateParams,
  check_create, with_strategy, adaptive_defaults, check_adaptive, check_rates, check_strategy,
  name_required, type_required, target_required, requests_not_positive, burst_not_positive, made,
}

-- Rates and burst are positive, and an adaptive rate lies strictly between its bounds.
abbrev pub IsSound : {F : Type 0} → Limit F → Type 0
IsSound c =
    (slt64 0 c.requests_per_minute ≡ true)
    × (slt64 0 c.burst_size ≡ true)
    × (text_eq c.strategy algorithm_adaptive ≡ true
        → (slt64 c.min_requests_per_minute c.requests_per_minute ≡ true)
          × (slt64 c.requests_per_minute c.max_requests_per_minute ≡ true))

require_ok :
    {A : Type 0}
    → (test : Bool) (e : LimitError) (next : Result A) (a : A) → require test e next ≡ ok a
    → (test ≡ true) × (next ≡ ok a)
require_ok true e next a h = (refl, h)
require_ok false e next a h = cc

ok-injective : {A : Type 0} → (a b : A) → ok a ≡ ok b → a ≡ b
ok-injective a b h = cc

check_adaptive_ok :
    (p q : CreateParams)
    → check_adaptive p ≡ ok q
    → (p ≡ q)
      × (slt64 q.min_requests_per_minute q.requests_per_minute ≡ true)
      × (slt64 q.requests_per_minute q.max_requests_per_minute ≡ true)
check_adaptive_ok p q h =
    let (low, h1) = require_ok (slt64 p.min_requests_per_minute p.requests_per_minute) _ _ q h in
    let (high, h2) = require_ok (slt64 p.requests_per_minute p.max_requests_per_minute) _ _ q h1 in
    let same = ok-injective p q h2 in
    (
      same,
      ap (λ r. slt64 r.min_requests_per_minute r.requests_per_minute) (sym same) ∙ low,
      ap (λ r. slt64 r.requests_per_minute r.max_requests_per_minute) (sym same) ∙ high,
    )

check_rates_of_create : (p q : CreateParams) → check_create p ≡ ok q → check_rates p ≡ ok q
unfolding check_create
check_rates_of_create p q h =
    let targeted =
      require (not (is_empty p.target) || text_eq p.type type_global) target_required
        (check_rates p) in
    let typed = require (not (is_empty p.type)) type_required targeted in
    let h1 = (require_ok (not (is_empty p.name)) name_required typed q h).1 in
    let h2 = (require_ok (not (is_empty p.type)) type_required targeted q h1).1 in
    (require_ok (not (is_empty p.target) || text_eq p.type type_global) target_required
      (check_rates p) q h2).1

check_strategy_ok :
    (p q : CreateParams)
    → check_strategy p ≡ ok q
    → (q.requests_per_minute ≡ p.requests_per_minute)
      × (q.burst_size ≡ p.burst_size)
      × (text_eq q.strategy algorithm_adaptive ≡ true
          → (slt64 q.min_requests_per_minute q.requests_per_minute ≡ true)
            × (slt64 q.requests_per_minute q.max_requests_per_minute ≡ true))
check_strategy_ok p q h = elim (Bool-cases (text_eq p.strategy algorithm_adaptive)) [
  | inl adaptive ↦
      let (same, low, high) = check_adaptive_ok (adaptive_defaults p) q (rw adaptive at h) in
      (
        ap (λ r. r.requests_per_minute) (sym same),
        ap (λ r. r.burst_size) (sym same),
        λ e. (low, high),
      )
  | inr fixed ↦
      let same = ok-injective p q (rw fixed at h) in
      (
        ap (λ r. r.requests_per_minute) (sym same),
        ap (λ r. r.burst_size) (sym same),
        λ e. cc (ap (λ r. text_eq r.strategy algorithm_adaptive) same, fixed, e),
      )
]

-- What is created is sound.
pub check_create-IsSound :
    {F : Type 0}
    → (id : Text) (now : ℕ) (middle : F) (p q : CreateParams) → check_create p ≡ ok q
    → IsSound (made id now middle q)
check_create-IsSound id now middle p q h =
    let chosen = check_strategy (with_strategy p) in
    let rated = require (slt64 0 p.burst_size) burst_not_positive chosen in
    let (rate, h1) =
      require_ok (slt64 0 p.requests_per_minute) requests_not_positive rated q
        (check_rates_of_create p q h) in
    let (burst, h2) = require_ok (slt64 0 p.burst_size) burst_not_positive chosen q h1 in
    let (same_rate, same_burst, order) = check_strategy_ok (with_strategy p) q h2 in
    (ap (slt64 0) same_rate ∙ rate, ap (slt64 0) same_burst ∙ burst, order)
