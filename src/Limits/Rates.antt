-- ===== src/Limits/Rates.antt =====
-- What the configured rates have to do with the answers of CheckRateLimit:
-- prism/internal/features/ratelimit/service_rate_limit.go.
use mathlib.Core.Option
use abraxis.Base.{
  ℕ, ◌≡◌, inl, inr, refl, sym, ap, ◌∙◌, Text, Bool, true, false, Option, none, some, List, [], ◌∷◌,
  map, text_eq, lookup, if◌then◌else◌, Bool-cases, Option-cases,
}
use abraxis.Limits.Service.{Limit, Service, find_config, make_cache_key}
use abraxis.Limits.Check.{Info, no_info, Floats, Parsers, CheckParams, check_rate_limit}
use abraxis.Limits.Admission.{candidates, governing, after, answer, check_rate_limit-answer}

module _ {F : Type 0} (f : Limit F → Limit F) where
  -- The service with every limit changed by `f`.
  abbrev pub retuned : Service F → Service F
  retuned s = record s { configs_by_id = map (λ e. (e.0, f e.1)) s.configs_by_id }

  lookup-map :
      (id : Text) (m : List (Text × Limit F))
      → lookup id (map (λ e. (e.0, f e.1)) m) ≡ Option.map f (lookup id m)
  unfolding lookup
  lookup-map id [] = refl
  lookup-map id ((k, c) ∷ m) = elim (Bool-cases (text_eq k id)) [
    | inl e ↦ rw (e, lookup) refl
    | inr e ↦ rw (e, lookup) (lookup-map id m)
  ]

  find_config-retuned :
      (key : Text) (s : Service F) → find_config key (retuned s) ≡ Option.map f (find_config key s)
  unfolding find_config
  find_config-retuned key s = elim (Option-cases (lookup key s.configs)) [
    | inl q ↦ rw (q, find_config) refl
    | inr (id, q) ↦ rw (q, find_config) (lookup-map id s.configs_by_id)
  ]

  abbrev at_limit : Text × Text × Limit F → Text × Text × Limit F
  at_limit (type, target, c) = (type, target, f c)

  governing-retuned :
      (cs : List (Text × Text)) (s : Service F)
      → governing cs (retuned s) ≡ Option.map at_limit (governing cs s)
  unfolding governing
  governing-retuned [] s = refl
  governing-retuned ((type, target) ∷ cs) s =
      let here = find_config-retuned (make_cache_key type target) s in
      elim (Option-cases (find_config (make_cache_key type target) s)) [
        | inl q ↦ rw (here, q, governing) (governing-retuned cs s)
        | inr (c, q) ↦ rw (here, q, governing) refl
      ]

  module _ {L : Type 0} (floats : Floats F) (parsers : Parsers)
      (allow : Text → L → L × Bool × Info) where
    after-same :
        (now : ℕ) (c d : Limit F) (target : Text) (s t : Service F) (r : L × Bool × Info)
        → (after floats parsers allow now c target s r).1
          ≡ (after floats parsers allow now d target t r).1
    after-same now c d target s t (l, true, info) = refl
    after-same now c d target s t (l, false, info) = refl

    gate-same :
        (now : ℕ) (active : Bool) (c d : Limit F) (type target : Text) (s t : Service F) (l : L)
        → (if active
            then after floats parsers allow now c target s (allow (make_cache_key type target) l)
            else (s, l, true, no_info)).1
          ≡ (if active
              then after floats parsers allow now d target t (allow (make_cache_key type target) l)
              else (t, l, true, no_info)).1
    gate-same now true c d type target s t l =
        after-same now c d target s t (allow (make_cache_key type target) l)
    gate-same now false c d type target s t l = refl

    answer-same :
        (now : ℕ) (g : Option (Text × Text × Limit F)) (s : Service F) (l : L)
        → ((c : Limit F) → (f c).is_active ≡ c.is_active)
        → (answer floats parsers allow now (Option.map at_limit g) (retuned s) l).1
          ≡ (answer floats parsers allow now g s l).1
    answer-same now none s l h = refl
    answer-same now (some (type, target, c)) s l h =
        ap
          (λ active.
            (if active
              then after floats parsers allow now (f c) target (retuned s)
                  (allow (make_cache_key type target) l)
              else (retuned s, l, true, no_info)).1)
          (h c)
        ∙ gate-same now c.is_active (f c) c type target (retuned s) s l

    -- The rates, bursts, bounds, strategies and loads of the limits decide nothing: if every limit is
    -- replaced by another that is as active, each request gets the same answer and leaves the limiter
    -- in the same state.
    pub check_rate_limit-retuned :
        (now : ℕ) (p : CheckParams) (s : Service F) (l : L)
        → ((c : Limit F) → (f c).is_active ≡ c.is_active)
        → (check_rate_limit floats parsers allow now p (retuned s) l).1
          ≡ (check_rate_limit floats parsers allow now p s l).1
    check_rate_limit-retuned now p s l h =
        ap (λ r. r.1) (check_rate_limit-answer floats parsers allow now p (retuned s) l)
        ∙ ap (λ g. (answer floats parsers allow now g (retuned s) l).1)
            (governing-retuned (candidates p) s)
        ∙ answer-same now (governing (candidates p) s) s l h
        ∙ sym (ap (λ r. r.1) (check_rate_limit-answer floats parsers allow now p s l))
