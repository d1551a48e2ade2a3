-- ===== src/Limits/Adapting.antt =====
-- What checks, loads and the background updater leave of the configuration of RateLimitService: prism/internal/features/ratelimit/service_rate_limit.go.
use abraxis.Base.{
  ℕ, ◌≡◌, inl, inr, refl, ◌∙◌, Text, Bool, true, false, ◌||◌, Option, none, some, List, [], ◌∷◌,
  map, text_eq, if◌then◌else◌, lookup, arith, Bool-cases, Option-cases,
}
use abraxis.Limits.Ring.{store}
use abraxis.Limits.Service.{algorithm_adaptive, Limit, Service, make_cache_key}
use abraxis.Limits.Check.{
  Info, Floats, Parsers, CheckParams, adapt, update_adaptive_load, update_system_load,
  update_adaptive_rate_limits, record_violation, violation_of, check_rate_limit,
}
use abraxis.Limits.Changes.{HasNames, HasBurst}
use abraxis.Limits.Index.{IsIndexed, none-ne-some, rewrite-IsIndexed, signal_if-IsIndexed}
use abraxis.Limits.Admission.{candidates, governing, after, answer, check_rate_limit-answer}

abbrev on_value : {A B : Type 0} → (A → B) → Text × A → Text × B
on_value f e = (e.0, f e.1)

lookup-map :
    {A : Type 0}
    → (f : A → A) (k : Text) (m : List (Text × A)) (a : A) → lookup k m ≡ some a
    → lookup k (map (on_value f) m) ≡ some (f a)
unfolding lookup
lookup-map f k [] a h = absurd (none-ne-some a h)
lookup-map f k ((j, b) ∷ m) a h = elim (Bool-cases (text_eq j k)) [
  | inl e ↦ ground (arith, h, e)
  | inr e ↦ let rest = lookup-map f k m a (ground (arith, h, e)) in ground (arith, e, rest)
]

map-lookup :
    {A : Type 0}
    → (f : A → A) (k : Text) (m : List (Text × A)) (b : A) → lookup k (map (on_value f) m) ≡ some b
    → (a : A) × (lookup k m ≡ some a) × (b ≡ f a)
unfolding lookup
map-lookup f k [] b h = absurd (none-ne-some b h)
map-lookup f k ((j, a) ∷ m) b h = elim (Bool-cases (text_eq j k)) [
  | inl e ↦ (a, rw e refl, ground (arith, h, e))
  | inr e ↦ let (c, held, same) = map-lookup f k m b (ground (arith, h, e)) in (c, rw e held, same)
]

-- Every limit is changed in place, its names kept and its burst positive.
map-IsIndexed :
    {F : Type 0}
    → (f : Limit F → Limit F) (s : Service F) → ((c : Limit F) → HasNames c (f c))
    → ((c : Limit F) → HasBurst c → HasBurst (f c))
    → IsIndexed s
    → IsIndexed (record s { configs_by_id = map (on_value f) s.configs_by_id })
map-IsIndexed f s names burst ix = record {
  pointed = λ key j at_key.
      let (d, d_held, d_key) = ix.pointed key j at_key in
      (f d, lookup-map f j s.configs_by_id d d_held, cc ((names d).1, (names d).2, d_key));
  held = λ j c c_held.
      let (d, d_held, same) = map-lookup f j s.configs_by_id c c_held in
      let (d_id, d_burst) = ix.held j d d_held in
      (rw same ((names d).0 ∙ d_id), rw same (burst d d_burst));
}

module _ {F : Type 0} (floats : Floats F) where
  adapt-HasNames : (now : ℕ) (c : Limit F) → HasNames c (adapt floats now c)
  adapt-HasNames now c = ground arith

  adapt-HasBurst : (now : ℕ) (c : Limit F) → HasBurst c → HasBurst (adapt floats now c)
  adapt-HasBurst now c h = ground arith

  pub update_adaptive_rate_limits-IsIndexed :
      (now : ℕ) (s : Service F) → IsIndexed s → IsIndexed (update_adaptive_rate_limits floats now s)
  unfolding update_adaptive_rate_limits
  update_adaptive_rate_limits-IsIndexed now s ix =
      map-IsIndexed (adapt floats now) s (adapt-HasNames now) (adapt-HasBurst now) ix

  abbrev loaded : F → Limit F → Limit F
  loaded load c =
      if text_eq c.strategy algorithm_adaptive then record c { current_load = load } else c

  loaded-HasNames : (load : F) (c : Limit F) → HasNames c (loaded load c)
  loaded-HasNames load c = ground arith

  loaded-HasBurst : (load : F) (c : Limit F) → HasBurst c → HasBurst (loaded load c)
  loaded-HasBurst load c h = ground arith

  pub update_system_load-IsIndexed :
      (load : F) (s : Service F) → IsIndexed s → IsIndexed (update_system_load floats load s).0
  unfolding update_system_load
  update_system_load-IsIndexed load s ix =
      elim (Bool-cases (floats.below load floats.no_load || floats.below floats.full_load load)) [
        | inl e ↦ rw (e, update_system_load) ix
        | inr e ↦
            rw (e, update_system_load)
              (signal_if-IsIndexed true _
                (map-IsIndexed (loaded load) s (loaded-HasNames load) (loaded-HasBurst load) ix))
      ]

  update_adaptive_load-IsIndexed :
      (id : Text) (delta : F) (s : Service F)
      → IsIndexed s
      → IsIndexed (update_adaptive_load floats id delta s)
  unfolding update_adaptive_load
  update_adaptive_load-IsIndexed id delta s ix = elim (Option-cases (lookup id s.configs_by_id)) [
    | inl q ↦ rw (q, update_adaptive_load) ix
    | inr (c, q) ↦ elim (Bool-cases (text_eq c.strategy algorithm_adaptive)) [
      | inr e ↦ rw (q, e, update_adaptive_load) ix
      | inl e ↦
          rw (q, e, update_adaptive_load)
            (signal_if-IsIndexed true _
              (rewrite-IsIndexed id c _ s ix q (refl, refl, refl) (ix.held id c q).1))
    ]
  ]

module _ {F L : Type 0} (floats : Floats F) (parsers : Parsers)
    (allow : Text → L → L × Bool × Info) where
  record_violation-IsIndexed :
      (now : ℕ) (c : Limit F) (target : Text) (threshold : ℕ) (s : Service F)
      → IsIndexed s
      → IsIndexed (record_violation floats parsers now c target threshold s)
  unfolding record_violation
  record_violation-IsIndexed now c target threshold s ix =
      let kept : Service F = record s {
        violations = store (violation_of floats parsers now c target threshold) s.violations;
      } in
      let kept_ix : IsIndexed kept = record { pointed = ix.pointed; held = ix.held } in
      elim (Bool-cases (text_eq c.strategy algorithm_adaptive)) [
        | inl e ↦
            rw (e, record_violation)
              (update_adaptive_load-IsIndexed floats c.id floats.tenth kept kept_ix)
        | inr e ↦ rw (e, record_violation) kept_ix
      ]

  after-IsIndexed :
      (now : ℕ) (c : Limit F) (target : Text) (s : Service F) (r : L × Bool × Info)
      → IsIndexed s
      → IsIndexed (after floats parsers allow now c target s r).0
  after-IsIndexed now c target s (l, true, info) ix = ix
  after-IsIndexed now c target s (l, false, info) ix =
      record_violation-IsIndexed now c target info.limit s ix

  answer-IsIndexed :
      (now : ℕ) (g : Option (Text × Text × Limit F)) (s : Service F) (l : L)
      → IsIndexed s
      → IsIndexed (answer floats parsers allow now g s l).0
  answer-IsIndexed now none s l ix = ix
  answer-IsIndexed now (some (type, target, c)) s l ix = elim (Bool-cases c.is_active) [
    | inl e ↦ simp e (after-IsIndexed now c target s (allow (make_cache_key type target) l) ix)
    | inr e ↦ simp e ix
  ]

  pub check_rate_limit-IsIndexed :
      (now : ℕ) (p : CheckParams) (s : Service F) (l : L)
      → IsIndexed s
      → IsIndexed (check_rate_limit floats parsers allow now p s l).0
  check_rate_limit-IsIndexed now p s l ix =
      rw (check_rate_limit-answer floats parsers allow now p s l)
        (answer-IsIndexed now (governing (candidates p) s) s l ix)
