-- ===== src/Limits/Window.antt =====
-- How many requests the limiter in Redis allows in one window:
-- prism/internal/features/ratelimit/ratelimiter.go.
use abraxis.Base.{
  ℕ, zero, suc, ◌+◌, ◌*◌, ◌≤◌, ◌<◌, ◌≡◌, refl, ap, ◌∙◌, Text, Bool, true, false, Option, some, List,
  [], ◌∷◌, arith,
}
use abraxis.Limits.Limiter.{Commands, run_script}

-- What the documentation of Redis says of the commands, and of the time at which a key expires.
pub record Documented {S : Type 0} (redis : Commands S) (deadline : Text → S → Option ℕ)
    : Type 0 where
  pub incr_returns : (now : ℕ) (k : Text) (s : S) → (redis.incr now k s).1 ≡ redis.get now k s + 1
  pub incr_adds :
      (now : ℕ) (k : Text) (s : S) → redis.get now k (redis.incr now k s).0 ≡ redis.get now k s + 1
  pub incr_keeps :
      (now : ℕ) (k : Text) (s : S)
      → 0 < redis.get now k s
      → deadline k (redis.incr now k s).0 ≡ deadline k s
  pub expire_keeps :
      (now : ℕ) (k : Text) (seconds : ℕ) (s : S)
      → 0 < seconds
      → redis.get now k (redis.expire now k seconds s) ≡ redis.get now k s
  pub expire_sets :
      (now : ℕ) (k : Text) (seconds : ℕ) (s : S)
      → 0 < redis.get now k s
      → 0 < seconds
      → deadline k (redis.expire now k seconds s) ≡ some (now + seconds * 1000000000)
  pub get_later :
      (now t d : ℕ) (k : Text) (s : S)
      → deadline k s ≡ some d
      → now ≤ t
      → t < d
      → redis.get t k s ≡ redis.get now k s

-- Times that go up from one and stay below another.
abbrev pub Within : ℕ → ℕ → List ℕ → Type 0
Within u d [] = Unit
Within u d (t ∷ ts) = (u ≤ t) × (t < d) × Within t d ts

-- The first of them are allowed, as many as there are places.
unfoldable pub first_allowed : ℕ → List ℕ → List Bool
first_allowed b [] = []
first_allowed zero (t ∷ ts) = false ∷ first_allowed zero ts
first_allowed (suc b) (t ∷ ts) = true ∷ first_allowed b ts

module _ {S : Type 0} (redis : Commands S) where
  -- The script for one key at one time after another: what it answers.
  unfoldable pub run_all : Text → ℕ → ℕ → List ℕ → S → List Bool
  run_all k burst seconds [] s = []
  run_all k burst seconds (t ∷ ts) s =
      let (s', allowed, count) = run_script redis t k burst seconds s in
      allowed ∷ run_all k burst seconds ts s'

  module _ (deadline : Text → S → Option ℕ) (laws : Documented redis deadline) where
    run_full :
        (t : ℕ) (k : Text) (burst seconds : ℕ) (s : S)
        → burst < redis.get t k s + 1
        → run_script redis t k burst seconds s ≡ (s, false, redis.get t k s)
    unfolding run_script
    run_full t k burst seconds s h = ground arith

    run_more :
        (t : ℕ) (k : Text) (burst seconds : ℕ) (s : S)
        → redis.get t k s + 1 ≤ burst
        → 0 < redis.get t k s
        → run_script redis t k burst seconds s ≡ ((redis.incr t k s).0, true, redis.get t k s + 1)
    unfolding run_script
    run_more t k burst seconds s h c = ground (arith, laws.incr_returns t k s)

    run_first :
        (t : ℕ) (k : Text) (burst seconds : ℕ) (s : S)
        → 0 < burst
        → redis.get t k s ≡ 0
        → run_script redis t k burst seconds s
          ≡ (redis.expire t k seconds (redis.incr t k s).0, true, 1)
    unfolding run_script
    run_first t k burst seconds s h c = ground (arith, laws.incr_returns t k s, c)

    -- In the window, with `c` requests counted and room for `b` more.
    run_rest :
        (k : Text) (burst seconds : ℕ) (ts : List ℕ) (u d c b : ℕ) (s : S)
        → c + b ≡ burst
        → 0 < c
        → redis.get u k s ≡ c
        → deadline k s ≡ some d
        → Within u d ts
        → run_all k burst seconds ts s ≡ first_allowed b ts
    unfolding run_all first_allowed
    run_rest k burst seconds [] u d c b s sum pos now_c ends w = refl
    run_rest k burst seconds (t ∷ ts) u d c zero s sum pos now_c ends w =
        let at_t = laws.get_later u t d k s ends w.0 w.1 ∙ now_c in
        let step = run_full t k burst seconds s (omega arith) in
        ap (λ r. r.1 ∷ run_all k burst seconds ts r.0) step
        ∙ ap (λ bs. false ∷ bs) (run_rest k burst seconds ts t d c zero s sum pos at_t ends w.2)
    run_rest k burst seconds (t ∷ ts) u d c (suc b) s sum pos now_c ends w =
        let at_t = laws.get_later u t d k s ends w.0 w.1 ∙ now_c in
        let s' = (redis.incr t k s).0 in
        let step = run_more t k burst seconds s (omega arith) (omega arith) in
        ap (λ r. r.1 ∷ run_all k burst seconds ts r.0) step
        ∙ ap (λ bs. true ∷ bs)
            (run_rest k burst seconds ts t d (c + 1) b s' (omega arith) (omega arith)
              (laws.incr_adds t k s ∙ ap (λ n. n + 1) at_t)
              (laws.incr_keeps t k s (omega arith) ∙ ends) w.2)

    -- In a window of the limiter in Redis, which begins with a request for a key that is not counted and
    -- lasts for the seconds of the time to live, of which there is at least one, exactly the first
    -- `burst` requests for the key are allowed, and no other, if the commands do what is documented.
    pub run_all-first_allowed :
        (k : Text) (burst seconds t : ℕ) (ts : List ℕ) (s : S)
        → 0 < burst
        → 0 < seconds
        → redis.get t k s ≡ 0
        → Within t (t + seconds * 1000000000) ts
        → run_all k burst seconds (t ∷ ts) s ≡ first_allowed burst (t ∷ ts)
    unfolding run_all first_allowed
    run_all-first_allowed k zero seconds t ts s room lasts empty w = ground arith
    run_all-first_allowed k (suc b) seconds t ts s room lasts empty w =
        let s1 = (redis.incr t k s).0 in
        let counted : redis.get t k s1 ≡ 1 = laws.incr_adds t k s ∙ ap (λ n. n + 1) empty in
        let step = run_first t k (suc b) seconds s room empty in
        ap (λ r. r.1 ∷ run_all k (suc b) seconds ts r.0) step
        ∙ ap (λ bs. true ∷ bs)
            (run_rest k (suc b) seconds ts t (t + seconds * 1000000000) 1 b
              (redis.expire t k seconds s1) (omega arith) (omega arith)
              (laws.expire_keeps t k seconds s1 lasts ∙ counted)
              (laws.expire_sets t k seconds s1 (omega arith) lasts) w)
