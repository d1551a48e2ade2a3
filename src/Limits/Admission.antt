-- ===== src/Limits/Admission.antt =====
-- Which limit a request is held against, for CheckRateLimit of
-- prism/internal/features/ratelimit/service_rate_limit.go.
use abraxis.Base.{
  ℕ, ◌≡◌, inl, inr, refl, sym, ap, ◌∙◌, Text, Bool, true, false, not, ◌&&◌, Option, none, some,
  List, [], ◌∷◌, ◌++◌, is_empty, if◌then◌else◌, Option-cases,
}
use abraxis.Limits.Service.{
  type_ip, type_user, type_tenant, type_route, type_global, Limit, Service, find_config,
  make_cache_key,
}
use abraxis.Limits.Check.{
  Info, no_info, Floats, Parsers, CheckParams, Checked, record_violation, after_allow,
  check_specific, or_next, finish, check_some, check_limits, check_rate_limit,
}

abbrev given_if : Bool → Text → Text → List (Text × Text)
given_if test type target = if test then (type, target) ∷ [] else []

abbrev given_some : Text → Option Text → List (Text × Text)
given_some type none = []
given_some type (some target) = (type, target) ∷ []

-- The limits that may apply to a request, the first first.
abbrev pub candidates : CheckParams → List (Text × Text)
candidates p =
    given_if (not (is_empty p.type) && not (is_empty p.target)) p.type p.target
    ++ (given_some type_tenant p.tenant_id
        ++ (given_some type_user p.user_id
            ++ (given_some type_ip p.ip_address
                ++ (given_if (not (is_empty p.route)) type_route p.route
                    ++ (type_global, []) ∷ []))))

-- The first of them that is configured.
unfoldable pub governing :
    {F : Type 0} → List (Text × Text) → Service F → Option (Text × Text × Limit F)
governing [] s = none
governing ((type, target) ∷ cs) s =
    let rest = governing cs s in
    elim (find_config (make_cache_key type target) s) [
      | none ↦ rest
      | some c ↦ some (type, target, c)
    ]

module _ {F L : Type 0} (floats : Floats F) (parsers : Parsers)
    (allow : Text → L → L × Bool × Info) where
  abbrev pub after : ℕ → Limit F → Text → Service F → L × Bool × Info → Service F × L × Bool × Info
  after now c target s (l, true, info) = (s, l, true, info)
  after now c target s (l, false, info) =
      (record_violation floats parsers now c target info.limit s, l, false, info)

  -- The answer of the limit that governs: the limiter's where it is active, and yes where it is not
  -- or where there is none.
  abbrev pub answer :
      ℕ → Option (Text × Text × Limit F) → Service F → L → Service F × L × Bool × Info
  answer now none s l = (s, l, true, no_info)
  answer now (some (type, target, c)) s l =
      if c.is_active
      then after now c target s (allow (make_cache_key type target) l)
      else (s, l, true, no_info)

  unfoldable chain : ℕ → List (Text × Text) → Service F → L → Checked F L
  chain now [] s l = (s, l, none)
  chain now ((type, target) ∷ cs) s l =
      or_next (check_specific floats parsers allow now type target s l) (chain now cs)

  or_next-cong :
      (w : Checked F L) (f g : Service F → L → Checked F L)
      → ((s : Service F) (l : L) → f s l ≡ g s l)
      → or_next w f ≡ or_next w g
  or_next-cong (s, l, some a) f g h = refl
  or_next-cong (s, l, none) f g h = h s l

  chain-given_if :
      (now : ℕ) (test : Bool) (type target : Text) (cs : List (Text × Text)) (s : Service F) (l : L)
      (next : Service F → L → Checked F L)
      → ((s' : Service F) (l' : L) → next s' l' ≡ chain now cs s' l')
      → or_next
          (if test then check_specific floats parsers allow now type target s l else (s, l, none))
          next
        ≡ chain now (given_if test type target ++ cs) s l
  unfolding chain
  chain-given_if now true type target cs s l next h =
      or_next-cong (check_specific floats parsers allow now type target s l) next (chain now cs) h
  chain-given_if now false type target cs s l next h = h s l

  chain-given_some :
      (now : ℕ) (type : Text) (target : Option Text) (cs : List (Text × Text)) (s : Service F)
      (l : L) (next : Service F → L → Checked F L)
      → ((s' : Service F) (l' : L) → next s' l' ≡ chain now cs s' l')
      → or_next (check_some floats parsers allow now type target s l) next
        ≡ chain now (given_some type target ++ cs) s l
  unfolding chain
  chain-given_some now type none cs s l next h = h s l
  chain-given_some now type (some target) cs s l next h =
      or_next-cong (check_specific floats parsers allow now type target s l) next (chain now cs) h

  finish-after :
      (now : ℕ) (c : Limit F) (target : Text) (s : Service F) (r : L × Bool × Info)
      (next : Service F → L → Checked F L)
      → finish (or_next (after_allow floats parsers allow now c target s r) next)
        ≡ after now c target s r
  finish-after now c target s (l, true, info) next = refl
  finish-after now c target s (l, false, info) next = refl

  finish-if :
      (active : Bool) (now : ℕ) (c : Limit F) (type target : Text) (s : Service F) (l : L)
      (next : Service F → L → Checked F L)
      → finish (
          or_next
            (if active
              then after_allow floats parsers allow now c target s
                  (allow (make_cache_key type target) l)
              else (s, l, some (true, no_info)))
            next)
        ≡ (if active
            then after now c target s (allow (make_cache_key type target) l)
            else (s, l, true, no_info))
  finish-if true now c type target s l next =
      finish-after now c target s (allow (make_cache_key type target) l) next
  finish-if false now c type target s l next = refl

  or_next-none : (w : Checked F L) → or_next w (λ s l. (s, l, none)) ≡ w
  or_next-none (s, l, some a) = refl
  or_next-none (s, l, none) = refl

  finish-chain :
      (now : ℕ) (cs : List (Text × Text)) (s : Service F) (l : L)
      → finish (chain now cs s l) ≡ answer now (governing cs s) s l
  unfolding chain governing check_specific
  finish-chain now [] s l = refl
  finish-chain now ((type, target) ∷ cs) s l =
      elim (Option-cases (find_config (make_cache_key type target) s)) [
        | inl q ↦ rw (q, chain, governing, check_specific) (finish-chain now cs s l)
        | inr (c, q) ↦
            rw (q, chain, governing, check_specific)
              (finish-if c.is_active now c type target s l (chain now cs))
      ]

  chain-one :
      (now : ℕ) (type target : Text) (s : Service F) (l : L)
      → check_specific floats parsers allow now type target s l
        ≡ chain now ((type, target) ∷ []) s l
  unfolding chain
  chain-one now type target s l =
      sym (or_next-none (check_specific floats parsers allow now type target s l))

  checked-chain :
      (now : ℕ) (p : CheckParams) (s : Service F) (l : L)
      → check_limits floats parsers allow now p s l ≡ chain now (candidates p) s l
  checked-chain now p s l =
      let global : List (Text × Text) = (type_global, []) ∷ [] in
      let route = given_if (not (is_empty p.route)) type_route p.route ++ global in
      let ip = given_some type_ip p.ip_address ++ route in
      let user = given_some type_user p.user_id ++ ip in
      let tenant = given_some type_tenant p.tenant_id ++ user in
      chain-given_if now (not (is_empty p.type) && not (is_empty p.target)) p.type p.target tenant s
        l _
        (λ s1 l1. chain-given_some now type_tenant p.tenant_id user s1 l1 _ (λ s2 l2.
          chain-given_some now type_user p.user_id ip s2 l2 _ (λ s3 l3.
            chain-given_some now type_ip p.ip_address route s3 l3 _ (λ s4 l4.
              chain-given_if now (not (is_empty p.route)) type_route p.route global s4 l4 _
                (chain-one now type_global [])))))

  -- A request is held against the first configured limit of those that may apply to it: its own, its
  -- tenant's, its user's, its address's, its route's and the global one. If that limit is active,
  -- the limiter is asked for its key once and its answer is given, and a refusal is recorded; if it is
  -- not, or there is none, the request is allowed and the limiter is not asked.
  pub check_rate_limit-answer :
      (now : ℕ) (p : CheckParams) (s : Service F) (l : L)
      → check_rate_limit floats parsers allow now p s l
        ≡ answer now (governing (candidates p) s) s l
  unfolding check_rate_limit
  check_rate_limit-answer now p s l =
      ap finish (checked-chain now p s l) ∙ finish-chain now (candidates p) s l
