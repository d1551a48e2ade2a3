-- ===== src/Limits/LimiterTests.antt =====
-- The limiter in Redis on a store with one counter, concrete requests, and the theorem on its window at
-- concrete times.
use mathlib.Core.Option.{some-injective}
use abraxis.Base.{
  ℕ, ◌+◌, ◌*◌, ◌<◌, ◌≤◌, ◌≡◌, refl, Text, bytes, Bool, true, false, Option, none, some, [], ◌∷◌,
  leb, ◌==◌, ltb, text_eq, slt64, split_on, trim_space_left, trim_space_right, if◌then◌else◌, arith,
}
use abraxis.Limits.Check.{Info}
use abraxis.Limits.Limiter.{
  Request, LimiterParams, valid, invalid, burst_not_positive, validate_limiter, strategy_ip,
  Commands, run_script, allow, get_client_address, generate_key, passed_on, too_many_requests,
  is_excluded, serve,
}
use abraxis.Limits.Window.{Documented, first_allowed, run_all, run_all-first_allowed}

program : Unit {0}
unfolding text_eq slt64 split_on trim_space_left trim_space_right validate_limiter run_script allow
    get_client_address generate_key is_excluded serve run_all first_allowed
program = tt

-- A count, and the time at which it expires.
abbrev Counter : Type 0
Counter = ℕ × Option ℕ

abbrev expired : ℕ → Option ℕ → Bool
expired now none = false
expired now (some d) = leb d now

abbrev count_at : ℕ → Counter → ℕ
count_at now s = if expired now s.1 then 0 else s.0

abbrev one_counter : Commands Counter
one_counter = record {
  get = λ now k s. count_at now s;
  incr =
      λ now k s. ((count_at now s + 1, if expired now s.1 then none else s.1), count_at now s + 1);
  expire = λ now k seconds s.
      if count_at now s == 0 then s else (s.0, some (now + seconds * 1000000000));
}

abbrev expiry : Text → Counter → Option ℕ
expiry k s = s.1

one_counter-adds :
    (now n : ℕ) (e : Option ℕ)
    → count_at now (count_at now (n, e) + 1, if expired now e then none else e)
      ≡ count_at now (n, e) + 1
one_counter-adds now n none = refl
one_counter-adds now n (some d) = ground arith

one_counter-keeps :
    (now n : ℕ) (e : Option ℕ) → 0 < count_at now (n, e) → (if expired now e then none else e) ≡ e
one_counter-keeps now n none h = refl
one_counter-keeps now n (some d) h = ground arith

one_counter-later :
    (now t d n : ℕ) (e : Option ℕ)
    → e ≡ some d
    → now ≤ t
    → t < d
    → count_at t (n, e) ≡ count_at now (n, e)
one_counter-later now t d n none h a b = cc
one_counter-later now t d n (some c) h a b =
    let same : c ≡ d = some-injective c d h in rw same (ground arith)

one_counter_kept :
    (now seconds n : ℕ) (e : Option ℕ)
    → 0 < seconds
    → count_at now (one_counter.expire now [] seconds (n, e)) ≡ count_at now (n, e)
one_counter_kept now seconds n none h = ground arith
one_counter_kept now seconds n (some d) h = ground arith

one_counter_set :
    (now seconds n : ℕ) (e : Option ℕ)
    → 0 < count_at now (n, e)
    → (one_counter.expire now [] seconds (n, e)).1 ≡ some (now + seconds * 1000000000)
one_counter_set now seconds n e h = ground arith

one_counter-Documented : Documented one_counter expiry
one_counter-Documented = record {
  incr_returns = λ now k s. refl;
  incr_adds = λ now k s. one_counter-adds now s.0 s.1;
  incr_keeps = λ now k s h. one_counter-keeps now s.0 s.1 h;
  expire_keeps = λ now k seconds s h. one_counter_kept now seconds s.0 s.1 h;
  expire_sets = λ now k seconds s c h. one_counter_set now seconds s.0 s.1 c;
  get_later = λ now t d k s e a b. one_counter-later now t d s.0 s.1 e a b;
}

run_all-first_allowed_example :
    run_all one_counter (bytes "k") 2 1 (5 ∷ 6 ∷ 7 ∷ 8 ∷ []) (0, none)
    ≡ first_allowed 2 (5 ∷ 6 ∷ 7 ∷ 8 ∷ [])
run_all-first_allowed_example =
    run_all-first_allowed one_counter expiry one_counter-Documented (bytes "k") 2 1 5
      (6 ∷ 7 ∷ 8 ∷ []) (0, none) (omega arith) (omega arith) refl (omega arith)

two_of_four :
    run_all one_counter (bytes "k") 2 1 (5 ∷ 6 ∷ 7 ∷ 8 ∷ []) (0, none)
    ≡ true ∷ true ∷ false ∷ false ∷ []
unfolding program
two_of_four = refl

-- With a time to live below one second the key expires as soon as it is made, and nothing is refused.
no_limit :
    run_all one_counter (bytes "k") 1 0 (5 ∷ 6 ∷ 7 ∷ 8 ∷ []) (0, none)
    ≡ true ∷ true ∷ true ∷ true ∷ []
unfolding program
no_limit = refl

abbrev per_address : LimiterParams ℕ
per_address = record {
  limit = 5;
  burst = 2;
  ttl = 60000000000;
  strategy = [];
  key_gen = none;
  excluded_paths = bytes "/health" ∷ [];
  headers = true;
}

by_address :
    validate_limiter (ltb 0) per_address ≡ valid (record per_address { strategy = strategy_ip })
unfolding program
by_address = refl

no_burst : validate_limiter (ltb 0) (record per_address { burst = 0 }) ≡ invalid burst_not_positive
unfolding program
no_burst = refl

abbrev get_users : Request
get_users = record {
  path = bytes "/users";
  remote_addr = bytes "[2001:db8::7]:443";
  forwarded_for = [];
  real_ip = [];
  authorization = [];
  route_pattern = bytes "/users";
  user_id = none;
}

-- An address of IPv6 is cut at its first colon, so that all clients of a block have one key.
cut_address :
    generate_key (record per_address { strategy = strategy_ip }) get_users ≡ some (bytes "[2001")
unfolding program
cut_address = refl

chosen_address :
    generate_key
      (record per_address { strategy = strategy_ip })
      (record get_users { forwarded_for = bytes " 1.2.3.4 , 5.6.7.8" })
    ≡ some (bytes "1.2.3.4")
unfolding program
chosen_address = refl

abbrev strict : LimiterParams ℕ
strict = record per_address { strategy = strategy_ip; burst = 1 }

-- The second request of one key in a window gets the status 429, and one for an excluded path passes.
abbrev limiter : Text → Counter → Counter × Bool × Info
limiter = allow one_counter (λ now limit. now) strict 5 none

second_refused :
    (serve limiter strict 5 get_users (serve limiter strict 5 get_users (0, none)).0).1
    ≡ too_many_requests
        (some (record { limit = 1; remaining = 0; reset = 60000000005; retry_at = 5 }))
        0
unfolding program
second_refused = refl

health_passes :
    serve limiter strict 5 (record get_users { path = bytes "/health" }) (1, some 9)
    ≡ ((1, some 9), passed_on none)
unfolding program
health_passes = refl
