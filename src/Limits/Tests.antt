-- ===== src/Limits/Tests.antt =====
-- Concrete limits, changes and requests, and the theorems on them at concrete inputs. The loads are
-- percentages here, and the limiter counts what is left.
use mathlib.Core.List.{reverse}
use mathlib.Core.Option
use abraxis.Base.{
  ℕ, ◌+◌, ◌-◌, ◌*◌, ◌/◌, ◌≡◌, refl, Text, bytes, Bool, true, false, none, some, List, [], ◌∷◌, ltb,
  ◌==◌, text_eq, lookup, insert, erase, if◌then◌else◌, slt64, sle64, inc64, arith, take,
}
use abraxis.Limits.Ring.{
  new_ring, store, store_all, get_recent_violations, clamp_limit, recent_loop, before,
}
use abraxis.Limits.Recent.{get_recent_violations-store_all}
use abraxis.Limits.Service.{
  Limit, Service, ok, min_not_less, type_user, algorithm_adaptive, algorithm_fixed, make_cache_key,
  CreateParams, check_create, made, new_rate_limit_service, create_rate_limit, delete_rate_limit,
  get_rate_limit, find_config,
}
use abraxis.Limits.Update.{UpdateParams, write_update, update_rate_limit}
use abraxis.Limits.Check.{
  Info, Floats, Parsers, CheckParams, check_rate_limit, check_specific, record_violation,
  update_adaptive_load, update_system_load, update_adaptive_rate_limits,
}
use abraxis.Limits.Changes.{IsSoundAfter, write_update-IsSoundAfter}
use abraxis.Limits.Index.{IsIndexed}
use abraxis.Limits.Operations.{
  Change, create, update, delete, check, set_load, adapt_all, change, run, run-IsIndexed,
}
use abraxis.Limits.Admission.{candidates, governing, answer, check_rate_limit-answer}

program : Unit {0}
unfolding text_eq lookup insert erase slt64 sle64 inc64 new_ring store store_all
    get_recent_violations clamp_limit recent_loop before make_cache_key check_create
    new_rate_limit_service create_rate_limit write_update update_rate_limit delete_rate_limit
    get_rate_limit find_config check_rate_limit check_specific record_violation update_adaptive_load
    update_system_load update_adaptive_rate_limits change run governing
program = tt

abbrev recorded : List ℕ
recorded = 11 ∷ 12 ∷ 13 ∷ 14 ∷ 15 ∷ []

get_recent_violations-store_all_example :
    get_recent_violations 2 (store_all recorded (new_ring 3))
    ≡ some (take (clamp_limit 3 2) (reverse recorded))
get_recent_violations-store_all_example =
    get_recent_violations-store_all 3 2 recorded (omega arith) (omega arith) (omega arith)

newest_two : get_recent_violations 2 (store_all recorded (new_ring 3)) ≡ some (15 ∷ 14 ∷ [])
unfolding program
newest_two = refl

abbrev adaptive_params : CreateParams
adaptive_params = record {
  name = bytes "logins";
  type = type_user;
  strategy = algorithm_adaptive;
  target = bytes "u1";
  requests_per_minute = 60;
  burst_size = 10;
  tenant_id = none;
  min_requests_per_minute = 0;
  max_requests_per_minute = 0;
}

-- The bounds by default are half and twice the rate.
abbrev with_bounds : CreateParams
with_bounds = record adaptive_params { min_requests_per_minute = 30; max_requests_per_minute = 120 }

accepted : check_create adaptive_params ≡ ok with_bounds
unfolding program
accepted = refl

abbrev limit1 : Limit ℕ
limit1 = made (bytes "c1") 5 50 with_bounds

abbrev slower : UpdateParams
slower = record {
  name = none;
  strategy = none;
  requests_per_minute = some 40;
  burst_size = none;
  is_active = none;
  min_requests_per_minute = none;
  max_requests_per_minute = none;
}

updated : (write_update slower limit1).1 ≡ none
unfolding program
updated = refl

write_update-IsSoundAfter_example : IsSoundAfter slower limit1 (write_update slower limit1).0
write_update-IsSoundAfter_example = write_update-IsSoundAfter slower limit1 updated

-- A refused update has written what came before the test that failed: the rate is now below its bound.
refused_update :
    (write_update (record slower { requests_per_minute = some 20 }) limit1)
    ≡ (record limit1 { requests_per_minute = 20 }, some min_not_less)
unfolding program
refused_update = refl

abbrev percent : Floats ℕ
percent = record {
  no_load = 0;
  full_load = 100;
  tenth = 10;
  plus = λ a b. a + b;
  below = ltb;
  rate = λ low high load. low + (100 - load) * (high - low) / 100;
}

abbrev parsers : Parsers
parsers = record { parse_ip = some; parse_uuid = some }

abbrev count_down : Text → ℕ → ℕ × Bool × Info
count_down key left =
    if left == 0
    then (0, false, record { limit = 10; remaining = 0; reset = 60; retry_at = 60 })
    else (left - 1, true, record { limit = 10; remaining = left - 1; reset = 60; retry_at = 0 })

abbrev request : CheckParams
request = record {
  type = [];
  target = [];
  tenant_id = some (bytes "t1");
  user_id = some (bytes "u1");
  ip_address = none;
  route = bytes "/login";
}

abbrev creation : Text → Change percent parsers count_down
creation id = create id 5 50 adaptive_params

abbrev empty_service : Service ℕ
empty_service = new_rate_limit_service

-- Without a rate of its own an update keeps the one before.
abbrev to_fixed : UpdateParams
to_fixed = record slower { strategy = some algorithm_fixed; requests_per_minute = none }

abbrev one_a_minute : CreateParams
one_a_minute = record adaptive_params { requests_per_minute = 1 }

abbrev slowed_down : List (Change percent parsers count_down)
slowed_down =
    create (bytes "c1") 5 50 one_a_minute
    ∷ check 6 request 0
    ∷ set_load 100
    ∷ adapt_all 7
    ∷ update (bytes "c1") 8 to_fixed
    ∷ []

run-IsIndexed_example :
    IsIndexed (run percent parsers count_down slowed_down new_rate_limit_service)
unfolding program
run-IsIndexed_example =
    run-IsIndexed percent parsers count_down slowed_down (refl, (tt, (tt, (tt, (tt, tt)))))

-- The updater makes the rate zero at the full load, and an update is accepted that leaves it there.
rate_zero :
    let s = run percent parsers count_down slowed_down empty_service in
    Option.map {B = Text × ℕ}
      (λ c. (c.strategy, c.requests_per_minute))
      (lookup (bytes "c1") s.configs_by_id)
    ≡ some (algorithm_fixed, 0)
unfolding program
rate_zero = refl

-- Two limits under one key: deleting the first takes the key from the second, which is held but
-- never found.
key_lost :
    let s =
      run percent parsers count_down
        (creation (bytes "c1") ∷ creation (bytes "c2") ∷ delete (bytes "c1") ∷ [])
        empty_service in
    (find_config (make_cache_key type_user (bytes "u1")) s ≡ none)
    × (get_rate_limit (bytes "c2") s ≡ ok (made (bytes "c2") 5 50 with_bounds))
unfolding program
key_lost = (refl, refl)

abbrev limited : Service ℕ
limited = record {
  configs = (bytes "user:u1", bytes "c1") ∷ [];
  configs_by_id = (bytes "c1", limit1) ∷ [];
  violations = new_ring 3;
  pending = false;
}

check_rate_limit-answer_example :
    check_rate_limit percent parsers count_down 9 request limited 0
    ≡ answer percent parsers count_down 9 (governing (candidates request) limited) limited 0
check_rate_limit-answer_example =
    check_rate_limit-answer percent parsers count_down 9 request limited 0

-- The user's limit governs; without anything left the request is refused, and the load rises.
refused : (check_rate_limit percent parsers count_down 9 request limited 0).2 ≡ false
unfolding program
refused = refl

load_raised :
    let s = (check_rate_limit percent parsers count_down 9 request limited 0).0 in
    (find_config (bytes "user:u1") s ≡ some (record limit1 { current_load = 60 }))
    × (s.pending ≡ true)
unfolding program
load_raised = (refl, refl)

-- One round of the updater then lowers the rate.
rate_lowered :
    let s = (check_rate_limit percent parsers count_down 9 request limited 0).0 in
    find_config (bytes "user:u1") (update_adaptive_rate_limits percent 10 s)
    ≡ some (record limit1 { current_load = 60; requests_per_minute = 66; updated_at = 10 })
unfolding program
rate_lowered = refl

abbrev to_one : Limit ℕ → Limit ℕ
to_one c = record c { requests_per_minute = 1; burst_size = 1 }
