-- ===== src/Limits/Update.antt =====
-- `UpdateRateLimit` of prism/internal/features/ratelimit/service_rate_limit.go.
use abraxis.Base.{
  ℕ, Text, Bool, true, Option, none, some, text_eq, lookup, insert, if◌then◌else◌, slt64,
}
use abraxis.Limits.Service.{
  algorithm_adaptive, Limit, Service, LimitError, Result, ok, err, requests_not_positive,
  burst_not_positive, min_not_positive, max_not_positive, min_not_less, max_not_greater, not_found,
  index,
}

-- `params.Field != nil`
abbrev pub or_else : {A : Type 0} → Option A → A → A
or_else none a = a
or_else (some b) a = b

abbrev pub is_positive : Option ℕ → Bool
is_positive none = true
is_positive (some n) = slt64 0 n

pub record UpdateParams : Type 0 where
  pub name : Option Text
  pub strategy : Option Text
  pub requests_per_minute : Option ℕ
  pub burst_size : Option ℕ
  pub is_active : Option Bool
  pub min_requests_per_minute : Option ℕ
  pub max_requests_per_minute : Option ℕ

-- An update writes its fields one after another and stops at the first that is refused: the
-- configuration as far as it was written, and the error if there was one.
abbrev pub Written : Type 0 → Type 0
Written F = Limit F × Option LimitError

module _ {F : Type 0} where
  abbrev pub and_then : Written F → (Limit F → Written F) → Written F
  and_then (c, some e) next = (c, some e)
  and_then (c, none) next = next c

  abbrev pub check_written : Bool → LimitError → Limit F → Written F
  check_written test e c = (c, if test then none else some e)

  abbrev pub write_names : UpdateParams → Limit F → Limit F
  write_names p c = record c {
    name = or_else p.name c.name;
    strategy = or_else p.strategy c.strategy;
  }

  abbrev pub write_requests : UpdateParams → Limit F → Written F
  write_requests p c =
      if is_positive p.requests_per_minute
      then (
        record c { requests_per_minute = or_else p.requests_per_minute c.requests_per_minute },
        none,
      )
      else (c, some requests_not_positive)

  abbrev pub write_burst : UpdateParams → Limit F → Written F
  write_burst p c =
      if is_positive p.burst_size
      then (
        record c {
          burst_size = or_else p.burst_size c.burst_size;
          is_active = or_else p.is_active c.is_active;
        },
        none,
      )
      else (c, some burst_not_positive)

  abbrev pub write_min : UpdateParams → Limit F → Written F
  write_min p c =
      if is_positive p.min_requests_per_minute
      then (
        record c {
          min_requests_per_minute = or_else p.min_requests_per_minute c.min_requests_per_minute;
        },
        none,
      )
      else (c, some min_not_positive)

  abbrev pub write_max : UpdateParams → Limit F → Written F
  write_max p c =
      if is_positive p.max_requests_per_minute
      then (
        record c {
          max_requests_per_minute = or_else p.max_requests_per_minute c.max_requests_per_minute;
        },
        none,
      )
      else (c, some max_not_positive)

  abbrev pub check_order : Limit F → Written F
  check_order c =
      and_then
        (check_written (slt64 c.min_requests_per_minute c.requests_per_minute) min_not_less c)
        (check_written (slt64 c.requests_per_minute c.max_requests_per_minute) max_not_greater)

  abbrev pub write_adaptive : UpdateParams → Limit F → Written F
  write_adaptive p c =
      if text_eq c.strategy algorithm_adaptive
      then and_then (write_min p c) (λ c1. and_then (write_max p c1) check_order)
      else (c, none)

  -- The writes of `UpdateRateLimit` into the configuration.
  unfoldable pub write_update : UpdateParams → Limit F → Written F
  write_update p c =
      and_then (write_requests p (write_names p c))
        (λ c1. and_then (write_burst p c1) (write_adaptive p))

  abbrev pub signal_if : Bool → Service F → Service F
  signal_if adaptive s = record s { pending = if adaptive then true else s.pending }

  -- `UpdateRateLimit`; the configuration is changed in place, so a refused update leaves what it wrote.
  unfoldable pub update_rate_limit :
      Text → ℕ → UpdateParams → Service F → Service F × Result (Limit F)
  update_rate_limit id now params s = elim (lookup id s.configs_by_id) [
    | none ↦ (s, err not_found)
    | some c ↦
        let (written, failure) = write_update params c in
        elim failure [
          | some e ↦ (record s { configs_by_id = insert id written s.configs_by_id }, err e)
          | none ↦
              let stamped = record written { updated_at = now } in
              (
                signal_if (text_eq stamped.strategy algorithm_adaptive) (index stamped s),
                ok stamped,
              )
        ]
  ]
