-- ===== src/Limits/Operations.antt =====
-- The configuration of RateLimitService under every operation that changes it, the background updater
-- included: prism/internal/features/ratelimit/service_rate_limit.go.
use abraxis.Base.{ℕ, ◌≡◌, Text, Bool, none, List, [], ◌∷◌, lookup}
use abraxis.Limits.Service.{
  Service, CreateParams, new_rate_limit_service, create_rate_limit, delete_rate_limit,
}
use abraxis.Limits.Update.{UpdateParams, update_rate_limit}
use abraxis.Limits.Check.{
  Info, Floats, Parsers, CheckParams, update_system_load, update_adaptive_rate_limits,
  check_rate_limit,
}
use abraxis.Limits.Adapting.{
  update_system_load-IsIndexed, update_adaptive_rate_limits-IsIndexed, check_rate_limit-IsIndexed,
}
use abraxis.Limits.Index.{
  IsIndexed, new_rate_limit_service-IsIndexed, create-IsIndexed, update-IsIndexed, delete-IsIndexed,
}

module _ {F L : Type 0} (floats : Floats F) (parsers : Parsers)
    (allow : Text → L → L × Bool × Info) where
  -- What changes the service, with the clock, the id that is drawn and the limiter that is asked:
  -- `CreateRateLimit`, `UpdateRateLimit`, `DeleteRateLimit`, `CheckRateLimit` with the violations and loads
  -- that it records, `UpdateSystemLoad`, and a round of the updater in the background.
  pub data Change : Type 0 where
    create : Text → ℕ → F → CreateParams → Change
    update : Text → ℕ → UpdateParams → Change
    delete : Text → Change
    check : ℕ → CheckParams → L → Change
    set_load : F → Change
    adapt_all : ℕ → Change

  unfoldable pub change : Change → Service F → Service F
  change (create id now middle p) s = (create_rate_limit id now middle p s).0
  change (update id now p) s = (update_rate_limit id now p s).0
  change (delete id) s = (delete_rate_limit id s).0
  change (check now p l) s = (check_rate_limit floats parsers allow now p s l).0
  change (set_load load) s = (update_system_load floats load s).0
  change (adapt_all now) s = update_adaptive_rate_limits floats now s

  unfoldable pub run : List Change → Service F → Service F
  run [] s = s
  run (ch ∷ chs) s = run chs (change ch s)

  -- A drawn id is new.
  abbrev pub IsFresh : Change → Service F → Type 0
  IsFresh (create id now middle p) s = lookup id s.configs_by_id ≡ none
  IsFresh (update id now p) s = Unit
  IsFresh (delete id) s = Unit
  IsFresh (check now p l) s = Unit
  IsFresh (set_load load) s = Unit
  IsFresh (adapt_all now) s = Unit

  abbrev pub AllFresh : List Change → Service F → Type 0
  AllFresh [] s = Unit
  AllFresh (ch ∷ chs) s = IsFresh ch s × AllFresh chs (change ch s)

  change-IsIndexed :
      (ch : Change) (s : Service F) → IsFresh ch s → IsIndexed s → IsIndexed (change ch s)
  unfolding change
  change-IsIndexed (create id now middle p) s fresh ix = create-IsIndexed id now middle p s fresh ix
  change-IsIndexed (update id now p) s fresh ix = update-IsIndexed id now p s ix
  change-IsIndexed (delete id) s fresh ix = delete-IsIndexed id s ix
  change-IsIndexed (check now p l) s fresh ix =
      check_rate_limit-IsIndexed floats parsers allow now p s l ix
  change-IsIndexed (set_load load) s fresh ix = update_system_load-IsIndexed floats load s ix
  change-IsIndexed (adapt_all now) s fresh ix =
      update_adaptive_rate_limits-IsIndexed floats now s ix

  run-keeps :
      (chs : List Change) (s : Service F) → AllFresh chs s → IsIndexed s → IsIndexed (run chs s)
  unfolding run
  run-keeps [] s fresh ix = ix
  run-keeps (ch ∷ chs) s fresh ix =
      run-keeps chs (change ch s) fresh.1 (change-IsIndexed ch s fresh.0 ix)

  -- Whatever is called on a new service, accepted or refused, and whenever the updater runs in between, no
  -- key points to a limit that is gone or to one of another key, and each limit that is held stands under
  -- its own id and has a positive burst, if each drawn id is new. Of the rates it says nothing.
  pub run-IsIndexed :
      (chs : List Change)
      → AllFresh chs new_rate_limit_service
      → IsIndexed (run chs new_rate_limit_service)
  run-IsIndexed chs fresh =
      run-keeps chs new_rate_limit_service fresh new_rate_limit_service-IsIndexed
