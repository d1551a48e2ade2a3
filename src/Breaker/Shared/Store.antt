-- ===== src/Breaker/Shared/Store.antt =====
-- What `RedisCircuitBreaker` of prism/internal/features/gateway/adapters/circuitbreaker/redis.go keeps: the
-- keys of a circuit in Redis, whose commands are a parameter, and the cache of states in the process.
use abraxis.Base.{ℕ, Text, bytes, Bool, Option, List, ◌++◌}
use abraxis.Breaker.Circuit.{State}

-- `ports.CircuitBreakerState`, which is a string.
abbrev pub state_text : State → Text
state_text State.closed = bytes "closed"
state_text State.open_ = bytes "open"
state_text State.half_open = bytes "half-open"

-- The counters of a circuit that are incremented.
pub data Counter : Type 0 where
  failures successes rejected timeouts concurrent : Counter

-- The keys: the prefixes of the source around the name.
abbrev pub state_key : Text → Text
state_key name = bytes "cb:state:" ++ name

abbrev pub lock_key : Text → Text
lock_key name = bytes "cb:lock:" ++ name

abbrev pub last_change_key : Text → Text
last_change_key name = bytes "cb:metrics:" ++ (name ++ bytes ":lastchange")

abbrev pub counter_key : Counter → Text → Text
counter_key failures name = bytes "cb:metrics:" ++ (name ++ bytes ":failures")
counter_key successes name = bytes "cb:metrics:" ++ (name ++ bytes ":successes")
counter_key rejected name = bytes "cb:metrics:" ++ (name ++ bytes ":rejected")
counter_key timeouts name = bytes "cb:metrics:" ++ (name ++ bytes ":timeout")
counter_key concurrent name = bytes "cb:concurrent:" ++ name

pub data Reply : Type 0 where
  missing : Reply
  found : Text → Reply
  get_failed : Reply

-- The commands of Redis at a time. `SET` has no time to live here and says whether it succeeded; the answer
-- of `SETNX`, `INCR` and `DECR` is `none` for an error.
pub record Redis (S : Type 0) : Type 0 where
  pub get : ℕ → Text → S → Reply
  pub set : ℕ → Text → Text → S → S × Bool
  pub set_nx : ℕ → Text → Text → ℕ → S → S × Option Bool
  pub incr : ℕ → Text → S → S × Option ℕ
  pub decr : ℕ → Text → S → S × Option ℕ
  pub expire : ℕ → Text → ℕ → S → S
  pub del : ℕ → Text → S → S

-- Decimal numbers: `strconv` and the formatting of the client library.
pub record Decimal : Type 0 where
  pub print : ℕ → Text
  pub parse : Text → Option ℕ

-- `circuitBreakerCache`
pub record CachedState : Type 0 where
  pub state : Text
  pub cached_at : ℕ

-- The store that the processes share, and the cache of this one.
pub record Breaker (S : Type 0) : Type 0 where
  pub store : S
  pub local_cache : List (Text × CachedState)
