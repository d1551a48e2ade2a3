-- ===== src/Breaker/Shared/Logical.antt =====
-- What Redis holds of one circuit, and what the commands do to it where they succeed and no time to live runs
-- out: the ground for the refinement of
-- prism/internal/features/gateway/adapters/circuitbreaker/redis.go.

use abraxis.Base.{
  ℕ, ◌+◌, ◌-◌, ◌%◌, ◌≡◌, refl, Text, bytes, true, false, Option, none, some, [], ◌∷◌, ◌++◌, text_eq,
  text_eq_refl, ◌==◌, inc64, i64_mod, if◌then◌else◌, arith,
}
use abraxis.Breaker.Shared.Store.{
  Counter, failures, successes, rejected, timeouts, concurrent, state_key, lock_key,
  last_change_key, counter_key, Reply, missing, found, Redis, Decimal,
}

-- `x--` of an int64.
abbrev pub dec64 : ℕ → ℕ
dec64 x = (x + i64_mod - 1) % i64_mod

abbrev pub reply_of : Option Text → Reply
reply_of none = missing
reply_of (some t) = found t

-- What is documented of the commands, on the value `view` and the number `number` under each key: they
-- succeed, and keep what they write.
pub record Steady {S : Type 0} (redis : Redis S) (decimal : Decimal) (view : Text → S → Option Text)
    (number : Text → S → ℕ) : Type 0 where
  pub parse_print : (n : ℕ) → decimal.parse (decimal.print n) ≡ some n
  pub get_view : (now : ℕ) (k : Text) (s : S) → redis.get now k s ≡ reply_of (view k s)
  pub set_ok : (now : ℕ) (k v : Text) (s : S) → (redis.set now k v s).1 ≡ true
  pub set_view :
      (now : ℕ) (k v : Text) (s : S) (j : Text)
      → view j (redis.set now k v s).0 ≡ (if text_eq k j then some v else view j s)
  pub set_number :
      (now : ℕ) (k : Text) (n : ℕ) (s : S) → number k (redis.set now k (decimal.print n) s).0 ≡ n
  pub set_number_other :
      (now : ℕ) (k v : Text) (s : S) (j : Text)
      → text_eq k j ≡ false
      → number j (redis.set now k v s).0 ≡ number j s
  pub incr_ok : (now : ℕ) (k : Text) (s : S) → (redis.incr now k s).1 ≡ some (inc64 (number k s))
  pub incr_number :
      (now : ℕ) (k : Text) (s : S) (j : Text)
      → number j (redis.incr now k s).0 ≡ (if text_eq k j then inc64 (number k s) else number j s)
  pub incr_view :
      (now : ℕ) (k : Text) (s : S) (j : Text)
      → text_eq k j ≡ false
      → view j (redis.incr now k s).0 ≡ view j s
  pub decr_number :
      (now : ℕ) (k : Text) (s : S) (j : Text)
      → number j (redis.decr now k s).0 ≡ (if text_eq k j then dec64 (number k s) else number j s)
  pub decr_view :
      (now : ℕ) (k : Text) (s : S) (j : Text)
      → text_eq k j ≡ false
      → view j (redis.decr now k s).0 ≡ view j s
  pub expire_view :
      (now : ℕ) (k : Text) (ttl : ℕ) (s : S) (j : Text)
      → view j (redis.expire now k ttl s) ≡ view j s
  pub expire_number :
      (now : ℕ) (k : Text) (ttl : ℕ) (s : S) (j : Text)
      → number j (redis.expire now k ttl s) ≡ number j s
  pub set_nx_free :
      (now : ℕ) (k v : Text) (ttl : ℕ) (s : S)
      → view k s ≡ none
      → (redis.set_nx now k v ttl s).1 ≡ some true
  pub set_nx_view :
      (now : ℕ) (k v : Text) (ttl : ℕ) (s : S) (j : Text)
      → text_eq k j ≡ false
      → view j (redis.set_nx now k v ttl s).0 ≡ view j s
  pub set_nx_number :
      (now : ℕ) (k v : Text) (ttl : ℕ) (s : S) (j : Text)
      → text_eq k j ≡ false
      → number j (redis.set_nx now k v ttl s).0 ≡ number j s
  pub del_view :
      (now : ℕ) (k : Text) (s : S) (j : Text)
      → view j (redis.del now k s) ≡ (if text_eq k j then none else view j s)
  pub del_number :
      (now : ℕ) (k : Text) (s : S) (j : Text)
      → text_eq k j ≡ false
      → number j (redis.del now k s) ≡ number j s

-- What is held of a circuit.
pub record Held : Type 0 where
  pub state : Option Text
  pub last_change : Option Text
  pub lock : Option Text
  pub count : Counter → ℕ

abbrev pub rank : Counter → ℕ
rank failures = 0
rank successes = 1
rank rejected = 2
rank timeouts = 3
rank concurrent = 4

abbrev pub put_count : Counter → ℕ → (Counter → ℕ) → Counter → ℕ
put_count k n f j = if rank k == rank j then n else f j

-- After the same prefix texts differ where what follows differs.
text_eq-append : (a b c : Text) → text_eq (a ++ b) (a ++ c) ≡ text_eq b c
unfolding text_eq
text_eq-append [] b c = refl
text_eq-append (x ∷ a) b c = ground (arith, text_eq-append a b c)

-- The key of a counter is that of no other.
pub counter_key-eq :
    (name : Text) (k j : Counter)
    → text_eq (counter_key k name) (counter_key j name) ≡ (rank k == rank j)
unfolding text_eq
counter_key-eq name failures failures = text_eq-append name (bytes ":failures") (bytes ":failures")
counter_key-eq name failures successes =
    text_eq-append name (bytes ":failures") (bytes ":successes")
counter_key-eq name failures rejected = text_eq-append name (bytes ":failures") (bytes ":rejected")
counter_key-eq name failures timeouts = text_eq-append name (bytes ":failures") (bytes ":timeout")
counter_key-eq name failures concurrent = refl
counter_key-eq name successes failures =
    text_eq-append name (bytes ":successes") (bytes ":failures")
counter_key-eq name successes successes =
    text_eq-append name (bytes ":successes") (bytes ":successes")
counter_key-eq name successes rejected =
    text_eq-append name (bytes ":successes") (bytes ":rejected")
counter_key-eq name successes timeouts = text_eq-append name (bytes ":successes") (bytes ":timeout")
counter_key-eq name successes concurrent = refl
counter_key-eq name rejected failures = text_eq-append name (bytes ":rejected") (bytes ":failures")
counter_key-eq name rejected successes =
    text_eq-append name (bytes ":rejected") (bytes ":successes")
counter_key-eq name rejected rejected = text_eq-append name (bytes ":rejected") (bytes ":rejected")
counter_key-eq name rejected timeouts = text_eq-append name (bytes ":rejected") (bytes ":timeout")
counter_key-eq name rejected concurrent = refl
counter_key-eq name timeouts failures = text_eq-append name (bytes ":timeout") (bytes ":failures")
counter_key-eq name timeouts successes = text_eq-append name (bytes ":timeout") (bytes ":successes")
counter_key-eq name timeouts rejected = text_eq-append name (bytes ":timeout") (bytes ":rejected")
counter_key-eq name timeouts timeouts = text_eq-append name (bytes ":timeout") (bytes ":timeout")
counter_key-eq name timeouts concurrent = refl
counter_key-eq name concurrent failures = refl
counter_key-eq name concurrent successes = refl
counter_key-eq name concurrent rejected = refl
counter_key-eq name concurrent timeouts = refl
counter_key-eq name concurrent concurrent = text_eq_refl name

pub state-counter :
    (name : Text) (j : Counter) → text_eq (state_key name) (counter_key j name) ≡ false
unfolding text_eq
state-counter name failures = refl
state-counter name successes = refl
state-counter name rejected = refl
state-counter name timeouts = refl
state-counter name concurrent = refl

pub lock-counter :
    (name : Text) (j : Counter) → text_eq (lock_key name) (counter_key j name) ≡ false
unfolding text_eq
lock-counter name failures = refl
lock-counter name successes = refl
lock-counter name rejected = refl
lock-counter name timeouts = refl
lock-counter name concurrent = refl

pub change-counter :
    (name : Text) (j : Counter) → text_eq (last_change_key name) (counter_key j name) ≡ false
unfolding text_eq
change-counter name failures = text_eq-append name (bytes ":lastchange") (bytes ":failures")
change-counter name successes = text_eq-append name (bytes ":lastchange") (bytes ":successes")
change-counter name rejected = text_eq-append name (bytes ":lastchange") (bytes ":rejected")
change-counter name timeouts = text_eq-append name (bytes ":lastchange") (bytes ":timeout")
change-counter name concurrent = refl

pub counter-state :
    (name : Text) (j : Counter) → text_eq (counter_key j name) (state_key name) ≡ false
unfolding text_eq
counter-state name failures = refl
counter-state name successes = refl
counter-state name rejected = refl
counter-state name timeouts = refl
counter-state name concurrent = refl

pub counter-lock :
    (name : Text) (j : Counter) → text_eq (counter_key j name) (lock_key name) ≡ false
unfolding text_eq
counter-lock name failures = refl
counter-lock name successes = refl
counter-lock name rejected = refl
counter-lock name timeouts = refl
counter-lock name concurrent = refl

pub counter-change :
    (name : Text) (j : Counter) → text_eq (counter_key j name) (last_change_key name) ≡ false
unfolding text_eq
counter-change name failures = text_eq-append name (bytes ":failures") (bytes ":lastchange")
counter-change name successes = text_eq-append name (bytes ":successes") (bytes ":lastchange")
counter-change name rejected = text_eq-append name (bytes ":rejected") (bytes ":lastchange")
counter-change name timeouts = text_eq-append name (bytes ":timeout") (bytes ":lastchange")
counter-change name concurrent = refl
