-- ===== src/Breaker/Isolation.antt =====
-- The circuits of one breaker: validity of all of them, and independence of names.
use abraxis.Base.{
  ℕ, ◌<◌, ◌≡◌, some, Text, text_eq, text_eq_iff, lookup, lookup-insert, i32_half, i64_half, i64_mod,
  arith, Bool-cases, sle64, Option-cases, inl, inr, if◌then◌else◌,
}
use mathlib.Core.Option.{some-injective}
use mathlib.Core.Option
use mathlib.Core.Path.{subst}
use abraxis.Breaker.Circuit
use abraxis.Breaker.Circuit.{State, Error, Circuit, Outcome}
use abraxis.Breaker.Slots.{IsValid, execute-IsValid}
use abraxis.Breaker.Memory.{
  Config, Breaker, or_default, new_memory_circuit_breaker, new_circuit, get_circuit, execute,
  reset_circuit, reset,
}

pub record ValidConfig (c : Config) : Type 0 where
  pub threshold_pos : 0 < c.threshold
  pub threshold_word : c.threshold < i64_half
  pub success_pos : 0 < c.half_open_success_threshold
  pub success_word : c.half_open_success_threshold < i64_half
  pub max_pos : 0 < c.max_concurrent_requests
  pub max_word : c.max_concurrent_requests < i32_half

pub record ValidBreaker (b : Breaker) : Type 0 where
  pub config : ValidConfig b.config
  pub circuits : (k : Text) (c : Circuit) → lookup k b.circuits ≡ some c → IsValid c

or_default_pos :
    (x d : ℕ)
    → x < i64_mod
    → 0 < d
    → d < i64_half
    → (0 < or_default x d) × (or_default x d < i64_half)
unfolding sle64
or_default_pos x d h p q = ground arith

-- Whatever words the caller configures, negative ones too, the constructor makes a valid breaker,
-- if the limit on concurrent requests fits an int32 where it is not replaced by the default.
pub new-ValidBreaker :
    (c : Config)
    → c.threshold < i64_mod
    → c.half_open_success_threshold < i64_mod
    → c.max_concurrent_requests < i64_mod
    → or_default c.max_concurrent_requests 100 < i32_half
    → ValidBreaker (new_memory_circuit_breaker c)
unfolding new_memory_circuit_breaker lookup
new-ValidBreaker c ht hs hm small = record {
  config = record {
    threshold_pos = (or_default_pos c.threshold 5 ht (omega arith) (omega arith)).0;
    threshold_word = (or_default_pos c.threshold 5 ht (omega arith) (omega arith)).1;
    success_pos = (or_default_pos c.half_open_success_threshold 2 hs (omega arith) (omega arith)).0;
    success_word =
        (or_default_pos c.half_open_success_threshold 2 hs (omega arith) (omega arith)).1;
    max_pos = (or_default_pos c.max_concurrent_requests 100 hm (omega arith) (omega arith)).0;
    max_word = small;
  };
  circuits = λ k c e. cc;
}

new_circuit-IsValid :
    (now : ℕ) (cfg : Config) (name : Text) → ValidConfig cfg → IsValid (new_circuit now cfg name)
unfolding new_circuit
new_circuit-IsValid now cfg name v = ground arith

get_circuit-IsValid :
    (now : ℕ) (name : Text) (b : Breaker) → ValidBreaker b → IsValid (get_circuit now name b)
unfolding get_circuit
get_circuit-IsValid now name b v = elim (Option-cases (lookup name b.circuits)) [
  | inl e ↦ rw (e, get_circuit) (new_circuit-IsValid now b.config name v.config)
  | inr (c, e) ↦ rw (e, get_circuit) (v.circuits name c e)
]

-- A call for one name writes that name's circuit, and leaves every other name as it was.
lookup-execute :
    (now later : ℕ) (name other : Text) (o : Outcome) (b : Breaker)
    → lookup other (execute now later name o b).0.circuits ≡ (
        if text_eq name other
        then some (Circuit.execute now later o (get_circuit now name b)).0
        else lookup other b.circuits)
unfolding execute
lookup-execute now later name other o b =
    lookup-insert name other (Circuit.execute now later o (get_circuit now name b)).0 b.circuits

IsValid-of_some : (x c : Circuit) → some x ≡ some c → IsValid x → IsValid c
IsValid-of_some x c p v = subst IsValid (some-injective x c p) v

-- Every call, for a known or a new name, keeps every circuit of the breaker valid.
execute-ValidBreaker :
    (now later : ℕ) (name : Text) (o : Outcome) (b : Breaker)
    → ValidBreaker b
    → ValidBreaker (execute now later name o b).0
execute-ValidBreaker now later name o b v = record {
  config = unfold execute in v.config;
  circuits = λ k c e. kept k c e;
}
  where
    kept :
        (k : Text) (c : Circuit)
        → lookup k (execute now later name o b).0.circuits ≡ some c
        → IsValid c
    kept k c e = elim (Bool-cases (text_eq name k)) [
      | inl h ↦
          IsValid-of_some _ c (rw (lookup-execute now later name k o b, h) at e)
            (execute-IsValid now later o _ (get_circuit-IsValid now name b v))
      | inr h ↦ v.circuits k c (rw (lookup-execute now later name k o b, h) at e)
    ]

reset_circuit-IsValid : (now : ℕ) (c : Circuit) → IsValid c → IsValid (reset_circuit now c)
unfolding reset_circuit
reset_circuit-IsValid now c v = ground arith

-- `Reset` closes the named circuit with all counters at zero and its slots as they were, leaves
-- every other name alone, and does nothing for a name that has no circuit.
lookup-reset :
    (now : ℕ) (name other : Text) (b : Breaker)
    → lookup other (reset now name b).circuits ≡ (
        if text_eq name other
        then Option.map (reset_circuit now) (lookup name b.circuits)
        else lookup other b.circuits)
unfolding reset
lookup-reset now name other b = elim (Option-cases (lookup name b.circuits)) [
  | inl e ↦ ground (arith, text_eq_iff name other)
  | inr (c, e) ↦ ground (arith, lookup-insert name other (reset_circuit now c) b.circuits)
]
