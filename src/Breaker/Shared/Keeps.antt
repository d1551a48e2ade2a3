-- ===== src/Breaker/Shared/Keeps.antt =====
-- A Redis that keeps what is written, and one that is out of reach, for the runs of the breaker of
-- prism/internal/features/gateway/adapters/circuitbreaker/redis.go.

use abraxis.Base.{
  ℕ, ◌≡◌, refl, ap, Bool, true, false, Option, none, some, inl, inr, [], ◌∷◌, Text, text_eq,
  text_eq_refl, Bool-cases, inc64, if◌then◌else◌,
}
use abraxis.Breaker.Shared.Store.{Reply, Redis, Decimal}
use abraxis.Breaker.Shared.Logical.{Steady, dec64, reply_of}
use abraxis.Breaker.Shared.Finish.{IsDone}

abbrev pub Keys : Type 0
Keys = Text → Option Text

abbrev pub digits : Decimal
digits = record { print = λ n. n ∷ []; parse = λ t. elim t [ [] ↦ none | n ∷ _ ↦ some n ] }

abbrev number_in : Option Text → ℕ
number_in none = 0
number_in (some []) = 0
number_in (some (n ∷ _)) = n

abbrev pub view : Text → Keys → Option Text
view k s = s k

abbrev pub number : Text → Keys → ℕ
number k s = number_in (s k)

abbrev pub put : Text → Option Text → Keys → Keys
put k v s = λ j. if text_eq k j then v else s j

abbrev put_number : Text → ℕ → Keys → Keys × Option ℕ
put_number k n s = (put k (some (n ∷ [])) s, some n)

abbrev if_free : Text → Text → Option Text → Keys → Keys × Option Bool
if_free k v none s = (put k (some v) s, some true)
if_free k v (some _) s = (s, some false)

abbrev pub keeps : Redis Keys
keeps = record {
  get = λ now k s. reply_of (s k);
  set = λ now k v s. (put k (some v) s, true);
  set_nx = λ now k v ttl s. if_free k v (s k) s;
  incr = λ now k s. put_number k (inc64 (number k s)) s;
  decr = λ now k s. put_number k (dec64 (number k s)) s;
  expire = λ now k ttl s. s;
  del = λ now k s. put k none s;
}

number-put :
    (k : Text) (n : ℕ) (s : Keys) (j : Text)
    → number j (put k (some (n ∷ [])) s) ≡ (if text_eq k j then n else number j s)
number-put k n s j = elim (Bool-cases (text_eq k j)) [ inl e ↦ rw e refl | inr e ↦ rw e refl ]

number-put_self : (k : Text) (n : ℕ) (s : Keys) → number k (put k (some (n ∷ [])) s) ≡ n
number-put_self k n s = rw (text_eq_refl k) refl

put-other :
    (k : Text) (v : Option Text) (s : Keys) (j : Text) → text_eq k j ≡ false → put k v s j ≡ s j
put-other k v s j e = rw e refl

if_free-other :
    (k v : Text) (o : Option Text) (s : Keys) (j : Text)
    → text_eq k j ≡ false
    → (if_free k v o s).0 j ≡ s j
if_free-other k v none s j e = put-other k (some v) s j e
if_free-other k v (some _) s j e = refl

pub keeps-Steady : Steady keeps digits view number
keeps-Steady = record {
  parse_print = λ n. refl;
  get_view = λ now k s. refl;
  set_ok = λ now k v s. refl;
  set_view = λ now k v s j. refl;
  set_number = λ now k n s. number-put_self k n s;
  set_number_other = λ now k v s j e. ap number_in (put-other k (some v) s j e);
  incr_ok = λ now k s. refl;
  incr_number = λ now k s j. number-put k (inc64 (number k s)) s j;
  incr_view = λ now k s j e. put-other k (some (inc64 (number k s) ∷ [])) s j e;
  decr_number = λ now k s j. number-put k (dec64 (number k s)) s j;
  decr_view = λ now k s j e. put-other k (some (dec64 (number k s) ∷ [])) s j e;
  expire_view = λ now k ttl s j. refl;
  expire_number = λ now k ttl s j. refl;
  set_nx_free = λ now k v ttl s free. ap (λ o. (if_free k v o s).1) free;
  set_nx_view = λ now k v ttl s j e. if_free-other k v (s k) s j e;
  set_nx_number = λ now k v ttl s j e. ap number_in (if_free-other k v (s k) s j e);
  del_view = λ now k s j. refl;
  del_number = λ now k s j e. ap number_in (put-other k none s j e);
}

-- The commands under a context that is done.
abbrev pub too_late : Redis Keys
too_late = record {
  get = λ now k s. Reply.get_failed;
  set = λ now k v s. (s, false);
  set_nx = λ now k v ttl s. (s, none);
  incr = λ now k s. (s, none);
  decr = λ now k s. (s, none);
  expire = λ now k ttl s. s;
  del = λ now k s. s;
}

pub too_late-IsDone : IsDone too_late
too_late-IsDone = record {
  get_fails = λ now k s. refl;
  set_fails = λ now k v s. refl;
  set_nx_fails = λ now k v ttl s. refl;
  incr_fails = λ now k s. refl;
  decr_fails = λ now k s. refl;
  expire_fails = λ now k ttl s. refl;
  del_fails = λ now k s. refl;
}
