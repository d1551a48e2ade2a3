-- ===== src/Authz/InMemory.antt =====
-- `MemoryCache` of authz/cache/memory.go behind the interface that the agent uses.
use abraxis.Base.{ℕ, ◌≡◌, Text, false, ◌&&◌, ◌+◌, none, some, lookup, ltb, slt64, arith, refl}
use abraxis.Authz.Cache.{Decision, MemoryCache, get, set, clear, is_expired}
use abraxis.Authz.CacheReads.{get_miss, get_fresh, lookup-set, stored}
use abraxis.Authz.Agent.{DecisionCache}

pub get-clear : (now : ℕ) (key : Text) (c : MemoryCache) → (get now key (clear c)).1 ≡ none
unfolding lookup clear
get-clear now key c = rw (get_miss now key (clear c) refl) refl

pub get-set_alive :
    (now later : ℕ) (key : Text) (d : Decision) (ttl : ℕ) (c : MemoryCache)
    → (slt64 0 ttl && ltb (now + ttl) later) ≡ false
    → (get later key (set now key d ttl c)).1 ≡ some d
unfolding is_expired
get-set_alive now later key d ttl c alive =
    rw
      (get_fresh later key (set now key d ttl c) (stored now d ttl) (lookup-set now key d ttl c)
        (ground (arith, alive)))
      refl

-- `MemoryCache` as a `Cache`.
abbrev pub memory_decision_cache : DecisionCache MemoryCache
memory_decision_cache = record {
  get = get;
  set = set;
  clear = clear;
  get-clear = get-clear;
  get-set = get-set_alive;
}
