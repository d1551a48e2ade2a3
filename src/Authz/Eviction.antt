-- ===== src/Authz/Eviction.antt =====
-- The size of the cache, and what `evictLRU` takes out.
use abraxis.Base.{
  ℕ, ◌≤◌, ◌<◌, ◌≡◌, ◌≢◌, refl, sym, ◌⊎◌, inl, inr, Text, Bool, true, false, ◌||◌, some, List, [],
  ◌∷◌, ◌++◌, List-cases, length, text_eq, text_eq_iff, text_eq_refl, lookup, has_key, IsDict,
  erase-IsDict, has_key-erase, length-erase, arith, Bool-cases, Option-cases, All, All-erase,
}
use abraxis.Authz.Cache.{
  Entry, MemoryCache, prune, delete, find_oldest, first_time, is_older, evict_lru,
}

abbrev pub contains : Text → List Text → Bool
contains key [] = false
contains key (k ∷ ks) = let rest = contains key ks in text_eq k key || rest

-- Every entry was read or written at some time.
abbrev pub Stamped : List (Text × Entry) → Type 0
Stamped = All (λ p. 0 < p.1.last_access)

-- Each key has one entry, the entries fit, and every key with an entry is in the list by time.
pub record IsValid (c : MemoryCache) : Type 0 where
  pub dict : IsDict c.entries
  pub stamped : Stamped c.entries
  pub max_pos : 0 < c.max_entries
  pub fits : length c.entries ≤ c.max_entries
  pub listed : (k : Text) → has_key k c.entries ≡ true → contains k c.keys_by_time ≡ true

contains-prune_ne :
    (key k : Text) (ks : List Text)
    → text_eq key k ≡ false
    → contains k (prune key ks) ≡ contains k ks
unfolding prune
contains-prune_ne key k [] h = refl
contains-prune_ne key k (x ∷ xs) h =
    ground
      (arith, text_eq_iff x key, text_eq_iff x k, text_eq_iff key k, contains-prune_ne key k xs)

pub contains-append :
    (k : Text) (xs ys : List Text) → contains k (xs ++ ys) ≡ (contains k xs || contains k ys)
contains-append k [] ys = refl
contains-append k (x ∷ xs) ys = ground (arith, contains-append k xs ys)

-- `Delete` keeps the cache valid.
pub delete-IsValid : (key : Text) (c : MemoryCache) → IsValid c → IsValid (delete key c)
unfolding delete
delete-IsValid key c v = record {
  dict = erase-IsDict key c.entries v.dict;
  stamped = All-erase (λ p. 0 < p.1.last_access) key c.entries v.stamped;
  max_pos = v.max_pos;
  fits = ground (arith, length-erase key c.entries v.dict, v.fits);
  listed = λ k h.
      ground
        (arith, has_key-erase key k c.entries, contains-prune_ne key k c.keys_by_time, v.listed k);
}

-- The entry of each key is what `lookup` finds.
abbrev Looked : List (Text × Entry) → List (Text × Entry) → Type 0
Looked m0 = All (λ p. lookup p.0 m0 ≡ some p.1)

Looked-cons :
    (k : Text) (e : Entry) (m0 m : List (Text × Entry))
    → has_key k m ≡ false
    → Looked m0 m
    → Looked ((k, e) ∷ m0) m
unfolding has_key lookup
Looked-cons k e m0 [] h a = tt
Looked-cons k e m0 ((j, d) ∷ m) h a =
    (ground (arith, text_eq_iff k j, text_eq_iff j k, a.0), Looked-cons k e m0 m (ground arith) a.1)

Looked-self : (m : List (Text × Entry)) → IsDict m → Looked m m
unfolding lookup
Looked-self [] d = tt
Looked-self ((k, e) ∷ m) d =
    (ground (arith, text_eq_refl k), Looked-cons k e m m d.0 (Looked-self m d.1))

-- Where the loop of `evictLRU` may stand: its key has an entry with its time, or its time is zero
-- and there is an entry to come.
data Start (m0 : List (Text × Entry)) (k : Text) (t : ℕ) (m : List (Text × Entry)) : Type 0 where
  known : (e : Entry) → lookup k m0 ≡ some e → e.last_access ≡ t → Start m0 k t m
  unknown : t ≡ 0 → m ≢ [] → Start m0 k t m

-- The loop settles on an entry, as old as every entry that it passes.
record IsOldest (m0 : List (Text × Entry)) (t : ℕ) (m : List (Text × Entry)) (key : Text)
    (v : Entry) : Type 0 where
  found : lookup key m0 ≡ some v
  bound : (t ≡ 0) ⊎ (v.last_access ≤ t)
  oldest : All (λ p. v.last_access ≤ p.1.last_access) m

is_older-true : (t a : ℕ) → is_older t a ≡ true → (t ≡ 0) ⊎ (a < t)
unfolding is_older
is_older-true t a h = ground arith

is_older-false : (t a : ℕ) → is_older t a ≡ false → (0 < t) × (t ≤ a)
unfolding is_older
is_older-false t a h = ground arith

Start-tail :
    (m0 : List (Text × Entry)) (k : Text) (t : ℕ) (m m' : List (Text × Entry))
    → 0 < t
    → Start m0 k t m
    → Start m0 k t m'
Start-tail m0 k t m m' h (known e f q) = known e f q
Start-tail m0 k t m m' h (unknown z ne) = absurd (omega arith)

find_oldest-IsOldest :
    (m0 : List (Text × Entry)) (k : Text) (t : ℕ) (m : List (Text × Entry))
    → Looked m0 m
    → Stamped m
    → Start m0 k t m
    → (v : Entry) × IsOldest m0 t m (find_oldest k t m) v
unfolding find_oldest
find_oldest-IsOldest m0 k t [] l s (known e h q) =
    (e, record { found = h; bound = inr (omega arith); oldest = tt })
find_oldest-IsOldest m0 k t [] l s (unknown z ne) = absurd (ne refl)
find_oldest-IsOldest m0 k t ((j, e) ∷ m) l s start = elim (Bool-cases (is_older t e.last_access)) [
  | inl h ↦
      let (v, o) = find_oldest-IsOldest m0 j e.last_access m l.1 s.1 (known e l.0 refl) in
      rw h (
        v,
        record {
          found = o.found;
          bound = ground (arith, is_older-true t e.last_access h, o.bound, s.0);
          oldest = (ground (arith, o.bound, s.0), o.oldest);
        },
      )
  | inr h ↦
      let (pos, le) = is_older-false t e.last_access h in
      let (v, o) =
        find_oldest-IsOldest m0 k t m l.1 s.1 (Start-tail m0 k t ((j, e) ∷ m) m pos start) in
      rw h (
        v,
        record { found = o.found; bound = o.bound; oldest = (ground (arith, o.bound), o.oldest) },
      )
]

-- One deletion, of an entry that no entry is older than.
pub record Evicts (c : MemoryCache) (key : Text) (v : Entry) : Type 0 where
  pub deletes : evict_lru c ≡ delete key c
  pub found : lookup key c.entries ≡ some v
  pub oldest : All (λ p. v.last_access ≤ p.1.last_access) c.entries

Start-first : (k : Text) (m : List (Text × Entry)) → m ≢ [] → Start m k (first_time k m) m
unfolding first_time
Start-first k m ne = elim (Option-cases (lookup k m)) [
  | inl e ↦ unknown (rw (e, first_time)) ne
  | inr (v, e) ↦ known v e (rw (e, first_time))
]

listed-ne-nil : (c : MemoryCache) → IsValid c → c.entries ≢ [] → c.keys_by_time ≢ []
unfolding has_key
listed-ne-nil c v ne = λ none_listed. elim (List-cases c.entries) [
  | inl e ↦ ne e
  | inr (p, m, e) ↦ cc (sym (rw none_listed at (v.listed p.0 (rw (e, has_key, text_eq_refl p.0)))))
]

evict_lru_first :
    (c : MemoryCache) (k : Text) (ks : List Text)
    → c.keys_by_time ≡ k ∷ ks
    → evict_lru c ≡ delete (find_oldest k (first_time k c.entries) c.entries) c
unfolding evict_lru
evict_lru_first c k ks h = ground arith

-- `evictLRU` on a valid cache with an entry deletes one entry, the least recently used: no other was
-- last read or written before it.
pub evict_lru-Evicts :
    (c : MemoryCache) → IsValid c → c.entries ≢ [] → (key : Text) × (v : Entry) × Evicts c key v
evict_lru-Evicts c v ne = elim (List-cases c.keys_by_time) [
  | inl e ↦ absurd (listed-ne-nil c v ne e)
  | inr (k, ks, e) ↦
      let (entry, o) =
        find_oldest-IsOldest c.entries k (first_time k c.entries) c.entries
          (Looked-self c.entries v.dict) v.stamped (Start-first k c.entries ne) in
      (
        find_oldest k (first_time k c.entries) c.entries,
        entry,
        record { deletes = evict_lru_first c k ks e; found = o.found; oldest = o.oldest },
      )
]
