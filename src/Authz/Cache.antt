-- ===== src/Authz/Cache.antt =====
-- The cache of decisions: authz/cache/memory.go, and `Decision` of authz/types.
-- A `time.Time` is a number of nanoseconds, the zero time 0; a clock reading `now` is above 0.
use abraxis.Base.{
  ℕ, ◌+◌, Text, Bool, not, ◌&&◌, ◌||◌, Option, none, some, List, [], ◌∷◌, ◌++◌, length, ltb, leb,
  ◌==◌, text_eq, lookup, insert, erase, if◌then◌else◌, sle64, slt64,
}

pub record Decision : Type 0 where
  pub allowed : Bool
  pub reason : Text
  pub cached : Bool
  pub timestamp : ℕ

-- `memoryCacheEntry`
pub record Entry : Type 0 where
  pub decision : Decision
  pub expiration : ℕ
  pub last_access : ℕ

pub record MemoryCache : Type 0 where
  pub entries : List (Text × Entry)
  pub keys_by_time : List Text
  pub max_entries : ℕ  -- a positive int

-- `NewMemoryCache`; the argument is an `int` word.
unfoldable pub new_memory_cache : ℕ → MemoryCache
new_memory_cache max_entries = record {
  entries = [];
  keys_by_time = [];
  max_entries = if sle64 max_entries 0 then 1000 else max_entries;
}

-- `!entry.expiration.IsZero() && now.After(entry.expiration)`
unfoldable pub is_expired : ℕ → Entry → Bool
is_expired now e = not (e.expiration == 0) && ltb e.expiration now

-- `pruneKeyByTime`: the first occurrence goes.
unfoldable pub prune : Text → List Text → List Text
prune key [] = []
prune key (k ∷ ks) = let rest = prune key ks in if text_eq k key then ks else k ∷ rest

-- `delete(c.entries, key)` and `c.pruneKeyByTime(key)`; `Delete` does the same.
unfoldable pub delete : Text → MemoryCache → MemoryCache
delete key c = record c { entries = erase key c.entries; keys_by_time = prune key c.keys_by_time }

-- The last section of `Get`, on the entry that its first section read.
unfoldable pub touch : ℕ → Text → Entry → MemoryCache → MemoryCache
touch now key e c = record c { entries = insert key (record e { last_access = now }) c.entries }

-- `Get`, with no other operation between its sections.
unfoldable pub get : ℕ → Text → MemoryCache → MemoryCache × Option Decision
get now key c = elim (lookup key c.entries) [
  | none ↦ (c, none)
  | some e ↦ if is_expired now e then (delete key c, none) else (touch now key e c, some e.decision)
]

-- `oldestTime.IsZero() || entry.lastAccess.Before(oldestTime)`
unfoldable pub is_older : ℕ → ℕ → Bool
is_older oldest_time last_access = oldest_time == 0 || ltb last_access oldest_time

-- The loop of `evictLRU`: the key to evict and its time so far.
unfoldable pub find_oldest : Text → ℕ → List (Text × Entry) → Text
find_oldest oldest_key oldest_time [] = oldest_key
find_oldest oldest_key oldest_time ((k, e) ∷ m) =
    let older = is_older oldest_time e.last_access in
    find_oldest (if older then k else oldest_key) (if older then e.last_access else oldest_time) m

-- The time of the first key: the zero time if it has no entry.
unfoldable pub first_time : Text → List (Text × Entry) → ℕ
first_time key m = elim (lookup key m) [ some e ↦ e.last_access | none ↦ 0 ]

-- `evictLRU`
unfoldable pub evict_lru : MemoryCache → MemoryCache
evict_lru c = elim c.keys_by_time [
  | [] ↦ c
  | k ∷ ks ↦ delete (find_oldest k (first_time k c.entries) c.entries) c
]

-- The check of `Set` for an entry to evict.
unfoldable pub room_for : MemoryCache → MemoryCache
room_for c = if leb c.max_entries (length c.entries) && ltb 0 c.max_entries then evict_lru c else c

-- `Set`; `ttl` is a `time.Duration`, an int64 word.
unfoldable pub set : ℕ → Text → Decision → ℕ → MemoryCache → MemoryCache
set now key decision ttl c =
    let expiration = if slt64 0 ttl then now + ttl else 0 in
    let room = room_for c in
    record room {
      entries =
          insert key (record { decision = decision; expiration = expiration; last_access = now })
            room.entries;
      keys_by_time = room.keys_by_time ++ key ∷ [];
    }

-- `Clear`
unfoldable pub clear : MemoryCache → MemoryCache
clear c = record c { entries = []; keys_by_time = [] }

-- The loop of `CleanupExpired`, over the entries that it ranges over.
unfoldable pub cleanup_loop : ℕ → List (Text × Entry) → MemoryCache → MemoryCache
cleanup_loop now [] c = c
cleanup_loop now ((k, e) ∷ m) c = cleanup_loop now m (if is_expired now e then delete k c else c)

-- `CleanupExpired`
unfoldable pub cleanup_expired : ℕ → MemoryCache → MemoryCache
unfolding cleanup_loop
cleanup_expired now c = cleanup_loop now c.entries c
