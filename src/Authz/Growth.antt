-- ===== src/Authz/Growth.antt =====
-- `Set` of authz/cache/memory.go on a key that has an entry already.
use abraxis.Base.{
  ℕ, zero, suc, ◌+◌, ◌<◌, ◌≡◌, ◌≢◌, refl, ◌∙◌, Text, true, none, [], ◌∷◌, length, length-append,
  text_eq_iff, text_eq_ne, text_eq_refl, lookup, erase, has_key, has_key-insert, has_key-erase,
  length-insert, length-erase, lookup-insert, lookup-erase, arith,
}
use abraxis.Authz.Cache.{Decision, Entry, MemoryCache, delete, set}
use abraxis.Authz.Eviction.{IsValid, Evicts}
use abraxis.Authz.CacheReads.{room_for_full, room_for_free, has_key-lookup, stored}

-- The key is set `n` times more.
unfoldable pub set_again : ℕ → ℕ → Text → Decision → ℕ → MemoryCache → MemoryCache
set_again zero now key d ttl c = c
set_again (suc n) now key d ttl c = set_again n now key d ttl (set now key d ttl c)

record Grown (key : Text) (c c' : MemoryCache) : Type 0 where
  present : has_key key c'.entries ≡ true
  size : length c'.entries ≡ length c.entries
  keys : length c'.keys_by_time ≡ length c.keys_by_time + 1
  max : c'.max_entries ≡ c.max_entries

set-Grown :
    (now : ℕ) (key : Text) (d : Decision) (ttl : ℕ) (c : MemoryCache)
    → has_key key c.entries ≡ true
    → length c.entries < c.max_entries
    → Grown key c (set now key d ttl c)
unfolding set
set-Grown now key d ttl c h free = rw (room_for_free c free) (
    let e : Entry = stored now d ttl in
    record {
      present = ground (arith, has_key-insert key key e c.entries, text_eq_refl key);
      size = ground (arith, length-insert key e c.entries);
      keys = length-append c.keys_by_time (key ∷ []);
      max = refl;
    })

-- The keys by time are not bounded by the number of entries: to set a key that has an entry `n` more
-- times, in a cache with room, leaves the number of entries as it is and adds `n` keys to the list.
length-set_again :
    (n now : ℕ) (key : Text) (d : Decision) (ttl : ℕ) (c : MemoryCache)
    → has_key key c.entries ≡ true
    → length c.entries < c.max_entries
    → (length (set_again n now key d ttl c).entries ≡ length c.entries)
      × (length (set_again n now key d ttl c).keys_by_time ≡ length c.keys_by_time + n)
unfolding set_again
length-set_again zero now key d ttl c h free = (refl, omega arith)
length-set_again (suc n) now key d ttl c h free =
    let g = set-Grown now key d ttl c h free in
    let (size, keys) =
      length-set_again n now key d ttl (set now key d ttl c) g.present (omega arith) in
    (size ∙ g.size, omega arith)

-- A full valid cache makes room also where none is needed: to set a key that has an entry evicts the
-- least recently used entry, and if that is the entry of another key, it is gone and the cache is
-- left with one entry less than its limit.
set_present-Evicts :
    (now : ℕ) (key : Text) (d : Decision) (ttl : ℕ) (c : MemoryCache) (victim : Text) (v : Entry)
    → IsValid c
    → length c.entries ≡ c.max_entries
    → has_key key c.entries ≡ true
    → Evicts c victim v
    → key ≢ victim
    → (lookup victim (set now key d ttl c).entries ≡ none)
      × (length (set now key d ttl c).entries + 1 ≡ c.max_entries)
unfolding set delete
set_present-Evicts now key d ttl c victim v valid full h ev ne =
    rw (room_for_full c valid.max_pos (omega arith), ev.deletes)
      (
        let e : Entry = stored now d ttl in
            ground (
              arith,
              lookup-insert key victim e (erase victim c.entries),
              lookup-erase victim victim c.entries,
              text_eq_refl victim,
              text_eq_ne key victim ne,
            ),
        ground (
          arith,
          length-insert key (stored now d ttl) (erase victim c.entries),
          length-erase victim c.entries valid.dict,
          has_key-erase victim key c.entries,
          has_key-lookup victim v c.entries ev.found,
          text_eq_iff victim key,
        ),
      )
