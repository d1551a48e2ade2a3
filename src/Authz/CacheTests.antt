-- ===== src/Authz/CacheTests.antt =====
-- Runs of the cache of decisions, and its theorems at concrete inputs.
use abraxis.Base.{
  ◌≡◌, ◌≢◌, ◌<◌, ◌+◌, refl, Text, bytes, true, false, some, none, [], ltb, ◌&&◌, if◌then◌else◌,
  lookup, insert, erase, has_key, length, text_eq, slt64, sle64, arith,
}
use abraxis.Authz.Cache.{
  Decision, Entry, MemoryCache, new_memory_cache, is_expired, get, set, clear, touch, delete,
  evict_lru, room_for, prune, find_oldest, first_time, is_older, cleanup_loop, cleanup_expired,
}
use abraxis.Authz.Eviction.{IsValid, Evicts, evict_lru-Evicts}
use abraxis.Authz.CacheReads.{set-IsValid, get-set, stored}

program : Unit {0}
unfolding new_memory_cache is_expired get set clear touch delete evict_lru room_for prune
    find_oldest first_time is_older cleanup_loop cleanup_expired lookup insert erase has_key text_eq
    slt64 sle64
program = tt

abbrev alice : Text
alice = bytes "alice"

abbrev bob : Text
bob = bytes "bob"

abbrev grant : Decision
grant = record { allowed = true; reason = bytes "owner"; cached = false; timestamp = 5 }

abbrev empty : MemoryCache
empty = record { entries = []; keys_by_time = []; max_entries = 2 }

new_two : new_memory_cache 2 ≡ empty
unfolding program
new_two = refl

empty-IsValid : IsValid empty
unfolding program
empty-IsValid = record {
  dict = tt;
  stamped = tt;
  max_pos = omega arith;
  fits = omega arith;
  listed = λ k h. cc;
}

abbrev one : MemoryCache
one = set 5 alice grant 100 empty

abbrev full : MemoryCache
full = set 7 bob grant 100 one

set-IsValid_example : IsValid (set 5 alice grant 100 empty)
set-IsValid_example = set-IsValid 5 alice grant 100 empty (omega arith) empty-IsValid

one-IsValid : IsValid one
one-IsValid = set-IsValid 5 alice grant 100 empty (omega arith) empty-IsValid

full-IsValid : IsValid full
full-IsValid = set-IsValid 7 bob grant 100 one (omega arith) one-IsValid

one_nonempty : one.entries ≢ []
unfolding program
one_nonempty = λ h. cc

evict_lru-Evicts_example : (key : Text) × (v : Entry) × Evicts one key v
evict_lru-Evicts_example = evict_lru-Evicts one one-IsValid one_nonempty

get-set_example :
    (get 40 alice (set 5 alice grant 100 empty)).1
    ≡ (if ltb 0 100 && ltb (5 + 100) 40 then none else some grant)
get-set_example = get-set 5 40 alice grant 100 empty (omega arith) (omega arith)

read_in_time : (get 40 alice one).1 ≡ some grant
unfolding program
read_in_time = refl

read_late : (get 106 alice one).1 ≡ none
unfolding program
read_late = refl

grant_alive : is_expired 40 (stored 5 grant 100) ≡ false
unfolding program
grant_alive = refl

alice_present : has_key alice one.entries ≡ true
unfolding program
alice_present = refl

one_has_room : length one.entries < one.max_entries
unfolding program
one_has_room = omega arith

full_size : length full.entries ≡ full.max_entries
unfolding program
full_size = refl

bob_present : has_key bob full.entries ≡ true
unfolding program
bob_present = refl

full-Evicts : Evicts full alice (stored 5 grant 100)
unfolding program
full-Evicts = record { deletes = refl; found = refl; oldest = (omega arith, (omega arith, tt)) }

bob-ne-alice : bob ≢ alice
bob-ne-alice = λ h. cc
