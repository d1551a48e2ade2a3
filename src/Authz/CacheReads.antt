-- ===== src/Authz/CacheReads.antt =====
-- `Get` and `Set` of authz/cache/memory.go: what is read, and the invariant of the cache.
use mathlib.Core.Option.{some-injective}
use abraxis.Base.{
  ℕ, ◌+◌, ◌≤◌, ◌<◌, ◌≡◌, refl, sym, ◌∙◌, ap, ◌↔◌, inl, inr, Text, true, false, ◌&&◌, none, some,
  List, [], ◌∷◌, ◌++◌, length, ltb, leb, text_eq_iff, text_eq_refl, lookup, insert, has_key,
  insert-IsDict, has_key-insert, length-insert, length-erase, lookup-insert, lookup-has_key,
  if◌then◌else◌, arith, Bool-cases, Option-cases, All-insert, leb→le, slt64, i64_half, slt64-ltb,
}
use abraxis.Authz.Cache.{
  Decision, Entry, MemoryCache, delete, touch, get, evict_lru, room_for, set, clear, is_expired,
}
use abraxis.Authz.Eviction.{contains-append, IsValid, delete-IsValid, evict_lru-Evicts}

pub has_key-lookup :
    (key : Text) (v : Entry) (m : List (Text × Entry))
    → lookup key m ≡ some v
    → has_key key m ≡ true
has_key-lookup key v m h = elim (Bool-cases (has_key key m)) [
  | inl e ↦ e
  | inr e ↦ cc (sym (lookup-has_key key m e) ∙ h)
]

-- A cache with room for one more entry.
record HasRoom (c c' : MemoryCache) : Type 0 where
  valid : IsValid c'
  max : c'.max_entries ≡ c.max_entries
  room : length c'.entries < c.max_entries

delete-HasRoom :
    (key : Text) (v : Entry) (c : MemoryCache)
    → IsValid c
    → lookup key c.entries ≡ some v
    → HasRoom c (delete key c)
unfolding delete
delete-HasRoom key v c valid h = record {
  valid = unfold delete in delete-IsValid key c valid;
  max = refl;
  room =
      ground (
        arith,
        has_key-lookup key v c.entries h,
        length-erase key c.entries valid.dict,
        valid.fits,
      );
}

pub room_for_full :
    (c : MemoryCache)
    → 0 < c.max_entries
    → c.max_entries ≤ length c.entries
    → room_for c ≡ evict_lru c
unfolding room_for
room_for_full c p h = ground arith

pub room_for_free : (c : MemoryCache) → length c.entries < c.max_entries → room_for c ≡ c
unfolding room_for
room_for_free c h = ground arith

room_for-HasRoom : (c : MemoryCache) → IsValid c → HasRoom c (room_for c)
room_for-HasRoom c v = elim (Bool-cases (leb c.max_entries (length c.entries))) [
  | inl full ↦
      let (key, e, evicts) =
        evict_lru-Evicts c v
          (λ empty. absurd (omega (arith, v.max_pos, ap length empty, leb→le _ _ full))) in
      rw (room_for_full c v.max_pos (leb→le _ _ full), evicts.deletes)
        (delete-HasRoom key e c v evicts.found)
  | inr free ↦
      let less : length c.entries < c.max_entries = ground arith in
      rw (room_for_free c less) (record { valid = v; max = refl; room = less })
]

store-IsValid :
    (key : Text) (e : Entry) (c r : MemoryCache)
    → HasRoom c r
    → 0 < e.last_access
    → IsValid
        (record r { entries = insert key e r.entries; keys_by_time = r.keys_by_time ++ key ∷ [] })
store-IsValid key e c r h now = record {
  dict = insert-IsDict key e r.entries h.valid.dict;
  stamped = All-insert (λ p. 0 < p.1.last_access) key e r.entries now h.valid.stamped;
  max_pos = h.valid.max_pos;
  fits = ground (arith, length-insert key e r.entries, h.room, h.max);
  listed = λ k has. ground (
    arith,
    has_key-insert key k e r.entries,
    contains-append k r.keys_by_time (key ∷ []),
    h.valid.listed k,
  );
}

-- `Set` keeps the cache valid: each key has one entry, the entries never outnumber the limit, and
-- every key can be found for eviction. The clock is past the zero time.
pub set-IsValid :
    (now : ℕ) (key : Text) (d : Decision) (ttl : ℕ) (c : MemoryCache)
    → 0 < now
    → IsValid c
    → IsValid (set now key d ttl c)
unfolding set
set-IsValid now key d ttl c pos v = store-IsValid key _ c (room_for c) (room_for-HasRoom c v) pos

touch-IsValid :
    (now : ℕ) (key : Text) (e : Entry) (c : MemoryCache)
    → 0 < now
    → IsValid c
    → has_key key c.entries ≡ true
    → IsValid (touch now key e c)
unfolding touch
touch-IsValid now key e c pos v h = record {
  dict = insert-IsDict key _ c.entries v.dict;
  stamped = All-insert (λ p. 0 < p.1.last_access) key _ c.entries pos v.stamped;
  max_pos = v.max_pos;
  fits = ground (arith, length-insert key (record e { last_access = now }) c.entries, v.fits);
  listed = λ k has. ground (
    arith,
    has_key-insert key k (record e { last_access = now }) c.entries,
    text_eq_iff key k,
    v.listed k,
  );
}

-- The three ways through `Get`.
pub get_miss :
    (now : ℕ) (key : Text) (c : MemoryCache)
    → lookup key c.entries ≡ none
    → get now key c ≡ (c, none)
unfolding get
get_miss now key c h = ground arith

get_expired :
    (now : ℕ) (key : Text) (c : MemoryCache) (e : Entry)
    → lookup key c.entries ≡ some e
    → is_expired now e ≡ true
    → get now key c ≡ (delete key c, none)
unfolding get
get_expired now key c e h old = ground arith

pub get_fresh :
    (now : ℕ) (key : Text) (c : MemoryCache) (e : Entry)
    → lookup key c.entries ≡ some e
    → is_expired now e ≡ false
    → get now key c ≡ (touch now key e c, some e.decision)
unfolding get
get_fresh now key c e h fresh = ground arith

-- `Get` keeps the cache valid, on a hit, on a miss and where it drops an expired entry.
get-IsValid :
    (now : ℕ) (key : Text) (c : MemoryCache) → 0 < now → IsValid c → IsValid (get now key c).0
get-IsValid now key c pos v = elim (Option-cases (lookup key c.entries)) [
  | inl e ↦ rw (get_miss now key c e) v
  | inr (x, e) ↦ elim (Bool-cases (is_expired now x)) [
    | inl old ↦ rw (get_expired now key c x e old) (delete-IsValid key c v)
    | inr fresh ↦
        rw (get_fresh now key c x e fresh)
          (touch-IsValid now key x c pos v (has_key-lookup key x c.entries e))
  ]
]

-- `Get` answers with a decision exactly when the key has an entry that is not expired, and then with
-- the decision of that entry.
get_iff_lookup :
    (now : ℕ) (key : Text) (c : MemoryCache) (d : Decision)
    → ((get now key c).1 ≡ some d) ↔ (
        (e : Entry) × (lookup key c.entries ≡ some e)
        × (is_expired now e ≡ false)
        × (e.decision ≡ d))
get_iff_lookup now key c d = (
  λ h. elim (Option-cases (lookup key c.entries)) [
    | inl e ↦ cc (rw (get_miss now key c e) at h)
    | inr (x, e) ↦ elim (Bool-cases (is_expired now x)) [
      | inl old ↦ cc (rw (get_expired now key c x e old) at h)
      | inr fresh ↦ (x, e, fresh, some-injective _ _ (rw (get_fresh now key c x e fresh) at h))
    ]
  ],
  λ (x, e, fresh, q). rw (get_fresh now key c x e fresh, q),
)

-- The entry that `Set` makes.
abbrev pub stored : ℕ → Decision → ℕ → Entry
stored now d ttl = record {
  decision = d;
  expiration = if slt64 0 ttl then now + ttl else 0;
  last_access = now;
}

pub lookup-set :
    (now : ℕ) (key : Text) (d : Decision) (ttl : ℕ) (c : MemoryCache)
    → lookup key (set now key d ttl c).entries ≡ some (stored now d ttl)
unfolding set
lookup-set now key d ttl c = rw (lookup-insert, text_eq_refl)

-- What was set is read back until its time to live has passed, and at any time with a time to live of
-- zero, for a time to live that is not negative and a clock past the zero time.
pub get-set :
    (now later : ℕ) (key : Text) (d : Decision) (ttl : ℕ) (c : MemoryCache)
    → ttl < i64_half
    → 0 < now
    → (get later key (set now key d ttl c)).1
      ≡ (if ltb 0 ttl && ltb (now + ttl) later then none else some d)
unfolding is_expired
get-set now later key d ttl c w pos = elim (Bool-cases (is_expired later (stored now d ttl))) [
  | inl old ↦
      rw
        (get_expired later key (set now key d ttl c) (stored now d ttl) (lookup-set now key d ttl c)
          old)
        (ground (arith, slt64-ltb 0 ttl (omega arith) w))
  | inr fresh ↦
      rw
        (get_fresh later key (set now key d ttl c) (stored now d ttl) (lookup-set now key d ttl c)
          fresh)
        (ground (arith, slt64-ltb 0 ttl (omega arith) w))
]

-- `Get` reads the entry and writes it back in two locked sections. If the cache is cleared in
-- between, the entry is in the cache again afterwards: a later read answers with the decision from
-- before the cache was cleared, as long as it has not expired.
pub get-touch_clear :
    (now later : ℕ) (key : Text) (e : Entry) (c : MemoryCache)
    → is_expired later e ≡ false
    → (get later key (touch now key e (clear c))).1 ≡ some e.decision
unfolding is_expired
get-touch_clear now later key e c fresh = rw (
    get_fresh later key (touch now key e (clear c)) (record e { last_access = now })
      (unfold touch in rw (lookup-insert, text_eq_refl)) fresh)
