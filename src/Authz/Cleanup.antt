-- ===== src/Authz/Cleanup.antt =====
-- `CleanupExpired` of authz/cache/memory.go.
use abraxis.Base.{
  ℕ, ◌≡◌, refl, ◌∙◌, inl, inr, Text, Bool, false, ◌&&◌, ◌||◌, none, some, List, [], ◌∷◌, text_eq,
  eq_of_text_eq, lookup, has_key, IsDict, lookup-erase, if◌then◌else◌, arith, Bool-cases,
}
use abraxis.Authz.Cache.{Entry, MemoryCache, delete, is_expired, cleanup_loop, cleanup_expired}

any_expired : ℕ → Text → List (Text × Entry) → Bool
any_expired now k [] = false
any_expired now k ((j, e) ∷ m) =
    let rest = any_expired now k m in text_eq j k && is_expired now e || rest

one_round :
    (now : ℕ) (k j : Text) (e : Entry) (later : Bool) (c : MemoryCache)
    → (if later then none else lookup k (if is_expired now e then delete j c else c).entries)
      ≡ (if text_eq j k && is_expired now e || later then none else lookup k c.entries)
unfolding delete
one_round now k j e later c = elim (Bool-cases (is_expired now e)) [
  | inl old ↦ rw old (ground (arith, lookup-erase j k c.entries))
  | inr fresh ↦ rw fresh (ground arith)
]

lookup-cleanup_loop :
    (now : ℕ) (k : Text) (m : List (Text × Entry)) (c : MemoryCache)
    → lookup k (cleanup_loop now m c).entries
      ≡ (if any_expired now k m then none else lookup k c.entries)
unfolding cleanup_loop any_expired
lookup-cleanup_loop now k [] c = refl
lookup-cleanup_loop now k ((j, e) ∷ m) c =
    lookup-cleanup_loop now k m (if is_expired now e then delete j c else c)
    ∙ one_round now k j e (any_expired now k m) c

any_expired_absent :
    (now : ℕ) (k : Text) (m : List (Text × Entry))
    → has_key k m ≡ false
    → any_expired now k m ≡ false
unfolding any_expired has_key
any_expired_absent now k [] h = refl
any_expired_absent now k ((j, e) ∷ m) h = ground (arith, any_expired_absent now k m)

any_expired-lookup :
    (now : ℕ) (k : Text) (m : List (Text × Entry))
    → IsDict m
    → any_expired now k m ≡ (elim (lookup k m) [ none ↦ false | some e ↦ is_expired now e ])
unfolding any_expired lookup
any_expired-lookup now k [] d = refl
any_expired-lookup now k ((j, e) ∷ m) d = elim (Bool-cases (text_eq j k)) [
  | inl h ↦ rw (h, any_expired_absent now k m (rw (eq_of_text_eq j k h) at d.0)) (ground arith)
  | inr h ↦ rw h (any_expired-lookup now k m d.1)
]

-- `CleanupExpired`, on a cache that has one entry for each key, removes every entry that has expired,
-- and no other: of a key it leaves exactly the entry that is not expired.
pub lookup-cleanup_expired :
    (now : ℕ) (k : Text) (c : MemoryCache)
    → IsDict c.entries
    → lookup k (cleanup_expired now c).entries ≡ (elim (lookup k c.entries) [
      | none ↦ none
      | some e ↦ if is_expired now e then none else some e
    ])
unfolding cleanup_expired
lookup-cleanup_expired now k c d =
    rw (lookup-cleanup_loop now k c.entries c, any_expired-lookup now k c.entries d) (ground arith)
