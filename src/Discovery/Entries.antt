-- ===== src/Discovery/Entries.antt =====
-- Entries of the maps of LocalDiscovery and the ids of their instances:
-- prism/internal/features/discovery/adapters/provider/local.go.
use abraxis.Base.{
  ℕ, ◌≡◌, Text, true, some, List, [], ◌∷◌, text_eq_iff, lookup, has_key, IsDict, All, arith,
}
use abraxis.Discovery.Local.{Instance}

lookup_known :
    (id : Text) (q : ℕ) (m : List (Text × ℕ)) → lookup id m ≡ some q → has_key id m ≡ true
unfolding lookup has_key
lookup_known id q [] e = cc
lookup_known id q ((k, p) ∷ m) e = ground (arith, lookup_known id q m)

pub ids_of :
    (heap : ℕ → Instance) (m : List (Text × ℕ))
    → IsDict m
    → ((id : Text) (p : ℕ) → lookup id m ≡ some p → (heap p).id ≡ id)
    → All (λ e. (heap e.1).id ≡ e.0) m
unfolding lookup
ids_of heap [] d h = tt
ids_of heap ((k, p) ∷ m) d h = (
  h k p (ground (arith, text_eq_iff k k)),
  ids_of heap m d.1
      (λ id q e. h id q (ground (arith, lookup_known id q m e, d.0, text_eq_iff k id))),
)
