-- ===== src/Events/Subscribers.antt =====
-- The subscribers of an event bus: which channels belong to them.
use abraxis.Base.{
  ℕ, ◌+◌, ◌<◌, ◌≡◌, ◌≢◌, ◌⊎◌, inl, inr, refl, Text, Bool, true, false, ◌||◌, some, List, [], ◌∷◌,
  ◌==◌, lookup, insert, erase, text_eq, All, arith, Bool-cases,
}

-- Whether a channel belongs to a subscriber.
abbrev pub uses : ℕ → List (Text × ℕ) → Bool
uses n [] = false
uses n ((id, k) ∷ m) = let rest = uses n m in n == k || rest

-- No channel belongs to two subscribers.
abbrev pub Distinct : List (Text × ℕ) → Type 0
Distinct [] = Unit
Distinct ((id, n) ∷ m) = (uses n m ≡ false) × Distinct m

pub fresh_unused : (n : ℕ) (m : List (Text × ℕ)) → All (λ p. p.1 < n) m → uses n m ≡ false
fresh_unused n [] a = refl
fresh_unused n ((id, k) ∷ m) a = ground (arith, fresh_unused n m a.1, a.0)

pub uses-insert :
    (n k : ℕ) (id : Text) (m : List (Text × ℕ))
    → uses n (insert id k m) ≡ true
    → (n ≡ k) ⊎ (uses n m ≡ true)
unfolding insert
uses-insert n k id [] h = ground arith
uses-insert n k id ((j, x) ∷ m) h = ground (arith, uses-insert n k id m)

pub uses-erase :
    (n : ℕ) (id : Text) (m : List (Text × ℕ)) → uses n (erase id m) ≡ true → uses n m ≡ true
unfolding erase
uses-erase n id [] h = h
uses-erase n id ((j, x) ∷ m) h = ground (arith, uses-erase n id m)

pub Distinct-insert :
    (k : ℕ) (id : Text) (m : List (Text × ℕ))
    → uses k m ≡ false
    → Distinct m
    → Distinct (insert id k m)
unfolding insert
Distinct-insert k id [] h d = (refl, tt)
Distinct-insert k id ((j, x) ∷ m) h d = elim (Bool-cases (text_eq j id)) [
  | inl e ↦ rw e (ground arith, d.1)
  | inr e ↦
      rw e (ground (arith, uses-insert x k id m, d.0), Distinct-insert k id m (ground arith) d.1)
]

pub Distinct-erase : (id : Text) (m : List (Text × ℕ)) → Distinct m → Distinct (erase id m)
unfolding erase
Distinct-erase id [] d = tt
Distinct-erase id ((j, x) ∷ m) d = elim (Bool-cases (text_eq j id)) [
  | inl e ↦ rw e (Distinct-erase id m d.1)
  | inr e ↦ rw e (ground (arith, uses-erase x id m, d.0), Distinct-erase id m d.1)
]

pub uses_made :
    (n bound : ℕ) (m : List (Text × ℕ)) → All (λ p. p.1 < bound) m → uses n m ≡ true → n < bound
uses_made n bound [] a h = cc
uses_made n bound ((id, k) ∷ m) a h = ground (arith, uses_made n bound m a.1, a.0)

pub All-made :
    (bound : ℕ) (m : List (Text × ℕ)) → All (λ p. p.1 < bound) m → All (λ p. p.1 < bound + 1) m
All-made bound [] a = tt
All-made bound ((id, k) ∷ m) a = (omega (arith, a.0), All-made bound m a.1)

pub lookup-uses : (id : Text) (n : ℕ) (m : List (Text × ℕ)) → lookup id m ≡ some n → uses n m ≡ true
unfolding lookup
lookup-uses id n [] h = cc
lookup-uses id n ((j, k) ∷ m) h = ground (arith, lookup-uses id n m)

-- A channel whose subscriber was removed belongs to no other.
pub uses-erase_same :
    (id : Text) (n : ℕ) (m : List (Text × ℕ))
    → Distinct m
    → lookup id m ≡ some n
    → uses n (erase id m) ≡ false
unfolding lookup erase
uses-erase_same id n [] d h = refl
uses-erase_same id n ((j, k) ∷ m) d h =
    ground (arith, uses-erase_same id n m d.1, uses-erase k id m, lookup-uses id n m, d.0)

pub uses-insert_same :
    (id : Text) (n k : ℕ) (m : List (Text × ℕ))
    → Distinct m
    → lookup id m ≡ some n
    → n ≢ k
    → uses n (insert id k m) ≡ false
unfolding lookup insert
uses-insert_same id n k [] d h ne = cc
uses-insert_same id n k ((j, x) ∷ m) d h ne =
    ground (arith, uses-insert_same id n k m d.1, lookup-uses id n m, d.0)
