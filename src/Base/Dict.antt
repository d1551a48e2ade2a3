-- ===== src/Base/Dict.antt =====
-- Go maps with string keys as association lists. A `range` loop visits the entries in list order;
-- theorems quantify over the list, and so over the order that the runtime picks.
use Prim.Native.Nat.{suc}
use mathlib.Core.Path.{◌≡◌, refl}
use mathlib.Core.Bool.{Bool, true, false}
use mathlib.Core.Option.{Option, none, some}
use mathlib.Core.List.{List, [], ◌∷◌}
use native.Mathlib.Omega.{arith}
use mathlib.Core.Option.{some-injective}
use mathlib.Core.Logic.{inl, inr}
use abraxis.Base.Tests.{if◌then◌else◌, Bool-cases}
use abraxis.Base.Lists.{length, All}
use abraxis.Base.Strings.{Text, text_eq, text_eq_iff, eq_of_text_eq}

module _ {ℓ} {V : Type ℓ} where
  -- `v, ok := m[k]`
  unfoldable pub lookup : Text → List (Text × V) → Option V
  lookup k [] = none
  lookup k ((j, v) ∷ m) = if text_eq j k then some v else lookup k m

  -- `m[k] = v`
  unfoldable pub insert : Text → V → List (Text × V) → List (Text × V)
  insert k v [] = (k, v) ∷ []
  insert k v ((j, w) ∷ m) = if text_eq j k then (k, v) ∷ m else (j, w) ∷ insert k v m

  -- `delete(m, k)`
  unfoldable pub erase : Text → List (Text × V) → List (Text × V)
  erase k [] = []
  erase k ((j, w) ∷ m) = let rest = erase k m in if text_eq j k then rest else (j, w) ∷ rest

  -- `_, ok := m[k]`
  unfoldable pub has_key : Text → List (Text × V) → Bool
  has_key k [] = false
  has_key k ((j, v) ∷ m) = if text_eq j k then true else has_key k m

  -- No key stands twice, as in every Go map.
  abbrev pub IsDict : List (Text × V) → Type 0
  IsDict [] = Unit
  IsDict ((k, v) ∷ m) = (has_key k m ≡ false) × IsDict m

  pub lookup-insert :
      (k j : Text) (v : V) (m : List (Text × V))
      → lookup j (insert k v m) ≡ (if text_eq k j then some v else lookup j m)
  unfolding lookup insert
  lookup-insert k j v [] = refl
  lookup-insert k j v ((i, w) ∷ m) =
      ground (arith, text_eq_iff k j, text_eq_iff i k, text_eq_iff i j, lookup-insert k j v m)

  pub lookup-insert_self :
      (k : Text) (v : V) (m : List (Text × V)) → lookup k (insert k v m) ≡ some v
  lookup-insert_self k v m = ground (arith, lookup-insert k k v m, text_eq_iff k k)

  pub lookup-insert_ne :
      (k j : Text) (v : V) (m : List (Text × V))
      → text_eq k j ≡ false
      → lookup j (insert k v m) ≡ lookup j m
  lookup-insert_ne k j v m e = ground (arith, lookup-insert k j v m)

  pub lookup-erase :
      (k j : Text) (m : List (Text × V))
      → lookup j (erase k m) ≡ (if text_eq k j then none else lookup j m)
  unfolding lookup erase
  lookup-erase k j [] = ground arith
  lookup-erase k j ((i, w) ∷ m) =
      ground (arith, text_eq_iff k j, text_eq_iff i k, text_eq_iff i j, lookup-erase k j m)

  pub has_key-insert :
      (k j : Text) (v : V) (m : List (Text × V))
      → has_key j (insert k v m) ≡ (if text_eq k j then true else has_key j m)
  unfolding has_key insert
  has_key-insert k j v [] = refl
  has_key-insert k j v ((i, w) ∷ m) =
      ground (arith, text_eq_iff k j, text_eq_iff i k, text_eq_iff i j, has_key-insert k j v m)

  pub has_key-erase :
      (k j : Text) (m : List (Text × V))
      → has_key j (erase k m) ≡ (if text_eq k j then false else has_key j m)
  unfolding has_key erase
  has_key-erase k j [] = ground arith
  has_key-erase k j ((i, w) ∷ m) =
      ground (arith, text_eq_iff k j, text_eq_iff i k, text_eq_iff i j, has_key-erase k j m)

  has_key-insert_ne :
      (k j : Text) (v : V) (m : List (Text × V))
      → text_eq j k ≡ false
      → has_key j m ≡ false
      → has_key j (insert k v m) ≡ false
  has_key-insert_ne k j v m e h =
      ground (arith, has_key-insert k j v m, text_eq_iff k j, text_eq_iff j k)

  pub insert-IsDict : (k : Text) (v : V) (m : List (Text × V)) → IsDict m → IsDict (insert k v m)
  unfolding insert
  insert-IsDict k v [] h = (unfold has_key in refl, tt)
  insert-IsDict k v ((i, w) ∷ m) h = elim (Bool-cases (text_eq i k)) [
    | inl e ↦ rw e (rw (eq_of_text_eq i k e) at h)
    | inr e ↦ rw e (has_key-insert_ne k i v m e h.0, insert-IsDict k v m h.1)
  ]

  pub erase-IsDict : (k : Text) (m : List (Text × V)) → IsDict m → IsDict (erase k m)
  unfolding erase
  erase-IsDict k [] h = tt
  erase-IsDict k ((i, w) ∷ m) h = ground (arith, has_key-erase k i m, erase-IsDict k m)

  pub lookup-has_key : (k : Text) (m : List (Text × V)) → (has_key k m ≡ false) → lookup k m ≡ none
  unfolding has_key lookup
  lookup-has_key k [] h = refl
  lookup-has_key k ((i, w) ∷ m) h = ground (arith, lookup-has_key k m)

  -- A write adds an entry exactly when the key is new.
  pub length-insert :
      (k : Text) (v : V) (m : List (Text × V))
      → length (insert k v m) ≡ (if has_key k m then length m else suc (length m))
  unfolding insert has_key
  length-insert k v [] = refl
  length-insert k v ((i, w) ∷ m) = ground (arith, length-insert k v m)

  pub erase_absent : (k : Text) (m : List (Text × V)) → has_key k m ≡ false → erase k m ≡ m
  unfolding erase has_key
  erase_absent k [] h = refl
  erase_absent k ((i, w) ∷ m) h = ground (arith, erase_absent k m)

  -- Deleting a key that is present removes one entry.
  pub length-erase :
      (k : Text) (m : List (Text × V))
      → IsDict m
      → length m ≡ (if has_key k m then suc (length (erase k m)) else length (erase k m))
  unfolding erase has_key
  length-erase k [] d = refl
  length-erase k ((i, w) ∷ m) d =
      ground (arith, text_eq_iff i k, length-erase k m, erase_absent k m)

module _ {ℓ κ} {V : Type ℓ} (P : Text × V → Type κ) where
  pub All-erase : (k : Text) (m : List (Text × V)) → All P m → All P (erase k m)
  unfolding erase
  All-erase k [] h = tt
  All-erase k ((j, w) ∷ m) h = elim (Bool-cases (text_eq j k)) [
    | inl e ↦ rw e (All-erase k m h.1)
    | inr e ↦ rw e (h.0, All-erase k m h.1)
  ]

  pub All-insert :
      (k : Text) (v : V) (m : List (Text × V)) → P (k, v) → All P m → All P (insert k v m)
  unfolding insert
  All-insert k v [] p h = (p, tt)
  All-insert k v ((j, w) ∷ m) p h = elim (Bool-cases (text_eq j k)) [
    | inl e ↦ rw e (p, h.1)
    | inr e ↦ rw e (h.0, All-insert k v m p h.1)
  ]

  pub All-lookup :
      (k : Text) (v : V) (m : List (Text × V)) → All P m → lookup k m ≡ some v → P (k, v)
  unfolding lookup
  All-lookup k v [] h e = cc
  All-lookup k v ((j, w) ∷ m) h e = elim (Bool-cases (text_eq j k)) [
    | inl q ↦ rw (← eq_of_text_eq j k q, ← some-injective w v (rw q at e)) h.0
    | inr q ↦ All-lookup k v m h.1 (rw q at e)
  ]
