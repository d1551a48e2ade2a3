-- ===== src/Base/Arrays.antt =====
-- Go slices of a fixed length as lists with native indices.
use Prim.Native.Nat.{ℕ, zero, suc, ◌<◌}
use mathlib.Core.Path.{◌≡◌, refl, ap}
use mathlib.Core.Logic.{◌≢◌}
use mathlib.Core.List.{List, [], ◌∷◌}
use native.Mathlib.Omega.{arith}
use abraxis.Base.Lists.{length}

module _ {ℓ} {A : Type ℓ} where
  abbrev pub get_or : List A → ℕ → A → A
  get_or [] i d = d
  get_or (x ∷ xs) zero d = x
  get_or (x ∷ xs) (suc i) d = get_or xs i d

  -- A write out of bounds changes nothing.
  abbrev pub set_at : List A → ℕ → A → List A
  set_at [] i v = []
  set_at (x ∷ xs) zero v = v ∷ xs
  set_at (x ∷ xs) (suc i) v = x ∷ set_at xs i v

  abbrev pub replicate : ℕ → A → List A
  replicate zero x = []
  replicate (suc n) x = x ∷ replicate n x

  pub length-set_at : (xs : List A) (i : ℕ) (v : A) → length (set_at xs i v) ≡ length xs
  length-set_at [] i v = refl
  length-set_at (x ∷ xs) zero v = refl
  length-set_at (x ∷ xs) (suc i) v = ap suc (length-set_at xs i v)

  pub length-replicate : (n : ℕ) (x : A) → length (replicate n x) ≡ n
  length-replicate zero x = refl
  length-replicate (suc n) x = ap suc (length-replicate n x)

  pub get_or-replicate : (n i : ℕ) (x : A) → get_or (replicate n x) i x ≡ x
  get_or-replicate zero i x = refl
  get_or-replicate (suc n) zero x = refl
  get_or-replicate (suc n) (suc i) x = get_or-replicate n i x

  pub get_or-set_at_self :
      (xs : List A) (i : ℕ) (v d : A) → i < length xs → get_or (set_at xs i v) i d ≡ v
  get_or-set_at_self [] i v d h = absurd (omega arith)
  get_or-set_at_self (x ∷ xs) zero v d h = refl
  get_or-set_at_self (x ∷ xs) (suc i) v d h = get_or-set_at_self xs i v d (omega arith)

  pub get_or-set_at_ne :
      (xs : List A) (i j : ℕ) (v d : A) → i ≢ j → get_or (set_at xs i v) j d ≡ get_or xs j d
  get_or-set_at_ne [] i j v d h = refl
  get_or-set_at_ne (x ∷ xs) zero zero v d h = absurd (h refl)
  get_or-set_at_ne (x ∷ xs) zero (suc j) v d h = refl
  get_or-set_at_ne (x ∷ xs) (suc i) zero v d h = refl
  get_or-set_at_ne (x ∷ xs) (suc i) (suc j) v d h = get_or-set_at_ne xs i j v d (λ e. h (ap suc e))
