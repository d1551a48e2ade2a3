-- ===== src/Discovery/Sweep.antt =====
-- The loop of checkExpiredInstances over the instances:
-- prism/internal/features/discovery/adapters/provider/local.go.
use mathlib.Core.Path.{subst}
use mathlib.Core.Option.{some-injective}
use abraxis.Base.{
  ℕ, ◌≡◌, inl, inr, refl, sym, ap, ◌∙◌, Text, Bool, true, false, some, List, [], ◌∷◌, text_eq,
  eq_of_text_eq, lookup, has_key, IsDict, if◌then◌else◌, ◌==◌, arith, Bool-cases, All, All-lookup,
}
use abraxis.Discovery.Local.{
  Instance, Config, inactive, deregistered, write, set_status, is_late, is_gone, sweep,
}
use abraxis.Discovery.Index.{write-id, write-service_name}

module _ (c : Config) (now : ℕ) where
  pub sweep-id :
      (m : List (Text × ℕ)) (h : ℕ → Instance) (q : ℕ) → ((sweep c now m h).heap q).id ≡ (h q).id
  unfolding sweep
  sweep-id [] h q = refl
  sweep-id ((id, p) ∷ m) h q =
      let late = set_status inactive (h p) in
      let gone = set_status deregistered (h p) in
      ground (
        arith,
        sweep-id m h q,
        sweep-id m (write p late h) q,
        sweep-id m (write p gone h) q,
        write-id p q late h refl,
        write-id p q gone h refl,
      )

  pub sweep-service_name :
      (m : List (Text × ℕ)) (h : ℕ → Instance) (q : ℕ)
      → ((sweep c now m h).heap q).service_name ≡ (h q).service_name
  unfolding sweep
  sweep-service_name [] h q = refl
  sweep-service_name ((id, p) ∷ m) h q =
      let late = set_status inactive (h p) in
      let gone = set_status deregistered (h p) in
      ground (
        arith,
        sweep-service_name m h q,
        sweep-service_name m (write p late h) q,
        sweep-service_name m (write p gone h) q,
        write-service_name p q late h refl,
        write-service_name p q gone h refl,
      )

  -- What the loop makes of an instance.
  abbrev pub judged : Instance → Instance
  judged i =
      if is_late c now i
      then set_status inactive i
      else (if is_gone c now i then set_status deregistered i else i)

  -- No other entry has this pointer.
  abbrev pub NotAt : ℕ → List (Text × ℕ) → Type 0
  NotAt p m = All (λ e. (e.1 == p) ≡ false) m

  abbrev pub IsUnique : List (Text × ℕ) → Type 0
  IsUnique [] = Unit
  IsUnique ((id, p) ∷ m) = NotAt p m × IsUnique m

  write_other : (p q : ℕ) (i : Instance) (h : ℕ → Instance) → (p == q) ≡ false → write p i h q ≡ h q
  unfolding write
  write_other p q i h e = ground arith

  sweep_skip :
      (m : List (Text × ℕ)) (h : ℕ → Instance) (q : ℕ) → NotAt q m → (sweep c now m h).heap q ≡ h q
  unfolding sweep
  sweep_skip [] h q n = refl
  sweep_skip ((id, p) ∷ m) h q n =
      let late = set_status inactive (h p) in
      let gone = set_status deregistered (h p) in
      ground (
        arith,
        sweep_skip m h q n.1,
        sweep_skip m (write p late h) q n.1,
        sweep_skip m (write p gone h) q n.1,
        write_other p q late h n.0,
        write_other p q gone h n.0,
      )

  unfoldable pub among : Text → List Text → Bool
  among id [] = false
  among id (j ∷ ids) = if text_eq j id then true else among id ids

  not_removed :
      (id : Text) (m : List (Text × ℕ)) (h : ℕ → Instance)
      → has_key id m ≡ false
      → among id (sweep c now m h).to_remove ≡ false
  unfolding sweep has_key among
  not_removed id [] h n = refl
  not_removed id ((k, p) ∷ m) h n =
      let late = set_status inactive (h p) in
      let gone = set_status deregistered (h p) in
      ground (
        arith,
        not_removed id m h,
        not_removed id m (write p late h),
        not_removed id m (write p gone h),
      )

  write_here : (p : ℕ) (i : Instance) (h : ℕ → Instance) → write p i h p ≡ i
  unfolding write
  write_here p i h = ground arith

  first_at :
      (k : Text) (p : ℕ) (m : List (Text × ℕ)) (h : ℕ → Instance)
      → NotAt p m
      → (sweep c now ((k, p) ∷ m) h).heap p ≡ judged (h p)
  unfolding sweep
  first_at k p m h n =
      let late = set_status inactive (h p) in
      let gone = set_status deregistered (h p) in
      ground (
        arith,
        sweep_skip m h p n,
        sweep_skip m (write p late h) p n,
        sweep_skip m (write p gone h) p n,
        write_here p late h,
        write_here p gone h,
      )

  pub sweep_at :
      (id : Text) (p : ℕ) (m : List (Text × ℕ)) (h : ℕ → Instance)
      → IsUnique m
      → lookup id m ≡ some p
      → (sweep c now m h).heap p ≡ judged (h p)
  unfolding sweep lookup
  sweep_at id p [] h u e = cc
  sweep_at id p ((k, q) ∷ m) h u e = elim (Bool-cases (text_eq k id)) [
    | inl here ↦
        let same : q ≡ p = some-injective q p (rw here at e) in
        subst (λ r. (sweep c now ((k, q) ∷ m) h).heap r ≡ judged (h r)) same (first_at k q m h u.0)
    | inr there ↦
        let late = set_status inactive (h q) in
        let gone = set_status deregistered (h q) in
        let at_p : lookup id m ≡ some p = rw there at e in
        let other : (q == p) ≡ false =
          ground (arith, All-lookup (λ x. (x.1 == q) ≡ false) id p m u.0 at_p) in
        ground (
          arith,
          sweep_at id p m h u.1 at_p,
          sweep_at id p m (write q late h) u.1 at_p,
          sweep_at id p m (write q gone h) u.1 at_p,
          write_other q p late h other,
          write_other q p gone h other,
        )
  ]

  pub removed_at :
      (id : Text) (p : ℕ) (m : List (Text × ℕ)) (h : ℕ → Instance)
      → IsDict m
      → IsUnique m
      → lookup id m ≡ some p
      → among id (sweep c now m h).to_remove
        ≡ (if is_late c now (h p) then false else is_gone c now (h p))
  unfolding sweep lookup among
  removed_at id p [] h d u e = cc
  removed_at id p ((k, q) ∷ m) h d u e = elim (Bool-cases (text_eq k id)) [
    | inl here ↦
        let same : q ≡ p = some-injective q p (rw here at e) in
        let late = set_status inactive (h q) in
        let gone = set_status deregistered (h q) in
        let new : has_key id m ≡ false =
          ap (λ j. has_key j m) (sym (eq_of_text_eq k id here)) ∙ d.0 in
        subst
          (λ r.
            among id (sweep c now ((k, q) ∷ m) h).to_remove
            ≡ (if is_late c now (h r) then false else is_gone c now (h r)))
          same
          (ground (
            arith,
            here,
            not_removed id m h new,
            not_removed id m (write q late h) new,
            not_removed id m (write q gone h) new,
          ))
    | inr there ↦
        let late = set_status inactive (h q) in
        let gone = set_status deregistered (h q) in
        let at_p : lookup id m ≡ some p = rw there at e in
        let other : (q == p) ≡ false =
          ground (arith, All-lookup (λ x. (x.1 == q) ≡ false) id p m u.0 at_p) in
        ground (
          arith,
          there,
          removed_at id p m h d.1 u.1 at_p,
          removed_at id p m (write q late h) d.1 u.1 at_p,
          removed_at id p m (write q gone h) d.1 u.1 at_p,
          write_other q p late h other,
          write_other q p gone h other,
        )
  ]
